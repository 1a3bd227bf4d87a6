-- ===== src/Cache/Core/Take.antt =====
-- Taking an entry off the list of cache/cache.c and giving it back.
use sftfs.Prelude.{
  ℕ, ◌+◌, ◌≡◌, ◌≢◌, refl, sym, ap, ◌∙◌, Bool, true, false, Option, some, none, List, [], ◌∷◌, ◌++◌,
  ◌⊎◌, inl, inr, arith, Bool-cases, ◌==◌, ok, Returns, ◌>>=◌, Run, if◌then◌else◌,
}
use sftfs.Htable.{Entry, Link, deref}
use sftfs.Htable.Valid.{IsValid, entries}
use sftfs.Cache.Lru
use sftfs.Cache.Lru.{State, null, node_unlinked}
use sftfs.Cache.Lru.Seg.{IsList, has, first, Detached, not-has-append, not-has-append_right}
use sftfs.Cache.Lru.Ends.{TakenOff, PutLast, insert-PutLast}
use sftfs.Cache.Lru.Middle.{remove-TakenOff, parts}
use sftfs.Cache.Core.{
  Cache, CacheRc, cache_ok, unexpected_entry, Config, load, link_of, take, give, contains_unlisted,
  evict_invalid_lru_entries,
}
use sftfs.Cache.Core.Stands.{stands, find_entry_link-leads}
use sftfs.Cache.Core.Evict.{addresses, Evicted, Backed, evict_invalid_lru_entries-Evicted}

has_middle : (p : ℕ) (xs ys : List ℕ) → has p (xs ++ p ∷ ys) ≡ true
has_middle p [] ys = ground arith
has_middle p (x ∷ xs) ys = ground (arith, has_middle p xs ys)

has_wider : (q p : ℕ) (xs ys : List ℕ) → has q (xs ++ ys) ≡ true → has q (xs ++ p ∷ ys) ≡ true
has_wider q p [] ys h = ground arith
has_wider q p (x ∷ xs) ys h = elim (Bool-cases (q == x)) [
  | inl e ↦ rw e refl
  | inr e ↦ rw e (has_wider q p xs ys (rw e at h))
]

-- An address of a list with one more address behind it.
has_last : (q p : ℕ) (xs : List ℕ) → has q (xs ++ p ∷ []) ≡ true → (has q xs ≡ true) ⊎ (q ≡ p)
has_last q p [] h = inr (ground arith)
has_last q p (x ∷ xs) h = elim (Bool-cases (q == x)) [
  | inl e ↦ inl (rw e refl)
  | inr e ↦ elim (has_last q p xs (rw e at h)) [ inl i ↦ inl (rw e i) | inr j ↦ inr j ]
]

not_first : (p : ℕ) (xs : List ℕ) → p ≢ null → has p xs ≡ false → (p == first xs null) ≡ false
not_first p [] ne h = ground arith
not_first p (x ∷ xs) ne h = ground arith

pub unlinked_lem :
    (s : State) (p : ℕ) (xs : List ℕ)
    → IsList s xs
    → p ≢ null
    → has p xs ≡ false
    → Detached s.nodes p
    → node_unlinked s p ≡ true
unfolding node_unlinked
unlinked_lem s p xs l ne out (prev, next) = rw (prev, next, l.head, not_first p xs ne out) refl

pub not_eq : (p q : ℕ) → p ≢ q → (p == q) ≡ false
not_eq p q h = ground arith

module _ {ℓ} {A U : Type ℓ} where
  -- The link of an address that stands in the table leads to the entry of that address.
  pub link_of-leads :
      (c : Cache A U) (p : ℕ)
      → IsValid c.table
      → stands p (entries c.table) ≡ true
      → (f : Entry A) × (load c p ≡ ok f)
        × (f.addr ≡ p)
        × Returns (link_of c p) λ l. deref c.table l ≡ some f
  unfolding link_of load
  link_of-leads c p v h =
      let (e, at, eq, (l, run, found)) = find_entry_link-leads c.table p v h in
      (e, rw (load, at) refl, eq, (l, rw (load, at, run) refl, found))

  contains_unlisted_runs :
      (c : Cache A U) (p : ℕ) {l : Link} {f : Entry A}
      → link_of c p ≡ ok l
      → deref c.table l ≡ some f
      → f.addr ≡ p
      → contains_unlisted c p ≡ ok (node_unlinked c.lru p)
  unfolding contains_unlisted
  contains_unlisted_runs c p run leads eq =
      let from_entry : Option (Entry A) → Run Bool =
        λ o. elim o [ none ↦ ok false | some e ↦ ok (node_unlinked c.lru e.addr) ] in
      ap (λ r. r >>= λ l. from_entry (deref c.table l)) run
      ∙ ap from_entry leads
      ∙ ap (λ q. ok (node_unlinked c.lru q)) eq

  module _ (config : Config A U) where
    take_runs :
        (c : Cache A U) (p : ℕ) {l : Link} {f : Entry A} {s : State} {c' : Cache A U}
        → link_of c p ≡ ok l
        → deref c.table l ≡ some f
        → f.addr ≡ p
        → Lru.remove c.lru p ≡ ok s
        → evict_invalid_lru_entries config (record c { lru = s }) ≡ ok c'
        → take config c p ≡ ok (c', some p)
    unfolding take
    take_runs c p run leads eq removed evicted =
        let from_entry : Option (Entry A) → Run (Cache A U × Option ℕ) = λ o. elim o [
          | none ↦ ok (c, none)
          | some e ↦ Lru.remove c.lru e.addr >>= λ s.
              evict_invalid_lru_entries config (record c { lru = s }) >>= λ c'. ok (c', some e.addr)
        ] in
        ap (λ r. r >>= λ l. from_entry (deref c.table l)) run
        ∙ ap from_entry leads
        ∙ rw (eq, removed, evicted) refl

    give_runs :
        (c : Cache A U) (p : ℕ) {l : Link} {f : Entry A} {c' : Cache A U}
        → evict_invalid_lru_entries config c ≡ ok c'
        → link_of c' p ≡ ok l
        → deref c'.table l ≡ some f
        → f.addr ≡ p
        → node_unlinked c'.lru p ≡ true
        → give config c p
          ≡ ok (
            record c' { lru = Lru.insert (config.clock c'.ticks) c'.lru p; ticks = c'.ticks + 1 },
            cache_ok,
          )
    unfolding give
    give_runs c p {c' = c'} evicted run leads eq unlinked =
        let given : Cache A U → Bool → Run (Cache A U × CacheRc) = λ d idle.
          if idle
          then ok (
            record d { lru = Lru.insert (config.clock d.ticks) d.lru p; ticks = d.ticks + 1 },
            cache_ok,
          )
          else ok (d, unexpected_entry) in
        ap (λ r. r >>= λ d. contains_unlisted d p >>= given d) evicted
        ∙ ap (λ r. r >>= given c') (contains_unlisted_runs c' p run leads eq)
        ∙ ap (given c') unlinked

    -- What is not on a list is not on what an eviction leaves of it.
    pub not_left :
        {c c' : Cache A U} {xs : List ℕ} (p : ℕ) (e : Evicted config c xs c')
        → has p xs ≡ false
        → has p e.left ≡ false
    not_left p e out =
        not-has-append_right p (addresses config e.removed) e.left (sym (ap (has p) e.parts) ∙ out)

    -- An entry that stands off the list, linked to nothing.
    pub record Idle (c : Cache A U) (xs : List ℕ) (p : ℕ) : Type ℓ where
      pub held : stands p (entries c.table) ≡ true
      pub off : has p xs ≡ false
      pub detached : Detached c.lru.nodes p

    -- What `take` makes of a cache: the entry is taken off the list, and then what has expired of the
    -- others is evicted.
    pub record Taken (c : Cache A U) (xs ys : List ℕ) (p : ℕ) (c' : Cache A U) : Type ℓ where
      pub without : State
      pub taken_off : TakenOff c.lru p (xs ++ ys) without
      pub evicted : Evicted config (record c { lru = without }) (xs ++ ys) c'
      pub idle : Idle c' evicted.left p

    -- In a cache whose list and table agree, taking an entry that is on the list returns it. The
    -- entry is taken off the list, the others stay on it in their order, and then exactly those of
    -- them that have expired are evicted. The entry that is taken stands in the table, linked to
    -- nothing.
    pub take-Idle :
        (c : Cache A U) (p : ℕ) (xs ys : List ℕ)
        → Backed c (xs ++ p ∷ ys)
        → Returns (take config c p) λ r. (r.1 ≡ some p) × Taken c xs ys p r.0
    take-Idle c p xs ys b =
        let t = parts c.lru.nodes xs p ys b.list.links in
        let out = not-has-append p xs ys t.not_front t.not_back in
        let stood = b.held p (has_middle p xs ys) in
        let (f, _, eq, (l, run, leads)) = link_of-leads c p b.valid stood in
        let (s, run', off) = remove-TakenOff c.lru p xs ys b.list in
        let (c', run'', e) =
          evict_invalid_lru_entries-Evicted config (record c { lru = s }) (xs ++ ys)
            (record {
              valid = b.valid;
              list = off.rest;
              held = λ q h. b.held q (has_wider q p xs ys h);
            }) in
        let node = e.same_node p out t.real in
        (
          (c', some p),
          take_runs c p run leads eq run' run'',
          (
            refl,
            record {
              without = s;
              taken_off = off;
              evicted = e;
              idle = record {
                held = e.unlisted p out ∙ stood;
                off = not_left p e out;
                detached = (
                  ap (λ n. n.prev) node ∙ off.detached.0,
                  ap (λ n. n.next) node ∙ off.detached.1,
                );
              };
            },
          ),
        )

    -- What `give` makes of a cache: what has expired is evicted, and then the entry is put at the
    -- recent end of the list, with the time of the clock.
    pub record Given (c : Cache A U) (xs : List ℕ) (p : ℕ) (c' : Cache A U) : Type ℓ where
      pub after : Cache A U
      pub evicted : Evicted config c xs after
      pub put : PutLast (config.clock after.ticks) after.lru p evicted.left c'.lru
      pub same_table : c'.table ≡ after.table
      pub same_user : c'.user ≡ after.user
      pub backed : Backed c' (evicted.left ++ p ∷ [])

    -- In a cache whose list and table agree, giving back an entry that stands off the list, linked
    -- to nothing, succeeds. Exactly what has expired is evicted first, and then the entry stands at
    -- the recent end of what is left of the list, with the time of the clock; the list and the
    -- table agree.
    pub give-Backed :
        (c : Cache A U) (p : ℕ) (xs : List ℕ)
        → p ≢ null
        → Backed c xs
        → Idle c xs p
        → Returns (give config c p) λ r. (r.1 ≡ cache_ok) × Given c xs p r.0
    give-Backed c p xs ne b idle =
        let (c', run, e) = evict_invalid_lru_entries-Evicted config c xs b in
        let stood = e.unlisted p idle.off ∙ idle.held in
        let out = not_left p e idle.off in
        let node = e.same_node p idle.off (not_eq p null ne) in
        let (f, _, eq, (l, run', leads)) = link_of-leads c' p e.backed.valid stood in
        let unlinked =
          unlinked_lem c'.lru p e.left e.backed.list ne out
            (ap (λ n. n.prev) node ∙ idle.detached.0, ap (λ n. n.next) node ∙ idle.detached.1) in
        let now = config.clock c'.ticks in
        let put = insert-PutLast now c'.lru p e.left e.backed.list ne out in
        let c'' : Cache A U = record c' { lru = Lru.insert now c'.lru p; ticks = c'.ticks + 1 } in
        (
          (c'', cache_ok),
          give_runs c p run run' leads eq unlinked,
          (
            refl,
            record {
              after = c';
              evicted = e;
              put = put;
              same_table = refl;
              same_user = refl;
              backed = record {
                valid = e.backed.valid;
                list = put.longer;
                held = λ q h. elim (has_last q p e.left h) [
                  | inl i ↦ e.backed.held q i
                  | inr j ↦ ap (λ a. stands a (entries c'.table)) j ∙ stood
                ];
              };
            },
          ),
        )
