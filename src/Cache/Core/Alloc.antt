-- ===== src/Cache/Core/Alloc.antt =====
-- A new entry of cache/cache.c: it stands in the table, off the list.
use mathlib.Core.List.{Perm, foldr}
use mathlib.Core.List.Perm
use mathlib.Core.Bool.{Bool-set}
use sftfs.Prelude.{
  ℕ, ◌≡◌, ◌≢◌, refl, sym, ap, ◌∙◌, Bool, true, false, ◌||◌, Option, some, none, List, [], ◌∷◌,
  arith, Bool-cases, inl, inr, ◌==◌, ==_refl, ok, Run, Returns, ◌>>=◌,
}
use sftfs.Htable.{Entry, Table, Link, Grants, deref, new_entry}
use sftfs.Htable.Valid.{entries}
use sftfs.Htable.Insert.{CanGrow, entry, new_entry-Added}
use sftfs.Cache.Lru.{State, Store, null, reset_node}
use sftfs.Cache.Lru.Seg.{IsList, has, Detached, Linked-frame, not_equal}
use sftfs.Cache.Core.{Cache, Config, alloc, evict_invalid_lru_entries}
use sftfs.Cache.Core.Stands.{stands}
use sftfs.Cache.Core.Evict.{Evicted, Backed, evict_invalid_lru_entries-Evicted}
use sftfs.Cache.Core.Take.{Idle, not_left}

module _ {ℓ} {A : Type ℓ} (q : ℕ) where
  abbrev at_or : Entry A → Bool → Bool
  at_or e b = (e.addr == q) || b

  stands-foldr : (es : List (Entry A)) → stands q es ≡ foldr at_or false es
  unfolding stands
  stands-foldr [] = refl
  stands-foldr (e ∷ es) = ap (at_or e) (stands-foldr es)

  at_or_comm : (e f : Entry A) (b : Bool) → at_or e (at_or f b) ≡ at_or f (at_or e b)
  at_or_comm e f b = ground arith

  -- Which addresses stand does not depend on the order of the entries.
  pub stands-Perm : {xs ys : List (Entry A)} → Perm xs ys → stands q xs ≡ stands q ys
  stands-Perm {xs} {ys} p =
      stands-foldr xs ∙ Perm.foldr-eq Bool-set at_or at_or_comm p false ∙ sym (stands-foldr ys)

reset_node_other : (m : Store) (p q : ℕ) → (p == q) ≡ false → reset_node m p q ≡ m q
unfolding reset_node
reset_node_other m p q h = rw h refl

reset_node_self : (m : Store) (p : ℕ) → Detached (reset_node m p) p
unfolding reset_node
reset_node_self m p = (rw (==_refl p) refl, rw (==_refl p) refl)

module _ {ℓ} {A : Type ℓ} where
  behind :
      (q : ℕ) (e : Entry A) (es : List (Entry A)) → stands q es ≡ true → stands q (e ∷ es) ≡ true
  unfolding stands
  behind q e es h = ground (arith, h)

  at_head : (e : Entry A) (es : List (Entry A)) → stands e.addr (e ∷ es) ≡ true
  unfolding stands
  at_head e es = rw (==_refl e.addr) refl

  not_on_list :
      {U : Type ℓ} (c : Cache A U) (xs : List ℕ) (p : ℕ)
      → Backed c xs
      → stands p (entries c.table) ≡ false
      → has p xs ≡ false
  not_on_list c xs p b h = elim (Bool-cases (has p xs)) [ inr e ↦ e | inl e ↦ cc (b.held p e, h) ]

-- Resetting a node that is off the list leaves the list as it is.
reset_node-IsList :
    (s : State) (p : ℕ) (xs : List ℕ)
    → IsList s xs
    → has p xs ≡ false
    → IsList (record s { nodes = reset_node s.nodes p }) xs
reset_node-IsList s p xs l out = record {
  head = l.head;
  tail = l.tail;
  links =
      Linked-frame s.nodes (reset_node s.nodes p) null xs null
        (λ q h. reset_node_other s.nodes p q (not_equal p q xs out h)) l.links;
  counted = l.counted;
}

module _ {ℓ} {A U : Type ℓ} (config : Config A U) (grants : Grants) where
  alloc_runs :
      (c : Cache A U) (fresh : Option (ℕ × A)) (hash : ℕ) {c₁ : Cache A U} {t : Table A}
      {o : Option Link} {l : Link} {e : Entry A}
      → evict_invalid_lru_entries config c ≡ ok c₁
      → new_entry grants fresh c₁.table hash ≡ ok (t, o)
      → o ≡ some l
      → deref t l ≡ some e
      → alloc config grants fresh c hash ≡ (
          let s = c₁.lru in
          ok (
            record c₁ { table = t; lru = record s { nodes = reset_node s.nodes e.addr } },
            some e.addr,
          ))
  unfolding alloc
  alloc_runs c fresh hash {c₁ = c₁} {t = t} evicted made returned leads =
      let s = c₁.lru in
      let from_entry : Table A → Option (Entry A) → Run (Cache A U × Option ℕ) = λ t o. elim o [
        | none ↦ ok (record c₁ { table = t }, none)
        | some e ↦ ok (
          record c₁ { table = t; lru = record s { nodes = reset_node s.nodes e.addr } },
          some e.addr,
        )
      ] in
      let from_link : Table A → Option Link → Run (Cache A U × Option ℕ) = λ t o. elim o [
        | none ↦ ok (record c₁ { table = t }, none)
        | some l ↦ from_entry t (deref t l)
      ] in
      rw evicted (ap (λ r. r >>= λ r. from_link r.0 r.1) made)
      ∙ ap (from_link t) returned
      ∙ ap (from_entry t) leads

  -- What `alloc` makes of a cache: what has expired is evicted, and then the new entry, and nothing
  -- else, comes into the table; it stands off the list.
  pub record Allocated (c : Cache A U) (xs : List ℕ) (new : Entry A) (c' : Cache A U) : Type ℓ where
    pub after : Cache A U
    pub evicted : Evicted config c xs after
    pub added : Perm (entries c'.table) (new ∷ entries after.table)
    pub same_user : c'.user ≡ after.user
    pub backed : Backed c' evicted.left
    pub idle : Idle config c' evicted.left new.addr

  -- In a cache whose list and table agree, where an entry can be allocated at an address at which
  -- none stands, and a growth of the table does not fail for want of memory, the address of the new
  -- entry is returned. Exactly what has expired is evicted first; then the table holds one entry
  -- more, at that address and with the hash, which is off the list and linked to nothing, and the
  -- list and the table agree.
  pub alloc-Idle :
      (c : Cache A U) (xs : List ℕ) (addr hash : ℕ) (junk : A)
      → Backed c xs
      → addr ≢ null
      → stands addr (entries c.table) ≡ false
      → ((t : Table A) → CanGrow grants t)
      → Returns
          (alloc config grants (some (addr, junk)) c hash)
          λ r. (r.1 ≡ some addr) × Allocated c xs (entry addr hash junk) r.0
  alloc-Idle c xs addr hash junk b real none_yet can =
      let off : has addr xs ≡ false = not_on_list c xs addr b none_yet in
      let (c₁, run, e) = evict_invalid_lru_entries-Evicted config c xs b in
      let new = entry addr hash junk in
      let (r, run', a) =
        new_entry-Added grants c₁.table e.backed.valid addr hash junk (can c₁.table) in
      let out = not_left config addr e off in
      let s = c₁.lru in
      (
        (record c₁ { table = r.0; lru = record s { nodes = reset_node s.nodes addr } }, some addr),
        alloc_runs c (some (addr, junk)) hash run run' a.returned a.leads,
        (
          refl,
          record {
            after = c₁;
            evicted = e;
            added = a.added;
            same_user = refl;
            backed = record {
              valid = a.valid;
              list = reset_node-IsList s addr e.left e.backed.list out;
              held = λ q h.
                  stands-Perm q a.added ∙ behind q new (entries c₁.table) (e.backed.held q h);
            };
            idle = record {
              held = stands-Perm addr a.added ∙ at_head new (entries c₁.table);
              off = out;
              detached = reset_node_self s.nodes addr;
            };
          },
        ),
      )
