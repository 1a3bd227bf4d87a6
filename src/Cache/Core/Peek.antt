-- ===== src/Cache/Core/Peek.antt =====
-- Peeking in cache/cache.c: what is found for a hash.
use mathlib.Core.List.{flatten}
use sftfs.Prelude.{
  ℕ, zero, suc, ◌+◌, ◌%◌, ◌≤◌, ◌<◌, ◌≡◌, ◌≢◌, refl, sym, ap, ◌∙◌, Bool, true, false, ◌&&◌, ◌||◌,
  not, Option, none, some, List, [], ◌∷◌, arith, get_elem?, drop, drop-drop, length, length-drop,
  length-append, get_or, Bool-cases, Option-cases, inl, inr, ◌==◌, ==_iff, ok, Run, Returns, ◌>>=◌,
  if◌then◌else◌,
}
use sftfs.Htable.{Entry, Chain, Link, link, bucket, deref, find_hash, lookup, lookup_next}
use sftfs.Htable.Valid.{IsValid, entries}
use sftfs.Htable.Lookup.{first_that, first_that-bucket, get_elem?-find_hash}
use sftfs.Htable.Remove.{find_hash-le, lt_of_some}
use sftfs.Htable.Find.{drop-some, drop-none, get_elem?-drop, first_hash-has, lookup_next-some, Fits}
use sftfs.Cache.Lru.{State, Store, null, node_unlinked}
use sftfs.Cache.Lru.Seg.{IsList, Linked, has}
use sftfs.Cache.Core.{Cache, Config, unlisted_entry, maybe_unlisted_entry}
use sftfs.Cache.Core.Walk.{find_listed_entry, peek}
use sftfs.Cache.Core.Take.{not_eq}
use sftfs.Cache.Core.Evict.{Backed, Evicted, evict_invalid_lru_entries-Evicted}

-- A node behind another one has a link back.
inner-Linked :
    (m : Store) (before p : ℕ) (xs : List ℕ) (after : ℕ)
    → before ≢ null
    → Linked m before xs after
    → has p xs ≡ true
    → ((m p).prev == null) ≡ false
inner-Linked m before p [] after ne l h = cc
inner-Linked m before p (x ∷ xs) after ne (real, prev, next, once, rest) h =
    elim (Bool-cases (p == x)) [
      | inl e ↦
          let same = (==_iff p x).0 e in
          not_eq (m p).prev null (λ z. ne (sym prev ∙ ap (λ q. (m q).prev) (sym same) ∙ z))
      | inr e ↦ inner-Linked m x p xs after real rest (rw e at h)
    ]

-- A node on the list is linked, or the only one.
listed_lem :
    (s : State) (p : ℕ) (xs : List ℕ) → IsList s xs → has p xs ≡ true → node_unlinked s p ≡ false
unfolding node_unlinked
listed_lem s p [] l h = cc
listed_lem s p (x ∷ xs) l h =
    let (real, prev, next, once, rest) = l.links in
    elim (Bool-cases (p == x)) [
      | inl e ↦ ground (arith, l.head)
      | inr e ↦
          let back = inner-Linked s.nodes x p xs null real rest (rw e at h) in
          rw (back, node_unlinked)
    ]

-- The loop's test, with the first operand enough.
absorbed : (a b c : Bool) → (not (a && (b && c)) || not (a && b)) ≡ not (a && (b && c))
absorbed true true true = refl
absorbed true true false = refl
absorbed true false c = refl
absorbed false b c = refl

abbrev pub addr_of {ℓ} : {A : Type ℓ} → Option (Entry A) → Option ℕ
addr_of none = none
addr_of (some e) = some e.addr

length-get_or-flatten {ℓ} :
    {A : Type ℓ} (i : ℕ) (bs : List (Chain A)) → length (get_or bs i []) ≤ length (flatten bs)
unfolding flatten
length-get_or-flatten i [] = omega arith
length-get_or-flatten zero (b ∷ bs) = omega (arith, length-append b (flatten bs))
length-get_or-flatten (suc i) (b ∷ bs) =
    omega (arith, length-append b (flatten bs), length-get_or-flatten i bs)

module _ {ℓ} {A U : Type ℓ} where
  -- The entry has the hash, and the cache sees it on the list.
  abbrev pub answers : Cache A U → ℕ → Entry A → Bool
  answers c h e = (e.hash == h) && not (unlisted_entry c e.addr)

  -- The loop's test.
  listed_is :
      (c : Cache A U) (p : ℕ)
      → (not (unlisted_entry c p) || not (maybe_unlisted_entry c p)) ≡ not (unlisted_entry c p)
  unfolding maybe_unlisted_entry node_unlinked
  listed_is c p =
      let n = c.lru.nodes p in
      absorbed (n.prev == null) (n.next == null) (not (p == c.lru.list.lru))

  -- Entries before the next one with the hash do not answer.
  answers-drop :
      (c : Cache A U) (h : ℕ) (es : Chain A)
      → first_that (answers c h) (drop (find_hash h es) es) ≡ first_that (answers c h) es
  unfolding first_that find_hash
  answers-drop c h [] = refl
  answers-drop c h (e ∷ es) = elim (Bool-cases (e.hash == h)) [
    | inl p ↦ rw (p, p)
    | inr p ↦ rw p (answers-drop c h es)
  ]

  answers_first :
      (c : Cache A U) (h : ℕ) (e : Entry A) (es : Chain A)
      → answers c h e ≡ true
      → addr_of (first_that (answers c h) (e ∷ es)) ≡ some e.addr
  unfolding first_that
  answers_first c h e es t = rw t refl

  step :
      (c : Cache A U) (h i p : ℕ) {e : Entry A}
      → get_elem? (bucket c.table i) p ≡ some e
      → answers c h e ≡ false
      → first_that (answers c h) (drop p (bucket c.table i))
        ≡ first_that (answers c h) (drop (p + 1) (bucket c.table i))
  unfolding first_that
  step c h i p at f = rw (drop-some p (bucket c.table i) at, f)

  abbrev rest_from : ℕ → Cache A U → Link → Run (Option ℕ)
  rest_from fuel c l = lookup_next c.table l >>= find_listed_entry fuel true c

  -- A round at an entry goes by whether the cache sees it on the list.
  loop_runs :
      (fuel : ℕ) (c : Cache A U) (l : Link) {e : Entry A}
      → deref c.table l ≡ some e
      → find_listed_entry (suc fuel) true c l
        ≡ (if not (unlisted_entry c e.addr) then ok (some e.addr) else rest_from fuel c l)
  unfolding find_listed_entry
  loop_runs fuel c l {e} at =
      let from_entry : Option (Entry A) → Run (Option ℕ) = λ o. elim o [
        | none ↦ ok none
        | some e ↦
            if not (unlisted_entry c e.addr) || not (maybe_unlisted_entry c e.addr)
            then ok (some e.addr)
            else rest_from fuel c l
      ] in
      ap from_entry at
      ∙ ap (λ t. if t then ok (some e.addr) else rest_from fuel c l) (listed_is c e.addr)

  find_listed_entry-first_that :
      (c : Cache A U) (h i fuel p : ℕ)
      → Fits c.table i 0 h p
      → p ≤ length (bucket c.table i)
      → length (bucket c.table i) < p + fuel
      → find_listed_entry fuel true c (link i p)
        ≡ ok (addr_of (first_that (answers c h) (drop p (bucket c.table i))))
  unfolding find_listed_entry deref first_that
  find_listed_entry-first_that c h i zero p fits le lt = absurd (omega arith)
  find_listed_entry-first_that c h i (suc fuel) p fits le lt =
      let b = bucket c.table i in
      elim (Option-cases (get_elem? b p)) [
        | inl e ↦ rw (e, drop-none p b e, find_listed_entry) refl
        | inr (e, at) ↦
            let has = (==_iff e.hash h).1 (fits e at) in
            elim (Bool-cases (not (unlisted_entry c e.addr))) [
              | inl t ↦
                  loop_runs fuel c (link i p) at
                  ∙ ap (λ t. if t then ok (some e.addr) else rest_from fuel c (link i p)) t
                  ∙ ap ok (sym (answers_first c h e (drop (p + 1) b) (rw (has, t) refl)))
                  ∙ ap (λ es. ok (addr_of (first_that (answers c h) es))) (sym (drop-some p b at))
              | inr f ↦
                  let d = drop (p + 1) b in
                  let next = p + 1 + find_hash e.hash d in
                  let hs = fits e at in
                  let more =
                    find_listed_entry-first_that c h i fuel next
                      (λ e' at'.
                        first_hash-has e.hash d (
                          sym (get_elem?-find_hash e.hash d)
                          ∙ get_elem?-drop (p + 1) (find_hash e.hash d) b
                          ∙ at')
                        ∙ hs)
                      (omega
                        (arith, find_hash-le e.hash d, length-drop (p + 1) b, lt_of_some p b at))
                      (omega arith) in
                  loop_runs fuel c (link i p) at
                  ∙ ap (λ t. if t then ok (some e.addr) else rest_from fuel c (link i p)) f
                  ∙ ap (λ r. r >>= find_listed_entry fuel true c)
                      (lookup_next-some c.table i 0 h p at)
                  ∙ more
                  ∙ ap (λ o. ok (addr_of o))
                      (ap (first_that (answers c h))
                          (sym (drop-drop (p + 1) (find_hash e.hash d) b))
                        ∙ ap (λ k. first_that (answers c h) (drop (find_hash k d) d)) hs
                        ∙ answers-drop c h d
                        ∙ sym (step c h i p at (rw (has, f) refl)))
            ]
      ]

  answers-has : (c : Cache A U) (h : ℕ) (e : Entry A) → answers c h e ≡ true → e.hash ≡ h
  answers-has c h e t = elim (Bool-cases (e.hash == h)) [
    | inl p ↦ (==_iff e.hash h).0 p
    | inr p ↦ let f = rw p at t in cc
  ]

  -- In a valid table, the search from the lookup of a hash finds the first entry that answers.
  found_lem :
      (c : Cache A U) (h fuel : ℕ)
      → IsValid c.table
      → length (bucket c.table (h % c.table.nr_buckets)) < fuel
      → find_listed_entry fuel true c (lookup c.table h)
        ≡ ok (addr_of (first_that (answers c h) (entries c.table)))
  unfolding lookup
  found_lem c h fuel v lt =
      let i = h % c.table.nr_buckets in
      let b = bucket c.table i in
      find_listed_entry-first_that c h i fuel (find_hash h b)
        (λ e at. first_hash-has h b (sym (get_elem?-find_hash h b) ∙ at)) (find_hash-le h b)
        (omega arith)
      ∙ ap (λ o. ok (addr_of o))
          (answers-drop c h b ∙ sym (first_that-bucket (answers c h) h (answers-has c h) c.table v))

  module _ (config : Config A U) where
    -- Something found is the first entry of the table, in its order, that has the hash and is on the
    -- list after the eviction.
    pub record Found (c : Cache A U) (xs : List ℕ) (h : ℕ) (c' : Cache A U) (found : Option ℕ)
        : Type ℓ where
      pub evicted : Evicted config c xs c'
      pub first_listed : found ≡ addr_of (first_that (answers c' h) (entries c'.table))
      pub listed : (q : ℕ) → has q evicted.left ≡ true → unlisted_entry c' q ≡ false

    -- In a cache whose list and table agree, peeking ends without a fault, and finds the first
    -- entry of the table that has the hash and is seen on the list after what has expired was
    -- evicted, or NULL where there is none; every entry that the list still has is seen on it.
    pub peek-Found :
        (c : Cache A U) (xs : List ℕ) (h : ℕ)
        → Backed c xs
        → Returns (peek config c h) λ r. Found c xs h r.0 r.1
    unfolding peek
    peek-Found c xs h b =
        let (c', run, e) = evict_invalid_lru_entries-Evicted config c xs b in
        let found = found_lem c' h (suc c'.table.nr_entries) e.backed.valid (
          omega (
            arith,
            length-get_or-flatten (h % c'.table.nr_buckets) c'.table.buckets,
            e.backed.valid.counted,
          )) in
        (
          (c', _),
          rw (run, found) refl,
          record {
            evicted = e;
            first_listed = refl;
            listed = λ q k. listed_lem c'.lru q e.left e.backed.list k;
          },
        )
