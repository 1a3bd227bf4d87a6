-- ===== src/Htable/Find.antt =====
-- `sftfs_htable_find_entry_link`: the search for an entry by its address.
use native.Mathlib.Nat.{suc-add}
use sftfs.Prelude.{
  ℕ, zero, suc, ◌+◌, ◌%◌, ◌≤◌, ◌<◌, ◌≡◌, refl, sym, ap, ◌∙◌, true, false, ◌&&◌, Option, none, some,
  [], ◌∷◌, inl, inr, arith, get_elem?, drop, drop-drop, length, length-drop, Bool-cases,
  Option-cases, some_inj, ◌==◌, ==_iff, if◌then◌else◌, ok, Returns, subst,
}
use sftfs.Htable.{
  Entry, Chain, Table, link, bucket, deref, find_hash, lookup, lookup_next, find_entry_loop,
  find_entry_link,
}
use sftfs.Htable.Remove.{find_hash-le, lt_of_some}
use sftfs.Htable.Lookup.{first_hash, get_elem?-find_hash}

module _ {ℓ} {A : Type ℓ} where
  -- The first entry of a chain with this address and hash.
  unfoldable pub first_addr : (addr hash : ℕ) → Chain A → Option (Entry A)
  first_addr a h [] = none
  first_addr a h (e ∷ c) = if (e.hash == h) && (e.addr == a) then some e else first_addr a h c

  pub drop-some :
      (p : ℕ) (c : Chain A) {e : Entry A} → get_elem? c p ≡ some e → drop p c ≡ e ∷ drop (p + 1) c
  drop-some zero [] h = cc
  drop-some (suc p) [] h = cc
  drop-some zero (x ∷ c) h = ap (λ y. y ∷ c) (some_inj h)
  drop-some (suc p) (x ∷ c) h = rw (suc-add p 1) (drop-some p c h)

  pub drop-none : (p : ℕ) (c : Chain A) → get_elem? c p ≡ none → drop p c ≡ []
  drop-none zero [] h = refl
  drop-none (suc p) [] h = refl
  drop-none zero (x ∷ c) h = cc
  drop-none (suc p) (x ∷ c) h = drop-none p c h

  pub get_elem?-drop : (p q : ℕ) (c : Chain A) → get_elem? (drop p c) q ≡ get_elem? c (p + q)
  get_elem?-drop zero q c = ap (get_elem? c) (omega arith)
  get_elem?-drop (suc p) q [] = refl
  get_elem?-drop (suc p) q (e ∷ c) = rw (suc-add p q) (get_elem?-drop p q c)

  -- Entries before the next one with the hash do not matter.
  first_addr-drop :
      (a h : ℕ) (c : Chain A) → first_addr a h (drop (find_hash h c) c) ≡ first_addr a h c
  unfolding first_addr find_hash
  first_addr-drop a h [] = refl
  first_addr-drop a h (e ∷ c) = elim (Bool-cases (e.hash == h)) [
    | inl p ↦ rw (p, p)
    | inr p ↦ rw p (first_addr-drop a h c)
  ]

  pub first_hash-has : (h : ℕ) (c : Chain A) {e : Entry A} → first_hash h c ≡ some e → e.hash ≡ h
  unfolding first_hash
  first_hash-has h [] p = cc
  first_hash-has h (x ∷ c) p = elim (Bool-cases (x.hash == h)) [
    | inl q ↦ subst (λ y. y.hash ≡ h) (some_inj (rw q at p)) ((==_iff x.hash h).0 q)
    | inr q ↦ first_hash-has h c (rw q at p)
  ]

  module _ (t : Table A) (i a h : ℕ) where
    -- The link leads to an entry with the hash, or to NULL.
    abbrev pub Fits : ℕ → Type ℓ
    Fits p = (e : Entry A) → get_elem? (bucket t i) p ≡ some e → e.hash ≡ h

    pub lookup_next-some :
        (p : ℕ) {e : Entry A}
        → get_elem? (bucket t i) p ≡ some e
        → lookup_next t (link i p)
          ≡ ok (link i (p + 1 + find_hash e.hash (drop (p + 1) (bucket t i))))
    unfolding lookup_next deref
    lookup_next-some p at = rw (at, lookup_next)

    step :
        (p : ℕ) {e : Entry A}
        → get_elem? (bucket t i) p ≡ some e
        → (e.hash == h) ≡ true
        → (e.addr == a) ≡ false
        → first_addr a h (drop p (bucket t i)) ≡ first_addr a h (drop (p + 1) (bucket t i))
    unfolding first_addr
    step p at has other = rw (drop-some p (bucket t i) at, has, other)

    find_entry_loop-first_addr :
        (fuel p : ℕ)
        → Fits p
        → p ≤ length (bucket t i)
        → length (bucket t i) < p + fuel
        → Returns
            (find_entry_loop fuel t a (link i p))
            λ l. deref t l ≡ first_addr a h (drop p (bucket t i))
    unfolding find_entry_loop deref first_addr
    find_entry_loop-first_addr zero p fits le lt = absurd (omega arith)
    find_entry_loop-first_addr (suc fuel) p fits le lt =
        let c = bucket t i in
        elim (Option-cases (get_elem? c p)) [
          | inl e ↦ rw (e, find_entry_loop) (link i p, refl, rw (e, drop-none p c e))
          | inr (e, at) ↦
              let has = (==_iff e.hash h).1 (fits e at) in
              elim (Bool-cases (e.addr == a)) [
                | inl same ↦
                    rw (at, find_entry_loop, same)
                      (link i p, refl, rw (at, drop-some p c at, has, same))
                | inr other ↦
                    let d = drop (p + 1) c in
                    let next = p + 1 + find_hash e.hash d in
                    let hs = fits e at in
                    let (l, run, found) =
                      find_entry_loop-first_addr fuel next
                        (λ e' at'.
                          first_hash-has e.hash d (
                            sym (get_elem?-find_hash e.hash d)
                            ∙ get_elem?-drop (p + 1) (find_hash e.hash d) c
                            ∙ at')
                          ∙ hs)
                        (omega
                          (arith, find_hash-le e.hash d, length-drop (p + 1) c, lt_of_some p c at))
                        (omega arith) in
                    rw (at, find_entry_loop, other)
                      (
                        l,
                        rw (lookup_next-some p at) run,
                        found
                            ∙ ap (first_addr a h) (sym (drop-drop (p + 1) (find_hash e.hash d) c))
                            ∙ ap (λ k. first_addr a h (drop (find_hash k d) d)) hs
                            ∙ first_addr-drop a h d
                            ∙ sym (step p at has other),
                      )
              ]
        ]

  -- The search for an entry pointer ends without a fault, at the first entry of the bucket that has
  -- the pointer's address and hash, or at NULL if the bucket has none such.
  pub find_entry_link-first_addr :
      (t : Table A) (a h : ℕ)
      → Returns
          (find_entry_link t a h)
          λ l. deref t l ≡ first_addr a h (bucket t (h % t.nr_buckets))
  unfolding find_entry_link lookup
  find_entry_link-first_addr t a h =
      let i = h % t.nr_buckets in
      let c = bucket t i in
      let (l, run, found) =
        find_entry_loop-first_addr t i a h (suc (length c)) (find_hash h c)
          (λ e at. first_hash-has h c (sym (get_elem?-find_hash h c) ∙ at)) (find_hash-le h c)
          (omega arith) in
      (l, run, found ∙ first_addr-drop a h c)
