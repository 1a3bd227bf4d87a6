-- ===== src/Htable/Lookup.antt =====
-- Searching: `sftfs_htable_lookup` by hash, `sftfs_htable_find_entry_link` by address.
use mathlib.Core.List.{flatten}
use sftfs.Prelude.{
  Bool, true, ℕ, zero, suc, ◌+◌, ◌%◌, ◌<◌, ◌≡◌, ◌≢◌, refl, sym, ap, subst, ◌∙◌, Option, none, some,
  List, [], ◌∷◌, ◌++◌, inl, inr, arith, get_elem?, get_or, All, Bool-cases, ◌==◌, ==_iff,
  if◌then◌else◌,
}
use sftfs.Htable.{Entry, Chain, Table, bucket, deref, find_hash, lookup}
use sftfs.Htable.Valid.{entries, IsValid}

module _ {ℓ} {A : Type ℓ} where
  -- The first entry of a chain with the hash.
  unfoldable pub first_hash : ℕ → Chain A → Option (Entry A)
  first_hash h [] = none
  first_hash h (e ∷ c) = if e.hash == h then some e else first_hash h c

  pub get_elem?-find_hash : (h : ℕ) (c : Chain A) → get_elem? c (find_hash h c) ≡ first_hash h c
  unfolding find_hash first_hash
  get_elem?-find_hash h [] = refl
  get_elem?-find_hash h (e ∷ c) = elim (Bool-cases (e.hash == h)) [
    | inl p ↦ rw p
    | inr p ↦ rw p (get_elem?-find_hash h c)
  ]

  -- The first entry of a list that passes a test.
  unfoldable pub first_that : (Entry A → Bool) → List (Entry A) → Option (Entry A)
  first_that P [] = none
  first_that P (e ∷ es) = if P e then some e else first_that P es

  abbrev has_hash : ℕ → Entry A → Bool
  has_hash h e = e.hash == h

  first_hash-eq-first_that : (h : ℕ) (c : Chain A) → first_hash h c ≡ first_that (has_hash h) c
  unfolding first_hash first_that
  first_hash-eq-first_that h [] = refl
  first_hash-eq-first_that h (e ∷ c) =
      ap (λ o. if e.hash == h then some e else o) (first_hash-eq-first_that h c)

  module _ (P : Entry A → Bool) where
    first_that-append_left :
        (c d : Chain A) → first_that P d ≡ none → first_that P (c ++ d) ≡ first_that P c
    unfolding first_that
    first_that-append_left [] d e = e
    first_that-append_left (x ∷ c) d e =
        ap (λ o. if P x then some x else o) (first_that-append_left c d e)

    first_that-append_right :
        (c d : Chain A) → first_that P c ≡ none → first_that P (c ++ d) ≡ first_that P d
    unfolding first_that
    first_that-append_right [] d e = refl
    first_that-append_right (x ∷ c) d e = elim (Bool-cases (P x)) [
      | inl p ↦ let f = rw p at e in cc
      | inr p ↦ rw p (first_that-append_right c d (rw p at e))
    ]

    module _ (h : ℕ) (implies : (e : Entry A) → P e ≡ true → e.hash ≡ h) where
      -- No entry of another bucket passes a test that asks for the hash.
      first_that_other :
          (n i : ℕ) (c : Chain A) → All (λ e. e.hash % n ≡ i) c → i ≢ h % n → first_that P c ≡ none
      unfolding first_that
      first_that_other n i [] all ne = refl
      first_that_other n i (e ∷ c) all ne =
          let rest = first_that_other n i c all.1 ne in
          elim (Bool-cases (P e)) [
            | inl p ↦ absurd (ne (sym all.0 ∙ ap (λ k. k % n) (implies e p)))
            | inr p ↦ rw p rest
          ]

      -- Nor one of the buckets from index `k` on, behind the home of the hash.
      first_that_behind :
          (n k : ℕ) (bs : List (Chain A))
          → ((i : ℕ) → All (λ e. e.hash % n ≡ k + i) (get_or bs i []))
          → h % n < k
          → first_that P (flatten bs) ≡ none
      unfolding first_that flatten
      first_that_behind n k [] placed lt = refl
      first_that_behind n k (c ∷ cs) placed lt =
          first_that-append_right c (flatten cs)
            (first_that_other n (k + 0) c (placed 0) (λ e. absurd (omega arith)))
          ∙ (first_that_behind n (suc k) cs
              (λ i.
                subst (λ m. All (λ e. e.hash % n ≡ m) (get_or cs i [])) (omega arith)
                  (placed (suc i)))
              (omega arith))

      first_that-flatten :
          (n k j : ℕ) (bs : List (Chain A))
          → ((i : ℕ) → All (λ e. e.hash % n ≡ k + i) (get_or bs i []))
          → h % n ≡ k + j
          → first_that P (flatten bs) ≡ first_that P (get_or bs j [])
      unfolding flatten
      first_that-flatten n k j [] placed at = refl
      first_that-flatten n k zero (c ∷ cs) placed at = first_that-append_left c (flatten cs) (
          first_that_behind n (suc k) cs
            (λ i.
              subst (λ m. All (λ e. e.hash % n ≡ m) (get_or cs i [])) (omega arith)
                (placed (suc i)))
            (omega arith))
      first_that-flatten n k (suc j) (c ∷ cs) placed at =
          first_that-append_right c (flatten cs)
            (first_that_other n (k + 0) c (placed 0) (λ e. absurd (omega arith)))
          ∙ (first_that-flatten n (suc k) j cs
              (λ i.
                subst (λ m. All (λ e. e.hash % n ≡ m) (get_or cs i [])) (omega arith)
                  (placed (suc i)))
              (omega arith))

      -- In a valid table, what passes such a test is in the bucket of the hash.
      pub first_that-bucket :
          (t : Table A)
          → IsValid t
          → first_that P (entries t) ≡ first_that P (bucket t (h % t.nr_buckets))
      first_that-bucket t v =
          first_that-flatten t.nr_buckets 0 (h % t.nr_buckets) t.buckets
            (λ i.
              subst (λ m. All (λ e. e.hash % t.nr_buckets ≡ m) (bucket t i)) (omega arith)
                (v.placed i))
            (omega arith)

  pub lookup-bucket :
      (t : Table A) (h : ℕ) → deref t (lookup t h) ≡ first_hash h (bucket t (h % t.nr_buckets))
  unfolding lookup deref
  lookup-bucket t h = get_elem?-find_hash h (bucket t (h % t.nr_buckets))

  -- In a valid table, the lookup of a hash leads to the first entry that has it among all the
  -- entries of the table, and to NULL exactly if none of them has it.
  pub lookup-first_hash :
      (t : Table A) (h : ℕ) → IsValid t → deref t (lookup t h) ≡ first_hash h (entries t)
  unfolding lookup deref
  lookup-first_hash t h v =
      get_elem?-find_hash h (bucket t (h % t.nr_buckets))
      ∙ first_hash-eq-first_that h (bucket t (h % t.nr_buckets))
      ∙ sym (first_that-bucket (has_hash h) h (λ e p. (==_iff e.hash h).0 p) t v)
      ∙ sym (first_hash-eq-first_that h (entries t))
