-- ===== src/Htable/Remove.antt =====
-- `sftfs_htable_remove`, `_find_and_remove`, `_rehash_entry` and `_remove_hash`.
use sftfs.Prelude.{
  ℕ, zero, suc, ◌+◌, ◌%◌, ◌≤◌, ◌<◌, ◌≡◌, refl, sym, ap, ap₂, ◌∙◌, none, some, List, [], ◌∷◌, inl,
  inr, arith, get_elem?, get_or, set, take, length, Bool-cases, Option-cases, ◌==◌, ==_refl,
  Returns, get_or-set,
}
use sftfs.Htable.{
  Entry, Chain, Table, Link, link, bucket, deref, find_hash, lookup, remove_at, remove,
  remove_while, remove_hash,
}
use sftfs.Htable.Buckets.{length-remove_at, lt_of_get_elem?}
use sftfs.Htable.Valid.{IsValid, Extracted, extract_entry-Extracted}
use sftfs.Htable.Lookup.{first_hash, lookup-bucket}

module _ {ℓ} {A : Type ℓ} where
  set_self : (bs : List (Chain A)) (i : ℕ) → set bs i (get_or bs i []) ≡ bs
  set_self [] i = refl
  set_self (c ∷ cs) zero = refl
  set_self (c ∷ cs) (suc i) = ap (λ r. c ∷ r) (set_self cs i)

  set-set : (bs : List (Chain A)) (i : ℕ) (c d : Chain A) → set (set bs i c) i d ≡ set bs i d
  set-set [] i c d = refl
  set-set (b ∷ bs) zero c d = refl
  set-set (b ∷ bs) (suc i) c d = ap (λ r. b ∷ r) (set-set bs i c d)

  take_all : (p : ℕ) (c : Chain A) → get_elem? c p ≡ none → take p c ≡ c
  take_all zero [] h = refl
  take_all (suc p) [] h = refl
  take_all zero (e ∷ c) h = cc
  take_all (suc p) (e ∷ c) h = ap (λ r. e ∷ r) (take_all p c h)

  take-remove_at : (p : ℕ) (c : Chain A) → take p (remove_at p c) ≡ take p c
  unfolding remove_at
  take-remove_at zero c = refl
  take-remove_at (suc p) [] = refl
  take-remove_at (suc p) (e ∷ c) = ap (λ r. e ∷ r) (take-remove_at p c)

  pub lt_of_some : (p : ℕ) (c : Chain A) {e : Entry A} → get_elem? c p ≡ some e → p < length c
  lt_of_some zero [] h = cc
  lt_of_some (suc p) [] h = cc
  lt_of_some zero (e ∷ c) h = omega arith
  lt_of_some (suc p) (e ∷ c) h = omega (arith, lt_of_some p c h)

  -- The outcome of replacing one chain.
  pub record Cut (t : Table A) (i : ℕ) (c : Chain A) (t' : Table A) : Type ℓ where
    pub valid : IsValid t'
    pub same : t'.nr_buckets ≡ t.nr_buckets
    pub chains : t'.buckets ≡ set t.buckets i c

  -- Removing through a link that leads to an entry of a valid table takes out that entry, and no
  -- other.
  pub remove-Extracted :
      (t : Table A) (l : Link) {e : Entry A}
      → IsValid t
      → deref t l ≡ some e
      → Returns (remove t l) λ t'. Extracted t l e (e, t')
  unfolding remove
  remove-Extracted t l v h =
      let (r, run, x) = extract_entry-Extracted t l v h in
      (
        r.1,
        rw run,
        record { got = refl; valid = x.valid; rest = x.rest; same = x.same; chains = x.chains },
      )

  get_or-set_self :
      (bs : List (Chain A)) (i : ℕ) (c : Chain A) → i < length bs → get_or (set bs i c) i [] ≡ c
  get_or-set_self bs i c h = rw (get_or-set bs i i c [] h, ==_refl i)

  chain_after :
      (t t' : Table A) (i p : ℕ) {e : Entry A}
      → get_elem? (bucket t i) p ≡ some e
      → t'.buckets ≡ set t.buckets i (remove_at p (bucket t i))
      → bucket t' i ≡ remove_at p (bucket t i)
  chain_after t t' i p h e =
      rw e
        (get_or-set_self t.buckets i (remove_at p (bucket t i)) (lt_of_get_elem? t.buckets i p h))

  remove_while-Cut :
      (fuel : ℕ) (t : Table A) (i p : ℕ)
      → IsValid t
      → p ≤ length (bucket t i)
      → length (bucket t i) < p + fuel
      → Returns (remove_while fuel t (link i p)) (Cut t i (take p (bucket t i)))
  unfolding remove_while
  remove_while-Cut zero t i p v le h = absurd (omega arith)
  remove_while-Cut (suc fuel) t i p v le h = elim (Option-cases (deref t (link i p))) [
    | inl e ↦
        rw (e, remove_while)
          (
            t,
            refl,
            record {
              valid = v;
              same = refl;
              chains = sym (
                  ap (set t.buckets i) (unfold deref in take_all p (bucket t i) e)
                  ∙ set_self t.buckets i);
            },
          )
    | inr (e, h') ↦
        let c = bucket t i in
        let at : get_elem? c p ≡ some e = unfold deref in h' in
        let (t₁, run, x) = remove-Extracted t (link i p) v h' in
        let now = chain_after t t₁ i p at x.chains in
        let (t₂, run', y) =
          remove_while-Cut fuel t₁ i p x.valid
            (rw now (omega (arith, length-remove_at p c at, lt_of_some p c at)))
            (rw now (omega (arith, length-remove_at p c at))) in
        rw (h', remove_while, run)
          (
            t₂,
            run',
            record {
              valid = y.valid;
              same = y.same ∙ x.same;
              chains =
                  y.chains
                  ∙ ap₂ (λ bs d. set bs i (take p d)) x.chains now
                  ∙ ap (set (set t.buckets i (remove_at p c)) i) (take-remove_at p c)
                  ∙ set-set t.buckets i (remove_at p c) (take p c);
            },
          )
  ]

  pub find_hash-le : (h : ℕ) (c : Chain A) → find_hash h c ≤ length c
  unfolding find_hash
  find_hash-le h [] = omega arith
  find_hash-le h (e ∷ c) = ground (arith, find_hash-le h c)

  first_hash-take : (h : ℕ) (c : Chain A) → first_hash h (take (find_hash h c) c) ≡ none
  unfolding find_hash first_hash
  first_hash-take h [] = refl
  first_hash-take h (e ∷ c) = elim (Bool-cases (e.hash == h)) [
    | inl p ↦ rw p
    | inr p ↦ rw (p, p) (first_hash-take h c)
  ]

  module _ (t : Table A) (h : ℕ) (v : IsValid t) where
    -- `sftfs_htable_remove_hash` ends without a fault in a valid table. It cuts the bucket of the
    -- hash off before the first entry with the hash: the entries behind that one go too, whatever
    -- their hashes are. The other buckets stay.
    pub remove_hash-Cut :
        let i = h % t.nr_buckets in
        Returns (remove_hash t h) (Cut t i (take (find_hash h (bucket t i)) (bucket t i)))
    unfolding remove_hash lookup
    remove_hash-Cut =
        let i = h % t.nr_buckets in
        let c = bucket t i in
        remove_while-Cut (suc (length c)) t i (find_hash h c) v (find_hash-le h c) (omega arith)

    home-lt : h % t.nr_buckets < length t.buckets
    home-lt = omega (arith, v.width, v.pos)

    -- After `sftfs_htable_remove_hash` on a valid table, the table is valid and the hash leads to
    -- NULL.
    pub lookup-remove_hash :
        Returns (remove_hash t h) λ t'. IsValid t' × (deref t' (lookup t' h) ≡ none)
    lookup-remove_hash =
        let i = h % t.nr_buckets in
        let c = bucket t i in
        let (t', run, cut) = remove_hash-Cut in
        (
          t',
          run,
          (
            cut.valid,
            lookup-bucket t' h
                ∙ ap (λ n. first_hash h (bucket t' (h % n))) cut.same
                ∙ ap (λ bs. first_hash h (get_or bs i [])) cut.chains
                ∙ ap (first_hash h) (get_or-set_self t.buckets i (take (find_hash h c) c) home-lt)
                ∙ first_hash-take h c,
          ),
        )
