-- ===== src/Htable/Buckets.antt =====
-- The bucket array: what one write to a chain does to all entries, and where entries stand.
use mathlib.Core.List.{flatten, Perm, perm_middle}
use mathlib.Core.List.Perm
use sftfs.Prelude.{
  ℕ, zero, suc, ◌+◌, ◌%◌, ◌<◌, ◌≡◌, refl, some, subst, List, [], ◌∷◌, arith, get_elem?, get_or, set,
  replicate, length, All, length-append, get_or-set, Bool-cases, some_inj, inl, inr, ◌==◌, ==_iff,
}
use sftfs.Htable.{Entry, Chain, remove_at}

-- Every entry stands in the bucket of its hash.
abbrev pub IsPlaced {ℓ} : {A : Type ℓ} → ℕ → List (Chain A) → Type 0
IsPlaced n bs = (i : ℕ) → All (λ e. e.hash % n ≡ i) (get_or bs i [])

module _ {ℓ} {A : Type ℓ} where
  pub flatten-set_cons :
      (bs : List (Chain A)) (i : ℕ) (e : Entry A)
      → i < length bs
      → Perm (flatten (set bs i (e ∷ get_or bs i []))) (e ∷ flatten bs)
  unfolding flatten
  flatten-set_cons [] i e h = absurd (omega arith)
  flatten-set_cons (c ∷ cs) zero e h = Perm.refl _
  flatten-set_cons (c ∷ cs) (suc i) e h =
      Perm.trans (Perm.append_left c (flatten-set_cons cs i e (omega arith)))
        (perm_middle c (flatten cs))

  remove_at-perm :
      (p : ℕ) (c : Chain A) {e : Entry A} → get_elem? c p ≡ some e → Perm (e ∷ remove_at p c) c
  unfolding remove_at
  remove_at-perm zero (x ∷ c) h = subst (λ y. Perm (y ∷ c) (x ∷ c)) (some_inj h) (Perm.refl _)
  remove_at-perm (suc p) (x ∷ c) {e} h =
      Perm.trans (Perm.swap x e (remove_at p c)) (Perm.cons x (remove_at-perm p c h))
  remove_at-perm zero [] h = cc
  remove_at-perm (suc p) [] h = cc

  pub length-flatten-set :
      (bs : List (Chain A)) (i : ℕ) (c : Chain A)
      → i < length bs
      → length (flatten (set bs i c)) + length (get_or bs i []) ≡ length (flatten bs) + length c
  unfolding flatten
  length-flatten-set [] i c h = absurd (omega arith)
  length-flatten-set (b ∷ bs) zero c h =
      omega (arith, length-append b (flatten bs), length-append c (flatten bs))
  length-flatten-set (b ∷ bs) (suc i) c h = omega (
    arith,
    length-append b (flatten bs),
    length-append b (flatten (set bs i c)),
    length-flatten-set bs i c,
  )

  pub flatten-replicate : (n : ℕ) → flatten {A = Entry A} (replicate n []) ≡ []
  unfolding flatten
  flatten-replicate zero = refl
  flatten-replicate (suc n) = flatten-replicate n

  pub set-IsPlaced :
      (n : ℕ) (bs : List (Chain A)) (i : ℕ) (c : Chain A)
      → i < length bs
      → IsPlaced n bs
      → All (λ e. e.hash % n ≡ i) c
      → IsPlaced n (set bs i c)
  set-IsPlaced n bs i c h placed here j = elim (Bool-cases (i == j)) [
    | inl e ↦
        rw (get_or-set bs i j c [] h, e)
          (subst (λ k. All (λ e. e.hash % n ≡ k) c) ((==_iff i j).0 e) here)
    | inr e ↦ rw (get_or-set bs i j c [] h, e) (placed j)
  ]

  pub remove_at-All {κ} :
      (P : Entry A → Type κ) (p : ℕ) (c : Chain A) → All P c → All P (remove_at p c)
  unfolding remove_at
  remove_at-All P zero [] all = all
  remove_at-All P (suc p) [] all = all
  remove_at-All P zero (e ∷ c) all = all.1
  remove_at-All P (suc p) (e ∷ c) all = (all.0, remove_at-All P p c all.1)

  pub flatten-set_remove :
      (bs : List (Chain A)) (i p : ℕ) {e : Entry A}
      → get_elem? (get_or bs i []) p ≡ some e
      → Perm (e ∷ flatten (set bs i (remove_at p (get_or bs i [])))) (flatten bs)
  unfolding flatten
  flatten-set_remove [] i p h = cc
  flatten-set_remove (c ∷ cs) zero p h = Perm.append_right (flatten cs) (remove_at-perm p c h)
  flatten-set_remove (c ∷ cs) (suc i) p {e} h =
      Perm.trans (Perm.symm (perm_middle c _)) (Perm.append_left c (flatten-set_remove cs i p h))

  pub length-remove_at :
      (p : ℕ) (c : Chain A) {e : Entry A}
      → get_elem? c p ≡ some e
      → length (remove_at p c) + 1 ≡ length c
  unfolding remove_at
  length-remove_at zero [] h = cc
  length-remove_at (suc p) [] h = cc
  length-remove_at zero (x ∷ c) h = omega arith
  length-remove_at (suc p) (x ∷ c) h = omega (arith, length-remove_at p c h)

  pub lt_of_get_elem? :
      (bs : List (Chain A)) (i p : ℕ) {e : Entry A}
      → get_elem? (get_or bs i []) p ≡ some e
      → i < length bs
  lt_of_get_elem? [] i p h = cc
  lt_of_get_elem? (c ∷ cs) zero p h = omega arith
  lt_of_get_elem? (c ∷ cs) (suc i) p h = omega (arith, lt_of_get_elem? cs i p h)

  pub All-get_elem? {κ} :
      (P : Entry A → Type κ) (c : Chain A) (p : ℕ) {e : Entry A}
      → All P c
      → get_elem? c p ≡ some e
      → P e
  All-get_elem? P [] p all h = cc
  All-get_elem? P (x ∷ c) zero all h = subst P (some_inj h) all.0
  All-get_elem? P (x ∷ c) (suc p) all h = All-get_elem? P c p all.1 h
