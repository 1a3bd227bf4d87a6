-- ===== src/Cache/File/Paths.antt =====
-- Which paths `str_eq` of cache/file.c takes for equal.
use sftfs.Prelude.{
  ℕ, ◌≡◌, ◌↔◌, refl, ap, ap₂, sym, ◌∙◌, true, List, [], ◌∷◌, ◌++◌, arith, ◌==◌, ==_iff, ==_refl,
  Bool-cases, inl, inr,
}
use sftfs.Cache.File.{str_eq}

str_eq-prefix : (s c : List ℕ) → str_eq s c ≡ true → (rest : List ℕ) × (c ≡ s ++ rest)
unfolding str_eq
str_eq-prefix [] c h = (c, refl)
str_eq-prefix (b ∷ s) [] h = cc
str_eq-prefix (b ∷ s) (x ∷ c) h = elim (Bool-cases (b == x)) [
  | inr e ↦ absurd (ground (arith, e, h))
  | inl e ↦
      let (rest, q) = str_eq-prefix s c (rw e at h) in
      (rest, ap₂ (λ y l. y ∷ l) (sym ((==_iff b x).0 e)) q)
]

str_eq-append : (s rest : List ℕ) → str_eq s (s ++ rest) ≡ true
unfolding str_eq
str_eq-append [] rest = refl
str_eq-append (b ∷ s) rest = rw (==_refl b) (str_eq-append s rest)

-- A cached path counts as equal to every path that it is a prefix of, and to no other.
pub str_eq_iff : (s c : List ℕ) → (str_eq s c ≡ true) ↔ ((rest : List ℕ) × (c ≡ s ++ rest))
str_eq_iff s c = (str_eq-prefix s c, λ (rest, q). ap (str_eq s) q ∙ str_eq-append s rest)
