-- ===== src/Cached/Parent.antt =====
-- The directory that `sftfs_cached_inval_all_dir` of endp/cached.c invalidates.
use sftfs.Prelude.{
  ℕ, suc, ◌+◌, ◌-◌, ◌<◌, ◌≡◌, refl, ap, ◌∙◌, true, false, List, [], ◌∷◌, ◌++◌, ok, ◌>>=◌,
  if◌then◌else◌, ◌==◌, arith, length, length-append, take, >>=_cong,
}
use sftfs.Cached.Slash.{IsLast}
use sftfs.Cached.{
  Caches, Setup, inval_all, inval_all_dir, find_last_seperator, last_seperator_from, base_dir,
}

last_seperator_from-IsLast :
    (name : List ℕ) (at sep : ℕ) → IsLast name → last_seperator_from at sep name ≡ sep
unfolding last_seperator_from
last_seperator_from-IsLast [] at sep h = refl
last_seperator_from-IsLast (b ∷ bs) at sep (e, h) =
    rw e (last_seperator_from-IsLast bs (at + 1) sep h)

last_seperator_from-append :
    (dir name : List ℕ) (at sep : ℕ)
    → IsLast name
    → last_seperator_from at sep (dir ++ b'/' ∷ name) ≡ at + length dir
unfolding last_seperator_from
last_seperator_from-append [] name at sep h =
    last_seperator_from-IsLast name (at + 1) at h ∙ omega arith
last_seperator_from-append (b ∷ dir) name at sep h =
    last_seperator_from-append dir name (at + 1) (if b == b'/' then at else sep) h ∙ omega arith

-- The last separator of a path stands before its last component.
find_last_seperator_lem :
    (dir name : List ℕ)
    → IsLast name
    → find_last_seperator (b'/' ∷ dir ++ b'/' ∷ name) ≡ ok (suc (length dir))
unfolding find_last_seperator
find_last_seperator_lem dir name h = ap ok (last_seperator_from-append dir name 1 0 h ∙ omega arith)

take-append_one :
    (dir : List ℕ) (b : ℕ) (rest : List ℕ) → take (length dir) ((dir ++ b ∷ []) ++ rest) ≡ dir
take-append_one [] b rest = refl
take-append_one (x ∷ dir) b rest = ap (λ l. x ∷ l) (take-append_one dir b rest)

not_zero : (n : ℕ) → 0 < n → (n == 0) ≡ false
not_zero n h = ground arith

base_dir_lem :
    (dir : List ℕ) (b : ℕ) (rest : List ℕ)
    → base_dir (suc (length (dir ++ b ∷ []))) (b'/' ∷ (dir ++ b ∷ []) ++ rest) ≡ b'/' ∷ dir
base_dir_lem dir b rest =
    let n : suc (length (dir ++ b ∷ [])) - 1 ≡ suc (length dir) =
      omega (arith, length-append dir (b ∷ [])) in
    ap (λ k. take k (b'/' ∷ (dir ++ b ∷ []) ++ rest)) n
    ∙ ap (λ l. b'/' ∷ l) (take-append_one dir b rest)

-- Where the copy of its directory's path is granted, the invalidation for a path below a directory
-- of at least two bytes invalidates the path itself and then the path of the directory without its
-- last byte.
pub inval_all_dir_short :
    (setup : Setup) (dir : List ℕ) (b : ℕ) (name : List ℕ) (c : Caches)
    → IsLast name
    → inval_all_dir setup true (b'/' ∷ (dir ++ b ∷ []) ++ b'/' ∷ name) c
      ≡ inval_all setup (b'/' ∷ (dir ++ b ∷ []) ++ b'/' ∷ name) c >>= inval_all setup (b'/' ∷ dir)
unfolding inval_all_dir
inval_all_dir_short setup dir b name c h =
    let path = b'/' ∷ (dir ++ b ∷ []) ++ b'/' ∷ name in
    let n = suc (length (dir ++ b ∷ [])) in
    >>=_cong (inval_all setup path c) λ c'.
      ap
        (λ r. r >>= λ last_sep.
          if last_sep == 0 then ok c' else inval_all setup (base_dir last_sep path) c')
        (find_last_seperator_lem (dir ++ b ∷ []) name h)
      ∙ ap (λ q. if q then ok c' else inval_all setup (base_dir n path) c')
          (not_zero n (omega arith))
      ∙ ap (λ p. inval_all setup p c') (base_dir_lem dir b (b'/' ∷ name))
