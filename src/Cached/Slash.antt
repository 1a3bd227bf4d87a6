-- ===== src/Cached/Slash.antt =====
-- Bytes and separators: the lemmas behind `mark_base_dir` and `unmark_base_dir` of endp/cached.c.
use native.Mathlib.Nat.{suc-add}
use sftfs.Prelude.{
  ℕ, zero, suc, ◌+◌, ◌<◌, ◌≤◌, ◌≡◌, refl, ap, ◌∙◌, false, List, [], ◌∷◌, ◌++◌, ok, arith, ◌==◌,
  length, set, get_or, All, IsText,
}
use sftfs.Cached.Entries.{last_slash, strnlen}

-- A last component: it has no separator.
abbrev pub IsLast : List ℕ → Type 0
IsLast = All (λ b. (b == b'/') ≡ false)

pub get_or-append_right :
    (xs ys : List ℕ) (j : ℕ) → get_or (xs ++ ys) (length xs + j) 0 ≡ get_or ys j 0
get_or-append_right [] ys j = ap (λ k. get_or ys k 0) (omega arith)
get_or-append_right (x ∷ xs) ys j = rw (suc-add (length xs) j) (get_or-append_right xs ys j)

pub set-append :
    (xs : List ℕ) (y v : ℕ) (ys : List ℕ) → set (xs ++ y ∷ ys) (length xs) v ≡ xs ++ v ∷ ys
set-append [] y v ys = refl
set-append (x ∷ xs) y v ys = ap (λ l. x ∷ l) (set-append xs y v ys)

get_or-All :
    (name rest : List ℕ) (j : ℕ)
    → IsLast name
    → j < length name
    → (get_or (name ++ rest) j 0 == b'/') ≡ false
get_or-All [] rest j h lt = absurd (omega arith)
get_or-All (b ∷ name) rest zero (e, h) lt = e
get_or-All (b ∷ name) rest (suc j) (e, h) lt = get_or-All name rest j h (omega arith)

last_slash-append :
    (dir name rest : List ℕ) (k : ℕ)
    → IsLast name
    → k ≤ length name
    → last_slash (suc (length dir + k)) (dir ++ b'/' ∷ (name ++ rest)) ≡ ok (length dir)
unfolding last_slash
last_slash-append dir name rest zero h le =
    let w = b'/' ∷ (name ++ rest) in rw (get_or-append_right dir w 0) (ap ok (omega arith))
last_slash-append dir name rest (suc k) h le =
    let w = b'/' ∷ (name ++ rest) in
    let next : length dir + suc k ≡ suc (length dir + k) = omega arith in
    rw (get_or-append_right dir w (suc k), get_or-All name rest k h (omega arith))
      (ap (λ n. last_slash n (dir ++ w)) next ∙ last_slash-append dir name rest k h (omega arith))

-- The last separator before the end of a path stands before its last component.
pub last_slash_lem :
    (dir name rest : List ℕ)
    → IsLast name
    → last_slash (suc (length dir + length name)) (dir ++ b'/' ∷ (name ++ rest)) ≡ ok (length dir)
last_slash_lem dir name rest h = last_slash-append dir name rest (length name) h (omega arith)

-- A text is as long as its NUL allows.
pub strnlen_lem :
    (t rest : List ℕ) (n : ℕ) → IsText t → strnlen (t ++ 0 ∷ rest) (length t + n) ≡ length t
unfolding strnlen
strnlen_lem [] rest zero h = refl
strnlen_lem [] rest (suc n) h = let e : 0 + suc n ≡ suc n = omega arith in rw e refl
strnlen_lem (b ∷ t) rest n (e, h) = rw (suc-add (length t) n, e) (ap suc (strnlen_lem t rest n h))
