-- ===== src/Prelude/Text.antt =====
-- Texts in memory, which end at a NUL.
use Prim.Native.Nat.{ℕ, ◌-◌}
use mathlib.Core.Path.{◌≡◌, refl}
use mathlib.Core.Bool.{false}
use mathlib.Core.List.{List, [], ◌∷◌, ◌++◌}
use sftfs.Prelude.Tests.{◌==◌, if◌then◌else◌}
use sftfs.Prelude.Lists.{All, length, take, replicate}
use sftfs.Prelude.Outcome.{Run, ok, fault, ◌>>=◌}

-- The text at a pointer, and the bytes behind its NUL. Without a NUL the block is read past its end.
unfoldable pub c_string : List ℕ → Run (List ℕ × List ℕ)
c_string [] = fault
c_string (b ∷ bs) =
    let rest = c_string bs >>= λ r. ok (b ∷ r.0, r.1) in if b == 0 then ok ([], bs) else rest

-- No byte is a NUL.
abbrev pub IsText : List ℕ → Type 0
IsText = All (λ b. (b == 0) ≡ false)

pub c_string-append : (n rest : List ℕ) → IsText n → c_string (n ++ 0 ∷ rest) ≡ ok (n, rest)
unfolding c_string
c_string-append [] rest h = refl
c_string-append (b ∷ n) rest (e, h) = rw (e, c_string-append n rest h)

-- `strncpy` of a text: it is cut off or filled up with NULs.
unfoldable pub strncpy : (n : ℕ) → List ℕ → List ℕ
strncpy n text = take n text ++ replicate (n - length text) 0
