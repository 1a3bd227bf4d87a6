-- ===== src/Tests/Strings.antt =====
-- Strings of abs/str.c, targets of main.c and answers of ssh_cli.c.
use sftfs.Prelude.{◌↔◌, ◌≡◌, refl, true, some, [], ◌∷◌, arith, ok}
use sftfs.Str
use sftfs.Str.{Str, Heap}
use sftfs.Str.Room.{IsValid}
use sftfs.Str.Contents.{Yields, doubled, append-Yields}
use sftfs.Target.{Target, parse_target}
use sftfs.Target.Split.{IsSplit, parse_target_iff}

-- Every request is granted, and new bytes are 7.
abbrev heap : Heap
heap = record { grants = λ n. true; junk = λ i. 7 }

-- "/a", full.
abbrev full : Str
full = record { size = 2; capacity = 2; c = b'/' ∷ b'a' ∷ 0 ∷ [] }

full-IsValid : IsValid full
full-IsValid = record {
  roomy = record { fits = omega arith; small = omega arith; room = refl };
  ended = refl;
}

append-Yields_example :
    Yields heap (doubled heap 2) (b'/' ∷ b'a' ∷ b'c' ∷ []) (Str.append heap full b'c')
append-Yields_example = append-Yields heap full b'c' full-IsValid (omega arith)

append_runs :
    Str.append heap full b'c'
    ≡ ok (some (record { size = 3; capacity = 4; c = b'/' ∷ b'a' ∷ b'c' ∷ 0 ∷ 7 ∷ [] }))
unfolding Str.append
append_runs = refl

abbrev parts : Target
parts = record { user = b'u' ∷ []; host = b'h' ∷ []; path = some (b'/' ∷ []) }

parse_target_iff_example :
    (parse_target (b'u' ∷ b'@' ∷ b'h' ∷ b':' ∷ b'/' ∷ []) ≡ ok parts)
    ↔ IsSplit (b'u' ∷ b'@' ∷ b'h' ∷ b':' ∷ b'/' ∷ []) parts
parse_target_iff_example = parse_target_iff (b'u' ∷ b'@' ∷ b'h' ∷ b':' ∷ b'/' ∷ []) parts
