-- ===== src/Target.antt =====
-- main.c: `parse_target`, the split of `[user@]host:path`.
--
-- The pieces are NUL-terminated parts of the argument, as lists of bytes. `host` is `sep + 1` on
-- both branches: without an `@` that is one past NULL, and the search through it is a fault.
pub mod Split
use sftfs.Prelude.{ℕ, Bool, Option, none, some, List, [], ◌∷◌, Run, ok, fault, if◌then◌else◌, ◌==◌}

pub record Target : Type 0 where
  pub user : List ℕ
  pub host : List ℕ
  pub path : Option (List ℕ)

-- `strchr`, with the text before the byte and the text behind it.
unfoldable pub strchr : ℕ → List ℕ → Option (List ℕ × List ℕ)
strchr c [] = none
strchr c (b ∷ bs) =
    if b == c
    then some ([], bs)
    else elim (strchr c bs) [ none ↦ none | some (front, back) ↦ some (b ∷ front, back) ]

-- The `path` that is handed in points to NULL, which the branch without a colon leaves.
unfoldable pub parse_target : List ℕ → Run Target
parse_target target = elim (strchr b'@' target) [
  | none ↦ fault
  | some (user, rest) ↦ elim (strchr b':' rest) [
    | none ↦ ok (record { user = user; host = rest; path = none })
    | some (host, path) ↦ ok (record { user = user; host = host; path = some path })
  ]
]
