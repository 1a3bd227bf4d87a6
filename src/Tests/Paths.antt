-- ===== src/Tests/Paths.antt =====
-- The operations on paths with a server that counts what it renames.
use sftfs.Prelude.{
  strncpy, ◌>>=◌, ◌++◌, ℕ, suc, fault, ◌≡◌, refl, Option, none, some, List, [], ◌∷◌, Run, ok,
  Returns, arith, true,
}
use sftfs.Str
use sftfs.Sftp.Api.{Libssh}
use sftfs.Sftp.Errno.{Rc, done, minus, eopnotsupp}
use sftfs.Sftp.{readlink, Sftp, get_abs_path, rename, rename_unless}
use sftfs.Sftp.Paths.{HoldsBase}
use sftfs.Sftp.Renames.{RenamedAt, rename-Renamed}
use sftfs.Sftp.Changes.{remove_dir, change, Changed, asked, change-Changed}
use sftfs.Sftp.Queries.{AllAnswered, queries-AllAnswered}
use sftfs.Tests.Sessions.{refusing, base, base_path, base_path-IsValid, heap}

-- Nothing is at any path, and every renaming succeeds; error 2 is SSH_FX_NO_SUCH_FILE.
abbrev counting : Libssh
counting = record (refusing ℕ) { get_error = λ w. 2; rename = λ old new w. (true, suc w) }

abbrev session : Sftp counting
session = record { world = 0; base_dir_len = 2; curr_abs_path = base_path }

session-HoldsBase : HoldsBase counting base session
session-HoldsBase = record {
  valid = base_path-IsValid;
  longer = omega arith;
  base_is = refl;
  base_len = refl;
}

abbrev old : List ℕ
old = b'/' ∷ b'a' ∷ []

abbrev new : List ℕ
new = b'/' ∷ b'b' ∷ b'c' ∷ []

rename-Renamed_example :
    Returns (rename counting heap old new 1 session) (RenamedAt counting heap base old new 1 0)
rename-Renamed_example =
    rename-Renamed counting heap base old new 1 session session-HoldsBase (omega arith)
      (omega arith)

abbrev outcome : Run (Rc × Sftp counting) → Option (Rc × ℕ)
outcome (ok (rc, s)) = some (rc, s.world)
outcome fault = none

rename_runs : outcome (rename counting heap old new 1 session) ≡ some (done, 1)
unfolding rename rename_unless get_abs_path Str.resize Str.extend Str.create
rename_runs = refl

rename_refuses : outcome (rename counting heap old new 2 session) ≡ some (minus eopnotsupp, 0)
unfolding rename
rename_refuses = refl

change-Changed_example :
    Returns
      (change counting heap remove_dir old session)
      (Changed counting heap base (asked counting remove_dir (base ++ old)) 0)
change-Changed_example =
    change-Changed counting heap base old remove_dir session session-HoldsBase (omega arith)

queries-AllAnswered_example : AllAnswered counting heap base old 0 9 2 420 session
queries-AllAnswered_example =
    queries-AllAnswered counting heap base old 0 9 2 420 session session-HoldsBase (omega arith)
      (omega arith)

-- Every link leads to "xyz".
abbrev linking : Libssh
linking = record (refusing ℕ) { readlink = λ path w. (some (b'x' ∷ b'y' ∷ b'z' ∷ []), w) }

abbrev linked : Sftp linking
linked = record { world = 0; base_dir_len = 2; curr_abs_path = base_path }

abbrev bytes : Run ((Rc × Option (List ℕ)) × Sftp linking) → Run (Rc × Option (List ℕ))
bytes r = r >>= λ q. ok q.0

readlink_fills :
    bytes (readlink linking heap old 6 linked)
    ≡ ok (done, some (b'x' ∷ b'y' ∷ b'z' ∷ 0 ∷ 0 ∷ 0 ∷ []))
unfolding readlink get_abs_path Str.resize Str.extend strncpy
readlink_fills = refl

readlink_cuts : bytes (readlink linking heap old 3 linked) ≡ ok (done, some (b'x' ∷ b'y' ∷ 0 ∷ []))
unfolding readlink get_abs_path Str.resize Str.extend strncpy
readlink_cuts = refl

readlink_asserts : bytes (readlink linking heap old 0 linked) ≡ fault
unfolding readlink
readlink_asserts = refl
