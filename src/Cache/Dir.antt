-- ===== src/Cache/Dir.antt =====
-- cache/dir.c and include/cache/dir.h: the names in directories by their paths.
--
-- The data of a file is the string of the names, each with a NUL behind it, or NULL. The handle
-- that the names are read through is the bytes from its pointer to the end of the string's block.
pub mod Listing
use sftfs.Prelude.{
  ℕ, zero, suc, Bool, true, false, Option, none, some, List, [], ◌∷◌, ◌++◌, Run, ok, fault, ◌>>=◌,
  ◌==◌, if◌then◌else◌, c_string,
}
use sftfs.Str
use sftfs.Str.{Str, Heap}
use sftfs.Cache.Core.{Cache, Config}
use sftfs.Cache.File.{
  FileEntry, FileRc, Memory, peek_file, take_file, give_file, drop_file, set_data,
}

-- SFTFS_CACHE_DIR_OK and SFTFS_CACHE_DIR_ADD_ENTRY_FAILED
pub data DirRc : Type 0 where
  dir_ok add_entry_failed : DirRc

-- `sftfs_cache_dir`: its string of entries.
abbrev pub Dir : Type 0
Dir = Option Str

-- A name, or NULL, and the handle afterwards. The NUL is sought from the second byte on.
unfoldable pub read_dir : List ℕ → Run (Option (List ℕ) × List ℕ)
unfolding c_string
read_dir [] = fault
read_dir (b ∷ bs) =
    let next = c_string bs >>= λ r. ok (some (b ∷ r.0), r.1) in
    if b == 0 then ok (none, b ∷ bs) else next

module _ (heap : Heap) where
  -- `entry` has no NUL; the NUL behind it is copied along.
  unfoldable pub add_dir_entry : Dir → (entry : List ℕ) → Run (Dir × DirRc)
  add_dir_entry none entry = fault
  add_dir_entry (some s) entry = Str.extend heap s (entry ++ 0 ∷ []) >>= λ r. elim r [
    | none ↦ ok (some s, add_entry_failed)
    | some s' ↦ ok (some s', dir_ok)
  ]

  unfoldable pub clear_dir_entries : Dir → Run (Dir × DirRc)
  clear_dir_entries none = fault
  clear_dir_entries (some s) = Str.resize heap s 0 >>= λ s'. ok (s', dir_ok)

  unfoldable pub construct_dir : Run Dir
  construct_dir = Str.create heap (some []) 0

module _ {U : Type 0} (config : Config (FileEntry Dir) U) where
  abbrev pub Dirs : Type 0
  Dirs = Cache (FileEntry Dir) U

  -- The address of the directory, or NULL. A refused string is not noticed.
  unfoldable pub take_dir : Memory Dir U → Dirs → List ℕ → Run (Dirs × Option ℕ)
  unfolding take_file construct_dir set_data
  take_dir memory c path = take_file config memory c path >>= λ r. elim r.1 [
    | none ↦ ok (r.0, none)
    | some (p, true) ↦ construct_dir memory.heap >>= λ d. ok (set_data p d r.0, some p)
    | some (p, false) ↦ ok (r.0, some p)
  ]

  unfoldable pub give_dir : Dirs → List ℕ → ℕ → Run (Dirs × FileRc)
  unfolding give_file
  give_dir c path p = give_file config c path p

  unfoldable pub drop_dir : Dirs → List ℕ → ℕ → Run (Dirs × FileRc)
  unfolding drop_file
  drop_dir c path p = drop_file config c path p

  -- A handle without an entry is `none`. The text of a string that is NULL is read as a pointer.
  unfoldable pub peek_dir : Dirs → List ℕ → Run (Dirs × Option (List ℕ))
  unfolding peek_file
  peek_dir c path = peek_file config c path >>= λ r. elim r.1 [
    | none ↦ ok (r.0, none)
    | some none ↦ fault
    | some (some s) ↦ ok (r.0, some s.c)
  ]
