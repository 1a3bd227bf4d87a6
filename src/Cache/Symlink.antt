-- ===== src/Cache/Symlink.antt =====
-- cache/symlink.c: the targets of symbolic links by their paths.
--
-- The data of a file is the string of the link, or NULL.
use sftfs.Prelude.{
  ℕ, zero, suc, Bool, Option, none, some, List, [], ◌∷◌, ◌++◌, Run, ok, fault, ◌>>=◌, if◌then◌else◌,
  length, strncpy, c_string,
}
use sftfs.Str
use sftfs.Str.{Str}
use sftfs.Cache.Core.{Cache, Config, load}
use sftfs.Cache.File.{FileEntry, Memory, peek_file, take_file, give_file, drop_file, set_data}
use sftfs.Cache.Attr.{PutRc, file, put_failed}

module _ {U : Type 0} (config : Config (FileEntry (Option Str)) U) where
  abbrev pub Links : Type 0
  Links = Cache (FileEntry (Option Str)) U

  -- The bytes of the buffer, or that it is not written.
  unfoldable pub get_symlink : Links → List ℕ → (buffer_size : ℕ) → Run (Links × Option (List ℕ))
  unfolding peek_file c_string strncpy
  get_symlink c path zero = fault
  get_symlink c path (suc n) = peek_file config c path >>= λ r. elim r.1 [
    | none ↦ ok (r.0, none)
    | some none ↦ fault
    | some (some s) ↦ c_string s.c >>= λ t. ok (r.0, some (strncpy n t.0 ++ 0 ∷ []))
  ]

  -- The string of a new entry is created, that of an old one is assigned to.
  unfoldable pub link_str : Memory (Option Str) U → Links → ℕ → Bool → List ℕ → Run (Option Str)
  link_str memory c p is_new symlink =
      let created = Str.create memory.heap (some symlink) (length symlink) in
      let assigned = load c p >>= λ e. elim e.payload.data_of [
        | none ↦ fault
        | some s ↦ Str.assign memory.heap s symlink
      ] in
      if is_new then created else assigned

  unfoldable pub put_symlink :
      Memory (Option Str) U → Links → (path symlink : List ℕ) → Run (Links × PutRc)
  unfolding take_file give_file drop_file set_data link_str
  put_symlink memory c path symlink = take_file config memory c path >>= λ r. elim r.1 [
    | none ↦ ok (r.0, put_failed)
    | some (p, is_new) ↦ link_str memory r.0 p is_new symlink >>= λ s. elim s [
      | none ↦ drop_file config r.0 path p >>= λ r'. ok (r'.0, put_failed)
      | some s' ↦ give_file config (set_data p (some s') r.0) path p >>= λ r'. ok (r'.0, file r'.1)
    ]
  ]
