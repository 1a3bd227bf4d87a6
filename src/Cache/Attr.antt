-- ===== src/Cache/Attr.antt =====
-- cache/attr.c: the attributes of files by their paths.
use sftfs.Prelude.{ℕ, Option, none, some, List, Run, ok, ◌>>=◌}
use sftfs.Cache.Core.{Cache, Config}
use sftfs.Cache.File.{FileEntry, FileRc, Memory, peek_file, take_file, give_file, set_data}

-- SFTFS_CACHE_ATTR_PUT_FAILED, which is SFTFS_CACHE_SYMLINK_PUT_FAILED, or a code of the file cache.
pub data PutRc : Type 0 where
  file : FileRc → PutRc
  put_failed : PutRc

module _ {ℓ} {D U : Type ℓ} (config : Config (FileEntry D) U) where
  -- `D` is `struct stat`; the bytes that are copied where there are attributes.
  unfoldable pub get_attr : Cache (FileEntry D) U → List ℕ → Run (Cache (FileEntry D) U × Option D)
  unfolding peek_file
  get_attr c path = peek_file config c path

  unfoldable pub put_attr :
      Memory D U → Cache (FileEntry D) U → List ℕ → D → Run (Cache (FileEntry D) U × PutRc)
  unfolding take_file give_file set_data
  put_attr memory c path attr = take_file config memory c path >>= λ r. elim r.1 [
    | none ↦ ok (r.0, put_failed)
    | some (p, is_new) ↦
        give_file config (set_data p attr r.0) path p >>= λ r'. ok (r'.0, file r'.1)
  ]
