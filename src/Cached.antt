-- ===== src/Cached.antt =====
-- endp/cached.c: the caches in front of an endpoint.
--
-- `Caches` is what the handle keeps; the operations of the header are in Cached/Api. Nothing is freed
-- in the model, so no cache has a callback with a state. The log is left out.
pub mod Entries
pub mod Readdir
pub mod Parent
pub mod Handles
pub mod Visit
pub mod Slash
pub mod Walk
pub mod Ascend
pub mod Whole
pub mod Api
use sftfs.Prelude.{
  ℕ, zero, suc, ◌+◌, ◌-◌, Bool, true, false, Option, none, some, List, [], ◌∷◌, Run, ok, fault,
  ◌>>=◌, if◌then◌else◌, ◌==◌, take, ltb,
}
use sftfs.Htable
use sftfs.Htable.{Table, Grants, deref, lookup, remove_hash}
use sftfs.Str.{Str, Heap}
use sftfs.Sftp.{Stat}
use sftfs.Cache.Core.{Cache, CacheRc, Config, construct}
use sftfs.Cache.Core.CacheRc.{cache_ok, unexpected_entry}
use sftfs.Cache.File.{FileEntry, FileRc, Memory, invalidate_file, rename_file}
use sftfs.Cache.Attr.{PutRc, get_attr, put_attr}
use sftfs.Cache.Symlink.{get_symlink, put_symlink}
use sftfs.Cache.Dir.{Dir, peek_dir}

-- A cache of files whose data is a `D`, with its clock and its allocators.
abbrev pub Files : Type 0 → Type 0
Files D = Cache (FileEntry D) Unit

-- What the three caches and the map are built with. `fresh_path` allocates an entry of the map.
pub record Setup : Type 0 where
  pub attr_config : Config (FileEntry Stat) Unit
  pub dir_config : Config (FileEntry Dir) Unit
  pub symlink_config : Config (FileEntry (Option Str)) Unit
  pub attr_memory : Memory Stat Unit
  pub dir_memory : Memory Dir Unit
  pub symlink_memory : Memory (Option Str) Unit
  pub heap : Heap
  pub grants : Grants
  pub fresh_path : Table (List ℕ) → Option ℕ

-- `struct sftfs_cached_endp`, without the endpoint behind it.
pub record Caches : Type 0 where
  pub attr_cache : Files Stat
  pub dir_cache : Files Dir
  pub symlink_cache : Files (Option Str)
  pub handle_path_map : Table (List ℕ)

-- `!rc` of a put.
abbrev pub is_ok : PutRc → Bool
is_ok (PutRc.file (FileRc.core cache_ok)) = true
is_ok (PutRc.file (FileRc.core unexpected_entry)) = false
is_ok (PutRc.file FileRc.path_mismatch) = false
is_ok PutRc.put_failed = false

-- `sftfs_cached_construct`; the times to live are in the order attributes, listings, links.
unfoldable pub construct_caches : Grants → (attr_ttl dir_ttl symlink_ttl : ℕ) → Option Caches
construct_caches grants attr_ttl dir_ttl symlink_ttl =
    elim (construct {A = FileEntry Stat} grants attr_ttl tt) [
      | none ↦ none
      | some a ↦ elim (construct {A = FileEntry Dir} grants dir_ttl tt) [
        | none ↦ none
        | some d ↦ elim (construct {A = FileEntry (Option Str)} grants symlink_ttl tt) [
          | none ↦ none
          | some l ↦ elim (Htable.create {A = List ℕ} grants 0) [
            | none ↦ none
            | some t ↦
                some
                  (record { attr_cache = a; dir_cache = d; symlink_cache = l; handle_path_map = t })
          ]
        ]
      ]
    ]

-- `sftfs_cached_init`; `granted` is the allocation of the handle.
unfoldable pub init : (granted : Bool) → Grants → (attr_ttl dir_ttl symlink_ttl : ℕ) → Option Caches
unfolding construct_caches
init granted grants attr_ttl dir_ttl symlink_ttl =
    if granted then construct_caches grants attr_ttl dir_ttl symlink_ttl else none

-- The position of the last separator behind `at`, or `sep` where there is none.
unfoldable pub last_seperator_from : (at sep : ℕ) → List ℕ → ℕ
last_seperator_from at sep [] = sep
last_seperator_from at sep (b ∷ bs) =
    last_seperator_from (at + 1) (if b == b'/' then at else sep) bs

-- The pointer as a position. The assertion fails on a path that does not begin with a separator.
unfoldable pub find_last_seperator : List ℕ → Run ℕ
unfolding last_seperator_from
find_last_seperator [] = fault
find_last_seperator (b ∷ bs) = if b == b'/' then ok (last_seperator_from 1 0 bs) else fault

-- `strndup(path, last_sep - path - 1)` for a last separator that is not the first byte. An allocation
-- that is refused would be NULL, whose path is read by the callers: a fault.
abbrev pub base_dir : (last_sep : ℕ) → List ℕ → List ℕ
base_dir last_sep path = take (last_sep - 1) path

-- A handle that no path is kept for is NULL.
unfoldable pub get_handled_path : Caches → (handle : ℕ) → Option (List ℕ)
get_handled_path c handle = elim (deref c.handle_path_map (lookup c.handle_path_map handle)) [
  | none ↦ none
  | some e ↦ some e.payload
]

unfoldable pub unhandle_path : Caches → (handle : ℕ) → Run Caches
unhandle_path c handle =
    remove_hash c.handle_path_map handle >>= λ t. ok (record c { handle_path_map = t })

module _ (setup : Setup) where
  -- The results are dropped.
  unfoldable pub inval_all : List ℕ → Caches → Run Caches
  inval_all path c = do
    a ← invalidate_file setup.attr_config c.attr_cache path
    d ← invalidate_file setup.dir_config c.dir_cache path
    l ← invalidate_file setup.symlink_config c.symlink_cache path
    ok (record c { attr_cache = a.0; dir_cache = d.0; symlink_cache = l.0 })

  -- `dup_granted` is the allocation of `strndup`.
  unfoldable pub inval_all_dir : (dup_granted : Bool) → List ℕ → Caches → Run Caches
  unfolding inval_all find_last_seperator
  inval_all_dir dup_granted path c = do
    c' ← inval_all path c
    last_sep ← find_last_seperator path
    let in_base = inval_all (base_dir last_sep path) c' in
        if last_sep == 0 then ok c' else if dup_granted then in_base else fault

  unfoldable pub handle_path : (handle : ℕ) → List ℕ → Caches → Run Caches
  handle_path handle path c = do
    t ← remove_hash c.handle_path_map handle
    r ← Htable.insert setup.grants (setup.fresh_path t) t handle path
    ok (record c { handle_path_map = r.0 })

  unfoldable pub fetch_attr : List ℕ → Caches → Run (Option Stat × Caches)
  fetch_attr path c =
      get_attr setup.attr_config c.attr_cache path >>= λ r. ok (r.1, record c { attr_cache = r.0 })

  unfoldable pub store_attr : List ℕ → Stat → Caches → Run (Bool × Caches)
  store_attr path attr c =
      put_attr setup.attr_config setup.attr_memory c.attr_cache path attr >>= λ r.
      ok (is_ok r.1, record c { attr_cache = r.0 })

  unfoldable pub inval_attr : List ℕ → Caches → Run Caches
  inval_attr path c = invalidate_file setup.attr_config c.attr_cache path >>= λ r.
      ok (record c { attr_cache = r.0 })

  -- The buffer's bytes on a hit.
  unfoldable pub fetch_symlink :
      List ℕ → (buffer_size : ℕ) → Caches → Run (Option (List ℕ) × Caches)
  fetch_symlink path buffer_size c =
      get_symlink setup.symlink_config c.symlink_cache path buffer_size >>= λ r.
      ok (r.1, record c { symlink_cache = r.0 })

  unfoldable pub store_symlink : (path symlink : List ℕ) → Caches → Run (Bool × Caches)
  store_symlink path symlink c =
      put_symlink setup.symlink_config setup.symlink_memory c.symlink_cache path symlink >>= λ r.
      ok (is_ok r.1, record c { symlink_cache = r.0 })

  unfoldable pub rename_all : (oldpath newpath : List ℕ) → Caches → Run Caches
  rename_all oldpath newpath c = do
    a ← rename_file setup.attr_config setup.attr_memory c.attr_cache oldpath newpath
    d ← rename_file setup.dir_config setup.dir_memory c.dir_cache oldpath newpath
    l ← rename_file setup.symlink_config setup.symlink_memory c.symlink_cache oldpath newpath
    ok (record c { attr_cache = a.0; dir_cache = d.0; symlink_cache = l.0 })

  unfoldable pub dir_exists : List ℕ → Caches → Run (Bool × Caches)
  dir_exists path c = peek_dir setup.dir_config c.dir_cache path >>= λ r.
      ok (elim r.1 [ none ↦ false | some h ↦ true ], record c { dir_cache = r.0 })
