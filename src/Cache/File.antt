-- ===== src/Cache/File.antt =====
-- cache/file.c: a cache of files by their paths.
--
-- A path is a text of bytes without a NUL. The payload of an entry has the path and the file's data,
-- and a pointer to the data stands for the entry: it is the entry's address.
pub mod Paths
use Prim.Native.Nat.{bit_xor}
use mathlib.Core.List.{map}
use sftfs.Prelude.{
  ℕ, zero, suc, ◌*◌, ◌%◌, Bool, true, false, ◌&&◌, Option, none, some, length, List, [], ◌∷◌, Run,
  ok, fault, ◌>>=◌, if◌then◌else◌, ◌==◌, word,
}
use sftfs.Htable.{Entry, Grants}
use sftfs.Str
use sftfs.Str.{Str, Heap}
use sftfs.Str.Room.{text}
use sftfs.Cache.Core.{
  Cache, CacheRc, Config, cache_ok, unexpected_entry, load, take, give, alloc, free, rehash_entry,
  invalidate,
}
use sftfs.Cache.Core.Walk.{peek, peek_next}

pub record FileEntry {ℓ} (D : Type ℓ) : Type ℓ where
  -- `none` is NULL.
  pub path : Option Str
  pub data_of : D

-- The allocators: of strings, of tables, and of an entry with the bytes behind its node, or NULL.
pub record Memory {ℓ} (D U : Type ℓ) : Type ℓ where
  pub heap : Heap
  pub grants : Grants
  pub fresh : Cache (FileEntry D) U → Option (ℕ × FileEntry D)

-- PATH_MISMATCH, DOES_NOT_EXIST and RENAME_FAILED are the same number.
pub data FileRc : Type 0 where
  core : CacheRc → FileRc
  path_mismatch : FileRc

unfoldable pub fnv1a : ℕ → List ℕ → ℕ
fnv1a hash [] = hash
fnv1a hash (b ∷ bs) = fnv1a (bit_xor hash b * 16777619 % word) bs

unfoldable pub fnv1a_hash : List ℕ → ℕ
unfolding fnv1a
fnv1a_hash str = fnv1a 2166136261 str

-- `!strncmp(s->c, c, s->size)`: as many bytes as the string has are compared; none of them is a NUL.
unfoldable pub str_eq : (s c : List ℕ) → Bool
str_eq [] c = true
str_eq (b ∷ s) [] = false
str_eq (b ∷ s) (x ∷ c) = (b == x) && str_eq s c

-- Reading a path that is NULL is a fault; the bytes are those that `strncmp` reads.
unfoldable pub path_eq : Option Str → (path : List ℕ) → Run Bool
unfolding str_eq
path_eq none path = fault
path_eq (some s) path = ok (str_eq (text s) path)

module _ {ℓ} {D U : Type ℓ} where
  -- A write through a pointer to an entry's payload.
  unfoldable pub write_entry :
      ℕ → (FileEntry D → FileEntry D) → Cache (FileEntry D) U → Cache (FileEntry D) U
  write_entry p f c =
      let t = c.table in
      let write : Entry (FileEntry D) → Entry (FileEntry D) =
        λ e. if e.addr == p then record e { payload = f e.payload } else e in
      record c { table = record t { buckets = map (map write) t.buckets } }

  unfoldable pub set_path : ℕ → Option Str → Cache (FileEntry D) U → Cache (FileEntry D) U
  unfolding write_entry
  set_path p s = write_entry p λ e. record e { path = s }

  unfoldable pub set_data : ℕ → D → Cache (FileEntry D) U → Cache (FileEntry D) U
  unfolding write_entry
  set_data p d = write_entry p λ e. record e { data_of = d }

module _ {ℓ} {D U : Type ℓ} (config : Config (FileEntry D) U) where
  -- The loop of `find_entry` from an entry or NULL on.
  unfoldable pub find_loop : ℕ → Cache (FileEntry D) U → List ℕ → Option ℕ → Run (Option ℕ)
  unfolding path_eq
  find_loop zero c path entry = fault
  find_loop (suc fuel) c path none = ok none
  find_loop (suc fuel) c path (some p) = do
    e ← load c p
    same ← path_eq e.payload.path path
    let rest = peek_next c p >>= find_loop fuel c path in if same then ok (some p) else rest

  unfoldable pub find_entry :
      Cache (FileEntry D) U → List ℕ → Run (Cache (FileEntry D) U × Option ℕ)
  unfolding find_loop fnv1a_hash
  find_entry c path = do
    r ← peek config c (fnv1a_hash path)
    let c' = r.0 in
        find_loop (suc (suc c'.table.nr_entries)) c' path r.1 >>= λ found. ok (c', found)

  unfoldable pub peek_file : Cache (FileEntry D) U → List ℕ → Run (Cache (FileEntry D) U × Option D)
  unfolding find_entry
  peek_file c path = find_entry c path >>= λ r. elim r.1 [
    | none ↦ ok (r.0, none)
    | some p ↦ load r.0 p >>= λ e. ok (r.0, some e.payload.data_of)
  ]

  -- `cache_ok` is SFTFS_CACHE_FILE_OK as well: both are 0.
  unfoldable pub invalidate_file :
      Cache (FileEntry D) U → List ℕ → Run (Cache (FileEntry D) U × CacheRc)
  unfolding find_entry
  invalidate_file c path = find_entry c path >>= λ r. elim r.1 [
    | none ↦ ok (r.0, cache_ok)
    | some p ↦ invalidate config r.0 p
  ]

  -- What a core operation returns, as a code of the file cache.
  abbrev pub with_core : Cache (FileEntry D) U × CacheRc → Run (Cache (FileEntry D) U × FileRc)
  with_core r = ok (r.0, core r.1)

  -- Giving back and dropping begin with the comparison of the path.
  abbrev pub if_path_matches :
      Cache (FileEntry D) U
      → List ℕ
      → ℕ
      → Run (Cache (FileEntry D) U × FileRc)
      → Run (Cache (FileEntry D) U × FileRc)
  if_path_matches c path p act = do
    e ← load c p
    same ← path_eq e.payload.path path
    if same then act else ok (c, path_mismatch)

  unfoldable pub give_file :
      Cache (FileEntry D) U → (path : List ℕ) (data_at : ℕ) → Run (Cache (FileEntry D) U × FileRc)
  unfolding path_eq
  give_file c path p = if_path_matches c path p (give config c p >>= with_core)

  unfoldable pub drop_file :
      Cache (FileEntry D) U → (path : List ℕ) (data_at : ℕ) → Run (Cache (FileEntry D) U × FileRc)
  unfolding path_eq set_path
  drop_file c path p =
      if_path_matches c path p (free config (set_path p none c) (some p) >>= with_core)

  module _ (memory : Memory D U) where
    -- The new entry gets its path, or is freed again.
    unfoldable pub construct_file :
        Cache (FileEntry D) U → List ℕ → ℕ → Run (Cache (FileEntry D) U × Option ℕ)
    unfolding set_path
    construct_file c path p = do
      s ← Str.create memory.heap (some path) (length path)
      let c' = set_path p s c in
          elim s [
            | some _ ↦ ok (c', some p)
            | none ↦ free config c' (some p) >>= λ r. ok (r.0, none)
          ]

    -- The data's address and `is_new`, or NULL.
    unfoldable pub take_file :
        Cache (FileEntry D) U → List ℕ → Run (Cache (FileEntry D) U × Option (ℕ × Bool))
    unfolding find_entry construct_file
    take_file c path = find_entry c path >>= λ r. elim r.1 [
      | some p ↦ take config r.0 p >>= λ t. elim t.1 [
        | none ↦ ok (t.0, none)
        | some q ↦ ok (t.0, some (q, false))
      ]
      | none ↦ alloc config memory.grants (memory.fresh r.0) r.0 (fnv1a_hash path) >>= λ a.
          elim a.1 [
            | none ↦ ok (a.0, none)
            | some q ↦ construct_file a.0 path q >>= λ b. elim b.1 [
              | none ↦ ok (b.0, none)
              | some q' ↦ ok (b.0, some (q', true))
            ]
          ]
    ]

    -- From the entry that was taken on. Where the new path gets no memory the entry stays taken.
    unfoldable pub rename_taken :
        Cache (FileEntry D) U → (newpath : List ℕ) → ℕ → Run (Cache (FileEntry D) U × FileRc)
    unfolding set_path
    rename_taken c newpath q = load c q >>= λ e. elim e.payload.path [
      | none ↦ fault
      | some s ↦ Str.assign memory.heap s newpath >>= λ r. elim r [
        | none ↦ ok (c, path_mismatch)
        | some s' ↦ rehash_entry (set_path q (some s') c) q (fnv1a_hash newpath) >>= λ r'.
            elim r'.1 [
              | cache_ok ↦ give config r'.0 q >>= with_core
              | unexpected_entry ↦ ok (r'.0, core unexpected_entry)
            ]
      ]
    ]

    unfoldable pub rename_file :
        Cache (FileEntry D) U → (oldpath newpath : List ℕ) → Run (Cache (FileEntry D) U × FileRc)
    unfolding find_entry rename_taken
    rename_file c oldpath newpath = find_entry c oldpath >>= λ r. elim r.1 [
      | none ↦ ok (r.0, path_mismatch)
      | some p ↦ take config r.0 p >>= λ t. elim t.1 [
        | none ↦ ok (t.0, path_mismatch)
        | some q ↦ rename_taken t.0 newpath q
      ]
    ]
