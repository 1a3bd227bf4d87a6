-- ===== src/Cached/Readdir.antt =====
-- Reading directories through the cache of listings in endp/cached.c.
use sftfs.Prelude.{
  ℕ, zero, suc, Bool, true, false, Option, none, some, List, Run, ok, fault, ◌>>=◌, if◌then◌else◌,
  ◌==◌, length,
}
use sftfs.Str
use sftfs.Str.{Str, Heap}
use sftfs.Sftp.{Stat}
use sftfs.Sftp.Errno.{Rc}
use sftfs.Cache.Core.{load}
use sftfs.Cache.File.{set_data}
use sftfs.Cache.Dir.{
  DirRc, dir_ok, add_entry_failed, read_dir, add_dir_entry, take_dir, give_dir, drop_dir,
}
use sftfs.Endpoint.{Callee, Direntry, zero_stat}
use sftfs.Cached.{Caches, Setup, store_attr}
use sftfs.Cached.Entries.{push_entry, pop_entry, entry_path}

abbrev pub is_zero : Rc → Bool
is_zero (Rc.count n) = n == 0
is_zero (Rc.minus n) = n == 0

-- The names in a listing's bytes are at most as many as the bytes, which is fuel enough.
unfoldable pub without_attr_loop : {V : Type 0} → ℕ → List ℕ → Callee V → V → Run V
unfolding read_dir
without_attr_loop zero h callee v = fault
without_attr_loop (suc fuel) h callee v = read_dir h >>= λ r. elim r.0 [
  | none ↦ ok v
  | some name ↦ callee (record { name = name; stat = zero_stat }) v >>= λ q.
      let rest = without_attr_loop fuel r.1 callee q.1 in if q.0 then ok q.1 else rest
]

unfoldable pub fetch_dir_entries_without_attr : {V : Type 0} → List ℕ → Callee V → V → Run V
unfolding without_attr_loop
fetch_dir_entries_without_attr h callee v = without_attr_loop (suc (length h)) h callee v

-- `getattr` is the function of that name, on the state `S` of the caches and the endpoint.
module _ {S V : Type 0} (heap : Heap) (getattr : List ℕ → Stat → S → Run ((Rc × Stat) × S)) where
  unfoldable pub with_attr_loop :
      ℕ → (path_size : ℕ) → Str → List ℕ → Callee V → V → S → Run (Bool × V × S)
  unfolding read_dir push_entry pop_entry entry_path
  with_attr_loop zero n s h callee v st = fault
  with_attr_loop (suc fuel) n s h callee v st = read_dir h >>= λ r. elim r.0 [
    | none ↦ ok (true, v, st)
    | some name ↦ push_entry heap s name >>= λ p. elim p.0 [
      | false ↦ ok (false, v, st)
      | true ↦ do
        path ← entry_path p.1
        a ← getattr path zero_stat st
        elim (is_zero a.0.0) [
          | false ↦ ok (false, v, a.1)
          | true ↦ do
            q ← callee (record { name = name; stat = a.0.1 }) v
            s' ← pop_entry heap p.1 n
            let rest = with_attr_loop fuel n s' r.1 callee q.1 a.1 in
                if q.0 then ok (true, q.1, a.1) else rest
        ]
    ]
  ]

  -- Whether it succeeded, with the callee's data and the state.
  unfoldable pub fetch_dir_entries_with_attr :
      (path h : List ℕ) → Callee V → V → S → Run (Bool × V × S)
  unfolding with_attr_loop
  fetch_dir_entries_with_attr path h callee v st =
      Str.create heap (some path) (length path) >>= λ r. elim r [
        | none ↦ ok (false, v, st)
        | some s ↦ with_attr_loop (suc (length h)) (length path) s h callee v st
      ]

-- `struct cached_readdir_callee_context` but for the callee, its data and the caches. `dir` is the
-- address of the directory's data; the first two are whether the C numbers are not 0.
pub record Context : Type 0 where
  pub cachee_rc : Bool
  pub failed : Bool
  pub path : Str
  pub dir : ℕ

module _ (setup : Setup) where
  -- The directory's data are in the cache of listings.
  unfoldable pub add_entry : (name : List ℕ) → Context → Caches → Run (DirRc × Caches)
  unfolding add_dir_entry set_data
  add_entry name ctx c = do
    e ← load c.dir_cache ctx.dir
    r ← add_dir_entry setup.heap e.payload.data_of name
    ok (r.1, record c { dir_cache = set_data ctx.dir r.0 c.dir_cache })

  -- From the pushing of the entry's path on.
  unfoldable pub store_entry_attr : Direntry → Context → Caches → Run (Bool × Context × Caches)
  unfolding push_entry pop_entry entry_path store_attr
  store_entry_attr d ctx c = push_entry setup.heap ctx.path d.name >>= λ p. elim p.0 [
    | false ↦ ok (true, record ctx { path = p.1; failed = true }, c)
    | true ↦ do
      path ← entry_path p.1
      stored ← store_attr setup path d.stat c
      s ← pop_entry setup.heap p.1 ctx.path.size
      elim stored.0 [
        | true ↦ ok (false, record ctx { path = s }, stored.1)
        | false ↦ ok (true, record ctx { path = s; failed = true }, stored.1)
      ]
  ]

  -- The callee that is given to the endpoint, around the caller's one.
  unfoldable pub cached_readdir_callee : {V : Type 0} → Callee V → Callee (V × Context × Caches)
  unfolding add_entry store_entry_attr
  cached_readdir_callee callee d (v, ctx, c) = do
    q ← if ctx.cachee_rc then ok (true, v) else callee d v
    let ctx' = record ctx { cachee_rc = q.0 } in
        add_entry d.name ctx' c >>= λ r. elim r.0 [
          | add_entry_failed ↦ ok (true, (q.1, record ctx' { failed = true }, r.1))
          | dir_ok ↦ store_entry_attr d ctx' r.1 >>= λ t. ok (t.0, (q.1, t.1, t.2))
        ]

  -- The context, or that there is no memory. Its fields were cleared by the last teardown, so the
  -- assertions hold.
  unfoldable pub setup_dir_caching : List ℕ → Caches → Run (Option Context × Caches)
  unfolding take_dir
  setup_dir_caching path c = Str.create setup.heap (some path) (length path) >>= λ r. elim r [
    | none ↦ ok (none, c)
    | some s ↦ take_dir setup.dir_config setup.dir_memory c.dir_cache path >>= λ t. elim t.1 [
      | none ↦ ok (none, record c { dir_cache = t.0 })
      | some p ↦ ok (
        some (record { cachee_rc = false; failed = false; path = s; dir = p }),
        record c { dir_cache = t.0 },
      )
    ]
  ]

  unfoldable pub teardown_dir_caching : List ℕ → Context → Caches → Run Caches
  unfolding give_dir drop_dir
  teardown_dir_caching path ctx c =
      let end =
        if ctx.failed
        then drop_dir setup.dir_config c.dir_cache path ctx.dir
        else give_dir setup.dir_config c.dir_cache path ctx.dir in
      end >>= λ r. ok (record c { dir_cache = r.0 })
