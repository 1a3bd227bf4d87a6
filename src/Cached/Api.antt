-- ===== src/Cached/Api.antt =====
-- include/endp/cached.h: the operations of an endpoint with the caches in front.
--
-- The operations that it does not name, reading and statfs and access, are the endpoint's own.
use sftfs.Prelude.{
  ℕ, Bool, true, false, not, Option, none, some, List, Run, ok, fault, ◌>>=◌, if◌then◌else◌, ◌==◌,
  c_string,
}
use sftfs.Str.{head_is}
use sftfs.Sftp.{Stat}
use sftfs.Sftp.Errno.{Rc, done}
use sftfs.Cache.Dir.{peek_dir}
use sftfs.Endpoint.{Endpoint, Callee, is_plus}
use sftfs.Cached.{
  Caches, Setup, inval_all_dir, get_handled_path, unhandle_path, handle_path, fetch_attr,
  store_attr, inval_attr, fetch_symlink, store_symlink, rename_all, dir_exists,
}
use sftfs.Cached.Readdir.{
  is_zero, fetch_dir_entries_without_attr, fetch_dir_entries_with_attr, cached_readdir_callee,
  setup_dir_caching, teardown_dir_caching,
}

abbrev pub is_negative : Rc → Bool
is_negative (Rc.count n) = false
is_negative (Rc.minus n) = not (n == 0)

module _ (base : Endpoint) (setup : Setup) where
  open base use {World}

  pub record Cached : Type 0 where
    pub caches : Caches
    pub world : World

  -- A call of the endpoint behind.
  abbrev pub forward : {A : Type 0} → (World → Run (A × World)) → Cached → Run (A × Cached)
  forward f s = f s.world >>= λ r. ok (r.0, record s { world = r.1 })

  -- A step on the caches.
  abbrev pub on_caches : (Caches → Run Caches) → Cached → Run Cached
  on_caches f s = f s.caches >>= λ c. ok (record s { caches = c })

  -- `if (rc == 0)` on the caches, after a call.
  abbrev pub then_caches : (Caches → Run Caches) → Rc × Cached → Run (Rc × Cached)
  then_caches f r =
      let next = on_caches f r.1 >>= λ s. ok (r.0, s) in if is_zero r.0 then next else ok r

  unfoldable pub cached_getattr :
      (path : List ℕ) (file : ℕ) → Stat → Cached → Run ((Rc × Stat) × Cached)
  unfolding fetch_attr store_attr
  cached_getattr path file attr s =
      let looked_up = fetch_attr setup path s.caches >>= λ r. elim r.0 [
        | some a ↦ ok ((done, a), record s { caches = r.1 })
        | none ↦ forward (base.getattr path file attr) (record s { caches = r.1 }) >>= λ g.
            let stored = store_attr setup path g.0.1 g.1.caches >>= λ c.
            ok (g.0, record g.1 { caches = c.1 }) in
            if is_zero g.0.0 then stored else ok g
      ] in
      if head_is b'/' path then looked_up else fault

  unfoldable pub cached_readlink :
      (path buf : List ℕ) (bufsiz : ℕ) → Cached → Run ((Rc × List ℕ) × Cached)
  unfolding fetch_symlink store_symlink c_string
  cached_readlink path buf bufsiz s =
      let looked_up = fetch_symlink setup path bufsiz s.caches >>= λ r. elim r.0 [
        | some b ↦ ok ((done, b), record s { caches = r.1 })
        | none ↦ forward (base.readlink path buf bufsiz) (record s { caches = r.1 }) >>= λ g.
            let stored = (do
              t ← c_string g.0.1
              c ← store_symlink setup path t.0 g.1.caches
              ok (g.0, record g.1 { caches = c.1 })) in
            if is_zero g.0.0 then stored else ok g
      ] in
      if head_is b'/' path then looked_up else fault

  -- `granted` is the allocation of `strndup` in `inval_all_dir`.
  module _ (granted : Bool) where
    unfoldable pub cached_mkdir : (path : List ℕ) (mode : ℕ) → Cached → Run (Rc × Cached)
    unfolding inval_all_dir
    cached_mkdir path mode s =
        forward (base.mkdir path mode) s >>= then_caches (inval_all_dir setup granted path)

    unfoldable pub cached_unlink : (path : List ℕ) → Cached → Run (Rc × Cached)
    unfolding inval_all_dir
    cached_unlink path s =
        forward (base.unlink path) s >>= then_caches (inval_all_dir setup granted path)

    unfoldable pub cached_rmdir : (path : List ℕ) → Cached → Run (Rc × Cached)
    unfolding inval_all_dir
    cached_rmdir path s =
        forward (base.rmdir path) s >>= then_caches (inval_all_dir setup granted path)

    unfoldable pub cached_symlink : (target linkpath : List ℕ) → Cached → Run (Rc × Cached)
    unfolding inval_all_dir
    cached_symlink target linkpath s =
        forward (base.symlink target linkpath) s
        >>= then_caches (inval_all_dir setup granted linkpath)

    unfoldable pub cached_create :
        (path : List ℕ) (mode : ℕ) → Cached → Run ((Rc × Option ℕ) × Cached)
    unfolding inval_all_dir
    cached_create path mode s = forward (base.create path mode) s >>= λ r.
        then_caches (inval_all_dir setup granted path) (r.0.0, r.1) >>= λ t. ok ((t.0, r.0.1), t.1)

  unfoldable pub cached_rename : (oldpath newpath : List ℕ) (flags : ℕ) → Cached → Run (Rc × Cached)
  unfolding rename_all
  cached_rename oldpath newpath flags s =
      forward (base.rename oldpath newpath flags) s
      >>= then_caches (rename_all setup oldpath newpath)

  unfoldable pub cached_chmod : (path : List ℕ) (mode : ℕ) → Cached → Run (Rc × Cached)
  unfolding inval_attr
  cached_chmod path mode s =
      forward (base.chmod path mode) s >>= then_caches (inval_attr setup path)

  unfoldable pub cached_chown : (path : List ℕ) (uid gid : ℕ) → Cached → Run (Rc × Cached)
  unfolding inval_attr
  cached_chown path uid gid s =
      forward (base.chown path uid gid) s >>= then_caches (inval_attr setup path)

  unfoldable pub cached_utimens : (path : List ℕ) (atime mtime : ℕ × ℕ) → Cached → Run (Rc × Cached)
  unfolding inval_attr
  cached_utimens path atime mtime s =
      forward (base.utimens path atime mtime) s >>= then_caches (inval_attr setup path)

  -- The handle 0 stands for a listing in the cache.
  abbrev pub dir_is_cached : ℕ → Bool
  dir_is_cached dir = dir == 0

  unfoldable pub cached_opendir : (path : List ℕ) → Cached → Run ((Rc × Option ℕ) × Cached)
  unfolding dir_exists
  cached_opendir path s = dir_exists setup path s.caches >>= λ r.
      let s' = record s { caches = r.1 } in
      let opened = forward (base.opendir path) s' in if r.0 then ok ((done, some 0), s') else opened

  unfoldable pub cached_closedir : (dir : ℕ) → Cached → Run (Rc × Cached)
  cached_closedir dir s =
      let closed = forward (base.closedir dir) s in
      if dir_is_cached dir then ok (done, s) else closed

  unfoldable pub cached_open : (path : List ℕ) (flags : ℕ) → Cached → Run ((Rc × Option ℕ) × Cached)
  unfolding handle_path
  cached_open path flags s = forward (base.open_file path flags) s >>= λ r. elim r.0.1 [
    | none ↦ if is_zero r.0.0 then fault else ok r
    | some file ↦
        then_caches (handle_path setup file path) (r.0.0, r.1) >>= λ t. ok ((t.0, some file), t.1)
  ]

  unfoldable pub cached_write : (file : ℕ) (buf : List ℕ) (off : ℕ) → Cached → Run (Rc × Cached)
  unfolding get_handled_path inval_attr
  cached_write file buf off s = forward (base.write file buf off) s >>= λ r.
      if is_negative r.0 then ok r else elim (get_handled_path r.1.caches file) [
        | none ↦ ok r
        | some path ↦ on_caches (inval_attr setup path) r.1 >>= λ s'. ok (r.0, s')
      ]

  unfoldable pub cached_close : (file : ℕ) → Cached → Run (Rc × Cached)
  unfolding unhandle_path
  cached_close file s = on_caches (λ c. unhandle_path c file) s >>= forward (base.close file)

  module _ {V : Type 0} (path : List ℕ) (flags : ℕ) (callee : Callee V) where
    -- The first of the two is whether the listing in the cache was enough.
    unfoldable pub fetch_dir_entries : V → Cached → Run (Bool × V × Cached)
    unfolding cached_getattr fetch_dir_entries_with_attr fetch_dir_entries_without_attr
    fetch_dir_entries v s = peek_dir setup.dir_config s.caches.dir_cache path >>= λ r.
        let c = s.caches in
        let s' = record s { caches = record c { dir_cache = r.0 } } in
        let attr = λ (p : List ℕ). cached_getattr p 0 in
        elim r.1 [
          | none ↦ ok (false, v, s')
          | some h ↦
              let plain = fetch_dir_entries_without_attr h callee v >>= λ v'. ok (true, v', s') in
              let plus = fetch_dir_entries_with_attr setup.heap attr path h callee v s' in
              if is_plus flags then plus else plain
        ]

    -- Reading from the endpoint behind, with its listing put into the cache where there is memory.
    unfoldable pub read_through : (dir : ℕ) → V → Cached → Run ((Rc × V) × Cached)
    unfolding setup_dir_caching teardown_dir_caching cached_readdir_callee
    read_through dir v s = setup_dir_caching setup path s.caches >>= λ r. elim r.0 [
      | none ↦ forward (base.readdir path dir flags callee v) (record s { caches = r.1 })
      | some ctx ↦
          base.readdir path dir flags (cached_readdir_callee setup callee) (v, ctx, r.1) s.world
          >>= λ q.
              let (v', ctx', c') = q.0.1 in
              teardown_dir_caching setup path ctx' c' >>= λ c''.
              ok ((q.0.0, v'), record { caches = c''; world = q.1 })
    ]

    unfoldable pub cached_readdir : (dir : ℕ) → V → Cached → Run ((Rc × V) × Cached)
    unfolding fetch_dir_entries read_through
    cached_readdir dir v s =
        let direct = read_through dir v s in
        let reopened = λ (v' : V) (s' : Cached). forward (base.opendir path) s' >>= λ o.
        let read_opened = λ (d : ℕ).
          read_through d v' o.1 >>= λ q. forward (base.closedir d) q.1 >>= λ z. ok (q.0, z.1) in
        if is_zero o.0.0
        then elim o.0.1 [ none ↦ fault | some d ↦ read_opened d ]
        else ok ((o.0.0, v'), o.1) in
        let cached = fetch_dir_entries v s >>= λ f.
        let again = reopened f.1 f.2 in if f.0 then ok ((done, f.1), f.2) else again in
        if dir_is_cached dir then cached else direct
