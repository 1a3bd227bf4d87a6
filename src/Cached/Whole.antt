-- ===== src/Cached/Whole.antt =====
-- The endpoint that include/endp/cached.h makes of another one, and what is read from it.
use sftfs.Prelude.{ℕ, Bool, ◌≡◌, some, List, ok, ◌>>=◌, >>=_assoc, false}
use sftfs.Str.{Str}
use sftfs.Sftp.Errno.{done}
use sftfs.Cache.Dir.{peek_dir}
use sftfs.Cache.Dir.Listing.{Lists}
use sftfs.Endpoint.{Endpoint, Callee, is_plus}
use sftfs.Cached.{Setup, Files}
use sftfs.Cached.Visit.{visit, fetch-visit}
use sftfs.Cached.Api.{
  Cached, forward, cached_getattr, cached_readlink, cached_mkdir, cached_unlink, cached_rmdir,
  cached_symlink, cached_create, cached_rename, cached_chmod, cached_chown, cached_utimens,
  cached_opendir, cached_closedir, cached_open, cached_write, cached_close, cached_readdir,
  fetch_dir_entries,
}

-- `granted` is the allocation of the copy of a directory's path.
abbrev pub cached_endpoint : Endpoint → Setup → (granted : Bool) → Endpoint
cached_endpoint base setup granted = record {
  World = Cached base setup;
  getattr = cached_getattr base setup;
  readlink = cached_readlink base setup;
  mkdir = cached_mkdir base setup granted;
  unlink = cached_unlink base setup granted;
  rmdir = cached_rmdir base setup granted;
  symlink = cached_symlink base setup granted;
  rename = cached_rename base setup;
  chmod = cached_chmod base setup;
  chown = cached_chown base setup;
  opendir = cached_opendir base setup;
  readdir = λ path dir flags callee. cached_readdir base setup path flags callee dir;
  closedir = cached_closedir base setup;
  open_file = cached_open base setup;
  read = λ file buf size off. forward base setup (base.read file buf size off);
  write = cached_write base setup;
  statfs = λ path. forward base setup (base.statfs path);
  close = cached_close base setup;
  access = λ path mode. forward base setup (base.access path mode);
  create = cached_create base setup granted;
  utimens = cached_utimens base setup;
}

module _ {V : Type 0} (base : Endpoint) (setup : Setup) (path : List ℕ) (callee : Callee V) where
  -- Reading a directory through the handle 0 and without attributes, where the cache has a listing
  -- for its path that holds names: the callee gets every name in order until it asks to stop, the
  -- result is 0, and neither the endpoint behind is called nor anything cached but what expires.
  pub cached_readdir-visit :
      (flags : ℕ) (s : Cached base setup) (c : Files _) (l : Str) (names : List (List ℕ)) (v : V)
      → is_plus flags ≡ false
      → peek_dir setup.dir_config s.caches.dir_cache path ≡ ok (c, some l.c)
      → Lists l names
      → let caches = s.caches in
        cached_readdir base setup path flags callee 0 v s
        ≡ visit callee names v >>= λ v'.
            ok ((done, v'), record s { caches = record caches { dir_cache = c } })
  unfolding cached_readdir fetch_dir_entries
  cached_readdir-visit flags s c l names v plain peeked listed =
      rw (peeked, plain, fetch-visit callee l names v listed) (>>=_assoc (visit callee names v) _ _)
