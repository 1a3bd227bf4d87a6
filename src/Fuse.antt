-- ===== src/Fuse.antt =====
-- core.c: the operations that FUSE calls, over any endpoint.
--
-- `FileInfo` is `struct fuse_file_info`; a pointer to one that is NULL is `none`. Buffers are arguments
-- and results, as in Endpoint. Where a call stores no handle, `junk` is what the variable on the stack
-- held.
pub mod Access
pub mod Listing
use Prim.Native.Nat.{bit_and}
use sftfs.Prelude.{
  ℕ, Bool, true, false, ◌&&◌, ◌||◌, not, Option, none, some, List, [], Run, ok, fault, ◌>>=◌,
  if◌then◌else◌, ◌==◌,
}
use sftfs.Sftp.{Stat}
use sftfs.Sftp.Api.{Statvfs}
use sftfs.Sftp.Errno.{Rc, done, minus, eacces, enomem}
use sftfs.Endpoint.{Endpoint, Callee}
use sftfs.Cached.Readdir.{is_zero}

pub record FileInfo : Type 0 where
  pub fh : ℕ
  pub flags : ℕ

-- `fuse_fill_dir_t` with its buffer: whether the result is not 0, for a name and its attributes.
abbrev pub FillDir : Type 0 → Type 0
FillDir B = List ℕ → Stat → B → Bool × B

-- The buffer, and whether `rc` is set to -ENOMEM.
unfoldable pub readdir_callee : {B : Type 0} → FillDir B → Callee (B × Bool)
readdir_callee fill_dir d (buf, rc) =
    let (full, buf') = fill_dir d.name d.stat buf in ok (full, (buf', full))

-- A bit of `mode` whose bit of the attributes is not set.
abbrev pub lacks : (mode st_mode bit perm_bit : ℕ) → Bool
lacks mode st_mode bit perm_bit = not (bit_and mode bit == 0) && (bit_and st_mode perm_bit == 0)

-- R_OK, W_OK and X_OK are 4, 2 and 1; S_IRUSR, S_IWUSR and S_IXUSR are 256, 128 and 64.
unfoldable pub access_denied : (mode st_mode : ℕ) → Bool
access_denied mode st_mode =
    lacks mode st_mode 4 256 || (lacks mode st_mode 2 128 || lacks mode st_mode 1 64)

module _ (endp : Endpoint) where
  open endp use {World}

  unfoldable pub getattr :
      (path : List ℕ) → Stat → Option FileInfo → World → Run ((Rc × Stat) × World)
  getattr path stat none w = endp.getattr path 0 stat w
  getattr path stat (some fi) w = endp.getattr path fi.fh stat w

  -- The assertion fails on an empty buffer.
  unfoldable pub readlink : (path buf : List ℕ) (bufsiz : ℕ) → World → Run ((Rc × List ℕ) × World)
  readlink path buf bufsiz w = if bufsiz == 0 then fault else endp.readlink path buf bufsiz w

  -- What a call that stores a handle makes of the file information.
  abbrev pub with_handle :
      (junk : ℕ) → FileInfo → (Rc × Option ℕ) × World → Run ((Rc × FileInfo) × World)
  with_handle junk fi r =
      let fh : ℕ = elim r.0.1 [ none ↦ junk | some h ↦ h ] in
      ok ((r.0.0, record fi { fh = fh }), r.1)

  unfoldable pub opendir :
      (junk : ℕ) (path : List ℕ) → FileInfo → World → Run ((Rc × FileInfo) × World)
  opendir junk path fi w = endp.opendir path w >>= with_handle junk fi

  unfoldable pub open_file :
      (junk : ℕ) (path : List ℕ) → FileInfo → World → Run ((Rc × FileInfo) × World)
  open_file junk path fi w = endp.open_file path fi.flags w >>= with_handle junk fi

  unfoldable pub create :
      (junk : ℕ) (path : List ℕ) (mode : ℕ) → FileInfo → World → Run ((Rc × FileInfo) × World)
  create junk path mode fi w = endp.create path mode w >>= with_handle junk fi

  -- Of the flags only SFTFS_ENDP_READDIR_PLUS is passed on.
  unfoldable pub readdir :
      {B : Type 0}
      → (path : List ℕ) → B
      → FillDir B
      → FileInfo
      → (flags : ℕ) → World
      → Run ((Rc × B) × World)
  unfolding readdir_callee
  readdir path buf fill_dir fi flags w =
      endp.readdir path fi.fh (bit_and flags 1) (readdir_callee fill_dir) (buf, false) w >>= λ r.
      let (buf', failed) = r.0.1 in ok (((if failed then minus enomem else r.0.0), buf'), r.1)

  -- `attr` is what the stack held; the attributes are asked for without an open file.
  unfoldable pub access : (attr : Stat) (path : List ℕ) (mode : ℕ) → World → Run (Rc × World)
  unfolding getattr access_denied
  access attr path mode w = getattr path attr none w >>= λ r.
      let rc = if access_denied mode r.0.1.mode then minus eacces else r.0.0 in
      ok ((if is_zero r.0.0 then rc else r.0.0), r.1)

  -- The other operations pass their arguments, or the handle, on.
  unfoldable pub mkdir : (path : List ℕ) (mode : ℕ) → World → Run (Rc × World)
  mkdir path mode w = endp.mkdir path mode w

  unfoldable pub unlink : (path : List ℕ) → World → Run (Rc × World)
  unlink path w = endp.unlink path w

  unfoldable pub rmdir : (path : List ℕ) → World → Run (Rc × World)
  rmdir path w = endp.rmdir path w

  unfoldable pub symlink : (target linkpath : List ℕ) → World → Run (Rc × World)
  symlink target linkpath w = endp.symlink target linkpath w

  unfoldable pub rename : (oldpath newpath : List ℕ) (flags : ℕ) → World → Run (Rc × World)
  rename oldpath newpath flags w = endp.rename oldpath newpath flags w

  unfoldable pub chmod : (path : List ℕ) (mode : ℕ) → World → Run (Rc × World)
  chmod path mode w = endp.chmod path mode w

  unfoldable pub chown : (path : List ℕ) (uid gid : ℕ) → World → Run (Rc × World)
  chown path uid gid w = endp.chown path uid gid w

  unfoldable pub statfs : (path : List ℕ) → World → Run ((Rc × Option Statvfs) × World)
  statfs path w = endp.statfs path w

  unfoldable pub utimens : (path : List ℕ) (atime mtime : ℕ × ℕ) → World → Run (Rc × World)
  utimens path atime mtime w = endp.utimens path atime mtime w

  unfoldable pub releasedir : FileInfo → World → Run (Rc × World)
  releasedir fi w = endp.closedir fi.fh w

  unfoldable pub release : FileInfo → World → Run (Rc × World)
  release fi w = endp.close fi.fh w

  unfoldable pub read :
      (buf : List ℕ) (size off : ℕ) → FileInfo → World → Run ((Rc × List ℕ) × World)
  read buf size off fi w = endp.read fi.fh buf size off w

  unfoldable pub write : (buf : List ℕ) (off : ℕ) → FileInfo → World → Run (Rc × World)
  write buf off fi w = endp.write fi.fh buf off w
