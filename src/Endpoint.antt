-- ===== src/Endpoint.antt =====
-- include/endp.h and include/endp/defs.h: what an endpoint offers, one field for each operation.
--
-- An endpoint works on its `World`. An operation may go wrong, and returns its code and the buffer
-- that it writes beside the world; the buffer is also an argument, since it keeps what is not written.
use Prim.Native.Nat.{bit_and}
use sftfs.Prelude.{ℕ, Bool, List, Run, fault, Option, not, ◌==◌}
use sftfs.Sftp.{Stat}
use sftfs.Sftp.Api.{Statvfs}
use sftfs.Sftp.Errno.{Rc}

pub record Direntry : Type 0 where
  pub name : List ℕ
  pub stat : Stat

-- `struct stat` in an entry that is initialised by its name alone.
abbrev pub zero_stat : Stat
zero_stat = record {
  mode = 0;
  size = 0;
  uid = 0;
  gid = 0;
  nlink = 0;
  atime = 0;
  atime_nsec = 0;
  mtime = 0;
  mtime_nsec = 0;
  ctime = 0;
  ctime_nsec = 0;
}

-- `true` is a result that is not 0. `V` is the type of `user_data`.
abbrev pub Callee : Type 0 → Type 0
Callee V = Direntry → V → Run (Bool × V)

-- SFTFS_ENDP_READDIR_PLUS is 1.
abbrev pub is_plus : ℕ → Bool
is_plus flags = not (bit_and flags 1 == 0)

-- A handle that a call stores is `none` where it stores nothing.
pub record Endpoint : Type 1 where
  pub World : Type 0
  pub getattr : (path : List ℕ) (file : ℕ) → Stat → World → Run ((Rc × Stat) × World)
  pub readlink : (path buf : List ℕ) (bufsiz : ℕ) → World → Run ((Rc × List ℕ) × World)
  pub mkdir : (path : List ℕ) (mode : ℕ) → World → Run (Rc × World)
  pub unlink : (path : List ℕ) → World → Run (Rc × World)
  pub rmdir : (path : List ℕ) → World → Run (Rc × World)
  pub symlink : (target linkpath : List ℕ) → World → Run (Rc × World)
  pub rename : (oldpath newpath : List ℕ) (flags : ℕ) → World → Run (Rc × World)
  pub chmod : (path : List ℕ) (mode : ℕ) → World → Run (Rc × World)
  pub chown : (path : List ℕ) (uid gid : ℕ) → World → Run (Rc × World)
  pub opendir : (path : List ℕ) → World → Run ((Rc × Option ℕ) × World)
  pub readdir :
      {V : Type 0} (path : List ℕ) (dir flags : ℕ) → Callee V → V → World → Run ((Rc × V) × World)
  pub closedir : (dir : ℕ) → World → Run (Rc × World)
  pub open_file : (path : List ℕ) (access_flags : ℕ) → World → Run ((Rc × Option ℕ) × World)
  pub read : (file : ℕ) (buf : List ℕ) (size off : ℕ) → World → Run ((Rc × List ℕ) × World)
  pub write : (file : ℕ) (buf : List ℕ) (off : ℕ) → World → Run (Rc × World)
  pub statfs : (path : List ℕ) → World → Run ((Rc × Option Statvfs) × World)
  pub close : (file : ℕ) → World → Run (Rc × World)
  pub access : (path : List ℕ) (mode : ℕ) → World → Run (Rc × World)
  pub create : (path : List ℕ) (mode : ℕ) → World → Run ((Rc × Option ℕ) × World)
  pub utimens : (path : List ℕ) (atime mtime : ℕ × ℕ) → World → Run (Rc × World)

-- include/endp/none.h: every operation that an endpoint leaves out aborts.
abbrev pub no_endpoint : Type 0 → Endpoint
no_endpoint W = record {
  World = W;
  getattr = λ path file stat w. fault;
  readlink = λ path buf bufsiz w. fault;
  mkdir = λ path mode w. fault;
  unlink = λ path w. fault;
  rmdir = λ path w. fault;
  symlink = λ target linkpath w. fault;
  rename = λ oldpath newpath flags w. fault;
  chmod = λ path mode w. fault;
  chown = λ path uid gid w. fault;
  opendir = λ path w. fault;
  readdir = λ path dir flags callee v w. fault;
  closedir = λ dir w. fault;
  open_file = λ path access_flags w. fault;
  read = λ file buf size off w. fault;
  write = λ file buf off w. fault;
  statfs = λ path w. fault;
  close = λ file w. fault;
  access = λ path mode w. fault;
  create = λ path mode w. fault;
  utimens = λ path atime mtime w. fault;
}
