-- ===== src/Sftp/Api.antt =====
-- The part of libssh that endp/sftp.c calls. Handles are numbers, 0 for NULL.
use sftfs.Prelude.{ℕ, Bool, Option, List}

-- The fields of `sftp_attributes` that the code reads.
pub record Attributes : Type 0 where
  pub name : List ℕ
  pub permissions : ℕ
  pub size : ℕ
  pub uid : ℕ
  pub gid : ℕ
  pub atime : ℕ
  pub atime_nseconds : ℕ
  pub mtime : ℕ
  pub mtime_nseconds : ℕ

-- The fields of `sftp_statvfs_t`, which are copied one by one.
pub record Statvfs : Type 0 where
  pub f_bsize : ℕ
  pub f_frsize : ℕ
  pub f_blocks : ℕ
  pub f_bfree : ℕ
  pub f_bavail : ℕ
  pub f_files : ℕ
  pub f_ffree : ℕ
  pub f_favail : ℕ
  pub f_fsid : ℕ
  pub f_flag : ℕ
  pub f_namemax : ℕ

-- A read or write that returns a negative number
-- is `none`; a read returns the bytes that it stored.
pub record Libssh : Type 1 where
  pub World : Type 0
  pub get_error : World → ℕ
  pub sftp_new : World → Bool × World
  pub sftp_init : World → Bool × World
  pub sftp_free : World → World
  pub canonicalize_path : List ℕ → World → Option (List ℕ) × World
  pub stat : List ℕ → World → Option Attributes × World
  pub lstat : List ℕ → World → Option Attributes × World
  pub fstat : ℕ → World → Option Attributes × World
  pub readlink : List ℕ → World → Option (List ℕ) × World
  pub mkdir : List ℕ → ℕ → World → Bool × World
  pub unlink : List ℕ → World → Bool × World
  pub rmdir : List ℕ → World → Bool × World
  pub symlink : List ℕ → List ℕ → World → Bool × World
  pub rename : List ℕ → List ℕ → World → Bool × World
  pub chmod : List ℕ → ℕ → World → Bool × World
  pub chown : List ℕ → ℕ → ℕ → World → Bool × World
  pub utimes : List ℕ → ℕ × ℕ → ℕ × ℕ → World → Bool × World
  pub opendir : List ℕ → World → Option ℕ × World
  pub readdir : ℕ → World → Option Attributes × World
  pub dir_eof : ℕ → World → Bool
  pub closedir : ℕ → World → Bool × World
  pub open_file : List ℕ → (access_flags mode : ℕ) → World → Option ℕ × World
  pub seek64 : ℕ → ℕ → World → Bool × World
  pub read : (file size : ℕ) → World → Option (List ℕ) × World
  pub write : ℕ → List ℕ → World → Option ℕ × World
  pub statvfs : List ℕ → World → Option Statvfs × World
  pub close : ℕ → World → Bool × World
