-- ===== src/Sftp.antt =====
-- endp/sftp.c: the file system operations over a libssh SFTP session.
--
-- libssh is not part of the repository: `Libssh` is what the code calls of it, with a type for the
-- state of session and server. A pointer that a call returns is an `Option`, and a call whose
-- result is only compared with 0 returns whether it succeeded.
pub mod Errno
pub mod Api
pub mod Paths
pub mod Transfer
pub mod Reads
pub mod Whole
pub mod Listing
pub mod Writes
pub mod Renames
pub mod Changes
pub mod Queries
use Prim.Native.Nat.{bit_and}
use sftfs.Prelude.{
  ℕ, zero, suc, ◌+◌, ◌-◌, ◌/◌, Bool, true, false, ◌&&◌, ◌||◌, not, Option, none, some, List, [],
  ◌∷◌, ◌++◌, Run, ok, fault, ◌>>=◌, if◌then◌else◌, ◌==◌, ltb, leb, length, take, strncpy, word,
}
use sftfs.Str
use sftfs.Str.{Str, Heap}
use Errno.{Rc, done, minus, to_errno, eio, eacces, eexist, enomem, eopnotsupp, fx_no_such_file}
use Api.{Libssh, Attributes, Statvfs}

-- The fields of `struct stat` that the code sets.
pub record Stat : Type 0 where
  pub mode : ℕ
  pub size : ℕ
  pub uid : ℕ
  pub gid : ℕ
  pub nlink : ℕ
  pub atime : ℕ
  pub atime_nsec : ℕ
  pub mtime : ℕ
  pub mtime_nsec : ℕ
  pub ctime : ℕ
  pub ctime_nsec : ℕ

unfoldable pub convert_sftp_attr_to_stat : Attributes → Stat
convert_sftp_attr_to_stat a = record {
  mode = a.permissions;
  size = a.size;
  uid = a.uid;
  gid = a.gid;
  nlink = 1;
  atime = a.atime;
  atime_nsec = a.atime_nseconds;
  mtime = a.mtime;
  mtime_nsec = a.mtime_nseconds;
  ctime = a.mtime;
  ctime_nsec = a.mtime_nseconds;
}

module _ (ssh : Libssh) where
  open ssh use {World}

  -- `struct sftfs_sftp`, with the world that its session reaches.
  pub record Sftp : Type 0 where
    pub world : World
    pub base_dir_len : ℕ
    pub curr_abs_path : Str

  -- An operation: it may fault, and returns a value beside the new state.
  abbrev pub Op : Type 0 → Type 0
  Op A = Sftp → Run (A × Sftp)

  -- A call of libssh.
  abbrev pub call : {A : Type 0} → (World → A × World) → Sftp → A × Sftp
  call f s = let (a, w) = f s.world in (a, record s { world = w })

  unfoldable pub ret_sftp_err : Sftp → Rc
  ret_sftp_err s = minus (to_errno (ssh.get_error s.world))

  -- 0 if the call succeeded, and else the session's error.
  abbrev pub finish : Bool × Sftp → Run (Rc × Sftp)
  finish r = ok ((if r.0 then done else ret_sftp_err r.1), r.1)

  -- True is a session.
  unfoldable pub init_session : World → Bool × World
  init_session w =
      let (made, w₁) = ssh.sftp_new w in
      let (ready, w₂) = ssh.sftp_init w₁ in
      if made then if ready then (true, w₂) else (false, ssh.sftp_free w₂) else (false, w₁)

  -- The state outside after `sftfs_sftp_destruct`; the handle itself is gone.
  unfoldable pub destruct : Sftp → World
  destruct s = ssh.sftp_free s.world

  unfoldable pub deinit : Sftp → World
  unfolding destruct
  deinit s = destruct s

  module _ (heap : Heap) where
    -- The handle with the canonical working directory, of which "/" counts as the empty base.
    unfoldable pub with_base : List ℕ → World → Run (Option Sftp × World)
    with_base dir w =
        let len = if (length dir == 1) && (Str.head_is b'/' dir) then 0 else length dir in
        Str.create heap (some dir) len >>= λ r. elim r [
          | none ↦ ok (none, ssh.sftp_free w)
          | some path ↦
              ok (some (record { world = w; base_dir_len = len; curr_abs_path = path }), w)
        ]

    -- What follows the session.
    unfoldable pub with_session : List ℕ → Bool × World → Run (Option Sftp × World)
    unfolding with_base
    with_session work_dir (false, w) = ok (none, w)
    with_session work_dir (true, w) =
        let (canonical, w₁) = ssh.canonicalize_path work_dir w in
        elim canonical [ none ↦ ok (none, ssh.sftp_free w₁) | some dir ↦ with_base dir w₁ ]

    unfoldable pub construct : Option (List ℕ) → World → Run (Option Sftp × World)
    unfolding with_session init_session
    construct none w = ok (none, w)
    construct (some work_dir) w = with_session work_dir (init_session w)

    -- `handle_granted` is the allocation of the handle.
    unfoldable pub init :
        (handle_granted : Bool) → Option (List ℕ) → World → Run (Option Sftp × World)
    unfolding construct
    init handle_granted work_dir w =
        let made = construct work_dir w in if handle_granted then made else ok (none, w)

    -- The NULL result is `none`; what was stored in the handle before it stays.
    unfoldable pub get_abs_path : List ℕ → Op (Option (List ℕ))
    get_abs_path rel s = Str.resize heap s.curr_abs_path s.base_dir_len >>= λ r. elim r [
      | none ↦ ok (none, s)
      | some p₁ ↦ Str.extend heap p₁ rel >>= λ r'. elim r' [
        | none ↦ ok (none, record s { curr_abs_path = p₁ })
        | some p₂ ↦ ok (some (take p₂.size p₂.c), record s { curr_abs_path = p₂ })
      ]
    ]

    -- The operations begin with the absolute path, and return -ENOMEM where there is none.
    abbrev pub at_path : List ℕ → (List ℕ → Op Rc) → Op Rc
    at_path path f s = get_abs_path path s >>= λ r. elim r.0 [
      | none ↦ ok (minus enomem, r.1)
      | some abs ↦ f abs r.1
    ]

    -- The same for the operations that also fill in a result.
    abbrev pub at_path_for :
        {A : Type 0} → List ℕ → (List ℕ → Op (Rc × Option A)) → Op (Rc × Option A)
    at_path_for path f s = get_abs_path path s >>= λ r. elim r.0 [
      | none ↦ ok ((minus enomem, none), r.1)
      | some abs ↦ f abs r.1
    ]

    -- What is written for a pointer, or the session's error where it is NULL.
    abbrev pub given : {A B : Type 0} → (A → B) → Option A × Sftp → Run ((Rc × Option B) × Sftp)
    given f r = elim r.0 [
      | none ↦ ok ((ret_sftp_err r.1, none), r.1)
      | some a ↦ ok ((done, some (f a)), r.1)
    ]

    -- `file` is 0 where no file is open. Where the first call fails, `sftp_stat` is tried.
    unfoldable pub getattr : (path : List ℕ) (file : ℕ) → Op (Rc × Option Stat)
    getattr path file = at_path_for path λ abs s.
        let (attr, s₁) = call (if file == 0 then ssh.lstat abs else ssh.fstat file) s in
        elim attr [
          | some a ↦ ok ((done, some (convert_sftp_attr_to_stat a)), s₁)
          | none ↦ given convert_sftp_attr_to_stat (call (ssh.stat abs) s₁)
        ]

    -- The `bufsiz` bytes that are written to the buffer: at most `bufsiz - 1` of the target, and
    -- NULs.
    abbrev pub link_bytes : (bufsiz : ℕ) → List ℕ → List ℕ
    link_bytes bufsiz target = strncpy (bufsiz - 1) target ++ 0 ∷ []

    -- The assertion fails on an empty buffer.
    unfoldable pub readlink : (path : List ℕ) (bufsiz : ℕ) → Op (Rc × Option (List ℕ))
    readlink path bufsiz s =
        let asked =
          at_path_for path (λ abs s₁. given (link_bytes bufsiz) (call (ssh.readlink abs) s₁)) s in
        if bufsiz == 0 then fault else asked

    unfoldable pub mkdir : List ℕ → ℕ → Op Rc
    mkdir path mode = at_path path λ abs s. finish (call (ssh.mkdir abs mode) s)

    unfoldable pub unlink : List ℕ → Op Rc
    unlink path = at_path path λ abs s. finish (call (ssh.unlink abs) s)

    unfoldable pub rmdir : List ℕ → Op Rc
    rmdir path = at_path path λ abs s. finish (call (ssh.rmdir abs) s)

    unfoldable pub symlink : (target linkpath : List ℕ) → Op Rc
    symlink target linkpath = at_path linkpath λ abs s. finish (call (ssh.symlink target abs) s)

    -- The last step of `sftfs_sftp_rename`.
    abbrev pub rename_now : (old new : List ℕ) → Op Rc
    rename_now old new s = finish (call (ssh.rename old new) s)

    -- With RENAME_NOREPLACE, after `sftp_lstat` of the new path.
    unfoldable pub rename_unless : (old new : List ℕ) → Option Attributes → Op Rc
    rename_unless old new (some a) s = ok (minus eexist, s)
    rename_unless old new none s =
        let err = ssh.get_error s.world in
        if err == fx_no_such_file then rename_now old new s else ok (minus (to_errno err), s)

    -- What `sftfs_sftp_rename` does with both absolute paths.
    abbrev pub rename_checked : (old : List ℕ) (flags : ℕ) (new : List ℕ) → Op Rc
    rename_checked old flags new s =
        let (attr, s₁) = call (ssh.lstat new) s in
        if flags == 1 then rename_unless old new attr s₁ else rename_now old new s

    -- The copy of the old path, and the new path in its place in the handle.
    abbrev pub rename_from : (newpath : List ℕ) (flags : ℕ) (old : List ℕ) → Op Rc
    rename_from newpath flags old s = Str.create heap (some old) (length old) >>= λ copy.
        elim copy [
          | none ↦ ok (minus enomem, s)
          | some old_str ↦ at_path newpath (rename_checked (take old_str.size old_str.c) flags) s
        ]

    -- `flags` has the bit 1 for RENAME_NOREPLACE; any other bit is refused.
    unfoldable pub rename : (oldpath newpath : List ℕ) (flags : ℕ) → Op Rc
    rename oldpath newpath flags s =
        if ltb 1 flags
        then ok (minus eopnotsupp, s)
        else at_path oldpath (rename_from newpath flags) s

    unfoldable pub chmod : List ℕ → ℕ → Op Rc
    chmod path mode = at_path path λ abs s. finish (call (ssh.chmod abs mode) s)

    unfoldable pub chown : (path : List ℕ) (uid gid : ℕ) → Op Rc
    chown path uid gid = at_path path λ abs s. finish (call (ssh.chown abs uid gid) s)

    unfoldable pub opendir : List ℕ → Op (Rc × Option ℕ)
    opendir path = at_path_for path λ abs s. given (λ d. d) (call (ssh.opendir abs) s)

    unfoldable pub open_file : (path : List ℕ) (access_flags : ℕ) → Op (Rc × Option ℕ)
    open_file path access_flags =
        at_path_for path λ abs s. given (λ f. f) (call (ssh.open_file abs access_flags 0) s)

    -- O_CREAT | O_WRONLY
    unfoldable pub create : (path : List ℕ) (mode : ℕ) → Op (Rc × Option ℕ)
    create path mode = at_path_for path λ abs s. given (λ f. f) (call (ssh.open_file abs 65 mode) s)

    unfoldable pub statfs : List ℕ → Op (Rc × Option Statvfs)
    statfs path = at_path_for path λ abs s. given (λ v. v) (call (ssh.statvfs abs) s)

    -- A test of `access`: the mode asks for the bit and the permissions lack it.
    abbrev pub denied : (mode ok_bit permissions perm_bit : ℕ) → Bool
    denied mode ok_bit permissions perm_bit =
        not (bit_and mode ok_bit == 0) && (bit_and permissions perm_bit == 0)

    unfoldable pub access : (path : List ℕ) (mode : ℕ) → Op Rc
    access path mode = at_path path λ abs s.
        let (attr, s₁) = call (ssh.stat abs) s in
        elim attr [
          | none ↦ ok (ret_sftp_err s₁, s₁)
          | some a ↦
              let p = a.permissions in
              let rc₁ = if denied mode 4 p 256 then minus eacces else done in
              let rc₂ = if denied mode 2 p 128 then minus eacces else rc₁ in
              ok ((if denied mode 1 p 64 then minus eacces else rc₂), s₁)
        ]

    -- Seconds and nanoseconds become seconds and microseconds.
    unfoldable pub utimens : (path : List ℕ) (atime mtime : ℕ × ℕ) → Op Rc
    utimens path atime mtime = at_path path λ abs s.
        finish (call (ssh.utimes abs (atime.0, atime.1 / 1000) (mtime.0, mtime.1 / 1000)) s)

  unfoldable pub closedir : ℕ → Op Rc
  closedir dir s =
      let (closed, s₁) = call (ssh.closedir dir) s in ok ((if closed then done else minus eio), s₁)

  unfoldable pub close : ℕ → Op Rc
  close file s =
      let (closed, s₁) = call (ssh.close file) s in ok ((if closed then done else minus eio), s₁)
