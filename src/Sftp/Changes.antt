-- ===== src/Sftp/Changes.antt =====
-- The operations of endp/sftp.c that ask the server for one change at a path.
use sftfs.Prelude.{
  ℕ, ◌+◌, ◌<◌, ◌/◌, ◌≡◌, refl, Bool, true, false, List, ◌++◌, length, word, Returns,
}
use sftfs.Str.{Heap}
use sftfs.Sftp
use sftfs.Sftp.Api.{Libssh}
use sftfs.Sftp.Errno.{Rc, done, minus, to_errno, enomem}
use sftfs.Sftp.{Sftp, Op, at_path, call, finish, ret_sftp_err}
use sftfs.Sftp.Paths.{Short, HoldsBase, elsewhere, begins-Returns}

-- What is asked for, without the path.
pub data Change : Type 0 where
  make_dir : (mode : ℕ) → Change
  remove_file remove_dir : Change
  make_link : (target : List ℕ) → Change
  set_mode : (mode : ℕ) → Change
  set_owner : (uid gid : ℕ) → Change
  set_times : (atime mtime : ℕ × ℕ) → Change

module _ (ssh : Libssh) where
  open ssh use {World}

  -- The call of libssh; the times have microseconds.
  abbrev pub asked : Change → List ℕ → World → Bool × World
  asked (make_dir mode) path = ssh.mkdir path mode
  asked remove_file path = ssh.unlink path
  asked remove_dir path = ssh.rmdir path
  asked (make_link target) path = ssh.symlink target path
  asked (set_mode mode) path = ssh.chmod path mode
  asked (set_owner uid gid) path = ssh.chown path uid gid
  asked (set_times atime mtime) path =
      ssh.utimes path (atime.0, atime.1 / 1000) (mtime.0, mtime.1 / 1000)

  module _ (heap : Heap) where
    -- The operation of the endpoint.
    unfoldable pub change : Change → List ℕ → Op ssh Rc
    change (make_dir mode) path = Sftp.mkdir ssh heap path mode
    change remove_file path = Sftp.unlink ssh heap path
    change remove_dir path = Sftp.rmdir ssh heap path
    change (make_link target) path = Sftp.symlink ssh heap target path
    change (set_mode mode) path = Sftp.chmod ssh heap path mode
    change (set_owner uid gid) path = Sftp.chown ssh heap path uid gid
    change (set_times atime mtime) path = Sftp.utimens ssh heap path atime mtime

    -- The result and the state outside: of the call, or -ENOMEM before it.
    pub data Answers (ask : World → Bool × World) (w : World) : Rc → World → Type 0 where
      made : {w' : World} → ask w ≡ (true, w') → Answers ask w done w'
      failed :
          {w' : World}
          → ask w ≡ (false, w')
          → Answers ask w (minus (to_errno (ssh.get_error w'))) w'
      no_memory : Short heap → Answers ask w (minus enomem) w

    -- The handle keeps the base directory beside that.
    abbrev pub Changed : (base : List ℕ) → (World → Bool × World) → World → Rc × Sftp ssh → Type 0
    Changed base ask w r = Answers ask w r.0 r.1.world × HoldsBase ssh base r.1

    finish-Changed :
        {base : List ℕ} {ask : World → Bool × World} {w : World} (s : Sftp ssh) (r : Bool × World)
        → HoldsBase ssh base s
        → ask w ≡ r
        → Returns (finish ssh (r.0, record s { world = r.1 })) (Changed base ask w)
    unfolding ret_sftp_err
    finish-Changed s (true, w') h e = (_, refl, (made e, elsewhere ssh w' h))
    finish-Changed s (false, w') h e = (_, refl, (failed e, elsewhere ssh w' h))

    at_path-Changed :
        (base path : List ℕ) (ask : List ℕ → World → Bool × World) (s : Sftp ssh)
        → HoldsBase ssh base s
        → length base + length path + 17 < word
        → Returns
            (at_path ssh heap path (λ abs s'. finish ssh (call ssh (ask abs) s')) s)
            (Changed base (ask (base ++ path)) s.world)
    at_path-Changed base path ask s h small =
        begins-Returns ssh heap base path (minus enomem)
          (λ abs s'. finish ssh (call ssh (ask abs) s')) s _ h small
          (λ s' h' same. finish-Changed s' _ h' (rw same refl))
          λ s' h' same short. (rw same (no_memory short), h')

    -- Where the handle holds the base directory and the whole path does not come near the largest
    -- `size_t`: mkdir, unlink, rmdir, symlink, chmod, chown and utimens end, and the handle still
    -- holds the base directory. Each makes the one call of libssh that belongs to it, at the base
    -- directory followed by the path, and returns 0 where that succeeds and the number of the
    -- session's error where it does not; -ENOMEM, only where the allocator refuses a block, comes
    -- without a call.
    pub change-Changed :
        (base path : List ℕ) (c : Change) (s : Sftp ssh)
        → HoldsBase ssh base s
        → length base + length path + 17 < word
        → Returns (change c path s) (Changed base (asked c (base ++ path)) s.world)
    unfolding change Sftp.mkdir Sftp.unlink Sftp.rmdir Sftp.symlink Sftp.chmod Sftp.chown
        Sftp.utimens
    change-Changed base path (make_dir mode) = at_path-Changed base path (asked (make_dir mode))
    change-Changed base path remove_file = at_path-Changed base path (asked remove_file)
    change-Changed base path remove_dir = at_path-Changed base path (asked remove_dir)
    change-Changed base path (make_link target) =
        at_path-Changed base path (asked (make_link target))
    change-Changed base path (set_mode mode) = at_path-Changed base path (asked (set_mode mode))
    change-Changed base path (set_owner uid gid) =
        at_path-Changed base path (asked (set_owner uid gid))
    change-Changed base path (set_times atime mtime) =
        at_path-Changed base path (asked (set_times atime mtime))
