-- ===== src/Sftp/Errno.antt =====
-- `to_errno` of endp/sftp.c, with the error numbers of libssh and of Linux, and return codes.
use sftfs.Prelude.{ℕ, ◌≡◌, ◌↔◌, arith, if◌then◌else◌, ◌==◌}

-- SSH_FX_...
abbrev pub fx_ok : ℕ
fx_ok = 0

abbrev pub fx_no_such_file : ℕ
fx_no_such_file = 2

abbrev pub eio : ℕ
eio = 5

abbrev pub enomem : ℕ
enomem = 12

abbrev pub eacces : ℕ
eacces = 13

abbrev pub eexist : ℕ
eexist = 17

abbrev pub eopnotsupp : ℕ
eopnotsupp = 95

-- The cases in the order of the source: ENOENT 2, EACCES 13, EIO 5, EEXIST 17, EBADF 9,
-- ENOTCONN 107, ENOMEDIUM 123, ENOTSUP 95, EBADMSG 74, EROFS 30, ENODATA 61.
unfoldable pub to_errno : ℕ → ℕ
to_errno err =
    if err == fx_ok
    then 0
    else if err == 2
    then 2
    else if err == 3
    then eacces
    else if err == 4
    then eio
    else if err == 11
    then eexist
    else if err == 9
    then 9
    else if err == 6
    then 107
    else if err == 13
    then 123
    else if err == 10
    then 2
    else if err == 8
    then 95
    else if err == 5
    then 74
    else if err == 12
    then 30
    else if err == 1
    then 61
    else 255

-- What an operation returns: a count or 0, or a negated error number.
pub data Rc : Type 0 where
  count : ℕ → Rc
  minus : ℕ → Rc

abbrev pub done : Rc
done = count 0

-- An error is reported as 0 exactly if libssh reports none.
pub to_errno-eq-zero : (err : ℕ) → (to_errno err ≡ 0) ↔ (err ≡ fx_ok)
unfolding to_errno
to_errno-eq-zero err = (λ h. ground arith, λ h. ground arith)
