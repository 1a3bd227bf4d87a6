-- ===== src/Sftp/Transfer.antt =====
-- The loops of endp/sftp.c: `sftfs_sftp_read`, `sftfs_sftp_write` and `sftfs_sftp_readdir`.
use sftfs.Prelude.{
  ℕ, zero, suc, ◌^◌, ◌+◌, ◌-◌, ◌%◌, Option, none, some, List, [], ◌∷◌, ◌++◌, if◌then◌else◌, leb,
  ltb, length, take, drop, word, Run, ok, ◌>>=◌,
}
use sftfs.Endpoint.{Direntry, Callee, is_plus, zero_stat}
use sftfs.Sftp.Api.{Libssh, Attributes}
use sftfs.Sftp.Errno.{Rc, count, minus, done}
use sftfs.Sftp.{Sftp, call, ret_sftp_err, convert_sftp_attr_to_stat}

-- The conversion of a `size_t` to the `int` that reading and writing return.
unfoldable pub to_int : ℕ → Rc
to_int n = let m = n % 2 ^ 32 in if ltb m (2 ^ 31) then count m else minus (2 ^ 32 - m)

module _ (ssh : Libssh) where
  -- One round of reading at most `left` bytes from `off` on. The failure of the seek has no effect.
  abbrev pub read_some : (file off left : ℕ) → Sftp ssh → Option (List ℕ) × Sftp ssh
  read_some file off left s =
      let (_, s₁) = call ssh (ssh.seek64 file (off % word)) s in call ssh (ssh.read file left) s₁

  -- A round reads at least a byte or ends the loop, so `size` rounds are enough fuel. The bytes
  -- are those in the buffer; `take` is the cap on `last_bytes_read`.
  unfoldable pub read_loop : ℕ → (file size off : ℕ) → List ℕ → Sftp ssh → (Rc × List ℕ) × Sftp ssh
  read_loop zero file size off got s = ((to_int (length got), got), s)
  read_loop (suc fuel) file size off got s =
      let left = size - length got in
      let (r, s') = read_some file (off + length got) left s in
      let rest = λ (bytes : List ℕ). read_loop fuel file size off (got ++ take left bytes) s' in
      if ltb (length got) size
      then elim r [
        | none ↦ ((ret_sftp_err ssh s', got), s')
        | some [] ↦ ((to_int (length got), got), s')
        | some (b ∷ bs) ↦ rest (b ∷ bs)
      ]
      else ((to_int (length got), got), s)

  unfoldable pub read : (file size off : ℕ) → Sftp ssh → (Rc × List ℕ) × Sftp ssh
  unfolding read_loop
  read file size off s = read_loop (suc size) file size off [] s

  -- One round of writing the bytes that are left, at `off`.
  abbrev pub write_some : (file off : ℕ) → List ℕ → Sftp ssh → Option ℕ × Sftp ssh
  write_some file off bytes s =
      let (_, s₁) = call ssh (ssh.seek64 file (off % word)) s in call ssh (ssh.write file bytes) s₁

  unfoldable pub write_loop : ℕ → (file : ℕ) (buf : List ℕ) (off n : ℕ) → Sftp ssh → Rc × Sftp ssh
  write_loop zero file buf off n s = (to_int n, s)
  write_loop (suc fuel) file buf off n s =
      let left = length buf - n in
      let (r, s') = write_some file (off + n) (drop n buf) s in
      let rest =
        λ (k : ℕ). write_loop fuel file buf off (n + (if leb left k then left else k)) s' in
      if ltb n (length buf)
      then elim r [
        | none ↦ (ret_sftp_err ssh s', s')
        | some zero ↦ (to_int n, s')
        | some (suc k) ↦ rest (suc k)
      ]
      else (to_int n, s)

  unfoldable pub write : (file : ℕ) (buf : List ℕ) (off : ℕ) → Sftp ssh → Rc × Sftp ssh
  unfolding write_loop
  write file buf off s = write_loop (suc (length buf)) file buf off 0 s

  -- The entry for one result of `sftp_readdir`; the flag 1 is SFTFS_ENDP_READDIR_PLUS.
  unfoldable pub direntry : ℕ → Attributes → Direntry
  direntry flags a = record {
    name = a.name;
    stat = if is_plus flags then convert_sftp_attr_to_stat a else zero_stat;
  }

  -- The end of the entries, or an error.
  abbrev pub end_of_dir : ℕ → Sftp ssh → Rc
  end_of_dir dir s = if ssh.dir_eof dir s.world then done else ret_sftp_err ssh s

  -- The server decides how many entries there are; `none` means that the fuel ran out before their
  -- end.
  unfoldable pub readdir :
      {V : Type 0}
      → ℕ
      → (dir flags : ℕ) → Callee V
      → V
      → Sftp ssh
      → Run (Option ((Rc × V) × Sftp ssh))
  unfolding direntry
  readdir zero dir flags callee v s = ok none
  readdir (suc fuel) dir flags callee v s =
      let (r, s') = call ssh (ssh.readdir dir) s in
      elim r [
        | none ↦ ok (some ((end_of_dir dir s', v), s'))
        | some a ↦ callee (direntry flags a) v >>= λ q.
            let rest = readdir fuel dir flags callee q.1 s' in
            if q.0 then ok (some ((done, q.1), s')) else rest
      ]
