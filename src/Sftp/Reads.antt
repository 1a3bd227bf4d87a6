-- ===== src/Sftp/Reads.antt =====
-- `sftfs_sftp_read` glues the short reads of the server together.
use sftfs.Prelude.{
  ℕ, zero, suc, ◌+◌, ◌-◌, ◌%◌, ◌≤◌, ◌<◌, ◌≡◌, refl, ap, ap₂, ◌∙◌, sym, Option, none, some, List, [],
  ◌∷◌, ◌++◌, ◌⊎◌, inl, inr, arith, ltb, lt→ltb, length, take, drop, length-append, length-drop,
  word, Bool-cases, drop-drop, take-take-drop, take_all, subst,
}
use sftfs.Sftp.Api.{Libssh}
use sftfs.Sftp.Errno.{Rc, minus, to_errno}
use sftfs.Sftp.{Sftp, ret_sftp_err}
use sftfs.Sftp.Transfer.{to_int, read_some, read_loop, read}

module _ (ssh : Libssh) (file : ℕ) (content : List ℕ) where
  open ssh use {World}

  -- What libssh documents of `sftp_seek64` and `sftp_read` on a file with this content: an error,
  -- or bytes of the file from the offset on, at most as many as asked for, and none only at the end
  -- of the file. `Open` holds of the worlds in which the file is open and has the content.
  pub record Serves (Open : World → Type 0) : Type 0 where
    pub stays :
        (off left : ℕ) (w : World) → Open w → Open (ssh.read file left (ssh.seek64 file off w).1).1
    pub answers :
        (off left : ℕ) (w : World) (bytes : List ℕ)
        → Open w
        → (ssh.read file left (ssh.seek64 file off w).1).0 ≡ some bytes
        → (bytes ≡ take (length bytes) (drop off content)) × (length bytes ≤ left)
    pub ends :
        (off left : ℕ) (w : World)
        → Open w
        → 0 < left
        → (ssh.read file left (ssh.seek64 file off w).1).0 ≡ some []
        → drop off content ≡ []

  -- Some read of the open file failed, and the result is the session's error after it.
  pub record Failed (Open : World → Type 0) (rc : Rc) : Type 0 where
    pub at : ℕ
    pub left : ℕ
    pub before : World
    pub was_open : Open before
    pub failed : (ssh.read file left (ssh.seek64 file at before).1).0 ≡ none
    pub reported :
        rc ≡ minus (to_errno (ssh.get_error (ssh.read file left (ssh.seek64 file at before).1).1))

  -- The error of a failed read, or exactly the asked bytes of the file, as many as there are, with
  -- their number as an `int`.
  abbrev pub Reads : (World → Type 0) → ℕ → ℕ → (Rc × List ℕ) × Sftp ssh → Type 0
  Reads Open size off r =
      Failed Open r.0.0 ⊎ ((r.0.1 ≡ take size (drop off content)) × (r.0.0 ≡ to_int (length r.0.1)))

  module _ {Open : World → Type 0} (server : Serves Open) (size off : ℕ)
      (small : off + size < word) where
    all_read :
        (got : List ℕ)
        → got ≡ take (length got) (drop off content)
        → length got ≤ size
        → (size ≤ length got) ⊎ (drop (off + length got) content ≡ [])
        → got ≡ take size (drop off content)
    all_read got prefix le (inl full) = prefix ∙ ap (λ n. take n (drop off content)) (omega arith)
    all_read got prefix le (inr eof) =
        let d = drop off content in
        let n = length got in
        let rest = drop-drop off n content ∙ eof in
        let short : length d ≤ n = omega (arith, ap length rest, length-drop n d) in
        prefix ∙ take_all n d short ∙ sym (take_all size d (omega arith))

    glued :
        (got bytes : List ℕ)
        → got ≡ take (length got) (drop off content)
        → bytes ≡ take (length bytes) (drop (off + length got) content)
        → got ++ bytes ≡ take (length (got ++ bytes)) (drop off content)
    glued got bytes p q =
        let d = drop off content in
        ap₂ (λ a b. a ++ b) p
          (q ∙ ap (take (length bytes)) (sym (drop-drop off (length got) content)))
        ∙ take-take-drop (length got) (length bytes) d
        ∙ ap (λ n. take n d) (sym (length-append got bytes))

    -- The invariant of the loop before a round: what was read is the front of the asked bytes.
    record Front (got : List ℕ) (s : Sftp ssh) : Type 0 where
      open_file : Open s.world
      prefix : got ≡ take (length got) (drop off content)
      within : length got ≤ size

    round :
        (fuel : ℕ) (got : List ℕ) (s : Sftp ssh)
        → Front got s
        → length got < size
        → ((got' : List ℕ) (s' : Sftp ssh)
            → Front got' s'
            → length got < length got'
            → Reads Open size off (read_loop ssh fuel file size off got' s'))
        → (o : Option (List ℕ))
        → (read_some ssh file (off + length got) (size - length got) s).0 ≡ o
        → Reads Open size off (read_loop ssh (suc fuel) file size off got s)
    unfolding read_loop ret_sftp_err
    round fuel got s f lt ih none q =
        rw (lt→ltb (length got) size lt, q)
          (inl (record {
            at = (off + length got) % word;
            left = size - length got;
            before = s.world;
            was_open = f.open_file;
            failed = q;
            reported = refl;
          }))
    round fuel got s f lt ih (some []) q =
        let n = length got in
        let whole : (off + n) % word ≡ off + n = omega arith in
        let eof =
          server.ends (off + n) (size - n) s.world f.open_file (omega arith) (rw whole at q) in
        rw (lt→ltb n size lt, q) (inr (all_read got f.prefix f.within (inr eof), refl))
    round fuel got s f lt ih (some (b ∷ bs)) q =
        let n = length got in
        let left = size - n in
        let bytes = b ∷ bs in
        let whole : (off + n) % word ≡ off + n = omega arith in
        let (is, fits) = server.answers (off + n) left s.world bytes f.open_file (rw whole at q) in
        let got' = got ++ take left bytes in
        let all = take_all left bytes fits in
        rw (lt→ltb n size lt, q)
          (ih got' _
            (record {
              open_file = rw whole (server.stays (off + n) left s.world f.open_file);
              prefix =
                  subst (λ l. got ++ l ≡ take (length (got ++ l)) (drop off content)) (sym all)
                    (glued got bytes f.prefix is);
              within = rw all (omega (arith, length-append got bytes));
            })
            (rw all (omega (arith, length-append got bytes))))

    read_loop-Reads :
        (fuel : ℕ) (got : List ℕ) (s : Sftp ssh)
        → Front got s
        → size < length got + fuel
        → Reads Open size off (read_loop ssh fuel file size off got s)
    unfolding read_loop
    read_loop-Reads zero got s f lt = absurd (omega (arith, f.within))
    read_loop-Reads (suc fuel) got s f lt = elim (Bool-cases (ltb (length got) size)) [
      | inr e ↦ rw e (inr (all_read got f.prefix f.within (inl (ground arith)), refl))
      | inl e ↦
          round fuel got s f (ground arith)
            (λ got' s' f' more. read_loop-Reads fuel got' s' f' (omega arith)) _ refl
    ]

    -- On a file that the server serves, `sftfs_sftp_read` ends; it returns the error that the
    -- session has after a failed read, or exactly the asked bytes of the file, as many as there
    -- are, and their number as an `int`. The short reads of the server do not show. The end of the
    -- asked range must be a `uint64_t`.
    pub read-Reads : (s : Sftp ssh) → Open s.world → Reads Open size off (read ssh file size off s)
    unfolding read
    read-Reads s ready =
        read_loop-Reads (suc size) [] s
          (record { open_file = ready; prefix = refl; within = omega arith }) (omega arith)
