-- ===== src/Sftp/Writes.antt =====
-- `sftfs_sftp_write` glues the short writes of the server together.
use native.Mathlib.Nat.{suc-add}
use sftfs.Prelude.{
  ℕ, zero, suc, ◌+◌, ◌-◌, ◌%◌, ◌≤◌, ◌<◌, ◌≡◌, refl, ap, ◌∙◌, sym, Bool, true, false, ◌&&◌, Option,
  none, some, List, [], ◌∷◌, ◌⊎◌, inl, inr, arith, ltb, leb, lt→ltb, length, drop, length-drop,
  get_or, word, Bool-cases, subst, if◌then◌else◌,
}
use sftfs.Sftp.Api.{Libssh}
use sftfs.Sftp.Errno.{Rc, minus, to_errno}
use sftfs.Sftp.{Sftp, ret_sftp_err}
use sftfs.Sftp.Transfer.{to_int, write_some, write_loop, write}

abbrev pub in_range : (off n i : ℕ) → Bool
in_range off n i = leb off i && ltb i (off + n)

-- A file, as the byte at each offset, with the first `n` of some bytes written over it.
abbrev pub patched : (off n : ℕ) → List ℕ → (ℕ → ℕ) → ℕ → ℕ
patched off n bytes old i = if in_range off n i then get_or bytes (i - off) 0 else old i

get_or-drop : (n : ℕ) (bs : List ℕ) (j : ℕ) → get_or (drop n bs) j 0 ≡ get_or bs (n + j) 0
get_or-drop zero bs j = ap (λ k. get_or bs k 0) (omega arith)
get_or-drop (suc n) [] j = refl
get_or-drop (suc n) (b ∷ bs) j = rw (suc-add n j) (get_or-drop n bs j)

pub unpatched : (off : ℕ) (buf : List ℕ) (old : ℕ → ℕ) (i : ℕ) → patched off 0 buf old i ≡ old i
unpatched off buf old i = let e : in_range off 0 i ≡ false = ground arith in rw e refl

-- Writing on behind what was written.
patched_more :
    (off n k : ℕ) (buf : List ℕ) (old : ℕ → ℕ) (i : ℕ)
    → patched (off + n) k (drop n buf) (patched off n buf old) i ≡ patched off (n + k) buf old i
patched_more off n k buf old i = elim (Bool-cases (in_range (off + n) k i)) [
  | inl e ↦
      let more : in_range off (n + k) i ≡ true = ground arith in
      let le : off + n ≤ i = ground arith in
      rw (e, more)
        (get_or-drop n buf (i - (off + n)) ∙ ap (λ m. get_or buf m 0) (omega (arith, le)))
  | inr e ↦ elim (Bool-cases (in_range off n i)) [
    | inl f ↦ let more : in_range off (n + k) i ≡ true = ground arith in rw (e, f, more) refl
    | inr f ↦ let more : in_range off (n + k) i ≡ false = ground arith in rw (e, f, more) refl
  ]
]

module _ (ssh : Libssh) (file : ℕ) where
  open ssh use {World}

  -- The state after a seek to the offset and a write there.
  abbrev pub write_at : (off : ℕ) → List ℕ → World → Option ℕ × World
  write_at off bytes w = ssh.write file bytes (ssh.seek64 file off w).1

  -- What libssh documents of `sftp_seek64` and `sftp_write` on a file whose bytes are `byte`: an
  -- error, or a number of bytes, at most as many as were given, that then stand from the offset on.
  -- `Open` holds of the worlds in which the file is open.
  pub record Accepts (Open : World → Type 0) (byte : World → ℕ → ℕ) : Type 0 where
    pub stays : (off : ℕ) (bytes : List ℕ) (w : World) → Open w → Open (write_at off bytes w).1
    pub accepted :
        (off : ℕ) (bytes : List ℕ) (w : World) (k : ℕ)
        → Open w
        → (write_at off bytes w).0 ≡ some k
        → (k ≤ length bytes)
          × ((i : ℕ) → byte (write_at off bytes w).1 i ≡ patched off k bytes (byte w) i)

  -- Some write to the open file failed, and the result is the session's error after it.
  pub record Failed (Open : World → Type 0) (rc : Rc) : Type 0 where
    pub at : ℕ
    pub bytes : List ℕ
    pub before : World
    pub was_open : Open before
    pub failed : (write_at at bytes before).0 ≡ none
    pub reported : rc ≡ minus (to_errno (ssh.get_error (write_at at bytes before).1))

  module _ {Open : World → Type 0} {byte : World → ℕ → ℕ} (server : Accepts Open byte)
      (buf : List ℕ) (off : ℕ) (small : off + length buf < word) where
    -- The first `n` bytes stand in the file, and nothing else is changed.
    pub record Written (w : World) (n : ℕ) (w' : World) : Type 0 where
      pub open_file : Open w'
      pub within : n ≤ length buf
      pub bytes : (i : ℕ) → byte w' i ≡ patched off n buf (byte w) i

    -- The server took none of the bytes that were left.
    pub record Stalled (n : ℕ) : Type 0 where
      pub before : World
      pub was_open : Open before
      pub none_taken : (write_at (off + n) (drop n buf) before).0 ≡ some 0

    -- The error of a failed write, or a number of bytes, as an `int`, that were written: all of
    -- them, or as many as the server took before it took none.
    abbrev pub Writes : World → Rc × Sftp ssh → Type 0
    Writes w r =
        Failed Open r.0
        ⊎ ((n : ℕ) × (r.0 ≡ to_int n) × Written w n r.1.world × ((n ≡ length buf) ⊎ Stalled n))

    further :
        (w w₁ : World) (n k : ℕ)
        → Written w n w₁
        → (write_at (off + n) (drop n buf) w₁).0 ≡ some k
        → (k ≤ length buf - n) × Written w (n + k) (write_at (off + n) (drop n buf) w₁).1
    further w w₁ n k h took =
        let (fits, bytes) = server.accepted (off + n) (drop n buf) w₁ k h.open_file took in
        let left = length-drop n buf in
        (
          omega (arith, fits, left),
          record {
            open_file = server.stays (off + n) (drop n buf) w₁ h.open_file;
            within = omega (arith, fits, left, h.within);
            bytes = λ i.
                bytes i
                ∙ ap
                    (λ x.
                      if in_range (off + n) k i then get_or (drop n buf) (i - (off + n)) 0 else x)
                    (h.bytes i)
                ∙ patched_more off n k buf (byte w) i;
          },
        )

    capped : (left k : ℕ) → k ≤ left → (if leb left k then left else k) ≡ k
    capped left k le = ground arith

    round :
        (w : World) (fuel n : ℕ) (s : Sftp ssh)
        → Written w n s.world
        → n < length buf
        → ((n' : ℕ) (s' : Sftp ssh)
            → Written w n' s'.world
            → n < n'
            → Writes w (write_loop ssh fuel file buf off n' s'))
        → (o : Option ℕ) → (write_some ssh file (off + n) (drop n buf) s).0 ≡ o
        → Writes w (write_loop ssh (suc fuel) file buf off n s)
    unfolding write_loop ret_sftp_err
    round w fuel n s h lt ih none q =
        rw (lt→ltb n (length buf) lt, q)
          (inl (record {
            at = (off + n) % word;
            bytes = drop n buf;
            before = s.world;
            was_open = h.open_file;
            failed = q;
            reported = refl;
          }))
    round w fuel n s h lt ih (some zero) q =
        let whole : (off + n) % word ≡ off + n = omega arith in
        rw (lt→ltb n (length buf) lt, q)
          (rw whole (
            inr (
              n,
              refl,
              subst (λ m. Written w m (write_at (off + n) (drop n buf) s.world).1) (omega arith)
                  (further w s.world n 0 h (rw whole at q)).1,
              inr (record { before = s.world; was_open = h.open_file; none_taken = rw whole at q }),
            )))
    round w fuel n s h lt ih (some (suc k)) q =
        let whole : (off + n) % word ≡ off + n = omega arith in
        let (fits, written) = further w s.world n (suc k) h (rw whole at q) in
        rw (lt→ltb n (length buf) lt, q, capped (length buf - n) (suc k) fits)
          (ih (n + suc k) _ (rw whole written) (omega arith))

    write_loop-Writes :
        (w : World) (fuel n : ℕ) (s : Sftp ssh)
        → Written w n s.world
        → length buf < n + fuel
        → Writes w (write_loop ssh fuel file buf off n s)
    unfolding write_loop
    write_loop-Writes w zero n s h lt = absurd (omega (arith, h.within))
    write_loop-Writes w (suc fuel) n s h lt = elim (Bool-cases (ltb n (length buf))) [
      | inr e ↦ rw e (inr (n, refl, h, inl (ground (arith, h.within))))
      | inl e ↦
          round w fuel n s h (ground arith)
            (λ n' s' h' more. write_loop-Writes w fuel n' s' h' (omega arith)) _ refl
    ]

    -- On a file that takes writes, `sftfs_sftp_write` ends; it returns the error that the session has
    -- after a failed write, or the number of bytes that then stand in the file from the offset on,
    -- all other bytes being as before: all that it was given, or as many as the server took before it
    -- took none. The end of the range must be a `uint64_t`.
    pub write-Writes : (s : Sftp ssh) → Open s.world → Writes s.world (write ssh file buf off s)
    unfolding write
    write-Writes s ready =
        write_loop-Writes s.world (suc (length buf)) 0 s
          (record {
            open_file = ready;
            within = omega arith;
            bytes = λ i. sym (unpatched off buf (byte s.world) i);
          })
          (omega arith)
