-- ===== src/Sftp/Renames.antt =====
-- `sftfs_sftp_rename` of endp/sftp.c: what reaches the server, and what comes back.
use sftfs.Prelude.{
  ℕ, zero, suc, ◌+◌, ◌≤◌, ◌<◌, ◌≡◌, ◌≢◌, refl, subst, sym, ◌∙◌, Bool, true, false, Bool-cases,
  Option, none, some, List, ◌++◌, ◌⊎◌, inl, inr, arith, length, length-append, word, ok, Returns,
  ltb, ltb→lt, ◌==◌, ==_iff, if◌then◌else◌,
}
use sftfs.Str.{Heap}
use sftfs.Str.Contents.{create-Yields}
use sftfs.Sftp.Api.{Libssh, Attributes}
use sftfs.Sftp.Errno.{Rc, done, minus, to_errno, eexist, enomem, eopnotsupp, fx_no_such_file}
use sftfs.Sftp.{
  Sftp, at_path, rename, rename_now, rename_unless, rename_checked, rename_from, ret_sftp_err,
}
use sftfs.Sftp.Paths.{Short, HoldsBase, elsewhere, begins-Returns}

module _ (ssh : Libssh) where
  open ssh use {World}

  -- The target is free in `w₁`: it need not be, or the server knew of nothing there.
  abbrev pub IsFree : (new : List ℕ) (flags : ℕ) (w w₁ : World) → Type 0
  IsFree new flags w w₁ =
      ((flags ≡ 0) × (w₁ ≡ w))
      ⊎ ((flags ≡ 1) × ((ssh.lstat new w ≡ (none, w₁)) × (ssh.get_error w₁ ≡ fx_no_such_file)))

  -- What renaming the remote path `old` to `new` comes to: the result and the state outside.
  pub data Renamed (heap : Heap) (old new : List ℕ) (flags : ℕ) (w : World)
      : Rc → World → Type 0 where
    unsupported : 1 < flags → Renamed heap old new flags w (minus eopnotsupp) w
    no_memory : flags ≤ 1 → Short heap → Renamed heap old new flags w (minus enomem) w
    taken :
        {a : Attributes} {w₁ : World}
        → flags ≡ 1
        → ssh.lstat new w ≡ (some a, w₁)
        → Renamed heap old new flags w (minus eexist) w₁
    unknown :
        {w₁ : World}
        → flags ≡ 1
        → ssh.lstat new w ≡ (none, w₁)
        → ssh.get_error w₁ ≢ fx_no_such_file
        → Renamed heap old new flags w (minus (to_errno (ssh.get_error w₁))) w₁
    moved :
        {w₁ w₂ : World}
        → IsFree new flags w w₁
        → ssh.rename old new w₁ ≡ (true, w₂)
        → Renamed heap old new flags w done w₂
    refused :
        {w₁ w₂ : World}
        → IsFree new flags w w₁
        → ssh.rename old new w₁ ≡ (false, w₂)
        → Renamed heap old new flags w (minus (to_errno (ssh.get_error w₂))) w₂

  module _ (heap : Heap) where
    -- The handle keeps the base directory beside that.
    abbrev pub RenamedAt : (base old new : List ℕ) (flags : ℕ) (w : World) → Rc × Sftp ssh → Type 0
    RenamedAt base old new flags w r =
        Renamed heap (base ++ old) (base ++ new) flags w r.0 r.1.world × HoldsBase ssh base r.1

    rename_now-Renamed :
        {base : List ℕ} {flags : ℕ} {w : World} (old new : List ℕ) (s : Sftp ssh) (r : Bool × World)
        → HoldsBase ssh base s
        → IsFree (base ++ new) flags w s.world
        → ssh.rename (base ++ old) (base ++ new) s.world ≡ r
        → Returns
            (rename_now ssh heap (base ++ old) (base ++ new) s)
            (RenamedAt base old new flags w)
    unfolding ret_sftp_err
    rename_now-Renamed old new s (true, w₂) h free e =
        ((done, record s { world = w₂ }), rw e refl, (moved free e, elsewhere ssh w₂ h))
    rename_now-Renamed old new s (false, w₂) h free e = (
      (minus (to_errno (ssh.get_error w₂)), record s { world = w₂ }),
      rw e refl,
      (refused free e, elsewhere ssh w₂ h),
    )

    rename_replacing :
        {base : List ℕ} {w : World} (old new : List ℕ) (s : Sftp ssh)
        → HoldsBase ssh base s
        → s.world ≡ w
        → Returns
            (rename_checked ssh heap (base ++ old) 0 (base ++ new) s)
            (RenamedAt base old new 0 w)
    rename_replacing old new s h same = rename_now-Renamed old new s _ h (inl (refl, same)) refl

    rename_missing :
        {base : List ℕ} {w : World} (old new : List ℕ) (s : Sftp ssh) (none_there : Bool)
        → HoldsBase ssh base s
        → ssh.lstat (base ++ new) w ≡ (none, s.world)
        → (ssh.get_error s.world == fx_no_such_file) ≡ none_there
        → Returns
            (if none_there
              then rename_now ssh heap (base ++ old) (base ++ new) s
              else ok (minus (to_errno (ssh.get_error s.world)), s))
            (RenamedAt base old new 1 w)
    rename_missing old new s true h e free =
        rename_now-Renamed old new s _ h (inr (refl, (e, (==_iff _ _).0 free))) refl
    rename_missing old new s false h e other =
        (_, refl, (unknown refl e (λ same. ground (other, same, arith)), h))

    rename_unless-Renamed :
        {base : List ℕ} {w : World} (old new : List ℕ) (found : Option Attributes) (s : Sftp ssh)
        → HoldsBase ssh base s
        → ssh.lstat (base ++ new) w ≡ (found, s.world)
        → Returns
            (rename_unless ssh heap (base ++ old) (base ++ new) found s)
            (RenamedAt base old new 1 w)
    unfolding rename_unless
    rename_unless-Renamed old new (some a) s h e = (_, refl, (taken refl e, h))
    rename_unless-Renamed old new none s h e = rename_missing old new s _ h e refl

    rename_checked-Renamed :
        {base : List ℕ} {w : World} (old : List ℕ) (flags : ℕ) (new : List ℕ) (s : Sftp ssh)
        → HoldsBase ssh base s
        → s.world ≡ w
        → flags ≤ 1
        → Returns
            (rename_checked ssh heap (base ++ old) flags (base ++ new) s)
            (RenamedAt base old new flags w)
    rename_checked-Renamed old zero new s h same few = rename_replacing old new s h same
    rename_checked-Renamed {base} {w} old (suc zero) new s h same few =
        rename_unless-Renamed {w = w} old new _ _ (elsewhere ssh _ h) (rw same refl)
    rename_checked-Renamed old (suc (suc n)) new s h same few = absurd (omega arith)

    rename_from-Renamed :
        {base : List ℕ} {w : World} (old new : List ℕ) (flags : ℕ) (s : Sftp ssh)
        → HoldsBase ssh base s
        → s.world ≡ w
        → flags ≤ 1
        → length base + length old + 17 < word
        → length base + length new + 17 < word
        → Returns (rename_from ssh heap new flags (base ++ old) s) (RenamedAt base old new flags w)
    rename_from-Renamed {base} {w} old new flags s h same few small small' =
        let (o, run, cases) =
          create-Yields heap (base ++ old) (omega (arith, length-append base old)) in
        elim cases [
          | inr (e, lack) ↦
              ((minus enomem, s), rw (run, e) refl, (rw same (no_memory few (_, lack)), h))
          | inl (copy, e, valid, t) ↦
              let (r, run', q) =
                subst
                  (λ p.
                    Returns (at_path ssh heap new (rename_checked ssh heap p flags) s)
                      (RenamedAt base old new flags w))
                  (sym t)
                  (begins-Returns ssh heap base new (minus enomem)
                    (rename_checked ssh heap (base ++ old) flags) s _ h small'
                    (λ s' h' same'. rename_checked-Renamed old flags new s' h' (same' ∙ same) few)
                    λ s' h' same' short. (rw (same', same) (no_memory few short), h')) in
              (r, rw (run, e) run', q)
        ]

    -- Where the handle holds the base directory and neither whole path comes near the largest
    -- `size_t`, the call ends and the handle still holds the base directory. The server is asked for
    -- both paths behind the base directory, although one buffer makes them in turn: other flags than
    -- RENAME_NOREPLACE come back as -EOPNOTSUPP and -ENOMEM only where a block is refused, both
    -- without a word to the server; with RENAME_NOREPLACE the server is asked to rename only after
    -- it knew of no such file at the new path, a file there gives -EEXIST and another error its
    -- number; the renaming itself gives 0 or the number of its error.
    pub rename-Renamed :
        (base old new : List ℕ) (flags : ℕ) (s : Sftp ssh)
        → HoldsBase ssh base s
        → length base + length old + 17 < word
        → length base + length new + 17 < word
        → Returns (rename ssh heap old new flags s) (RenamedAt base old new flags s.world)
    unfolding rename
    rename-Renamed base old new flags s h small small' = elim (Bool-cases (ltb 1 flags)) [
      | inl many ↦ (_, rw many refl, (unsupported (ltb→lt 1 flags many), h))
      | inr few ↦
          let le : flags ≤ 1 = ground (few, arith) in
          let (r, run, q) =
            begins-Returns ssh heap base old (minus enomem) (rename_from ssh heap new flags) s
              (RenamedAt base old new flags s.world) h small
              (λ s' h' same. rename_from-Renamed old new flags s' h' same le small small')
              λ s' h' same short. (rw same (no_memory le short), h') in
          (r, rw few run, q)
    ]
