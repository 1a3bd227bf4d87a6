-- ===== src/Prompt/Restore.antt =====
-- A prompt leaves every signal with the action that it found.
use Prim.Native.Nat.{bit_and}
use sftfs.Prelude.{
  ℕ, ◌-◌, ◌≡◌, refl, sym, ap, subst, ◌∙◌, Bool, true, false, ◌&&◌, Option, none, some, List, inl,
  inr, ◌⊎◌, arith, if◌then◌else◌, ◌==◌, Bool-cases, Option-cases, ok, Returns, replicate, length,
}
use sftfs.Prompt.{
  Handler, default, System, Prompt, State, is_erasing, nsig, cover_unsafe_signals, handles_signals,
  guard_signals, set_nodumpable, reset_nodumpable, unlock, release, start, stop, ask_password,
  ask_and_stop, wrap_critical_call,
}
use sftfs.Prompt.Cover.{
  covers, Documented, Covered, CoveredOrNot, uncover-Restored, cover_loop-cases,
}

module _ (sys : System) where
  open sys use {World}

  -- The other calls have nothing to do with signals.
  pub record Quiet (action : World → ℕ → Handler) (crit : List ℕ → World → ℕ × World) : Type 0 where
    pub set_dumpable : (d : ℕ) (w : World) → action (sys.set_dumpable d w).1 ≡ action w
    pub mlock : (w : World) → action (sys.mlock w).1 ≡ action w
    pub munlock : (w : World) → action (sys.munlock w).1 ≡ action w
    pub getpass : (v : Bool) (b : List ℕ) (w : World) → action (sys.getpass v b w).1 ≡ action w
    pub called : (b : List ℕ) (w : World) → action (crit b w).1 ≡ action w

  module _ {action : World → ℕ → Handler} {permits : ℕ → Bool}
      (kernel : Documented sys action permits) where
    -- No handler is the prompt's own.
    abbrev pub IsForeign : World → Type 0
    IsForeign w = (t : ℕ) → covers (nsig - 1) t ≡ true → is_erasing (action w t) ≡ false

    -- Covering either covers every signal that it does not skip, and saves the actions that it
    -- found, or fails and leaves every signal with the action that it had.
    pub cover_unsafe_signals-CoveredOrNot :
        (p : Prompt) (s : State World)
        → IsForeign s.world
        → Returns
            (cover_unsafe_signals sys p s)
            (CoveredOrNot sys kernel (action s.world) p.flags (nsig - 1))
    unfolding cover_unsafe_signals covers
    cover_unsafe_signals-CoveredOrNot p s foreign =
        cover_loop-cases sys kernel (action s.world) p.flags (nsig - 1) 0 (nsig - 1) p
          (record s { ongoing = true }) (omega arith) foreign refl
          (record {
            same_flags = refl;
            saved = λ t cv. ground arith;
            allowed = λ t cv. ground arith;
            current = λ t. ground arith;
          })

    -- All signals have the actions of `w`, and no prompt is on.
    abbrev pub Undisturbed : World → State World → Type 0
    Undisturbed w s = ((t : ℕ) → action s.world t ≡ action w t) × (s.ongoing ≡ false)

    -- The prompt leaves the signals alone, or it has covered them and can restore the actions of `w`.
    abbrev Held : World → Prompt → State World → Type 0
    Held w p s =
        ((handles_signals p ≡ false) × Undisturbed w s)
        ⊎ ((handles_signals p ≡ true) × Covered sys kernel (action w) p.flags (nsig - 1) p s)

    Held-password :
        (w : World) (p : Prompt) (bytes : List ℕ) (s t : State World)
        → action t.world ≡ action s.world
        → t.ongoing ≡ s.ongoing
        → Held w p s
        → Held w (record p { password = bytes }) t
    Held-password w p bytes s t same on (inl (e, (back, off))) =
        inl (e, ((λ k. ap (λ f. f k) same ∙ back k), on ∙ off))
    Held-password w p bytes s t same on (inr (e, c)) = inr (
      e,
      record {
        same_flags = c.same_flags;
        saved = c.saved;
        allowed = c.allowed;
        current = λ k. ap (λ f. f k) same ∙ c.current k;
      },
    )

    either :
        (b : Bool) {s t u : State World}
        → (action t.world ≡ action s.world) × (t.ongoing ≡ s.ongoing)
        → (action u.world ≡ action s.world) × (u.ongoing ≡ s.ongoing)
        → let v = if b then t else u in (action v.world ≡ action s.world) × (v.ongoing ≡ s.ongoing)
    either true h k = h
    either false h k = k

    -- What starting a prompt leaves: nothing, or a handle that can restore the actions.
    abbrev Started : World → Option Prompt × State World → Type 0
    Started w r =
        ((r.0 ≡ none) × Undisturbed w r.1) ⊎ ((p : Prompt) × (r.0 ≡ some p) × Held w p r.1)

    module _ {crit : List ℕ → World → ℕ × World} (quiet : Quiet action crit) where
      guard_signals-Started :
          (p : Prompt) (w : World) (s : State World)
          → handles_signals p ≡ true
          → IsForeign w
          → action s.world ≡ action w
          → Returns (guard_signals sys p s) (Started w)
      unfolding guard_signals reset_nodumpable
      guard_signals-Started p w s on foreign same =
          let (r, run, cases) =
            cover_unsafe_signals-CoveredOrNot p s
              (λ t cv. ap (λ f. is_erasing (f t)) same ∙ foreign t cv) in
          elim cases [
            | inl (done, c, o) ↦ (
              (some r.1, r.2),
              rw (run, done),
              inr (
                r.1,
                refl,
                inr (
                  ap (λ k. bit_and k 2 == 0) c.same_flags ∙ on,
                  subst (λ k. Covered sys kernel (action w) k (nsig - 1) r.1 r.2) (sym c.same_flags)
                      (subst (λ f. Covered sys kernel f p.flags (nsig - 1) r.1 r.2) same c),
                ),
              ),
            )
            | inr (failed, back, o) ↦
                let s' = (unlock sys (reset_nodumpable sys p.is_dumpable r.2)).1 in
                (
                  (none, s'),
                  rw (run, failed),
                  inl (
                    refl,
                    (
                      (λ t.
                          ap (λ f. f t) (quiet.munlock _ ∙ quiet.set_dumpable _ _)
                          ∙ back t
                          ∙ ap (λ f. f t) same),
                      o,
                    ),
                  ),
                )
          ]

      start-Started :
          (a b : Bool) (size flags : ℕ) (s : State World)
          → IsForeign s.world
          → s.ongoing ≡ false
          → Returns (start sys a b size flags s) (Started s.world)
      unfolding start set_nodumpable reset_nodumpable
      start-Started a b size flags s foreign off =
          let w₁ = (sys.mlock s.world).1 in
          let s₁ = record s { world = w₁ } in
          let s₂ = (set_nodumpable sys s₁).1 in
          let same : action s₂.world ≡ action s.world =
            quiet.set_dumpable _ _ ∙ quiet.mlock s.world in
          elim (Bool-cases (a && b)) [
            | inr e ↦ ((none, s), rw e, inl (refl, ((λ t. refl), off)))
            | inl e ↦ elim (Bool-cases (sys.mlock s.world).0) [
              | inr l ↦ (
                (none, s₁),
                rw (e, l),
                inl (refl, ((λ t. ap (λ f. f t) (quiet.mlock s.world)), off)),
              )
              | inl l ↦ elim (Option-cases (sys.get_dumpable w₁)) [
                | inl d ↦ (
                  (none, (unlock sys s₂).1),
                  rw (e, l, d),
                  inl (refl, ((λ t. ap (λ f. f t) (quiet.munlock _ ∙ same)), off)),
                )
                | inr (d, g) ↦
                    let p : Prompt = record {
                      password = replicate size 0;
                      flags = flags;
                      is_dumpable = d;
                      handlers = λ sig. default;
                    } in
                    elim (Bool-cases (handles_signals p)) [
                      | inl on ↦
                          let (r, run, st) = guard_signals-Started p s.world s₂ on foreign same in
                          (r, rw (e, l, g, on) run, st)
                      | inr no_handling ↦ (
                        (some p, s₂),
                        rw (e, l, g, no_handling),
                        inr (p, refl, inl (no_handling, ((λ t. ap (λ f. f t) same), off))),
                      )
                    ]
              ]
            ]
          ]

      release-Undisturbed :
          (w : World) (p : Prompt) (rc : Bool) (s : State World)
          → Undisturbed w s
          → Undisturbed w (release sys p rc s).1
      unfolding release reset_nodumpable
      release-Undisturbed w p rc s (back, off) =
          ((λ t. ap (λ f. f t) (quiet.munlock _ ∙ quiet.set_dumpable _ _) ∙ back t), off)

      stop-Undisturbed :
          (w : World) (p : Prompt) (s : State World)
          → IsForeign w
          → Held w p s
          → Returns (stop sys p s) λ r. Undisturbed w r.1
      unfolding stop
      stop-Undisturbed w p s foreign (inl (e, u)) =
          let q : Prompt = record p { password = replicate (length p.password) 0 } in
          (release sys q true s, rw e, release-Undisturbed w q true s u)
      stop-Undisturbed w p s foreign (inr (e, c)) =
          let q : Prompt = record p { password = replicate (length p.password) 0 } in
          let (r, run, back) =
            uncover-Restored sys kernel (action w) p.flags (nsig - 1) q s foreign (record {
              same_flags = c.same_flags;
              saved = c.saved;
              allowed = c.allowed;
              current = c.current;
            }) in
          (release sys q r.0 r.2, rw (e, run), release-Undisturbed w q r.0 r.2 (back.1, back.2))

      ask_and_stop-Undisturbed :
          (w : World) (p : Prompt) (s : State World)
          → IsForeign w
          → Held w p s
          → Returns (ask_and_stop sys crit p s) λ r. Undisturbed w r.1
      unfolding ask_and_stop ask_password
      ask_and_stop-Undisturbed w p s foreign held =
          let ((asked, p'), s₁) = ask_password sys p s in
          let (called, w') = crit p'.password s₁.world in
          let s₂ = if asked == 0 then record s₁ { world = w' } else s₁ in
          let asked_same = quiet.getpass _ p.password s.world in
          let (same, on) =
            either (asked == 0) {s = s} {t = record s₁ { world = w' }} {u = s₁}
              (quiet.called _ _ ∙ asked_same, refl) (asked_same, refl) in
          let (r, run, u) =
            stop-Undisturbed w p' s₂ foreign (Held-password w p _ s s₂ same on held) in
          ((some (if asked == 0 then called else asked), r.1), rw run, u)

      -- Where the kernel sets handlers as documented, no other call touches them, and no handler is
      -- the prompt's own beforehand: a critical call returns, whatever fails, and every signal has
      -- then the action that it had before, and no prompt is on.
      pub wrap_critical_call-Undisturbed :
          (a b : Bool) (size flags : ℕ) (s : State World)
          → IsForeign s.world
          → s.ongoing ≡ false
          → Returns (wrap_critical_call sys a b size flags crit s) λ r. Undisturbed s.world r.1
      unfolding wrap_critical_call
      wrap_critical_call-Undisturbed a b size flags s foreign off =
          let (r, run, cases) = start-Started a b size flags s foreign off in
          elim cases [
            | inl (e, u) ↦ ((none, r.1), rw (run ∙ ap (λ o. ok (o, r.1)) e), u)
            | inr (p, e, held) ↦
                let (r', run', u) = ask_and_stop-Undisturbed s.world p r.1 foreign held in
                (r', rw (run ∙ ap (λ o. ok (o, r.1)) e) run', u)
          ]
