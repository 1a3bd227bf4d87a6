-- ===== src/Prompt/Cover.antt =====
-- What the kernel does with a handler, and the signals that are covered after some rounds.
use sftfs.Prelude.{
  ℕ, zero, suc, ◌+◌, ◌≤◌, ◌≡◌, refl, ap, subst, ◌∙◌, Bool, true, false, ◌&&◌, not, none, some, inl,
  inr, ◌⊎◌, arith, if◌then◌else◌, ◌==◌, leb, Bool-cases, Returns,
}
use sftfs.Prompt.{
  Handler, erasing, System, Prompt, State, is_skipped, is_erasing, keep, uncover_loop,
  uncover_unsafe_signals, cover_loop,
}

-- The signals from 1 to `k` whose handlers the prompt replaces.
unfoldable pub covers : (k sig : ℕ) → Bool
covers k sig = leb 1 sig && (leb sig k && not (is_skipped sig))

module _ (sys : System) where
  open sys use {World}

  -- `sigaction` as it is documented: every signal has an action. Whether the call succeeds depends on
  -- the signal; then it returns the old action and sets the new one, and else it changes nothing.
  pub record Documented (action : World → ℕ → Handler) (permits : ℕ → Bool) : Type 0 where
    pub returns :
        (sig : ℕ) (a : Handler) (w : World)
        → permits sig ≡ true
        → (sys.sigaction sig a w).0 ≡ some (action w sig)
    pub fails :
        (sig : ℕ) (a : Handler) (w : World) → permits sig ≡ false → (sys.sigaction sig a w).0 ≡ none
    pub sets :
        (sig : ℕ) (a : Handler) (w : World) (t : ℕ)
        → permits sig ≡ true
        → action (sys.sigaction sig a w).1 t ≡ (if t == sig then a else action w t)
    pub leaves :
        (sig : ℕ) (a : Handler) (w : World) (t : ℕ)
        → permits sig ≡ false
        → action (sys.sigaction sig a w).1 t ≡ action w t

  module _ {action : World → ℕ → Handler} {permits : ℕ → Bool} (kernel : Documented action permits)
      (orig : ℕ → Handler) (flags : ℕ) where
    -- The signals from `k` to `done` are covered, and the handle knows their former actions.
    pub record Half (k done : ℕ) (p : Prompt) (s : State World) : Type 0 where
      pub saved : (t : ℕ) → covers done t ≡ true → k ≤ t → p.handlers t ≡ orig t
      pub allowed : (t : ℕ) → covers done t ≡ true → permits t ≡ true
      pub foreign : (t : ℕ) → covers done t ≡ true → is_erasing (orig t) ≡ false
      pub current :
          (t : ℕ) → action s.world t ≡ (if covers done t && leb k t then erasing else orig t)

    abbrev pub Restored : Bool → Bool × Prompt × State World → Type 0
    Restored rc r = (r.0 ≡ rc) × ((t : ℕ) → action r.2.world t ≡ orig t) × (r.2.ongoing ≡ false)

    uncover_loop-Restored :
        (n k done : ℕ) (p : Prompt) (s : State World)
        → 1 ≤ k
        → n + k ≡ done + 1
        → Half k done p s
        → Returns (uncover_loop sys n k p s) (Restored true)
    unfolding uncover_loop covers
    uncover_loop-Restored zero k done p s pos e h = (
      (true, p, record s { ongoing = false }),
      refl,
      (refl, (λ t. ground (arith, h.current t)), refl),
    )
    uncover_loop-Restored (suc n) k done p s pos e h = elim (Bool-cases (is_skipped k)) [
      | inl skip ↦ rw skip (
          uncover_loop-Restored n (k + 1) done p s (omega arith) (omega arith) (record {
            saved = λ t cv le. h.saved t cv (omega arith);
            allowed = h.allowed;
            foreign = h.foreign;
            current = λ t. ground (arith, h.current t);
          }))
      | inr c ↦
          let here : covers done k ≡ true = ground arith in
          let mine = h.saved k here (omega arith) in
          let free : is_erasing (p.handlers k) ≡ false = ap is_erasing mine ∙ h.foreign k here in
          let got = kernel.returns k (p.handlers k) s.world (h.allowed k here) in
          rw (c, free, got)
            (uncover_loop-Restored n (k + 1) done _ _ (omega arith) (omega arith) (record {
              saved = λ t cv le. ground (arith, h.saved t cv);
              allowed = h.allowed;
              foreign = h.foreign;
              current = λ t. ground (
                arith,
                h.current t,
                mine,
                kernel.sets k (p.handlers k) s.world t (h.allowed k here),
              );
            }))
    ]

    -- The handlers of the signals up to `done` are saved and replaced.
    pub record Covered (done : ℕ) (p : Prompt) (s : State World) : Type 0 where
      pub same_flags : p.flags ≡ flags
      pub saved : (t : ℕ) → covers done t ≡ true → p.handlers t ≡ orig t
      pub allowed : (t : ℕ) → covers done t ≡ true → permits t ≡ true
      pub current : (t : ℕ) → action s.world t ≡ (if covers done t then erasing else orig t)

    Covered-Half :
        (done : ℕ) (p : Prompt) (s : State World)
        → ((t : ℕ) → covers done t ≡ true → is_erasing (orig t) ≡ false)
        → Covered done p s
        → Half 1 done p s
    unfolding covers
    Covered-Half done p s foreign c = record {
      saved = λ t cv le. c.saved t cv;
      allowed = c.allowed;
      foreign = foreign;
      current = λ t. ground (arith, c.current t);
    }

    pub uncover-Restored :
        (done : ℕ) (p : Prompt) (s : State World)
        → ((t : ℕ) → covers done t ≡ true → is_erasing (orig t) ≡ false)
        → Covered done p s
        → Returns (uncover_unsafe_signals sys p done s) (Restored true)
    unfolding uncover_unsafe_signals
    uncover-Restored done p s foreign c =
        uncover_loop-Restored done 1 done p s (omega arith) (omega arith)
          (Covered-Half done p s foreign c)

    -- Every signal that the prompt replaces is covered, or all have the actions that they had.
    abbrev pub CoveredOrNot : ℕ → Bool × Prompt × State World → Type 0
    CoveredOrNot last r =
        ((r.0 ≡ true) × Covered last r.1 r.2 × (r.2.ongoing ≡ true)) ⊎ Restored false r

    pub cover_loop-cases :
        (n done last : ℕ) (p : Prompt) (s : State World)
        → n + done ≡ last
        → ((t : ℕ) → covers last t ≡ true → is_erasing (orig t) ≡ false)
        → s.ongoing ≡ true
        → Covered done p s
        → Returns (cover_loop sys n done p s) (CoveredOrNot last)
    unfolding cover_loop covers
    cover_loop-cases zero done last p s e foreign on c =
        ((true, p, s), refl, inl (refl, subst (λ k. Covered k p s) (omega arith) c, on))
    cover_loop-cases (suc n) done last p s e foreign on c =
        elim (Bool-cases (is_skipped (done + 1))) [
          | inl skip ↦ rw skip (
              cover_loop-cases n (done + 1) last p s (omega arith) foreign on (record {
                same_flags = c.same_flags;
                saved = λ t cv. ground (arith, c.saved t);
                allowed = λ t cv. ground (arith, c.allowed t);
                current = λ t. ground (arith, c.current t);
              }))
          | inr x ↦ elim (Bool-cases (permits (done + 1))) [
            | inl y ↦
                let sig = done + 1 in
                let old = action s.world sig in
                let q : Prompt = record p { handlers = keep p.handlers sig old } in
                let w = (sys.sigaction sig erasing s.world).1 in
                let unknown : covers done sig ≡ false = ground arith in
                let was : old ≡ orig sig = ground (arith, c.current sig) in
                let (r, run, cases) =
                  cover_loop-cases n sig last q (record s { world = w }) (omega arith) foreign on
                    (record {
                      same_flags = c.same_flags;
                      saved = λ t cv. ground (arith, c.saved t, was);
                      allowed = λ t cv. ground (arith, c.allowed t);
                      current =
                          λ t. ground (arith, c.current t, kernel.sets sig erasing s.world t y);
                    }) in
                (r, rw (x, kernel.returns sig erasing s.world y) run, cases)
            | inr y ↦
                let sig = done + 1 in
                let w = (sys.sigaction sig erasing s.world).1 in
                let (r, run, back) =
                  uncover-Restored done p (record s { world = w })
                    (λ t cv. foreign t (ground arith))
                    (record {
                      same_flags = c.same_flags;
                      saved = c.saved;
                      allowed = c.allowed;
                      current = λ t. kernel.leaves sig erasing s.world t y ∙ c.current t;
                    }) in
                (
                  (false, r.1, r.2),
                  rw (x, kernel.fails sig erasing s.world y, run),
                  inr (refl, back.1, back.2),
                )
          ]
        ]
