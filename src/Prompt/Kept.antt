-- ===== src/Prompt/Kept.antt =====
-- What every call of the prompt keeps of the state outside, the whole prompt keeps.
use sftfs.Prelude.{
  ℕ, zero, suc, ◌+◌, ◌-◌, Bool, true, false, not, ◌&&◌, List, ok, if◌then◌else◌, ◌==◌, replicate,
  length, Ensures, faulty, ensured, >>=_Ensures, if_Ensures, elim_Ensures,
}
use sftfs.Prompt.{
  Handler, default, erasing, System, Prompt, State, uncover_loop, uncover_unsafe_signals,
  cover_loop, cover_unsafe_signals, guard_signals, set_nodumpable, reset_nodumpable,
  handles_signals, nsig, release, start, stop, ask_password, ask_and_stop, wrap_critical_call,
}

module _ (sys : System) (crit : List ℕ → sys.World → ℕ × sys.World) (P : sys.World → Type 0) where
  open sys use {World}

  pub record Keeps : Type 0 where
    pub sigaction : (sig : ℕ) (a : Handler) (w : World) → P w → P (sys.sigaction sig a w).1
    pub set_dumpable : (d : ℕ) (w : World) → P w → P (sys.set_dumpable d w).1
    pub mlock : (w : World) → P w → P (sys.mlock w).1
    pub munlock : (w : World) → P w → P (sys.munlock w).1
    pub getpass : (v : Bool) (b : List ℕ) (w : World) → P w → P (sys.getpass v b w).1
    pub called : (b : List ℕ) (w : World) → P w → P (crit b w).1

  module _ (keeps : Keeps) where
    uncover_loop-Kept :
        (rounds sig : ℕ) (p : Prompt) (s : State World)
        → P s.world
        → Ensures (λ r. P r.2.world) (uncover_loop sys rounds sig p s)
    unfolding uncover_loop
    uncover_loop-Kept zero sig p s h = ensured h
    uncover_loop-Kept (suc n) sig p s h =
        let k = keeps.sigaction sig (p.handlers sig) s.world h in
        if_Ensures _ _ _ (uncover_loop-Kept n (sig + 1) p s h) (
          if_Ensures _ _ _ faulty
            (elim_Ensures _ _ _ (ensured k) (λ a. uncover_loop-Kept n (sig + 1) _ _ k)))

    cover_loop-Kept :
        (rounds done : ℕ) (p : Prompt) (s : State World)
        → P s.world
        → Ensures (λ r. P r.2.world) (cover_loop sys rounds done p s)
    unfolding cover_loop uncover_unsafe_signals
    cover_loop-Kept zero done p s h = ensured h
    cover_loop-Kept (suc n) done p s h =
        let k = keeps.sigaction (done + 1) erasing s.world h in
        if_Ensures _ _ _ (cover_loop-Kept n (done + 1) p s h) (
          elim_Ensures _ _ _ (>>=_Ensures _ _ (uncover_loop-Kept done 1 p _ k) (λ r q. ensured q))
            (λ a. cover_loop-Kept n (done + 1) _ _ k))

    cover_unsafe_signals-Kept :
        (p : Prompt) (s : State World)
        → P s.world
        → Ensures (λ r. P r.2.world) (cover_unsafe_signals sys p s)
    unfolding cover_unsafe_signals
    cover_unsafe_signals-Kept p s h = cover_loop-Kept (nsig - 1) 0 p (record s { ongoing = true }) h

    guard_signals-Kept :
        (p : Prompt) (s : State World)
        → P s.world
        → Ensures (λ r. P r.1.world) (guard_signals sys p s)
    unfolding guard_signals reset_nodumpable
    guard_signals-Kept p s h =
        >>=_Ensures (cover_unsafe_signals sys p s) _ (cover_unsafe_signals-Kept p s h) (λ r q.
          if_Ensures r.0 _ _ (ensured q) (ensured (keeps.munlock _ (keeps.set_dumpable _ _ q))))

    start-Kept :
        (pg wg : Bool) (size flags : ℕ) (s : State World)
        → P s.world
        → Ensures (λ r. P r.1.world) (start sys pg wg size flags s)
    unfolding start set_nodumpable
    start-Kept pg wg size flags s h =
        let l = keeps.mlock s.world h in
        let d = keeps.set_dumpable 0 _ l in
        let (locked, w) = sys.mlock s.world in
        let s₁ = record s { world = w } in
        if_Ensures (not (pg && wg)) _ _ (ensured h) (
          if_Ensures (not locked) _ _ (ensured l) (
            elim_Ensures (set_nodumpable sys s₁).0 _ _ (ensured (keeps.munlock _ d)) (λ n.
              let p : Prompt = record {
                password = replicate size 0;
                flags = flags;
                is_dumpable = n;
                handlers = λ sig. default;
              } in
              if_Ensures (handles_signals p) _ _ (guard_signals-Kept p (set_nodumpable sys s₁).1 d)
                (ensured d))))

    release-Kept :
        (p : Prompt) (rc : Bool) (s : State World) → P s.world → P (release sys p rc s).1.world
    unfolding release reset_nodumpable
    release-Kept p rc s h = keeps.munlock _ (keeps.set_dumpable p.is_dumpable s.world h)

    stop-Kept :
        (p : Prompt) (s : State World) → P s.world → Ensures (λ r. P r.1.world) (stop sys p s)
    unfolding stop uncover_unsafe_signals
    stop-Kept p s h =
        let q = record p { password = replicate (length p.password) 0 } in
        if_Ensures (handles_signals p) _ _
          (>>=_Ensures (uncover_loop sys (nsig - 1) 1 q s) (λ r. ok (release sys q r.0 r.2))
            (uncover_loop-Kept (nsig - 1) 1 q s h) (λ r k. ensured (release-Kept q r.0 r.2 k)))
          (ensured (release-Kept q true s h))

    if_Kept : (b : Bool) (s t : State World) → P s.world → P t.world → P (if b then s else t).world
    if_Kept true s t h k = h
    if_Kept false s t h k = k

    ask_and_stop-Kept :
        (p : Prompt) (s : State World)
        → P s.world
        → Ensures (λ r. P r.1.world) (ask_and_stop sys crit p s)
    unfolding ask_and_stop ask_password
    ask_and_stop-Kept p s h =
        let a = keeps.getpass _ p.password s.world h in
        let ((asked, p'), s₁) = ask_password sys p s in
        let (called, w) = crit p'.password s₁.world in
        let s₂ : State World = if asked == 0 then record s₁ { world = w } else s₁ in
        >>=_Ensures (stop sys p' s₂) _
          (stop-Kept p' s₂
            (if_Kept (asked == 0) (record s₁ { world = w }) s₁ (keeps.called p'.password _ a) a))
          (λ r q. ensured q)

    pub wrap_critical_call-Kept :
        (pg wg : Bool) (size flags : ℕ) (s : State World)
        → P s.world
        → Ensures (λ r. P r.1.world) (wrap_critical_call sys pg wg size flags crit s)
    unfolding wrap_critical_call
    wrap_critical_call-Kept pg wg size flags s h =
        >>=_Ensures _ _ (start-Kept pg wg size flags s h)
          (λ r q. elim_Ensures r.0 _ _ (ensured q) (λ p. ask_and_stop-Kept p r.1 q))
