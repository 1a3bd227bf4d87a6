-- ===== src/Prompt.antt =====
-- password_prompt.c and include/password_prompt.h: a prompt for a password, which covers the
-- handlers of the signals so that each of them erases the password first.
--
-- The calls of the kernel and of libssh are fields of `System`; the state that they work on is its
-- `World`. A handle is a value: its array of handlers is a function of the signal.
pub mod Cover
pub mod Restore
pub mod Kept
use sftfs.Prelude.{
  ℕ, zero, suc, ◌+◌, ◌-◌, Bool, true, false, ◌&&◌, ◌||◌, not, Option, none, some, List,
  if◌then◌else◌, ◌==◌, replicate, length, Run, ok, fault, ◌>>=◌,
}
use Prim.Native.Nat.{bit_and}

-- `struct sigaction` by its handler: SIG_DFL, SIG_IGN, `password_erasing_signal_handler`, or any
-- other one.
pub data Handler : Type 0 where
  default ignored erasing : Handler
  own : ℕ → Handler

pub record System : Type 1 where
  pub World : Type 0
  -- `sigaction(sig, new, &old)`: the old action, or `none` where the call fails.
  pub sigaction : (sig : ℕ) → Handler → World → Option Handler × World
  pub get_dumpable : World → Option ℕ
  pub set_dumpable : ℕ → World → Bool × World
  pub mlock : World → Bool × World
  pub munlock : World → Bool × World
  -- The result, and the bytes that the buffer holds then.
  pub getpass : (verify : Bool) → List ℕ → World → (ℕ × List ℕ) × World

-- One above the largest signal of Linux.
abbrev pub nsig : ℕ
nsig = 65

-- SIGCHLD, SIGCONT, SIGURG, SIGWINCH, SIGPOLL (which is SIGIO), SIGPWR, and the two of the threads.
unfoldable pub is_safe_signal : ℕ → Bool
is_safe_signal sig =
    (sig == 17)
    || ((sig == 18)
        || ((sig == 23)
            || ((sig == 28) || ((sig == 29) || ((sig == 30) || ((sig == 32) || (sig == 33)))))))

-- The test in both loops: safe, SIGKILL or SIGSTOP.
unfoldable pub is_skipped : ℕ → Bool
unfolding is_safe_signal
is_skipped sig = is_safe_signal sig || ((sig == 9) || (sig == 19))

pub record Prompt : Type 0 where
  pub password : List ℕ
  pub flags : ℕ
  pub is_dumpable : ℕ
  pub handlers : ℕ → Handler

abbrev pub keep : (ℕ → Handler) → ℕ → Handler → ℕ → Handler
keep h sig a s = if s == sig then a else h s

abbrev pub is_erasing : Handler → Bool
is_erasing erasing = true
is_erasing default = false
is_erasing ignored = false
is_erasing (own n) = false

-- `ongoing_prompt` is not NULL; the handler reads nothing else of it than its prompt.
pub record State (W : Type 0) : Type 0 where
  pub world : W
  pub ongoing : Bool

-- SFTFS_PASSWORD_PROMPT_VERIFY is 1, SFTFS_PASSWORD_PROMPT_DISABLE_SIGNAL_HANDLING is 2.
abbrev pub handles_signals : Prompt → Bool
handles_signals p = bit_and p.flags 2 == 0

module _ (sys : System) where
  open sys use {World}

  -- The loop from `sig` on, with the rounds that are left. A fault where the assertion fails.
  unfoldable pub uncover_loop :
      (rounds sig : ℕ) → Prompt → State World → Run (Bool × Prompt × State World)
  uncover_loop zero sig p s = ok (true, p, record s { ongoing = false })
  uncover_loop (suc n) sig p s =
      let (old, w) = sys.sigaction sig (p.handlers sig) s.world in
      let failed : Bool × Prompt × State World =
        (false, p, record { world = w; ongoing = false }) in
      let q = record p { handlers = keep p.handlers sig default } in
      let skip = uncover_loop n (sig + 1) p s in
      let next = uncover_loop n (sig + 1) q (record s { world = w }) in
      if is_skipped sig
      then skip
      else if is_erasing (p.handlers sig)
      then fault
      else elim old [ none ↦ ok failed | some a ↦ next ]

  -- `failed_signal` is one above the rounds; true is the result 0.
  unfoldable pub uncover_unsafe_signals :
      Prompt → (rounds : ℕ) → State World → Run (Bool × Prompt × State World)
  unfolding uncover_loop
  uncover_unsafe_signals p rounds s = uncover_loop rounds 1 p s

  -- The loop after `done` rounds; the signal is one above them.
  unfoldable pub cover_loop :
      (rounds done : ℕ) → Prompt → State World → Run (Bool × Prompt × State World)
  unfolding uncover_unsafe_signals
  cover_loop zero done p s = ok (true, p, s)
  cover_loop (suc n) done p s =
      let sig = done + 1 in
      let (old, w) = sys.sigaction sig erasing s.world in
      let skip = cover_loop n sig p s in
      let give_up =
        uncover_unsafe_signals p done (record s { world = w }) >>= λ r. ok (false, r.1, r.2) in
      let next = λ (a : Handler).
        cover_loop n sig (record p { handlers = keep p.handlers sig a }) (record s { world = w }) in
      if is_skipped sig then skip else elim old [ none ↦ give_up | some a ↦ next a ]

  -- `sigemptyset` does not fail on a valid pointer.
  unfoldable pub cover_unsafe_signals : Prompt → State World → Run (Bool × Prompt × State World)
  unfolding cover_loop
  cover_unsafe_signals p s = cover_loop (nsig - 1) 0 p (record s { ongoing = true })

  -- `prctl(PR_SET_DUMPABLE, 0)` may fail without effect on the result.
  unfoldable pub set_nodumpable : State World → Option ℕ × State World
  set_nodumpable s =
      let (_, w) = sys.set_dumpable 0 s.world in (sys.get_dumpable s.world, record s { world = w })

  -- The result is only logged.
  unfoldable pub reset_nodumpable : ℕ → State World → State World
  reset_nodumpable d s = let (_, w) = sys.set_dumpable d s.world in record s { world = w }

  abbrev pub unlock : State World → Bool × State World
  unlock s = let (unlocked, w) = sys.munlock s.world in (unlocked, record s { world = w })

  -- The last step of starting, with its error path.
  unfoldable pub guard_signals : Prompt → State World → Run (Option Prompt × State World)
  unfolding cover_unsafe_signals reset_nodumpable
  guard_signals p s = cover_unsafe_signals p s >>= λ r.
      if r.0 then ok (some r.1, r.2) else ok (none, (unlock (reset_nodumpable p.is_dumpable r.2)).1)

  -- `prompt_granted` and `password_granted` are the two allocations.
  unfoldable pub start :
      (prompt_granted password_granted : Bool) (buffer_size flags : ℕ)
      → State World
      → Run (Option Prompt × State World)
  unfolding guard_signals set_nodumpable
  start prompt_granted password_granted buffer_size flags s =
      if not (prompt_granted && password_granted)
      then ok (none, s)
      else let (locked, w) = sys.mlock s.world in
        let s₁ = record s { world = w } in
        let (dumpable, s₂) = set_nodumpable s₁ in
        if not locked then ok (none, s₁) else elim dumpable [
          | none ↦ ok (none, (unlock s₂).1)
          | some d ↦
              let p : Prompt = record {
                password = replicate buffer_size 0;
                flags = flags;
                is_dumpable = d;
                handlers = λ sig. default;
              } in
              if handles_signals p then guard_signals p s₂ else ok (some p, s₂)
        ]

  -- The end of `sftfs_password_prompt_stop`, after the handlers were restored or not.
  unfoldable pub release : Prompt → Bool → State World → Bool × State World
  unfolding reset_nodumpable
  release p rc s =
      let (unlocked, s') = unlock (reset_nodumpable p.is_dumpable s) in (rc && unlocked, s')

  -- The result 0 is true. The handle is freed.
  unfoldable pub stop : Prompt → State World → Run (Bool × State World)
  unfolding uncover_unsafe_signals release
  stop prompt s =
      let p = record prompt { password = replicate (length prompt.password) 0 } in
      if handles_signals p
      then (uncover_unsafe_signals p (nsig - 1) s >>= λ r. ok (release p r.0 r.2))
      else ok (release p true s)

  -- `sftfs_password_prompt_do`; the buffer of the handle is written.
  unfoldable pub ask_password : Prompt → State World → (ℕ × Prompt) × State World
  ask_password p s =
      let ((rc, bytes), w) = sys.getpass (not (bit_and p.flags 1 == 0)) p.password s.world in
      ((rc, record p { password = bytes }), record s { world = w })

  -- Asking, the critical function `crit`, and stopping, whose result is dropped.
  unfoldable pub ask_and_stop :
      (crit : List ℕ → World → ℕ × World) → Prompt → State World → Run (Option ℕ × State World)
  unfolding stop ask_password
  ask_and_stop crit p s =
      let ((asked, p'), s₁) = ask_password p s in
      let (called, w) = crit p'.password s₁.world in
      let s₂ = if asked == 0 then record s₁ { world = w } else s₁ in
      stop p' s₂ >>= λ r. ok (some (if asked == 0 then called else asked), r.1)

  -- The result -1 is `none`.
  unfoldable pub wrap_critical_call :
      (prompt_granted password_granted : Bool) (buffer_size flags : ℕ)
      → (crit : List ℕ → World → ℕ × World) → State World
      → Run (Option ℕ × State World)
  unfolding start ask_and_stop
  wrap_critical_call prompt_granted password_granted buffer_size flags crit s =
      start prompt_granted password_granted buffer_size flags s >>= λ r. elim r.0 [
        | none ↦ ok (none, r.1)
        | some p ↦ ask_and_stop crit p r.1
      ]

-- What the handler does with the password, and the handler that runs next: SIGKILL kills the
-- process where no prompt is on, the default or ignored action is restored and raised again, and
-- a handler that was covered twice calls itself without end.
pub data Reaction : Type 0 where
  killed endless : Reaction
  called : ℕ → Reaction
  raised : Handler → Reaction

unfoldable pub password_erasing_signal_handler :
    Option Prompt → (sig : ℕ) → Option Prompt × Reaction
password_erasing_signal_handler none sig = (none, killed)
password_erasing_signal_handler (some p) sig =
    let q = record p { password = replicate (length p.password) 0 } in
    elim (p.handlers sig) [
      | own n ↦ (some q, called n)
      | default ↦ (some q, raised default)
      | ignored ↦ (some q, raised ignored)
      | erasing ↦ (some q, endless)
    ]
