-- ===== src/Tests/Prompts.antt =====
-- A kernel whose signals are a table of handlers, with SIGKILL, SIGSTOP and no others refused.
use sftfs.Prelude.{
  ℕ, ◌-◌, ◌≡◌, refl, Bool, true, false, ◌||◌, not, none, some, List, [], ◌∷◌, arith, if◌then◌else◌,
  ◌==◌, Returns,
}
use sftfs.Prompt.{
  Handler, default, own, keep, System, Prompt, State, cover_unsafe_signals, wrap_critical_call,
  password_erasing_signal_handler, called, nsig,
}
use sftfs.Prompt.Cover.{Documented, CoveredOrNot}
use sftfs.Prompt.Restore.{
  Quiet, Undisturbed, cover_unsafe_signals-CoveredOrNot, wrap_critical_call-Undisturbed,
}

abbrev Table : Type 0
Table = ℕ → Handler

abbrev permits : ℕ → Bool
permits sig = not ((sig == 9) || (sig == 19))

abbrev kernel : System
kernel = record {
  World = Table;
  sigaction = λ sig a w. if permits sig then (some (w sig), keep w sig a) else (none, w);
  get_dumpable = λ w. some 1;
  set_dumpable = λ d w. (true, w);
  mlock = λ w. (true, w);
  munlock = λ w. (true, w);
  getpass = λ verify bytes w. ((0, 112 ∷ 0 ∷ []), w);
}

abbrev action : Table → Table
action w = w

kernel-Documented : Documented kernel action permits
kernel-Documented = record {
  returns = λ sig a w h. rw h;
  fails = λ sig a w h. rw h;
  sets = λ sig a w t h. rw h;
  leaves = λ sig a w t h. rw h;
}

-- The critical function refuses the password with EAGAIN.
abbrev refuse : List ℕ → Table → ℕ × Table
refuse bytes w = (11, w)

kernel-Quiet : Quiet kernel action refuse
kernel-Quiet = record {
  set_dumpable = λ d w. refl;
  mlock = λ w. refl;
  munlock = λ w. refl;
  getpass = λ v b w. refl;
  called = λ b w. refl;
}

-- SIGINT has a handler of the program's own.
abbrev world : Table
world sig = if sig == 2 then own 7 else default

abbrev state : State Table
state = record { world = world; ongoing = false }

abbrev prompt : Prompt
prompt = record { password = 112 ∷ 0 ∷ []; flags = 0; is_dumpable = 1; handlers = world }

cover_unsafe_signals-CoveredOrNot_example :
    Returns
      (cover_unsafe_signals kernel prompt state)
      (CoveredOrNot kernel kernel-Documented world 0 (nsig - 1))
cover_unsafe_signals-CoveredOrNot_example =
    cover_unsafe_signals-CoveredOrNot kernel kernel-Documented prompt state (λ t cv. ground arith)

wrap_critical_call-Undisturbed_example :
    Returns
      (wrap_critical_call kernel true true 4 0 refuse state)
      λ r. Undisturbed kernel kernel-Documented world r.1
wrap_critical_call-Undisturbed_example =
    wrap_critical_call-Undisturbed kernel kernel-Documented kernel-Quiet true true 4 0 state
      (λ t cv. ground arith) refl

erased :
    password_erasing_signal_handler (some prompt) 2
    ≡ (some (record prompt { password = 0 ∷ 0 ∷ [] }), called 7)
unfolding password_erasing_signal_handler
erased = refl
