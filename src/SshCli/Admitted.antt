-- ===== src/SshCli/Admitted.antt =====
-- Which sessions the login hands out.
use sftfs.Prelude.{
  ℕ, zero, suc, ◌≡◌, refl, subst, ◌≢◌, ◌↔◌, Bool, true, false, Option, none, some, List, arith,
  ◌==◌, Run, ok, >>=_ok, if◌then◌else◌,
}
use sftfs.Prompt.{
  System, State, Prompt, wrap_critical_call, ask_password, ask_and_stop, stop, start,
}
use sftfs.Ssh.{
  Config, Client, KnownHost, known_error, not_found, unknown, known, changed, other, Auth,
  auth_success, auth_denied, auth_partial, auth_info, auth_again, auth_error, connect,
}
use sftfs.SshCli.{
  Answer, is_yes, is_no, no_answer, is_nonzero, question, answered, handle_host_verification,
}
use sftfs.SshCli.Answers.{Succeeds, first, again, handle_host_authorization_iff}
use sftfs.SshCli.Login.{
  Setup, code_of, password_prompt_cb, try_authorize_host_with_password, admit, authorize_if, settle,
  proceed, handle_connection,
}

module _ {World : Type 0} (client : Client World) (beyond : ℕ) (buffer : List ℕ) where
  open client use {Session}

  -- The host passes from the first state to the second: libssh reports it as something else than
  -- unknown, or the user says yes and the key is stored.
  pub data Verified (ssh : Session) : World → World → Type 0 where
    unasked :
        {w w' : World} (r : KnownHost)
        → r ≢ unknown
        → client.is_known_server ssh w ≡ (r, w')
        → Verified ssh w w'
    accepted :
        {w w₁ w₂ w' : World}
        → client.is_known_server ssh w ≡ (unknown, w₁)
        → question client beyond buffer w₁ ≡ (is_yes, w₂)
        → client.update_known_hosts ssh w₂ ≡ (true, w')
        → Verified ssh w w'

  -- For an unknown host, the answer decides.
  answered-Verified :
      (ssh : Session) (w w₁ w₂ w' : World) (answer : Answer)
      → client.is_known_server ssh w ≡ (unknown, w₁)
      → question client beyond buffer w₁ ≡ (answer, w₂)
      → answered client beyond buffer ssh (answer, w₂) ≡ (true, w')
      → Verified ssh w w'
  unfolding answered
  answered-Verified ssh w w₁ w₂ w' is_yes e q h = accepted e q h
  answered-Verified ssh w w₁ w₂ w' is_no e q h = cc
  answered-Verified ssh w w₁ w₂ w' no_answer e q h = cc

  -- The result of the first call decides.
  is_known_server-Verified :
      (ssh : Session) (w w₁ w' : World) (r : KnownHost)
      → client.is_known_server ssh w ≡ (r, w₁)
      → handle_host_verification client beyond buffer ssh w ≡ (true, w')
      → Verified ssh w w'
  unfolding handle_host_verification
  is_known_server-Verified ssh w w₁ w' unknown e h =
      answered-Verified ssh w w₁ _ w' _ e refl (rw (e) at h)
  is_known_server-Verified ssh w w₁ w' known_error e h =
      let f = rw (e) at h in unasked known_error (λ c. cc) cc
  is_known_server-Verified ssh w w₁ w' not_found e h =
      let f = rw (e) at h in unasked not_found (λ c. cc) cc
  is_known_server-Verified ssh w w₁ w' known e h = let f = rw (e) at h in unasked known (λ c. cc) cc
  is_known_server-Verified ssh w w₁ w' changed e h =
      let f = rw (e) at h in unasked changed (λ c. cc) cc
  is_known_server-Verified ssh w w₁ w' other e h = let f = rw (e) at h in unasked other (λ c. cc) cc

  is_nonzero_of_not_unknown : (r : KnownHost) → r ≢ unknown → is_nonzero r ≡ true
  is_nonzero_of_not_unknown unknown h = absurd (h refl)
  is_nonzero_of_not_unknown known_error h = refl
  is_nonzero_of_not_unknown not_found h = refl
  is_nonzero_of_not_unknown known h = refl
  is_nonzero_of_not_unknown changed h = refl
  is_nonzero_of_not_unknown other h = refl

  verification-Verified :
      (ssh : Session) (w w' : World)
      → handle_host_verification client beyond buffer ssh w ≡ (true, w')
      → Verified ssh w w'
  verification-Verified ssh w w' h = is_known_server-Verified ssh w _ w' _ refl h

  Verified-verification :
      {ssh : Session} {w w' : World}
      → Verified ssh w w'
      → handle_host_verification client beyond buffer ssh w ≡ (true, w')
  unfolding handle_host_verification answered
  Verified-verification (unasked r n e) =
      rw (e, handle_host_verification, is_nonzero_of_not_unknown r n)
  Verified-verification (accepted e q u) = rw (e, q, u, handle_host_verification)

module _ (sys : System) (crit : List ℕ → sys.World → ℕ × sys.World) where
  open sys use {World}

  called_of_chosen :
      (asked called : ℕ) {s s' : State World}
      → ◌≡◌ {A = Run (Option ℕ × State World)}
          (ok (some (if asked == 0 then called else asked), s))
          (ok (some 0, s'))
      → called ≡ 0
  called_of_chosen zero called h = cc
  called_of_chosen (suc n) called h = let z : (suc n == 0) ≡ false = ground arith in cc

  called_of_start :
      (started : Option Prompt) (s s' : State World)
      → (elim started as (λ _. Run (Option ℕ × State World)) [
        | none ↦ ok (none, s)
        | some p ↦ ask_and_stop sys crit p s
      ])
        ≡ ok (some 0, s')
      → (bytes : List ℕ) × (w : World) × ((crit bytes w).0 ≡ 0)
  unfolding ask_and_stop
  called_of_start none s s' h = cc
  called_of_start (some p) s s' h =
      let ((asked, p'), s₁) = ask_password sys p s in
      let (called, w) = crit p'.password s₁.world in
      let s₂ : State World = if asked == 0 then record s₁ { world = w } else s₁ in
      let (stopped, _, f) = >>=_ok (stop sys p' s₂) h in
      (p'.password, s₁.world, called_of_chosen asked called f)

  -- The prompt returns 0 only where the critical function did.
  pub called_of_success :
      (pg wg : Bool) (size flags : ℕ) (s s' : State World)
      → wrap_critical_call sys pg wg size flags crit s ≡ ok (some 0, s')
      → (bytes : List ℕ) × (w : World) × ((crit bytes w).0 ≡ 0)
  unfolding wrap_critical_call ask_and_stop
  called_of_success pg wg size flags s s' h =
      let ((started, s₁), e, f) = >>=_ok (start sys pg wg size flags s) h in
      called_of_start started s₁ s' f

auth_success_of_code : (result : Auth) → code_of result ≡ 0 → result ≡ auth_success
unfolding code_of
auth_success_of_code auth_success h = refl
auth_success_of_code auth_denied h = absurd (omega (arith, h))
auth_success_of_code auth_partial h = absurd (omega (arith, h))
auth_success_of_code auth_info h = absurd (omega (arith, h))
auth_success_of_code auth_again h = absurd (omega (arith, h))
auth_success_of_code auth_error h = absurd (omega (arith, h))

module _ (sys : System) (client : Client sys.World) (setup : Setup sys.World) where
  open sys use {World}
  open client use {Session}

  -- The server accepts a password for the session in some state.
  abbrev pub AcceptsPassword : Session → Type 0
  AcceptsPassword ssh =
      (password : List ℕ) × (w : World) × ((client.userauth_password ssh password w).0
        ≡ auth_success)

  Succeeds-AcceptsPassword :
      (ssh : Session) {n : ℕ} {s s' : State World}
      → Succeeds (try_authorize_host_with_password sys client setup ssh) n s s'
      → AcceptsPassword ssh
  unfolding try_authorize_host_with_password password_prompt_cb
  Succeeds-AcceptsPassword ssh (first {w = s} {w' = s'} e) =
      let (password, w, h) =
        called_of_success sys (password_prompt_cb sys client ssh) _ _ _ _ s s' e in
      (password, w, auth_success_of_code _ h)
  Succeeds-AcceptsPassword ssh (again e more) = Succeeds-AcceptsPassword ssh more

  -- How a session comes to be handed out.
  pub record Admitted (config : Config) (s : State World) (ssh : Session) (s' : State World)
      : Type 0 where
    pub opened : World
    pub verified : World
    pub connects : connect client config s.world ≡ (some ssh, opened)
    pub verifies : Verified client setup.beyond setup.response ssh opened verified
    pub succeeds :
        Succeeds
          (try_authorize_host_with_password sys client setup ssh)
          3
          (record s { world = verified })
          s'

  authorize_if-Admitted :
      (config : Config) (s : State World) (ssh : Session) (w : World) (v : Bool × World)
      (s' : State World)
      → connect client config s.world ≡ (some ssh, w)
      → handle_host_verification client setup.beyond setup.response ssh w ≡ v
      → authorize_if sys client setup ssh v (record s { world = w }) ≡ ok (true, s')
      → Admitted config s ssh s'
  unfolding authorize_if
  authorize_if-Admitted config s ssh w (false, w₁) s' e f h = cc
  authorize_if-Admitted config s ssh w (true, w₁) s' e f h = record {
    opened = w;
    verified = w₁;
    connects = e;
    verifies = verification-Verified client setup.beyond setup.response ssh w w₁ f;
    succeeds = (handle_host_authorization_iff _ _ s').0 h;
  }

  admit-Admitted :
      (config : Config) (s : State World) (ssh : Session) (w : World) (s' : State World)
      → connect client config s.world ≡ (some ssh, w)
      → admit sys client setup ssh (record s { world = w }) ≡ ok (true, s')
      → Admitted config s ssh s'
  admit-Admitted config s ssh w s' e h = authorize_if-Admitted config s ssh w _ s' e refl h

  settle-Admitted :
      (config : Config) (s : State World) (ssh₁ : Session) (w : World) (admitted : Bool)
      (s₁ : State World) (ssh : Session) (s' : State World)
      → connect client config s.world ≡ (some ssh₁, w)
      → admit sys client setup ssh₁ (record s { world = w }) ≡ ok (admitted, s₁)
      → settle sys client setup ssh₁ (admitted, s₁) ≡ ok (some ssh, s')
      → Admitted config s ssh s'
  unfolding settle
  settle-Admitted config s ssh₁ w false s₁ ssh s' e f g = cc
  settle-Admitted config s ssh₁ w true s₁ ssh s' e f g =
      subst (λ (q : Session × State World). Admitted config s q.0 q.1) (cc)
        (admit-Admitted config s ssh₁ w s₁ e f)

  proceed-Admitted :
      (config : Config) (s : State World) (o : Option Session × World) (ssh : Session)
      (s' : State World)
      → connect client config s.world ≡ o
      → proceed sys client setup s o ≡ ok (some ssh, s')
      → Admitted config s ssh s'
  unfolding proceed settle
  proceed-Admitted config s (none, w) ssh s' e h = cc
  proceed-Admitted config s (some ssh₁, w) ssh s' e h =
      let ((admitted, s₁), f, g) =
        >>=_ok (admit sys client setup ssh₁ (record s { world = w })) h in
      settle-Admitted config s ssh₁ w admitted s₁ ssh s' e f g

  Admitted-proceed :
      (config : Config) (s : State World) (ssh : Session) (s' : State World)
      → Admitted config s ssh s'
      → proceed sys client setup s (connect client config s.world) ≡ ok (some ssh, s')
  unfolding proceed settle authorize_if
  Admitted-proceed config s ssh s' a =
      let v = Verified-verification client setup.beyond setup.response a.verifies in
      let r = (handle_host_authorization_iff _ _ _).1 a.succeeds in
      rw (a.connects, proceed, v, authorize_if, r, settle)

  -- A session is handed out exactly if it connects, the host passes, and one of the attempts to log
  -- in succeeds before any fails for good.
  pub handle_connection_iff :
      (config : Config) (s : State World) (ssh : Session) (s' : State World)
      → (handle_connection sys client setup config s ≡ ok (some ssh, s')) ↔ Admitted config s ssh s'
  unfolding handle_connection
  handle_connection_iff config s ssh s' =
      (proceed-Admitted config s _ ssh s' refl, Admitted-proceed config s ssh s')

  -- A session is handed out only if the server accepts a password for it.
  pub handle_connection-AcceptsPassword :
      (config : Config) (s : State World) (ssh : Session) (s' : State World)
      → handle_connection sys client setup config s ≡ ok (some ssh, s')
      → AcceptsPassword ssh
  handle_connection-AcceptsPassword config s ssh s' h =
      let a = (handle_connection_iff config s ssh s').0 h in Succeeds-AcceptsPassword ssh a.succeeds
