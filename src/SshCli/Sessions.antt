-- ===== src/SshCli/Sessions.antt =====
-- How many sessions of libssh there are before and after the login.
use sftfs.Prelude.{
  ℕ, zero, suc, ◌-◌, ◌≡◌, refl, sym, ap, ◌∙◌, ◌⊎◌, inl, inr, Bool, true, false, Option, none, some,
  List, [], ◌∷◌, if◌then◌else◌, ◌==◌, Ensures, ensured, >>=_Ensures, if_Ensures, elim_Ensures,
  arith,
}
use sftfs.Prompt.{System, State, Handler}
use sftfs.Prompt.Kept.{Keeps, wrap_critical_call-Kept}
use sftfs.Ssh.{Config, Client, Setting, set_all, settings, set_up, connect, disconnect}
use sftfs.SshCli.{
  is_yes, is_no, no_answer, Answer, question, answered, handle_host_verification,
  handle_host_authorization, attempts, eagain,
}
use sftfs.SshCli.Login.{
  Setup, password_prompt_cb, try_authorize_host_with_password, authorize_if, settle, proceed,
  handle_connection,
}

module _ (sys : System) (client : Client sys.World) (live : sys.World → ℕ) where
  open sys use {World}
  open client use {Session}

  -- `live` is the number of sessions: `ssh_new` makes one more, `ssh_free` one less, and nothing else
  -- changes it.
  pub record Counts : Type 0 where
    pub made :
        (w : World) (ssh : Session)
        → (client.ssh_new w).0 ≡ some ssh
        → live (client.ssh_new w).1 ≡ suc (live w)
    pub unmade : (w : World) → (client.ssh_new w).0 ≡ none → live (client.ssh_new w).1 ≡ live w
    pub free : (ssh : Session) (w : World) → live (client.free ssh w) ≡ live w - 1
    pub options_set :
        (ssh : Session) (x : Setting) (w : World) → live (client.options_set ssh x w).1 ≡ live w
    pub ssh_connect : (ssh : Session) (w : World) → live (client.ssh_connect ssh w).1 ≡ live w
    pub ssh_disconnect : (ssh : Session) (w : World) → live (client.ssh_disconnect ssh w) ≡ live w
    pub is_known_server :
        (ssh : Session) (w : World) → live (client.is_known_server ssh w).1 ≡ live w
    pub update_known_hosts :
        (ssh : Session) (w : World) → live (client.update_known_hosts ssh w).1 ≡ live w
    pub userauth_password :
        (ssh : Session) (password : List ℕ) (w : World)
        → live (client.userauth_password ssh password w).1 ≡ live w
    pub set_stdin : (input : List ℕ) (w : World) → live (client.set_stdin input w) ≡ live w
    pub sigaction : (sig : ℕ) (a : Handler) (w : World) → live (sys.sigaction sig a w).1 ≡ live w
    pub set_dumpable : (d : ℕ) (w : World) → live (sys.set_dumpable d w).1 ≡ live w
    pub mlock : (w : World) → live (sys.mlock w).1 ≡ live w
    pub munlock : (w : World) → live (sys.munlock w).1 ≡ live w
    pub getpass : (v : Bool) (b : List ℕ) (w : World) → live (sys.getpass v b w).1 ≡ live w

  module _ (counts : Counts) where
    if_live :
        (b : Bool) (x y : Bool × World) {n : ℕ}
        → live x.1 ≡ n
        → live y.1 ≡ n
        → live (if b then x else y).1 ≡ n
    if_live true x y h k = h
    if_live false x y h k = k

    set_all-live :
        (ssh : Session) (xs : List Setting) (w : World) → live (set_all client ssh xs w).1 ≡ live w
    unfolding set_all
    set_all-live ssh [] w = refl
    set_all-live ssh (x ∷ xs) w =
        let same = counts.options_set ssh x w in if_live _ _ _ (set_all-live ssh xs _ ∙ same) same

    -- A session made by the failing `sftfs_ssh_connect`, which nobody frees.
    abbrev pub IsLeaked : Config → World → Type 0
    IsLeaked config w =
        (ssh : Session) × ((client.ssh_new w).0 ≡ some ssh) × ((connect client config w).0 ≡ none)

    -- The sessions after the connection, by what it returns.
    abbrev pub Counted : Config → World → Option Session → World → Type 0
    Counted config w none w' = (live w' ≡ live w) ⊎ (IsLeaked config w × (live w' ≡ suc (live w)))
    Counted config w (some ssh) w' = live w' ≡ suc (live w)

    abbrev end_of : (is_set connected : Bool) → Session → (w₂ w₃ : World) → Option Session × World
    end_of is_set connected ssh w₂ w₃ =
        if is_set then (if connected then (some ssh, w₃) else (none, w₃)) else (none, w₂)

    end_of-Counted :
        (config : Config) (w : World) (ssh : Session) (is_set connected : Bool) (w₂ w₃ : World)
        → (client.ssh_new w).0 ≡ some ssh
        → ((end_of is_set connected ssh w₂ w₃).0 ≡ none → (connect client config w).0 ≡ none)
        → live w₂ ≡ suc (live w)
        → live w₃ ≡ suc (live w)
        → Counted config w
            (end_of is_set connected ssh w₂ w₃).0
            (end_of is_set connected ssh w₂ w₃).1
    end_of-Counted config w ssh true true w₂ w₃ e k set con = con
    end_of-Counted config w ssh true false w₂ w₃ e k set con = inr ((ssh, e, k refl), con)
    end_of-Counted config w ssh false connected w₂ w₃ e k set con = inr ((ssh, e, k refl), set)

    -- A connection that is set up keeps the count, and a session is returned or leaked.
    set_up-Counted :
        (config : Config) (w : World) (o : Option Session × World)
        → client.ssh_new w ≡ o
        → Counted config w (set_up client config o).0 (set_up client config o).1
    unfolding set_up connect
    set_up-Counted config w (none, w₁) e =
        inl (ap (λ o. live o.1) (sym e) ∙ counts.unmade w (ap (λ o. o.0) e))
    set_up-Counted config w (some ssh, w₁) e =
        let m : live w₁ ≡ suc (live w) =
          ap (λ o. live o.1) (sym e) ∙ counts.made w ssh (ap (λ o. o.0) e) in
        let (is_set, w₂) = set_all client ssh (settings config) w₁ in
        let (connected, w₃) = client.ssh_connect ssh w₂ in
        let set : live w₂ ≡ suc (live w) = set_all-live ssh (settings config) w₁ ∙ m in
        end_of-Counted config w ssh is_set connected w₂ w₃ (ap (λ o. o.0) e)
          (λ h. ap (λ o. (set_up client config o).0) e ∙ h) set (counts.ssh_connect ssh w₂ ∙ set)

    connect-Counted :
        (config : Config) (w : World)
        → Counted config w (connect client config w).0 (connect client config w).1
    unfolding connect
    connect-Counted config w = set_up-Counted config w _ refl

    question-live :
        (beyond : ℕ) (buffer : List ℕ) (w : World)
        → live (question client beyond buffer w).1 ≡ live w
    unfolding question
    question-live beyond buffer w = counts.set_stdin _ w

    answered-live :
        (beyond : ℕ) (buffer : List ℕ) (ssh : Session) (a : Answer) (w : World)
        → live (answered client beyond buffer ssh (a, w)).1 ≡ live w
    unfolding answered
    answered-live beyond buffer ssh is_yes w = counts.update_known_hosts ssh w
    answered-live beyond buffer ssh is_no w = refl
    answered-live beyond buffer ssh no_answer w = refl

    verification-live :
        (beyond : ℕ) (buffer : List ℕ) (ssh : Session) (w : World)
        → live (handle_host_verification client beyond buffer ssh w).1 ≡ live w
    unfolding handle_host_verification
    verification-live beyond buffer ssh w =
        let same = counts.is_known_server ssh w in
        let w₁ = (client.is_known_server ssh w).1 in
        if_live _ _ _ same (
          answered-live beyond buffer ssh (question client beyond buffer w₁).0 _
          ∙ question-live beyond buffer w₁
          ∙ same)

    cb-live :
        (ssh : Session) (password : List ℕ) (w : World)
        → live (password_prompt_cb sys client ssh password w).1 ≡ live w
    unfolding password_prompt_cb
    cb-live ssh password w = counts.userauth_password ssh password w

    prompt-Keeps :
        (ssh : Session) (n : ℕ) → Keeps sys (password_prompt_cb sys client ssh) (λ w. live w ≡ n)
    prompt-Keeps ssh n = record {
      sigaction = λ sig a w h. counts.sigaction sig a w ∙ h;
      set_dumpable = λ d w h. counts.set_dumpable d w ∙ h;
      mlock = λ w h. counts.mlock w ∙ h;
      munlock = λ w h. counts.munlock w ∙ h;
      getpass = λ v b w h. counts.getpass v b w ∙ h;
      called = λ b w h. cb-live ssh b w ∙ h;
    }

    module _ (setup : Setup World) where
      attempts-live :
          (ssh : Session) (n k : ℕ) (s : State World)
          → live s.world ≡ n
          → Ensures
              (λ r. live r.1.world ≡ n)
              (attempts (try_authorize_host_with_password sys client setup ssh) k s)
      unfolding attempts try_authorize_host_with_password
      attempts-live ssh n zero s h = ensured h
      attempts-live ssh n (suc k) s h =
          >>=_Ensures (try_authorize_host_with_password sys client setup ssh s) _
            (wrap_critical_call-Kept sys _ _ (prompt-Keeps ssh n) _ _ _ _ s h)
            (λ r q. elim_Ensures r.0 _ _ (ensured q) (λ rc.
              if_Ensures (rc == 0) _ _ (ensured q)
                (if_Ensures (rc == eagain) _ _ (attempts-live ssh n k r.1 q) (ensured q))))

      authorize_if-live :
          (ssh : Session) (n : ℕ) (v : Bool × World) (s : State World)
          → live v.1 ≡ n
          → Ensures (λ r. live r.1.world ≡ n) (authorize_if sys client setup ssh v s)
      unfolding authorize_if handle_host_authorization
      authorize_if-live ssh n (true, w) s h = attempts-live ssh n 3 _ h
      authorize_if-live ssh n (false, w) s h = ensured h

      settle-Counted :
          (config : Config) (w : World) (ssh : Session) (b : Bool) (s : State World)
          → live s.world ≡ suc (live w)
          → Ensures (λ r. Counted config w r.0 r.1.world) (settle sys client setup ssh (b, s))
      unfolding settle disconnect
      settle-Counted config w ssh true s h = ensured h
      settle-Counted config w ssh false s h =
          let same = counts.ssh_disconnect ssh s.world ∙ h in
          let freed = counts.free ssh (client.ssh_disconnect ssh s.world) in
          ensured (inl (omega (arith, freed, same)))

      proceed-Counted :
          (config : Config) (s : State World) (o : Option Session × World)
          → Counted config s.world o.0 o.1
          → Ensures (λ r. Counted config s.world r.0 r.1.world) (proceed sys client setup s o)
      unfolding proceed
      proceed-Counted config s (none, w) c = ensured c
      proceed-Counted config s (some ssh, w) c =
          >>=_Ensures
            (authorize_if sys client setup ssh
              (handle_host_verification client setup.beyond setup.response ssh w)
              (record s { world = w }))
            _
            (authorize_if-live ssh (suc (live s.world)) _ _
              (verification-live setup.beyond setup.response ssh w ∙ c))
            (λ r q. settle-Counted config s.world ssh r.0 r.1 q)

      -- A login that hands out a session leaves one more than there were, and one that fails as many
      -- as there were, but for a session whose connection failed: that one is never freed.
      pub handle_connection-Counted :
          (config : Config) (s : State World)
          → Ensures
              (λ r. Counted config s.world r.0 r.1.world)
              (handle_connection sys client setup config s)
      unfolding handle_connection
      handle_connection-Counted config s =
          proceed-Counted config s (connect client config s.world) (connect-Counted config s.world)
