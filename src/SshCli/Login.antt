-- ===== src/SshCli/Login.antt =====
-- ssh_cli.c: the login with a password, and the session that is handed out.
--
-- The kernel and the prompt's call of libssh are `System`, the rest of libssh is `Client`, over one
-- state outside. The prompt's text goes to the terminal, which is not modelled.
use sftfs.Prelude.{
  ℕ, ◌-◌, Bool, true, false, Option, none, some, List, ◌++◌, [], ◌∷◌, Run, ok, ◌>>=◌, take,
}
use sftfs.Prompt.{System, State, wrap_critical_call}
use sftfs.Ssh.{
  Config, Client, Auth, auth_success, auth_denied, auth_partial, auth_info, auth_again, auth_error,
  connect, disconnect,
}
use sftfs.SshCli.{eagain, eperm, handle_host_verification, handle_host_authorization}

-- MAX_PASSWORD_LEN, and PROMPT_TEXT_MAXLEN, which `snprintf` fills with a NUL at the end.
abbrev pub max_password_len : ℕ
max_password_len = 4096

abbrev pub prompt_text_maxlen : ℕ
prompt_text_maxlen = 4096

-- "'s password: "
abbrev prompt_end : List ℕ
prompt_end =
    39 ∷ b's' ∷ b' ' ∷ b'p' ∷ b'a' ∷ b's' ∷ b's' ∷ b'w' ∷ b'o' ∷ b'r' ∷ b'd' ∷ b':' ∷ b' ' ∷ []

-- The text in the buffer; `current` is the user's name where none is given.
unfoldable pub sprint_prompt_text :
    (current : List ℕ) (user : Option (List ℕ)) (host : List ℕ) → List ℕ
sprint_prompt_text current user host =
    let name : List ℕ = elim user [ none ↦ current | some u ↦ u ] in
    take (prompt_text_maxlen - 1) (name ++ (b'@' ∷ (host ++ prompt_end)))

-- What the login finds: the byte behind the array `response`, that array, the prompt's flags (2 in
-- a debug build, else 0), and the two allocations of a prompt.
pub record Setup (World : Type 0) : Type 0 where
  pub beyond : ℕ
  pub response : List ℕ
  pub flags : ℕ
  pub granted : World → Bool × Bool

-- The `switch` on the result.
unfoldable pub code_of : Auth → ℕ
code_of auth_success = 0
code_of auth_denied = eagain
code_of auth_partial = eperm
code_of auth_info = eperm
code_of auth_again = eperm
code_of auth_error = eperm

module _ (sys : System) (client : Client sys.World) where
  open sys use {World}
  open client use {Session}

  unfoldable pub password_prompt_cb : Session → List ℕ → World → ℕ × World
  unfolding code_of
  password_prompt_cb ssh password w =
      let (result, w₁) = client.userauth_password ssh password w in (code_of result, w₁)

  module _ (setup : Setup World) where
    unfoldable pub try_authorize_host_with_password :
        Session → State World → Run (Option ℕ × State World)
    try_authorize_host_with_password ssh s =
        let (prompt_granted, password_granted) = setup.granted s.world in
        wrap_critical_call sys prompt_granted password_granted max_password_len setup.flags
          (password_prompt_cb ssh) s

    -- `!rc` of the verification and then of the authorization.
    unfoldable pub authorize_if : Session → Bool × World → State World → Run (Bool × State World)
    authorize_if ssh (true, w) s =
        handle_host_authorization (try_authorize_host_with_password ssh) (record s { world = w })
    authorize_if ssh (false, w) s = ok (false, record s { world = w })

    abbrev pub admit : Session → State World → Run (Bool × State World)
    admit ssh s =
        authorize_if ssh (handle_host_verification client setup.beyond setup.response ssh s.world) s

    -- The end of `handle_connection`; NULL is `none`.
    unfoldable pub settle : Session → Bool × State World → Run (Option Session × State World)
    settle ssh (true, s) = ok (some ssh, s)
    settle ssh (false, s) = ok (none, record s { world = disconnect client ssh s.world })

    unfoldable pub proceed :
        State World → Option Session × World → Run (Option Session × State World)
    unfolding settle
    proceed s (none, w) = ok (none, record s { world = w })
    proceed s (some ssh, w) = admit ssh (record s { world = w }) >>= settle ssh

    unfoldable pub handle_connection : Config → State World → Run (Option Session × State World)
    unfolding proceed
    handle_connection config s = proceed s (connect client config s.world)

    unfoldable pub ssh_cli :
        (user host : Option (List ℕ)) (port : Option ℕ)
        → State World
        → Run (Option Session × State World)
    unfolding handle_connection
    ssh_cli user host port = handle_connection (record { host = host; user = user; port = port })
