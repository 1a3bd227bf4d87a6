-- ===== src/Ssh.antt =====
-- ssh.c and include/ssh.h: a session is made, set up and connected.
--
-- libssh is not part of the repository: `Client` is what ssh.c and ssh_cli.c call of it, on a type for
-- the state outside, and the standard input, of which the model sees the bytes still to come.
use sftfs.Prelude.{ℕ, Bool, true, false, Option, none, some, List, [], ◌∷◌, if◌then◌else◌}

-- `struct sftfs_ssh_config`. The port of -1 is `none`.
pub record Config : Type 0 where
  pub host : Option (List ℕ)
  pub user : Option (List ℕ)
  pub port : Option ℕ

-- An option of the session with its value.
pub data Setting : Type 0 where
  options_host options_user : Option (List ℕ) → Setting
  options_port : Option ℕ → Setting
  options_log_verbosity : ℕ → Setting

-- `enum ssh_known_hosts_e`, from -2 to 3.
pub data KnownHost : Type 0 where
  known_error not_found unknown known changed other : KnownHost

-- `enum ssh_auth_e`.
pub data Auth : Type 0 where
  auth_success auth_denied auth_partial auth_info auth_again auth_error : Auth

-- A call whose result is compared with SSH_OK alone returns whether it is.
pub record Client (World : Type 0) : Type 1 where
  pub Session : Type 0
  pub ssh_new : World → Option Session × World
  pub options_set : Session → Setting → World → Bool × World
  pub ssh_connect : Session → World → Bool × World
  pub ssh_disconnect : Session → World → World
  pub free : Session → World → World
  pub is_known_server : Session → World → KnownHost × World
  pub update_known_hosts : Session → World → Bool × World
  pub userauth_password : Session → List ℕ → World → Auth × World
  pub stdin : World → List ℕ
  pub set_stdin : List ℕ → World → World

-- SSH_LOG_WARN
unfoldable pub decide_ssh_log_severity : ℕ
decide_ssh_log_severity = 1

unfoldable pub settings : Config → List Setting
unfolding decide_ssh_log_severity
settings config =
    options_host config.host
    ∷ options_user config.user
    ∷ options_port config.port
    ∷ options_log_verbosity decide_ssh_log_severity
    ∷ []

module _ {World : Type 0} (client : Client World) where
  open client use {Session}

  -- One setting after the other, up to the first that fails.
  unfoldable pub set_all : Session → List Setting → World → Bool × World
  set_all ssh [] w = (true, w)
  set_all ssh (x ∷ xs) w =
      let (is_set, w₁) = client.options_set ssh x w in
      let rest = set_all ssh xs w₁ in if is_set then rest else (false, w₁)

  -- What follows `ssh_new`; the result 0 is a session.
  unfoldable pub set_up : Config → Option Session × World → Option Session × World
  unfolding set_all settings
  set_up config (none, w) = (none, w)
  set_up config (some ssh, w) =
      let (is_set, w₁) = set_all ssh (settings config) w in
      let (connected, w₂) = client.ssh_connect ssh w₁ in
      if is_set then (if connected then (some ssh, w₂) else (none, w₂)) else (none, w₁)

  unfoldable pub connect : Config → World → Option Session × World
  unfolding set_up
  connect config w = set_up config (client.ssh_new w)

  unfoldable pub disconnect : Session → World → World
  disconnect ssh w = client.free ssh (client.ssh_disconnect ssh w)
