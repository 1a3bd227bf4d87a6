-- ===== src/Main/Mounts.antt =====
-- With what the program reaches FUSE, and what is left after it.
use sftfs.Prelude.{
  ℕ, ◌≡◌, refl, ap, subst, Bool, true, false, Option, none, some, List, Run, ok, >>=_ok,
  if◌then◌else◌, arith,
}
use sftfs.Sftp.{Sftp}
use sftfs.Sftp.Api.{Libssh}
use sftfs.Cached.{Caches}
use sftfs.Prompt.{System, State}
use sftfs.Ssh.{Client, Config}
use sftfs.SshCli.Login.{ssh_cli, handle_connection}
use sftfs.SshCli.Admitted.{Admitted, handle_connection_iff}
use sftfs.Main.{SftfsOptions, Number}
use sftfs.Main.Options.{initial, Parses, IsUsable, Parses-IsUsable}
use sftfs.Main.Start.{
  Surroundings, Exit, failure, mounted, Sftfs, cached_sftp_init, with_endp, with_ssh, init_sftfs,
  guarded, run, main,
}

module _ {sys : System} {client : Client sys.World} {libssh : Libssh}
    (around : Surroundings sys client libssh) where
  open sys use {World}
  open client use {Session}

  abbrev pub config_of : SftfsOptions → Config
  config_of o = record { host = o.host; user = o.user; port = o.port }

  -- The login with these options leads to the session that the program keeps, and the endpoint of
  -- the program stands on it.
  pub record Started (o : SftfsOptions) (s : State World) (g : Sftfs around) : Type 0 where
    pub session : Session
    pub endpoint : Caches × Sftp libssh
    pub after_login : State World
    pub admitted : Admitted sys client around.login (config_of o) s session after_login
    pub builds :
        (w : World) × (cached_sftp_init around session o.path after_login.world
          ≡ ok (some endpoint, w))
        × (g.state.world ≡ w)
    pub keeps_session : g.ssh ≡ some session
    pub keeps_endpoint : g.endp ≡ some endpoint

  with_endp-Started :
      (o : SftfsOptions) (s : State World) (g : Sftfs around) (ssh : Session) (s₁ : State World)
      (e : Option (Caches × Sftp libssh)) (w : World)
      → Admitted sys client around.login (config_of o) s ssh s₁
      → cached_sftp_init around ssh o.path s₁.world ≡ ok (e, w)
      → with_endp around ssh s₁ (e, w) ≡ (true, g)
      → Started o s g
  unfolding with_endp
  with_endp-Started o s g ssh s₁ none w a b h = cc
  with_endp-Started o s g ssh s₁ (some endp) w a b h =
      let same = ap (λ r. r.1) h in
      subst (Started o s) same (record {
        session = ssh;
        endpoint = endp;
        after_login = s₁;
        admitted = a;
        builds = (w, b, refl);
        keeps_session = refl;
        keeps_endpoint = refl;
      })

  with_ssh-Started :
      (o : SftfsOptions) (s : State World) (g : Sftfs around) (r : Option Session × State World)
      → handle_connection sys client around.login (config_of o) s ≡ ok r
      → with_ssh around o r ≡ ok (true, g)
      → Started o s g
  unfolding with_ssh
  with_ssh-Started o s g (none, s₁) l h = cc
  with_ssh-Started o s g (some ssh, s₁) l h =
      let ((e, w), b, f) = >>=_ok (cached_sftp_init around ssh o.path s₁.world) h in
      let a = (handle_connection_iff sys client around.login (config_of o) s ssh s₁).0 l in
      with_endp-Started o s g ssh s₁ e w a b cc

  init_sftfs-Started :
      (o : SftfsOptions) (s : State World) (g : Sftfs around)
      → init_sftfs around o s ≡ ok (true, g)
      → Started o s g
  unfolding init_sftfs ssh_cli
  init_sftfs-Started o s g h =
      let (r, e, f) = >>=_ok (handle_connection sys client around.login (config_of o) s) h in
      with_ssh-Started o s g r e f

  -- The program reaches FUSE with options that it got from its arguments, no help among them, a
  -- host and a path, and what `Started` says.
  pub record Mounts (s : State World) (g : Sftfs around) : Type 0 where
    pub options : SftfsOptions
    pub after_options : State World
    pub parses : around.fuse_opt_parse initial s ≡ ok (some options, after_options)
    pub no_help : options.help ≡ false
    pub host : List ℕ
    pub has_host : options.host ≡ some host
    pub path : List ℕ
    pub has_path : options.path ≡ some path
    pub started : Started options after_options g

  init_sftfs-Mounts :
      (o : SftfsOptions) (s : State World) (g : Sftfs around) (r : Bool × Sftfs around)
      → init_sftfs around o s ≡ ok r
      → ◌≡◌ {A = Run (Exit × Sftfs around)}
          (ok ((if r.0 then mounted else failure), r.1))
          (ok (mounted, g))
      → Started o s g
  init_sftfs-Mounts o s g (false, g₁) e h = cc
  init_sftfs-Mounts o s g (true, g₁) e h =
      let same : g₁ ≡ g = cc in subst (Started o s) same (init_sftfs-Started o s g₁ e)

  guarded-passed :
      (help : Bool) (host path : Option (List ℕ)) (s : State World) (g : Sftfs around)
      (started : Run (Exit × Sftfs around))
      → guarded around help host path s started ≡ ok (mounted, g)
      → (help ≡ false)
        × ((h : List ℕ) × (host ≡ some h))
        × ((p : List ℕ) × (path ≡ some p))
        × (started ≡ ok (mounted, g))
  unfolding guarded
  guarded-passed true host path s g started e = cc
  guarded-passed false none path s g started e = cc
  guarded-passed false (some host) none s g started e = cc
  guarded-passed false (some host) (some path) s g started e = (refl, (host, refl), (path, refl), e)

  run-Mounts :
      (s : State World) (g : Sftfs around) (r : Option SftfsOptions × State World)
      → around.fuse_opt_parse initial s ≡ ok r
      → run around r ≡ ok (mounted, g)
      → Mounts s g
  unfolding run
  run-Mounts s g (none, s₁) e h = cc
  run-Mounts s g (some o, s₁) e h =
      let (no_help, (host, has_host), (path, has_path), started) =
        guarded-passed o.help o.host o.path s₁ g _ h in
      let (r, f, k) = >>=_ok (init_sftfs around o s₁) started in
      record {
        options = o;
        after_options = s₁;
        parses = e;
        no_help = no_help;
        host = host;
        has_host = has_host;
        path = path;
        has_path = has_path;
        started = init_sftfs-Mounts o s₁ g r f k;
      }

  -- What FUSE does of `fuse_opt_parse`: it calls `process_ssh_options` on one argument after
  -- another, and fails where a call does.
  abbrev pub ParsesArguments : (List ℕ → Number) → Type 0
  ParsesArguments strtol =
      (o o' : SftfsOptions) (s s' : State World)
      → around.fuse_opt_parse o s ≡ ok (some o', s')
      → Parses strtol o o'

  -- The program reaches FUSE only with a host and a path, a port below 2 ^ 16, and an endpoint on a
  -- session that was connected with them, whose host passed and whose login succeeded.
  pub main-Mounts :
      (strtol : List ℕ → Number)
      → ParsesArguments strtol
      → (s : State World) (g : Sftfs around) → main around s ≡ ok (mounted, g)
      → (m : Mounts s g) × IsUsable strtol m.options
  unfolding main
  main-Mounts strtol parses s g h =
      let (r, e, f) = >>=_ok (around.fuse_opt_parse initial s) h in
      let m = run-Mounts s g r e f in
      let at_first : IsUsable strtol initial = ((22, refl, omega arith), λ host none_is. cc) in
      (m, Parses-IsUsable strtol (parses initial m.options s m.after_options m.parses) at_first)
