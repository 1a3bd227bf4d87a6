-- ===== src/Main/Start.antt =====
-- main.c: the session and the endpoint from the start of the program to its end.
use sftfs.Prelude.{ℕ, Bool, true, false, Option, none, some, List, Run, ok, ◌>>=◌, if◌then◌else◌}
use sftfs.Htable.{Grants}
use sftfs.Str.{Heap}
use sftfs.Sftp
use sftfs.Sftp.{Sftp}
use sftfs.Sftp.Api.{Libssh}
use sftfs.Cached
use sftfs.Cached.{Caches}
use sftfs.Prompt.{System, State}
use sftfs.Ssh.{Client}
use sftfs.SshCli.Login.{Setup, ssh_cli}
use sftfs.Main.{SftfsOptions}
use sftfs.Main.Options.{initial}

-- What the start of the program finds besides the login: the part of the state outside that an SFTP
-- session works on, and the allocations. The result -1 of `fuse_opt_parse` is `none`.
pub record Surroundings (sys : System) (client : Client sys.World) (libssh : Libssh) : Type 0 where
  pub login : Setup sys.World
  pub reach : client.Session → sys.World → libssh.World
  pub put_back : client.Session → libssh.World → sys.World → sys.World
  pub heap : Heap
  pub grants : Grants
  pub cached_granted : Bool
  pub fuse_opt_parse : SftfsOptions → State sys.World → Run (Option SftfsOptions × State sys.World)

-- How `main` ends: EXIT_FAILURE, EXIT_SUCCESS after the help, or the result of `fuse_main`.
pub data Exit : Type 0 where
  failure helped mounted : Exit

module _ {sys : System} {client : Client sys.World} {libssh : Libssh}
    (around : Surroundings sys client libssh) where
  open sys use {World}
  open client use {Session}

  -- The global `sftfs`, beside the state outside.
  pub record Sftfs : Type 0 where
    pub ssh : Option Session
    pub endp : Option (Caches × Sftp libssh)
    pub state : State World

  -- The times to live, in milliseconds.
  abbrev pub ttl : ℕ
  ttl = 10000

  -- SFTFS_CACHED_INIT: the caches first, which are given back where the base endpoint fails.
  unfoldable pub cached_sftp_init :
      Session → (work_dir : Option (List ℕ)) → World → Run (Option (Caches × Sftp libssh) × World)
  cached_sftp_init ssh work_dir w =
      elim (Cached.init around.cached_granted around.grants ttl ttl ttl) [
        | none ↦ ok (none, w)
        | some caches ↦ Sftp.construct libssh around.heap work_dir (around.reach ssh w) >>= λ r.
            ok (
              elim r.0 [ none ↦ none | some handle ↦ some (caches, handle) ],
              around.put_back ssh r.1 w,
            )
      ]

  -- What follows the endpoint; true is EXIT_SUCCESS.
  unfoldable pub with_endp :
      Session → State World → Option (Caches × Sftp libssh) × World → Bool × Sftfs
  with_endp ssh s (some endp, w) =
      (true, record { ssh = some ssh; endp = some endp; state = record s { world = w } })
  with_endp ssh s (none, w) =
      (false, record { ssh = none; endp = none; state = record s { world = client.free ssh w } })

  -- What follows the login.
  unfoldable pub with_ssh : SftfsOptions → Option Session × State World → Run (Bool × Sftfs)
  unfolding with_endp
  with_ssh opts (none, s) = ok (false, record { ssh = none; endp = none; state = s })
  with_ssh opts (some ssh, s) =
      cached_sftp_init ssh opts.path s.world >>= λ e. ok (with_endp ssh s e)

  unfoldable pub init_sftfs : SftfsOptions → State World → Run (Bool × Sftfs)
  unfolding with_ssh
  init_sftfs opts s =
      ssh_cli sys client around.login opts.user opts.host opts.port s >>= with_ssh opts

  -- The state outside after the endpoint is gone, which only stands together with a session.
  unfoldable pub deinit_endp : Option Session → Option (Caches × Sftp libssh) → World → World
  deinit_endp none e w = w
  deinit_endp (some ssh) none w = w
  deinit_endp (some ssh) (some (caches, handle)) w =
      around.put_back ssh (Sftp.destruct libssh handle) w

  unfoldable pub deinit_ssh : Option Session → World → World
  deinit_ssh none w = w
  deinit_ssh (some ssh) w = client.free ssh w

  unfoldable pub deinit_sftfs : Sftfs → Sftfs
  unfolding deinit_endp deinit_ssh
  deinit_sftfs g = record {
    ssh = none;
    endp = none;
    state = record g.state { world = deinit_ssh g.ssh (deinit_endp g.ssh g.endp g.state.world) };
  }

  -- What FUSE calls at the end.
  unfoldable pub destroy : Sftfs → Sftfs
  unfolding deinit_sftfs
  destroy g = deinit_sftfs g

  abbrev pub idle : State World → Sftfs
  idle s = record { ssh = none; endp = none; state = s }

  -- The tests in front of `started`.
  unfoldable pub guarded :
      (help : Bool) (host path : Option (List ℕ))
      → State World
      → (started : Run (Exit × Sftfs)) → Run (Exit × Sftfs)
  guarded true host path s started = ok (helped, idle s)
  guarded false none path s started = ok (failure, idle s)
  guarded false (some host) none s started = ok (failure, idle s)
  guarded false (some host) (some path) s started = started

  -- What follows the options, up to `fuse_main`.
  unfoldable pub run : Option SftfsOptions × State World → Run (Exit × Sftfs)
  unfolding init_sftfs guarded
  run (none, s) = ok (failure, idle s)
  run (some opts, s) =
      guarded opts.help opts.host opts.path s
        (init_sftfs opts s >>= λ r. ok ((if r.0 then mounted else failure), r.1))

  unfoldable pub main : State World → Run (Exit × Sftfs)
  unfolding run
  main s = around.fuse_opt_parse initial s >>= run
