-- ===== src/Main/Ends.antt =====
-- Every session that the program opens is freed at its end.
use sftfs.Prelude.{
  ℕ, suc, ◌-◌, ◌≡◌, refl, ap, subst, ◌∙◌, ◌⊎◌, inl, inr, Bool, true, false, Option, none, some,
  List, Run, fault, faulty, ok, Ensures-ok, Ensures, Ensures-any, ensured, >>=_Ensures,
  elim_Ensures, arith,
}
use sftfs.Sftp
use sftfs.Sftp.{Sftp}
use sftfs.Sftp.Api.{Libssh}
use sftfs.Cached
use sftfs.Cached.{Caches}
use sftfs.Prompt.{System, State}
use sftfs.Ssh.{Client, Config}
use sftfs.SshCli.Login.{ssh_cli, handle_connection}
use sftfs.SshCli.Sessions.{Counts, Counted, IsLeaked, handle_connection-Counted}
use sftfs.Main.{SftfsOptions}
use sftfs.Main.Options.{initial}
use sftfs.Main.Start.{
  Surroundings, Exit, Sftfs, cached_sftp_init, with_endp, with_ssh, init_sftfs, deinit_endp,
  deinit_ssh, deinit_sftfs, idle, guarded, run, main, ttl,
}

module _ {sys : System} {client : Client sys.World} {libssh : Libssh}
    (around : Surroundings sys client libssh) (live : sys.World → ℕ)
    (counts : Counts sys client live) where
  open sys use {World}
  open client use {Session}

  -- Neither the SFTP session nor the parse of the options makes or frees a session.
  pub record Apart : Type 0 where
    pub put_back :
        (ssh : Session) (v : libssh.World) (w : World) → live (around.put_back ssh v w) ≡ live w
    pub parse :
        (o : SftfsOptions) (s : State World)
        → Ensures (λ r. live r.1.world ≡ live s.world) (around.fuse_opt_parse o s)

  -- What the options ask to connect to.
  abbrev pub config_of : SftfsOptions → Config
  config_of o = record { host = o.host; user = o.user; port = o.port }

  -- The connection that these options ask for, in the state in which they were parsed, fails after
  -- it has made its session.
  abbrev pub Leaks : Option SftfsOptions × State World → Type 0
  Leaks r =
      (o : SftfsOptions) × (r.0 ≡ some o) × IsLeaked sys client live counts (config_of o) r.1.world

  -- `destroy` leaves `n` sessions, whatever became of the endpoint and of the state outside since, as
  -- long as the program keeps its session and the number of sessions is the same.
  abbrev pub Frees : ℕ → Sftfs around → Type 0
  Frees n g =
      (later : Sftfs around)
      → later.ssh ≡ g.ssh
      → live later.state.world ≡ live g.state.world
      → live (deinit_sftfs around later).state.world ≡ n

  module _ (apart : Apart) where
    deinit_endp-live :
        (ssh : Option Session) (e : Option (Caches × Sftp libssh)) (w : World)
        → live (deinit_endp around ssh e w) ≡ live w
    unfolding deinit_endp
    deinit_endp-live none e w = refl
    deinit_endp-live (some ssh) none w = refl
    deinit_endp-live (some ssh) (some (caches, handle)) w = apart.put_back ssh _ w

    -- The sessions that `destroy` leaves of those before it.
    abbrev after_free : Option Session → ℕ → ℕ
    after_free none n = n
    after_free (some ssh) n = n - 1

    deinit_ssh-live :
        (ssh : Option Session) (w : World)
        → live (deinit_ssh around ssh w) ≡ after_free ssh (live w)
    unfolding deinit_ssh
    deinit_ssh-live none w = refl
    deinit_ssh-live (some ssh) w = counts.free ssh w

    after_free-Frees :
        (n : ℕ) (g : Sftfs around) → after_free g.ssh (live g.state.world) ≡ n → Frees n g
    unfolding deinit_sftfs
    after_free-Frees n g h later same_ssh same_live =
        deinit_ssh-live later.ssh _
        ∙ ap (after_free later.ssh)
            (deinit_endp-live later.ssh later.endp later.state.world ∙ same_live)
        ∙ ap (λ o. after_free o (live g.state.world)) same_ssh
        ∙ h

    -- `destroy` leaves as many sessions as there were when the options were parsed, or one more, and
    -- then the connection of this run is the one that failed.
    abbrev pub FreesOrLeaks : Option SftfsOptions × State World → Sftfs around → Type 0
    FreesOrLeaks r g = Frees (live r.1.world) g ⊎ (Leaks r × Frees (suc (live r.1.world)) g)

    cached_sftp_init-live :
        (ssh : Session) (dir : Option (List ℕ)) (w : World)
        → Ensures (λ r. live r.1 ≡ live w) (cached_sftp_init around ssh dir w)
    unfolding cached_sftp_init
    cached_sftp_init-live ssh dir w =
        elim_Ensures
          (Cached.init around.cached_granted around.grants (ttl around) (ttl around) (ttl around)) _
          _ (ensured refl)
          (λ caches.
            >>=_Ensures (Sftp.construct libssh around.heap dir (around.reach ssh w)) _
              (Ensures-any {Q = λ r. Unit} _ (λ r. tt)) (λ r q. ensured (apart.put_back ssh r.1 w)))

    idle-Frees : (s : State World) → Frees (live s.world) (idle around s)
    idle-Frees s = after_free-Frees (live s.world) (idle around s) refl

    with_endp-Frees :
        (ssh : Session) (s : State World) (e : Option (Caches × Sftp libssh) × World) (n : ℕ)
        → live e.1 ≡ suc n
        → Frees n (with_endp around ssh s e).1
    unfolding with_endp
    with_endp-Frees ssh s (none, w) n h =
        let freed = counts.free ssh w in
        after_free-Frees n (with_endp around ssh s (none, w)).1 (omega (arith, freed, h))
    with_endp-Frees ssh s (some endp, w) n h =
        after_free-Frees n (with_endp around ssh s (some endp, w)).1 (omega (arith, h))

    with_ssh-Frees :
        (o : SftfsOptions) (before : State World) (r : Option Session × State World)
        → Counted sys client live counts (config_of o) before.world r.0 r.1.world
        → Ensures (λ q. FreesOrLeaks (some o, before) q.1) (with_ssh around o r)
    unfolding with_ssh
    with_ssh-Frees o before (none, s) (inl same) =
        ensured (inl (after_free-Frees (live before.world) (idle around s) same))
    with_ssh-Frees o before (none, s) (inr (leak, more)) =
        ensured
          (inr ((o, refl, leak), after_free-Frees (suc (live before.world)) (idle around s) more))
    with_ssh-Frees o before (some ssh, s) c =
        >>=_Ensures (cached_sftp_init around ssh o.path s.world) _
          (cached_sftp_init-live ssh o.path s.world)
          (λ e q. ensured (inl (with_endp-Frees ssh s e (live before.world) (q ∙ c))))

    init_sftfs-Frees :
        (o : SftfsOptions) (s : State World)
        → Ensures (λ q. FreesOrLeaks (some o, s) q.1) (init_sftfs around o s)
    unfolding init_sftfs ssh_cli
    init_sftfs-Frees o s =
        >>=_Ensures (handle_connection sys client around.login (config_of o) s) _
          (handle_connection-Counted sys client live counts around.login (config_of o) s)
          (λ r q. with_ssh-Frees o s r q)

    guarded-Frees :
        (help : Bool) (host path : Option (List ℕ)) (o : Option SftfsOptions) (s : State World)
        (started : Run (Exit × Sftfs around))
        → Ensures (λ q. FreesOrLeaks (o, s) q.1) started
        → Ensures (λ q. FreesOrLeaks (o, s) q.1) (guarded around help host path s started)
    unfolding guarded
    guarded-Frees true host path o s started h = ensured (inl (idle-Frees s))
    guarded-Frees false none path o s started h = ensured (inl (idle-Frees s))
    guarded-Frees false (some host) none o s started h = ensured (inl (idle-Frees s))
    guarded-Frees false (some host) (some path) o s started h = h

    run-Frees :
        (r : Option SftfsOptions × State World) → Ensures (λ q. FreesOrLeaks r q.1) (run around r)
    unfolding run
    run-Frees (none, s) = ensured (inl (idle-Frees s))
    run-Frees (some o, s) =
        guarded-Frees o.help o.host o.path (some o) s _
          (>>=_Ensures (init_sftfs around o s) _ (init_sftfs-Frees o s) (λ r q. ensured q))

    both :
        {A : Type 0} {B : Type 0} {Q : B → Type 0} {r : Run B}
        → A
        → Ensures Q r
        → Ensures (λ b. A × Q b) r
    both {r = fault} a h = faulty
    both {r = ok b} a (ensured q) = ensured (a, q)

    -- Where the parse of the options ends in `parsed`, and `main` ends as well: `destroy` leaves as
    -- many sessions as there were before `main`, whatever became of the endpoint and of the state
    -- outside while it was mounted, as long as that kept the number of sessions; or it leaves one
    -- more, and then the connection that the options ask for failed in this run after it had made
    -- its session.
    pub main-Frees :
        (s : State World) (parsed : Option SftfsOptions × State World)
        → around.fuse_opt_parse initial s ≡ ok parsed
        → Ensures
            (λ r. (live parsed.1.world ≡ live s.world) × FreesOrLeaks parsed r.1)
            (main around s)
    unfolding main
    main-Frees s parsed run_parse =
        let same = Ensures-ok (
          subst (Ensures (λ r. live r.1.world ≡ live s.world)) run_parse (apart.parse initial s)) in
        rw run_parse (both same (run-Frees parsed))
