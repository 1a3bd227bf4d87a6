-- ===== src/Tests/Logins.antt =====
-- A libssh that counts its sessions and accepts every password, and a program that starts on it.
use sftfs.Prelude.{
  ℕ, suc, ◌-◌, ◌≡◌, ◌↔◌, refl, true, false, Option, none, some, List, [], ◌∷◌, Run, ok, fault,
  ◌>>=◌, >>=_ok, Ensures, >>=_Ensures, Ensures-any, ensured, arith,
}
use sftfs.Prompt.{
  own, System, State, wrap_critical_call, start, set_nodumpable, reset_nodumpable, ask_and_stop,
  ask_password, stop, release,
}
use sftfs.Ssh.{Config, Client, changed, auth_success, connect, set_up, set_all, settings}
use sftfs.SshCli.{handle_host_verification, handle_host_authorization, attempts}
use sftfs.SshCli.Login.{
  Setup, handle_connection, proceed, settle, authorize_if, try_authorize_host_with_password,
  password_prompt_cb, code_of,
}
use sftfs.SshCli.Admitted.{
  Admitted, AcceptsPassword, handle_connection_iff, handle_connection-AcceptsPassword,
}
use sftfs.SshCli.Sessions.{Counts, Counted, handle_connection-Counted}
use sftfs.Tests.Sessions.{server}
use sftfs.Main.{
  SftfsOptions, Number, pos, Key, key_nonopt, Verdict, refuse, discard, keep, parse_port,
  process_ssh_options, process_target,
}
use sftfs.Target.{parse_target, strchr}
use sftfs.Main.Options.{initial, Parses, parsed, argument, IsUsable, Parses-IsUsable}
use sftfs.Main.Start.{Surroundings, Exit, mounted, Sftfs, idle, main}
use sftfs.Main.Mounts.{Mounts, ParsesArguments, main-Mounts}
use sftfs.Main.Ends.{Apart, FreesOrLeaks, main-Frees}

-- The state outside is the number of sessions.
abbrev kernel : System
kernel = record {
  World = ℕ;
  sigaction = λ sig a w. (some (own 1), w);
  get_dumpable = λ w. some 1;
  set_dumpable = λ d w. (true, w);
  mlock = λ w. (true, w);
  munlock = λ w. (true, w);
  getpass = λ v bytes w. ((0, 112 ∷ 0 ∷ []), w);
}

-- The host's key has changed.
abbrev client : Client ℕ
client = record {
  Session = Unit;
  ssh_new = λ w. (some tt, suc w);
  options_set = λ ssh x w. (true, w);
  ssh_connect = λ ssh w. (true, w);
  ssh_disconnect = λ ssh w. w;
  free = λ ssh w. w - 1;
  is_known_server = λ ssh w. (changed, w);
  update_known_hosts = λ ssh w. (true, w);
  userauth_password = λ ssh password w. (auth_success, w);
  stdin = λ w. [];
  set_stdin = λ input w. w;
}

abbrev setup : Setup ℕ
setup = record { beyond = 0; response = 1 ∷ 1 ∷ 1 ∷ 1 ∷ []; flags = 2; granted = λ w. (true, true) }

abbrev config : Config
config = record { host = some (b'h' ∷ []); user = some (b'u' ∷ []); port = some 22 }

abbrev before : State ℕ
before = record { world = 0; ongoing = false }

abbrev after : State ℕ
after = record { world = 1; ongoing = false }

connection : handle_connection kernel client setup config before ≡ ok (some tt, after)
unfolding handle_connection proceed settle connect set_up set_all settings handle_host_verification
    authorize_if handle_host_authorization attempts try_authorize_host_with_password
    password_prompt_cb code_of wrap_critical_call start set_nodumpable reset_nodumpable ask_and_stop
    ask_password stop release
connection = refl

handle_connection_iff_example :
    (handle_connection kernel client setup config before ≡ ok (some tt, after))
    ↔ Admitted kernel client setup config before tt after
handle_connection_iff_example = handle_connection_iff kernel client setup config before tt after

handle_connection-AcceptsPassword_example : AcceptsPassword kernel client setup tt
handle_connection-AcceptsPassword_example =
    handle_connection-AcceptsPassword kernel client setup config before tt after connection

counts : Counts kernel client (λ w. w)
counts = record {
  made = λ w ssh h. refl;
  unmade = λ w h. cc;
  free = λ ssh w. refl;
  options_set = λ ssh x w. refl;
  ssh_connect = λ ssh w. refl;
  ssh_disconnect = λ ssh w. refl;
  is_known_server = λ ssh w. refl;
  update_known_hosts = λ ssh w. refl;
  userauth_password = λ ssh password w. refl;
  set_stdin = λ input w. refl;
  sigaction = λ sig a w. refl;
  set_dumpable = λ d w. refl;
  mlock = λ w. refl;
  munlock = λ w. refl;
  getpass = λ v b w. refl;
}

handle_connection-Counted_example :
    Ensures
      (λ r. Counted kernel client (λ w. w) counts config 0 r.0 r.1.world)
      (handle_connection kernel client setup config before)
handle_connection-Counted_example =
    handle_connection-Counted kernel client (λ w. w) counts setup config before

-- A text of one digit is a number, any other one is not.
abbrev digit : List ℕ → Number
digit [] = record { value = pos 0; rest = []; in_range = true }
digit (b ∷ []) = record { value = pos (b - 48); rest = []; in_range = true }
digit (b ∷ c ∷ bs) = record { value = pos 0; rest = b ∷ c ∷ bs; in_range = true }

-- The command line is the target "u@h:/r" alone.
abbrev target : List ℕ
target = b'u' ∷ b'@' ∷ b'h' ∷ b':' ∷ b'/' ∷ b'r' ∷ []

abbrev judged : State ℕ → Verdict × SftfsOptions → Run (Option SftfsOptions × State ℕ)
judged s (refuse, o) = ok (none, s)
judged s (discard, o) = ok (some o, s)
judged s (keep, o) = ok (some o, s)

abbrev around : Surroundings kernel client server
around = record {
  login = setup;
  reach = λ ssh w. w;
  put_back = λ ssh v w. w;
  heap = record { grants = λ n. true; junk = λ i. 7 };
  grants = λ n. true;
  cached_granted = true;
  fuse_opt_parse = λ o s. process_ssh_options digit true target key_nonopt o >>= judged s;
}

judged-Parses :
    (o o' : SftfsOptions) (s s' : State ℕ) (r : Verdict × SftfsOptions)
    → process_ssh_options digit true target key_nonopt o ≡ ok r
    → judged s r ≡ ok (some o', s')
    → Parses digit o o'
judged-Parses o o' s s' (refuse, o₁) e h = cc
judged-Parses o o' s s' (discard, o₁) e h =
    argument true target key_nonopt discard (cc) (λ c. cc) parsed
judged-Parses o o' s s' (keep, o₁) e h = argument true target key_nonopt keep (cc) (λ c. cc) parsed

around_parses : ParsesArguments around digit
around_parses o o' s s' h =
    let (r, e, f) = >>=_ok (process_ssh_options digit true target key_nonopt o) h in
    judged-Parses o o' s s' r e f

judged_same :
    (s : State ℕ) (r : Verdict × SftfsOptions) → Ensures (λ q. q.1.world ≡ s.world) (judged s r)
judged_same s (refuse, o) = ensured refl
judged_same s (discard, o) = ensured refl
judged_same s (keep, o) = ensured refl

parse_same :
    (o : SftfsOptions) (s : State ℕ)
    → Ensures (λ r. r.1.world ≡ s.world) (around.fuse_opt_parse o s)
parse_same o s =
    >>=_Ensures (process_ssh_options digit true target key_nonopt o) _
      (Ensures-any {Q = λ r. Unit} _ (λ r. tt)) (λ r q. judged_same s r)

around_Apart : Apart around (λ w. w) counts
around_Apart = record { put_back = λ ssh v w. refl; parse = λ o s. parse_same o s }

abbrev parse_result : Run (Option SftfsOptions × State ℕ) → Option SftfsOptions × State ℕ
parse_result (ok r) = r
parse_result fault = (none, before)

abbrev parsed_here : Option SftfsOptions × State ℕ
parsed_here = parse_result (around.fuse_opt_parse initial before)

parses_here : around.fuse_opt_parse initial before ≡ ok parsed_here
unfolding process_ssh_options parse_port process_target parse_target strchr
parses_here = refl

main-Frees_example :
    Ensures
      (λ r.
        (parsed_here.1.world ≡ 0)
        × FreesOrLeaks around (λ w. w) counts around_Apart parsed_here r.1)
      (main around before)
main-Frees_example = main-Frees around (λ w. w) counts around_Apart before parsed_here parses_here

abbrev at_end : Run (Exit × Sftfs around) → Sftfs around
at_end (ok r) = r.1
at_end fault = idle around before

starts : main around before ≡ ok (mounted, at_end (main around before))
unfolding main process_ssh_options sftfs.Target.parse_target sftfs.Target.strchr
    sftfs.SshCli.Login.ssh_cli connect authorize_if handle_host_verification
    handle_host_authorization try_authorize_host_with_password wrap_critical_call password_prompt_cb
    sftfs.Main.Start.cached_sftp_init sftfs.Cached.init sftfs.Cache.Core.construct
    sftfs.Htable.create sftfs.Sftp.construct sftfs.Str.create sftfs.Cache.Lru.construct
    sftfs.Cached.construct_caches sftfs.Htable.Primes.bound_loop sftfs.Htable.Primes.lower_bound
    sftfs.Htable.Primes.prime_list sftfs.Htable.Primes.prime_lower_bound sftfs.Htable.create_htable
    sftfs.Main.Start.guarded sftfs.Main.Start.init_sftfs sftfs.Main.Start.run
    sftfs.Main.Start.with_endp sftfs.Main.Start.with_ssh sftfs.Main.process_target ask_and_stop
    ask_password release reset_nodumpable set_nodumpable start stop sftfs.Sftp.init_session
    sftfs.Sftp.with_base sftfs.Sftp.with_session set_all set_up settings code_of handle_connection
    proceed settle attempts sftfs.Str.copy sftfs.Str.fresh_bytes sftfs.Str.null_term sftfs.Str.store
starts = refl

main-Mounts_example :
    (m : Mounts around before (at_end (main around before))) × IsUsable digit m.options
main-Mounts_example =
    main-Mounts around digit around_parses before (at_end (main around before)) starts

abbrev parsed_options : SftfsOptions
parsed_options = record {
  target_buffer = some target;
  user = some (b'u' ∷ []);
  host = some (b'h' ∷ []);
  path = some (b'/' ∷ b'r' ∷ []);
  port = some 22;
  help = false;
}

parse_runs : Parses digit initial parsed_options
unfolding process_ssh_options process_target parse_target strchr
parse_runs = argument true target key_nonopt discard refl (λ c. cc) parsed

Parses-IsUsable_example : IsUsable digit parsed_options
Parses-IsUsable_example =
    Parses-IsUsable digit parse_runs ((22, refl, omega arith), λ host none_is. cc)
