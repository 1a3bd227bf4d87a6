-- ===== src/Main.antt =====
-- main.c: the options of the command line, and the start and the end of the file system.
--
-- The C library's `strtol` and FUSE's `fuse_opt_parse` are parameters.
pub mod Start
pub mod Options
pub mod Mounts
pub mod Ends
use sftfs.Prelude.{
  ℕ, Bool, true, false, ◌||◌, not, Option, none, some, List, [], ◌∷◌, Run, ok, fault, ◌>>=◌,
  if◌then◌else◌, ltb, drop,
}
use sftfs.Target.{Target, parse_target}

-- `struct sftfs_options`; NULL and the port -1 are `none`.
pub record SftfsOptions : Type 0 where
  pub target_buffer : Option (List ℕ)
  pub user : Option (List ℕ)
  pub host : Option (List ℕ)
  pub path : Option (List ℕ)
  pub port : Option ℕ
  pub help : Bool

-- A `long`.
pub data ℤ : Type 0 where
  pos negsuc : ℕ → ℤ

-- What `strtol` returns: the value, the text behind the number, and whether `errno` is still 0.
pub record Number : Type 0 where
  pub value : ℤ
  pub rest : List ℕ
  pub in_range : Bool

-- The number of a port, for a value that is in its range.
unfoldable pub port_of : ℤ → Option ℕ
port_of (negsuc n) = none
port_of (pos n) = if ltb 65535 n then none else some n

unfoldable pub is_empty : List ℕ → Bool
is_empty [] = true
is_empty (b ∷ bs) = false

-- KEY_PORT, KEY_HELP, FUSE_OPT_KEY_NONOPT, and any other.
pub data Key : Type 0 where
  key_port key_help key_nonopt key_other : Key

-- -1, 0 and 1: the parse fails, or the argument is dropped or kept.
pub data Verdict : Type 0 where
  refuse discard keep : Verdict

module _ (strtol : List ℕ → Number) where
  unfoldable pub parse_port : List ℕ → Option ℕ
  unfolding port_of is_empty
  parse_port arg =
      let n = strtol arg in
      if not n.in_range || not (is_empty n.rest) then none else port_of n.value

  unfoldable pub process_port : List ℕ → SftfsOptions → Verdict × SftfsOptions
  unfolding parse_port
  process_port arg opts =
      let port = parse_port (drop 2 arg) in
      (elim port [ none ↦ refuse | some p ↦ discard ], record opts { port = port })

  -- `dup` is the result of `strdup`: a NULL is read by `parse_target`. Where the argument has no
  -- path, the options keep theirs.
  unfoldable pub process_target :
      (dup : Option (List ℕ)) → SftfsOptions → Run (Verdict × SftfsOptions)
  process_target none opts = fault
  process_target (some arg) opts = parse_target arg >>= λ t. ok (
    discard,
    record opts {
      target_buffer = some arg;
      user = some t.user;
      host = some t.host;
      path = elim t.path [ none ↦ opts.path | some p ↦ some p ];
    },
  )

  -- `granted` is the allocation of `strdup`.
  unfoldable pub process_ssh_options :
      (granted : Bool) → List ℕ → Key → SftfsOptions → Run (Verdict × SftfsOptions)
  unfolding process_port process_target
  process_ssh_options granted arg key_port opts = ok (process_port arg opts)
  process_ssh_options granted arg key_nonopt opts = elim opts.target_buffer [
    | some buffer ↦ ok (keep, opts)
    | none ↦ process_target (if granted then some arg else none) opts
  ]
  process_ssh_options granted arg key_help opts = ok (discard, record opts { help = true })
  process_ssh_options granted arg key_other opts = ok (keep, opts)
