-- ===== src/SshCli.antt =====
-- ssh_cli.c: the question about an unknown host, and the attempts to log in.
--
-- Standard input is the list of the bytes that are still to come. `buffer` is the array
-- `response`, of four bytes that are at first indeterminate, and `beyond` is the byte behind it, which
-- `get_line` reads where the array holds no newline.
pub mod Answers
pub mod Login
pub mod Admitted
pub mod Sessions
use sftfs.Prelude.{
  ℕ, zero, suc, ◌+◌, ◌-◌, Bool, true, false, ◌&&◌, ◌||◌, not, Option, none, some, List, [], ◌∷◌,
  ◌++◌, if◌then◌else◌, ◌==◌, length, take, drop, set, get_or, Run, ok, ◌>>=◌,
}
use sftfs.Ssh.{Client, KnownHost, known_error, not_found, unknown, known, changed, other}

abbrev pub newline : ℕ
newline = 10

-- `fgets` with room for `n` bytes: up to the first newline, which is kept, and the rest of the input.
unfoldable pub fgets : ℕ → List ℕ → List ℕ × List ℕ
fgets zero input = ([], input)
fgets (suc n) [] = ([], [])
fgets (suc n) (b ∷ input) =
    let more = fgets n input in if b == newline then (b ∷ [], input) else (b ∷ more.0, more.1)

-- `while (c = getc(stdin), c != '\n' && c != EOF);`
unfoldable pub skip_line : List ℕ → List ℕ
skip_line [] = []
skip_line (b ∷ input) = if b == newline then input else skip_line input

-- The index of the first newline, or the length.
unfoldable pub find_newline : List ℕ → ℕ
find_newline [] = 0
find_newline (b ∷ bs) = if b == newline then 0 else suc (find_newline bs)

-- `none` is EOF. The result is the buffer and the input that is left.
unfoldable pub get_line : (beyond : ℕ) → (buffer input : List ℕ) → Option (List ℕ × List ℕ)
unfolding fgets skip_line find_newline
get_line beyond buffer [] = none
get_line beyond buffer (b ∷ input) =
    let (line, rest) = fgets (length buffer - 1) (b ∷ input) in
    let filled = line ++ (0 ∷ drop (length line + 1) buffer) in
    let len = find_newline filled in
    if get_or filled len beyond == newline
    then some (set filled 0 0, rest)
    else some (filled, skip_line rest)

-- `!strncmp(buffer, word, n)` for a word of n bytes.
unfoldable pub starts : List ℕ → List ℕ → Bool
starts buffer [] = true
starts [] (w ∷ ws) = false
starts (b ∷ bs) (w ∷ ws) = (b == w) && starts bs ws

pub data Answer : Type 0 where
  is_yes is_no no_answer : Answer

-- The loop over the lines; every line takes a byte at least, so a round for each byte is enough. The
-- answer, and the input that is left.
unfoldable pub ask : ℕ → (beyond : ℕ) → (buffer input : List ℕ) → Answer × List ℕ
unfolding get_line starts
ask zero beyond buffer input = (no_answer, input)
ask (suc fuel) beyond buffer input = elim (get_line beyond buffer input) [
  | none ↦ (no_answer, [])
  | some (b, rest) ↦
      let again = ask fuel beyond b rest in
      if starts b (b'y' ∷ b'e' ∷ b's' ∷ [])
      then (is_yes, rest)
      else if starts b (b'n' ∷ b'o' ∷ [])
      then (is_no, rest)
      else again
]

-- `ssh_session_is_known_server` returned another value than 0.
abbrev pub is_nonzero : KnownHost → Bool
is_nonzero unknown = false
is_nonzero known_error = true
is_nonzero not_found = true
is_nonzero known = true
is_nonzero changed = true
is_nonzero other = true

module _ {World : Type 0} (client : Client World) (beyond : ℕ) (buffer : List ℕ) where
  open client use {Session}

  -- The state after the question, and the answer.
  unfoldable pub question : World → Answer × World
  unfolding ask
  question w =
      let (answer, rest) = ask (suc (length (client.stdin w))) beyond buffer (client.stdin w) in
      (answer, client.set_stdin rest w)

  -- What follows the answer.
  unfoldable pub answered : Session → Answer × World → Bool × World
  answered ssh (is_no, w) = (false, w)
  answered ssh (no_answer, w) = (false, w)
  answered ssh (is_yes, w) = client.update_known_hosts ssh w

  -- True is EXIT_SUCCESS.
  unfoldable pub handle_host_verification : Session → World → Bool × World
  handle_host_verification ssh w =
      let (result, w₁) = client.is_known_server ssh w in
      if is_nonzero result then (true, w₁) else answered ssh (question w₁)

-- EAGAIN and EPERM
abbrev pub eagain : ℕ
eagain = 11

abbrev pub eperm : ℕ
eperm = 1

-- `getenv` is a parameter; `login` is the result of `getlogin`.
unfoldable pub get_current_username :
    (getenv : List ℕ → Option (List ℕ)) (login : Option (List ℕ)) → List ℕ
get_current_username getenv login = elim (getenv (b'U' ∷ b'S' ∷ b'E' ∷ b'R' ∷ [])) [
  | some user ↦ user
  | none ↦ elim (getenv (b'L' ∷ b'O' ∷ b'G' ∷ b'N' ∷ b'A' ∷ b'M' ∷ b'E' ∷ [])) [
    | some user ↦ user
    | none ↦ elim login [ some user ↦ user | none ↦ [] ]
  ]
]

module _ {W : Type 0} (try : W → Run (Option ℕ × W)) where
  -- One attempt after another, `n` at most; true is the result 0. The attempt's result -1 is `none`.
  unfoldable pub attempts : ℕ → W → Run (Bool × W)
  attempts zero w = ok (false, w)
  attempts (suc n) w = try w >>= λ r.
      let again = attempts n r.1 in
      elim r.0 [
        | none ↦ ok (false, r.1)
        | some rc ↦
            if rc == 0 then ok (true, r.1) else if rc == eagain then again else ok (false, r.1)
      ]

  unfoldable pub handle_host_authorization : W → Run (Bool × W)
  unfolding attempts
  handle_host_authorization w = attempts 3 w
