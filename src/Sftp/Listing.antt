-- ===== src/Sftp/Listing.antt =====
-- What `sftfs_sftp_readdir` makes of a directory of the server.
use mathlib.Core.List.{map}
use sftfs.Prelude.{
  ℕ, zero, suc, ◌<◌, ◌≡◌, refl, sym, ap, ◌∙◌, Bool, true, false, Option, none, some, List, [], ◌∷◌,
  arith, length, Run, ok, ◌>>=◌, >>=_cong, >>=_assoc, if◌then◌else◌,
}
use sftfs.Str.{Heap}
use sftfs.Sftp.{Sftp, call, ret_sftp_err}
use sftfs.Sftp.Api.{Libssh, Attributes}
use sftfs.Sftp.Errno.{Rc, done}
use sftfs.Sftp.Transfer.{direntry, readdir, end_of_dir}
use sftfs.Sftp.Whole.{within_fuel, sftp_endpoint}
use sftfs.Endpoint.{Callee, Direntry}

-- The callee on each entry in order, until it asks to stop.
abbrev pub feed : {V : Type 0} → Callee V → List Direntry → V → Run V
feed callee [] v = ok v
feed callee (e ∷ es) v = callee e v >>= λ q. if q.0 then ok q.1 else feed callee es q.1

module _ (ssh : Libssh) (dir : ℕ) where
  open ssh use {World}

  -- The states in which the server has these entries of the directory still to hand out: a call
  -- hands out the first one, and behind the last one it returns NULL and reports the end.
  pub record HandsOut (Left : List Attributes → World → Type 0) : Type 0 where
    pub entry :
        (a : Attributes) (xs : List Attributes) (w : World)
        → Left (a ∷ xs) w
        → ((ssh.readdir dir w).0 ≡ some a) × Left xs (ssh.readdir dir w).1
    pub last :
        (w : World)
        → Left [] w
        → ((ssh.readdir dir w).0 ≡ none) × (ssh.dir_eof dir (ssh.readdir dir w).1 ≡ true)

  module _ {Left : List Attributes → World → Type 0} (server : HandsOut Left) {V : Type 0}
      (callee : Callee V) where
    -- The result and the callee's state, without the world.
    abbrev pub result_of : (Rc × V) × Sftp ssh → Run (Rc × V)
    result_of r = ok r.0

    abbrev on_answer : (fuel flags : ℕ) → Sftp ssh → Bool × V → Run (Option ((Rc × V) × Sftp ssh))
    on_answer fuel flags s q =
        if q.0 then ok (some ((done, q.1), s)) else readdir ssh fuel dir flags callee q.1 s

    -- A round, by what the server returned.
    abbrev on_result :
        (fuel flags : ℕ) → V → Sftp ssh → Option Attributes → Run (Option ((Rc × V) × Sftp ssh))
    on_result fuel flags v s none = ok (some ((end_of_dir ssh dir s, v), s))
    on_result fuel flags v s (some a) = callee (direntry ssh flags a) v >>= on_answer fuel flags s

    abbrev pub finished : V → Run (Rc × V)
    finished v = ok (done, v)

    answered_lem :
        (fuel flags : ℕ) (xs : List Attributes) (q : Bool × V) (s : Sftp ssh)
        → (readdir ssh fuel dir flags callee q.1 s >>= within_fuel >>= result_of)
          ≡ (feed callee (map (direntry ssh flags) xs) q.1 >>= finished)
        → (on_answer fuel flags s q >>= within_fuel >>= result_of)
          ≡ ((if q.0 then ok q.1 else feed callee (map (direntry ssh flags) xs) q.1) >>= finished)
    answered_lem fuel flags xs (true, v) s h = refl
    answered_lem fuel flags xs (false, v) s h = h

    readdir-feed :
        (fuel flags : ℕ) (xs : List Attributes) (v : V) (s : Sftp ssh)
        → Left xs s.world
        → length xs < fuel
        → (readdir ssh fuel dir flags callee v s >>= within_fuel >>= result_of)
          ≡ (feed callee (map (direntry ssh flags) xs) v >>= finished)
    unfolding readdir
    readdir-feed zero flags xs v s left lt = absurd (omega arith)
    readdir-feed (suc fuel) flags [] v s left lt =
        let s' = (call ssh (ssh.readdir dir) s).1 in
        let (ends, eof) = server.last s.world left in
        ap (λ o. on_result fuel flags v s' o >>= within_fuel >>= result_of) ends
        ∙ ap (λ b. ok ((if b then done else ret_sftp_err ssh s'), v)) eof
    readdir-feed (suc fuel) flags (a ∷ xs) v s left lt =
        let s' = (call ssh (ssh.readdir dir) s).1 in
        let (hands, more) = server.entry a xs s.world left in
        let answer = callee (direntry ssh flags a) v in
        ap (λ o. on_result fuel flags v s' o >>= within_fuel >>= result_of) hands
        ∙ ap (λ r. r >>= result_of) (>>=_assoc answer (on_answer fuel flags s') within_fuel)
        ∙ >>=_assoc answer (λ q. on_answer fuel flags s' q >>= within_fuel) result_of
        ∙ >>=_cong answer (λ q.
          answered_lem fuel flags xs q s' (readdir-feed fuel flags xs q.1 s' more (omega arith)))
        ∙ sym (
            >>=_assoc answer
              (λ q. if q.0 then ok q.1 else feed callee (map (direntry ssh flags) xs) q.1) finished)

    -- A directory of the server that is read from its beginning: the callee gets every entry once, in
    -- the order of the server, with its attributes if they are asked for, until it asks to stop, and
    -- the result is 0. The fuel is more than the number of entries.
    pub sftp_readdir-feed :
        (heap : Heap) (fuel flags : ℕ) (path : List ℕ) (xs : List Attributes) (v : V) (s : Sftp ssh)
        → Left xs s.world
        → length xs < fuel
        → (let endp = sftp_endpoint ssh heap fuel in
            endp.readdir path dir flags callee v s >>= result_of)
          ≡ (feed callee (map (direntry ssh flags) xs) v >>= finished)
    sftp_readdir-feed heap fuel flags path xs v s left lt = readdir-feed fuel flags xs v s left lt
