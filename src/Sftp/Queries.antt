-- ===== src/Sftp/Queries.antt =====
-- The operations of endp/sftp.c that fill in a result for a path.
use mathlib.Core.List.{append_assoc}
use sftfs.Prelude.{
  zero, strncpy, take, suc, ◌-◌, subst, sym, replicate, length-take, ap, ◌∙◌, [], ◌∷◌, false, arith,
  ℕ, ◌+◌, ◌<◌, ◌≡◌, refl, Option, none, some, List, ◌++◌, length, word, Run, ok, if◌then◌else◌,
  ◌==◌, Returns,
}
use sftfs.Str.{Heap}
use sftfs.Sftp
use sftfs.Sftp.Api.{Libssh, Attributes}
use sftfs.Sftp.Errno.{Rc, done, minus, to_errno, enomem}
use sftfs.Sftp.{link_bytes, Sftp, Stat, Op, call, given, ret_sftp_err, convert_sftp_attr_to_stat}
use sftfs.Sftp.Paths.{Short, HoldsBase, elsewhere, begins-Returns}

-- A buffer of this size that holds a text: cut off so that a NUL fits behind it, and filled up with NULs.
abbrev pub holding : (size : ℕ) → List ℕ → List ℕ
holding size text = let kept = take (size - 1) text in kept ++ replicate (size - length kept) 0

replicate_snoc : (k b : ℕ) → replicate k b ++ b ∷ [] ≡ replicate (suc k) b
replicate_snoc zero b = refl
replicate_snoc (suc k) b = ap (λ l. b ∷ l) (replicate_snoc k b)

module _ (ssh : Libssh) (heap : Heap) where
  open ssh use {World}

  -- The result, what is filled in, and the state outside: of the call, or -ENOMEM before it.
  pub data Fills {A B : Type 0} (f : A → B) (ask : World → Option A × World) (w : World)
      : Rc × Option B → World → Type 0 where
    found : {a : A} {w' : World} → ask w ≡ (some a, w') → Fills f ask w (done, some (f a)) w'
    missing :
        {w' : World}
        → ask w ≡ (none, w')
        → Fills f ask w (minus (to_errno (ssh.get_error w')), none) w'
    no_memory : Short heap → Fills f ask w (minus enomem, none) w

  -- The operation ends so, and the handle keeps the base directory.
  abbrev pub Answered :
      {A B : Type 0}
      → List ℕ
      → (A → B)
      → (World → Option A × World)
      → World
      → (Rc × Option B) × Sftp ssh
      → Type 0
  Answered base f ask w r = Fills f ask w r.0 r.1.world × HoldsBase ssh base r.1

  given-Fills :
      {A B : Type 0} {base : List ℕ} {f : A → B} {ask : World → Option A × World} {w : World}
      (s : Sftp ssh) (r : Option A × World)
      → HoldsBase ssh base s
      → ask w ≡ r
      → Returns (given ssh heap f (r.0, record s { world = r.1 })) (Answered base f ask w)
  unfolding ret_sftp_err
  given-Fills s (some a, w') h e = (_, refl, (found e, elsewhere ssh w' h))
  given-Fills s (none, w') h e = (_, refl, (missing e, elsewhere ssh w' h))

  at_path_for-Fills :
      {A B : Type 0} (base path : List ℕ) (f : A → B) (ask : List ℕ → World → Option A × World)
      (s : Sftp ssh)
      → HoldsBase ssh base s
      → length base + length path + 17 < word
      → Returns
          (Sftp.at_path_for ssh heap path (λ abs s'. given ssh heap f (call ssh (ask abs) s')) s)
          (Answered base f (ask (base ++ path)) s.world)
  at_path_for-Fills base path f ask s h small =
      begins-Returns ssh heap base path (minus enomem, none)
        (λ abs s'. given ssh heap f (call ssh (ask abs) s')) s _ h small
        (λ s' h' same. given-Fills s' _ h' (rw same refl))
        λ s' h' same short. (rw same (no_memory short), h')

  -- `stat` after the call that finds nothing.
  abbrev or_stat : List ℕ → Option Attributes × World → Option Attributes × World
  or_stat path (some a, w) = (some a, w)
  or_stat path (none, w) = ssh.stat path w

  -- What `getattr` asks: `lstat`, or `fstat` of an open file, and `stat` where that finds nothing.
  abbrev pub ask_stat : (file : ℕ) → List ℕ → World → Option Attributes × World
  ask_stat file path w = or_stat path ((if file == 0 then ssh.lstat path else ssh.fstat file) w)

  or_stat-Fills :
      {base : List ℕ} {ask : World → Option Attributes × World} {w : World} (path : List ℕ)
      (o : Option Attributes) (s : Sftp ssh)
      → HoldsBase ssh base s
      → ask w ≡ or_stat path (o, s.world)
      → Returns
          (elim o as (λ _. Run ((Rc × Option Stat) × Sftp ssh)) [
            | some a ↦ ok ((done, some (convert_sftp_attr_to_stat a)), s)
            | none ↦ given ssh heap convert_sftp_attr_to_stat (call ssh (ssh.stat path) s)
          ])
          (Answered base convert_sftp_attr_to_stat ask w)
  or_stat-Fills path (some a) s h e = (_, refl, (found e, h))
  or_stat-Fills path none s h e = given-Fills s _ h e

  getattr-Fills :
      (base path : List ℕ) (file : ℕ) (s : Sftp ssh)
      → HoldsBase ssh base s
      → length base + length path + 17 < word
      → Returns
          (Sftp.getattr ssh heap path file s)
          (Answered base convert_sftp_attr_to_stat (ask_stat file (base ++ path)) s.world)
  unfolding Sftp.getattr
  getattr-Fills base path file s h small =
      begins-Returns ssh heap base path (minus enomem, none) _ s _ h small
        (λ s' h' same. or_stat-Fills (base ++ path) _ _ (elsewhere ssh _ h') (rw same refl))
        λ s' h' same short. (rw same (no_memory short), h')

  link_bytes-holding :
      (bufsiz : ℕ) (text : List ℕ)
      → 0 < bufsiz
      → link_bytes ssh heap bufsiz text ≡ holding bufsiz text
  unfolding strncpy
  link_bytes-holding bufsiz text room =
      let n = bufsiz - 1 in
      let nuls : suc (n - length text) ≡ bufsiz - length (take n text) =
        omega (arith, length-take n text, room) in
      append_assoc (take n text) (replicate (n - length text) 0) (0 ∷ [])
      ∙ ap (λ l. take n text ++ l) (replicate_snoc (n - length text) 0)
      ∙ ap (λ k. take n text ++ replicate k 0) nuls

  refill :
      {A B : Type 0} {f g : A → B} {ask : World → Option A × World} {w : World} {r : Rc × Option B}
      {w' : World}
      → ((a : A) → f a ≡ g a)
      → Fills f ask w r w'
      → Fills g ask w r w'
  refill {g = g} {ask = ask} {w = w} {w' = w'} same (found {a = a} e) =
      subst (λ b. Fills g ask w (done, some b) w') (sym (same a)) (found e)
  refill same (missing e) = missing e
  refill same (no_memory short) = no_memory short

  readlink-Fills :
      (base path : List ℕ) (bufsiz : ℕ) (s : Sftp ssh)
      → HoldsBase ssh base s
      → length base + length path + 17 < word
      → 0 < bufsiz
      → Returns
          (Sftp.readlink ssh heap path bufsiz s)
          (Answered base (holding bufsiz) (ssh.readlink (base ++ path)) s.world)
  unfolding Sftp.readlink
  readlink-Fills base path bufsiz s h small room =
      let filled : (bufsiz == 0) ≡ false = ground (arith, room) in
      let (r, run, q) =
        at_path_for-Fills base path (link_bytes ssh heap bufsiz) ssh.readlink s h small in
      (r, rw filled run, (refill (λ t. link_bytes-holding bufsiz t room) q.0, q.1))

  -- The six operations at one path, each with what it asks and fills in.
  abbrev pub AllAnswered : (base path : List ℕ) (file bufsiz flags mode : ℕ) → Sftp ssh → Type 0
  AllAnswered base path file bufsiz flags mode s =
      Returns (Sftp.getattr ssh heap path file s)
        (Answered base convert_sftp_attr_to_stat (ask_stat file (base ++ path)) s.world)
      × (Returns (Sftp.readlink ssh heap path bufsiz s)
            (Answered base (holding bufsiz) (ssh.readlink (base ++ path)) s.world)
          × (Returns (Sftp.opendir ssh heap path s)
                (Answered base (λ d. d) (ssh.opendir (base ++ path)) s.world)
              × (Returns (Sftp.open_file ssh heap path flags s)
                    (Answered base (λ o. o) (ssh.open_file (base ++ path) flags 0) s.world)
                  × (Returns (Sftp.create ssh heap path mode s)
                        (Answered base (λ o. o) (ssh.open_file (base ++ path) 65 mode) s.world)
                      × Returns (Sftp.statfs ssh heap path s)
                          (Answered base (λ v. v) (ssh.statvfs (base ++ path)) s.world)))))

  -- Where the handle holds the base directory, the whole path does not come near the largest
  -- `size_t`, and the buffer for a link is not empty: getattr, readlink, opendir, open, create and
  -- statfs end, and the handle still holds the base directory. Each makes its call of libssh at the
  -- base directory followed by the path, and getattr, where `lstat` (or `fstat` for an open file)
  -- finds nothing, `stat` as well. The result is 0, with what was found written out (a link cut to
  -- one byte less than the buffer, and NULs behind it up to the buffer's end), or the number of the
  -- session's error with nothing written, or, only where the allocator refuses a block, -ENOMEM
  -- without a call.
  pub queries-AllAnswered :
      (base path : List ℕ) (file bufsiz flags mode : ℕ) (s : Sftp ssh)
      → HoldsBase ssh base s
      → length base + length path + 17 < word
      → 0 < bufsiz
      → AllAnswered base path file bufsiz flags mode s
  unfolding Sftp.opendir Sftp.open_file Sftp.create Sftp.statfs
  queries-AllAnswered base path file bufsiz flags mode s h small room = (
    getattr-Fills base path file s h small,
    (
      readlink-Fills base path bufsiz s h small room,
      (
        at_path_for-Fills base path (λ d. d) ssh.opendir s h small,
        (
          at_path_for-Fills base path (λ o. o) (λ p. ssh.open_file p flags 0) s h small,
          (
            at_path_for-Fills base path (λ o. o) (λ p. ssh.open_file p 65 mode) s h small,
            at_path_for-Fills base path (λ v. v) ssh.statvfs s h small,
          ),
        ),
      ),
    ),
  )
