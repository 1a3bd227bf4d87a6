-- ===== src/SshCli/Answers.antt =====
-- How the answers to the question about the host are understood.
use sftfs.Prelude.{
  ℕ, zero, suc, ◌≡◌, refl, ◌≢◌, ◌↔◌, true, false, List, [], ◌∷◌, arith, ◌==◌, inl, inr, >>=_ok,
  Bool-cases, Option, some, none, Run, ok,
}
use sftfs.SshCli.{ask, is_yes, newline, eagain, attempts, handle_host_authorization}

-- A line that says no is not understood: the buffer is emptied where it holds the newline, and the
-- question goes on with the next line.
pub ask_no :
    (fuel beyond b₀ b₁ b₂ b₃ : ℕ) (rest : List ℕ)
    → ask (suc fuel) beyond (b₀ ∷ b₁ ∷ b₂ ∷ b₃ ∷ []) (b'n' ∷ b'o' ∷ newline ∷ rest)
      ≡ ask fuel beyond (0 ∷ b'o' ∷ newline ∷ 0 ∷ []) rest
unfolding ask
ask_no fuel beyond b₀ b₁ b₂ b₃ rest = refl

-- A line that says yes is understood, unless the byte behind the buffer is a newline.
pub ask_yes :
    (fuel beyond b₀ b₁ b₂ b₃ : ℕ) (rest : List ℕ)
    → beyond ≢ newline
    → ask (suc fuel) beyond (b₀ ∷ b₁ ∷ b₂ ∷ b₃ ∷ []) (b'y' ∷ b'e' ∷ b's' ∷ newline ∷ rest)
      ≡ (is_yes, rest)
unfolding ask
ask_yes fuel beyond b₀ b₁ b₂ b₃ rest h =
    let e : (beyond == newline) ≡ false = ground arith in rw (e, ask)

module _ {W : Type 0} (try : W → Run (Option ℕ × W)) where
  -- Of at most `n` attempts from the first state on, one succeeds and ends in the second state, and
  -- the ones before it are denied.
  pub data Succeeds : ℕ → W → W → Type 0 where
    first : {n : ℕ} {w w' : W} → try w ≡ ok (some 0, w') → Succeeds (suc n) w w'
    again :
        {n : ℕ} {w w₁ w' : W}
        → try w ≡ ok (some eagain, w₁)
        → Succeeds n w₁ w'
        → Succeeds (suc n) w w'

  -- What an attempt has returned where the login succeeds after it.
  attempted :
      (n : ℕ) {w w' : W} (rc : Option ℕ) (w₁ : W)
      → try w ≡ ok (rc, w₁)
      → ((v : W) → attempts try n w₁ ≡ ok (true, v) → Succeeds n w₁ v)
      → attempts try (suc n) w ≡ ok (true, w')
      → Succeeds (suc n) w w'
  unfolding attempts
  attempted n none w₁ e next h = let f = rw e at h in cc
  attempted n (some rc) w₁ e next h = elim (Bool-cases (rc == 0)) [
    | inl z ↦ let f = rw (e, z) at h in let zero_rc : rc ≡ 0 = ground arith in first cc
    | inr z ↦ elim (Bool-cases (rc == eagain)) [
      | inl t ↦
          let f = rw (e, z, t) at h in
          let denied : rc ≡ eagain = ground arith in again (cc) (next _ f)
      | inr t ↦ let f = rw (e, z, t) at h in cc
    ]
  ]

  attempts-Succeeds : (n : ℕ) (w w' : W) → attempts try n w ≡ ok (true, w') → Succeeds n w w'
  unfolding attempts
  attempts-Succeeds zero w w' h = cc
  attempts-Succeeds (suc n) w w' h =
      let ((rc, w₁), e, more) = >>=_ok (try w) h in
      attempted n rc w₁ e (λ v. attempts-Succeeds n w₁ v) h

  Succeeds-attempts : {n : ℕ} {w w' : W} → Succeeds n w w' → attempts try n w ≡ ok (true, w')
  unfolding attempts
  Succeeds-attempts (first e) = rw (e, attempts)
  Succeeds-attempts (again e more) = rw (e, attempts, Succeeds-attempts more)

  -- The login succeeds exactly if, of at most three attempts, one succeeds and the ones before it
  -- were denied: any other error ends the attempts.
  pub handle_host_authorization_iff :
      (w w' : W) → (handle_host_authorization try w ≡ ok (true, w')) ↔ Succeeds 3 w w'
  unfolding handle_host_authorization
  handle_host_authorization_iff w w' = (attempts-Succeeds 3 w w', Succeeds-attempts)
