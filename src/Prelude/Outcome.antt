-- ===== src/Prelude/Outcome.antt =====
-- Code that may go wrong: `fault` stands for undefined behaviour or a failing `assert`.
use mathlib.Core.Path.{◌≡◌, refl}
use mathlib.Core.Bool.{Bool, true, false}
use mathlib.Core.Option.{Option, none, some}
use sftfs.Prelude.Tests.{if◌then◌else◌}

pub data Run {ℓ} (A : Type ℓ) : Type ℓ where
  ok : A → Run A
  fault : Run A

module _ {ℓ κ} {A : Type ℓ} where
  -- The run ends without a fault, in a value that satisfies `Q`.
  abbrev pub Returns : (r : Run A) (Q : A → Type κ) → Type (ℓ ⊔ κ)
  Returns r Q = (result : A) × (r ≡ ok result) × Q result

  infixl 5 ◌>>=◌
  abbrev pub ◌>>=◌ : {B : Type κ} (r : Run A) (next : A → Run B) → Run B
  fault >>= next = fault
  ok result >>= next = next result

-- Steps that agree on every result agree after the same run.
pub >>=_cong {ℓ κ} :
    {A : Type ℓ} {B : Type κ} (r : Run A) {f g : A → Run B}
    → ((a : A) → f a ≡ g a)
    → (r >>= f) ≡ (r >>= g)
>>=_cong fault h = refl
>>=_cong (ok result) h = h result

pub >>=_assoc {ℓ κ μ} :
    {A : Type ℓ} {B : Type κ} {C : Type μ} (r : Run A) (f : A → Run B) (g : B → Run C)
    → ((r >>= f) >>= g) ≡ (r >>= λ a. f a >>= g)
>>=_assoc fault f g = refl
>>=_assoc (ok result) f g = refl

-- A run that ends has passed its first step.
pub >>=_ok {ℓ κ} :
    {A : Type ℓ} {B : Type κ} (r : Run A) {f : A → Run B} {b : B}
    → (r >>= f) ≡ ok b
    → (a : A) × (r ≡ ok a) × (f a ≡ ok b)
>>=_ok fault h = cc
>>=_ok (ok a) h = (a, refl, h)

-- Where the run ends without a fault, its value satisfies `Q`.
pub data Ensures {ℓ κ} {A : Type ℓ} (Q : A → Type κ) : Run A → Type (ℓ ⊔ κ) where
  faulty : Ensures Q fault
  ensured : {a : A} → Q a → Ensures Q (ok a)

pub Ensures-ok {ℓ κ} : {A : Type ℓ} {Q : A → Type κ} {a : A} → Ensures Q (ok a) → Q a
Ensures-ok (ensured h) = h

pub >>=_Ensures {ℓ κ} :
    {A B : Type ℓ} {Q : A → Type κ} {R : B → Type κ} (r : Run A) (f : A → Run B)
    → Ensures Q r
    → ((a : A) → Q a → Ensures R (f a))
    → Ensures R (r >>= f)
>>=_Ensures fault f h k = faulty
>>=_Ensures (ok a) f h k = k a (Ensures-ok h)

pub if_Ensures {ℓ κ} :
    {A : Type ℓ} {Q : A → Type κ} (b : Bool) (r s : Run A)
    → Ensures Q r
    → Ensures Q s
    → Ensures Q (if b then r else s)
if_Ensures true r s h k = h
if_Ensures false r s h k = k

pub elim_Ensures {ℓ κ} :
    {A B : Type ℓ} {Q : B → Type κ} (o : Option A) (r : Run B) (f : A → Run B)
    → Ensures Q r
    → ((a : A) → Ensures Q (f a))
    → Ensures Q (elim o as (λ _. Run B) [ none ↦ r | some a ↦ f a ])
elim_Ensures none r f h k = h
elim_Ensures (some a) r f h k = k a

pub Ensures-any {ℓ κ} : {A : Type ℓ} {Q : A → Type κ} (r : Run A) → ((a : A) → Q a) → Ensures Q r
Ensures-any fault h = faulty
Ensures-any (ok a) h = ensured (h a)
