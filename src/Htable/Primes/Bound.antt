-- ===== src/Htable/Primes/Bound.antt =====
-- `prime_lower_bound` of abs/htable.c finds the first listed prime that is large enough.
use sftfs.Prelude.{
  ℕ, zero, suc, ◌+◌, ◌-◌, ◌/◌, ◌≤◌, ◌<◌, ◌≡◌, refl, sym, subst, Bool, true, ◌&&◌, List, [], ◌∷◌,
  ◌⊎◌, inl, inr, arith, length, get_or, ltb, leb, Bool-cases,
}
use sftfs.Htable.Primes.{prime_list, bound_loop, lower_bound, prime_lower_bound}

ascending : ℕ → List ℕ → Bool
ascending x [] = true
ascending x (y ∷ ys) = leb x y && ascending y ys

ascending-le :
    (x : ℕ) (ys : List ℕ) (j : ℕ) → ascending x ys ≡ true → j < length ys → x ≤ get_or ys j 0
unfolding ascending
ascending-le x [] j h l = absurd (omega arith)
ascending-le x (y ∷ ys) zero h l = ground arith
ascending-le x (y ∷ ys) (suc j) h l = ground (arith, ascending-le y ys j)

ascending_mono :
    (x : ℕ) (ys : List ℕ) (i j : ℕ)
    → ascending x ys ≡ true
    → i ≤ j
    → j < suc (length ys)
    → get_or (x ∷ ys) i 0 ≤ get_or (x ∷ ys) j 0
unfolding ascending
ascending_mono x ys zero zero h le lt = omega arith
ascending_mono x ys zero (suc j) h le lt = ascending-le x ys j h (omega arith)
ascending_mono x ys (suc i) zero h le lt = absurd (omega arith)
ascending_mono x [] (suc i) (suc j) h le lt = absurd (omega arith)
ascending_mono x (y ∷ ys) (suc i) (suc j) h le lt = ground (arith, ascending_mono y ys i j)

mono-tail :
    (l : List ℕ) (x : ℕ)
    → ascending x l ≡ true
    → (i j : ℕ) → i ≤ j
    → j < length l
    → get_or l i 0 ≤ get_or l j 0
unfolding ascending
mono-tail [] x h i j le lt = absurd (omega arith)
mono-tail (y ∷ ys) x h i j le lt = ascending_mono y ys i j (ground arith) le lt

-- `i` is the first index whose value reaches the target, or the last index.
pub record IsBound (primes : List ℕ) (target i : ℕ) : Type 0 where
  pub inside : i < length primes
  pub below : (j : ℕ) → j < i → get_or primes j 0 < target
  pub reaches : (target ≤ get_or primes i 0) ⊎ (suc i ≡ length primes)

IsBound-of_eq :
    {primes : List ℕ} {target : ℕ} (left right : ℕ)
    → left ≡ right
    → right < length primes
    → ((j : ℕ) → j < left → get_or primes j 0 < target)
    → (target ≤ get_or primes right 0) ⊎ (suc right ≡ length primes)
    → IsBound primes target left
IsBound-of_eq {primes} {target} left right e r low high =
    subst (IsBound primes target) (sym e)
      (record { inside = r; below = λ j lt. low j (omega arith); reaches = high })

module _ (primes : List ℕ) (target : ℕ)
    (mono : (i j : ℕ) → i ≤ j → j < length primes → get_or primes i 0 ≤ get_or primes j 0) where
  bound_loop-IsBound :
      (fuel left right : ℕ)
      → right - left ≤ fuel
      → left ≤ right
      → right < length primes
      → ((j : ℕ) → j < left → get_or primes j 0 < target)
      → (target ≤ get_or primes right 0) ⊎ (suc right ≡ length primes)
      → IsBound primes target (bound_loop fuel primes target left right)
  unfolding bound_loop
  bound_loop-IsBound zero left right f le r low high =
      IsBound-of_eq left right (omega arith) r low high
  bound_loop-IsBound (suc fuel) left right f le r low high =
      let mid = (right - left) / 2 + left in
      elim (Bool-cases (ltb left right)) [
        | inr e ↦ rw e (IsBound-of_eq left right (ground arith) r low high)
        | inl e ↦ elim (Bool-cases (ltb (get_or primes mid 0) target)) [
          | inl m ↦
              rw (e, m)
                (bound_loop-IsBound fuel (mid + 1) right (ground arith) (ground arith) r
                  (λ j lt. ground (arith, mono j mid)) high)
          | inr m ↦
              rw (e, m)
                (bound_loop-IsBound fuel left mid (ground arith) (ground arith) (ground arith) low
                  (inl (ground arith)))
        ]
      ]

prime_list-ascending : ascending 2 prime_list ≡ true
unfolding ascending prime_list
prime_list-ascending = refl

prime_list_mono :
    (i j : ℕ) → i ≤ j → j < length prime_list → get_or prime_list i 0 ≤ get_or prime_list j 0
prime_list_mono i j = mono-tail prime_list 2 prime_list-ascending i j

length-prime_list : length prime_list ≡ 305
unfolding prime_list
length-prime_list = refl

-- Whatever the request, the result is the listed number at the first index whose value reaches
-- the request, or at the last index when none does.
pub prime_lower_bound_first :
    (target : ℕ)
    → (i : ℕ) × IsBound prime_list target i × (prime_lower_bound target ≡ get_or prime_list i 0)
unfolding prime_lower_bound lower_bound
prime_lower_bound_first target =
    let last = length prime_list - 1 in
    (
      bound_loop (length prime_list) prime_list target 0 last,
      bound_loop-IsBound prime_list target prime_list_mono (length prime_list) 0 last (omega arith)
          (omega arith) (omega (arith, length-prime_list)) (λ j lt. absurd (omega arith))
          (inr (omega (arith, length-prime_list))),
      refl,
    )

pub prime_lower_bound_pos : (target : ℕ) → 2 ≤ prime_lower_bound target
prime_lower_bound_pos target =
    let (i, b, e) = prime_lower_bound_first target in
    rw e (ascending-le 2 prime_list i prime_list-ascending b.inside)
