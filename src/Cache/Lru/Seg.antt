-- ===== src/Cache/Lru/Seg.antt =====
-- What the list stands for: the addresses of its nodes, least recently used first.
use sftfs.Prelude.{
  Bool-cases, inl, inr, ==_iff, ℕ, ◌≡◌, ◌≢◌, refl, ap, ◌∙◌, Bool, true, false, ◌||◌, List, [], ◌∷◌,
  ◌++◌, arith, ◌==◌, length,
}
use sftfs.Cache.Lru.{Store, State, null}

abbrev pub has : ℕ → List ℕ → Bool
has p [] = false
has p (q ∷ xs) = (p == q) || has p xs

-- The first and the last address, or the given one.
abbrev pub first : List ℕ → ℕ → ℕ
first [] d = d
first (p ∷ xs) d = p

abbrev pub last : List ℕ → ℕ → ℕ
last [] d = d
last (p ∷ xs) d = last xs p

-- The nodes of `xs`, between `before` and `after`: both links of each node, and no address twice.
abbrev pub Linked : Store → (before : ℕ) → List ℕ → (after : ℕ) → Type 0
Linked m before [] after = Unit {0}
Linked m before (p ∷ xs) after =
    (p ≢ null)
    × ((m p).prev ≡ before)
    × ((m p).next ≡ first xs after)
    × (has p xs ≡ false)
    × Linked m p xs after

pub record IsList (s : State) (xs : List ℕ) : Type 0 where
  pub head : s.list.lru ≡ first xs null
  pub tail : s.list.mru ≡ last xs null
  pub links : Linked s.nodes null xs null
  pub counted : s.list.nr_nodes ≡ length xs

-- Nodes outside the list are not linked to anything.
abbrev pub Detached : Store → ℕ → Type 0
Detached m p = ((m p).prev ≡ null) × ((m p).next ≡ null)

pub has-append : (p : ℕ) (xs ys : List ℕ) → has p (xs ++ ys) ≡ (has p xs || has p ys)
has-append p [] ys = refl
has-append p (x ∷ xs) ys = ground (arith, has-append p xs ys)

pub not-has-append_left : (p : ℕ) (xs ys : List ℕ) → has p (xs ++ ys) ≡ false → has p xs ≡ false
not-has-append_left p [] ys h = refl
not-has-append_left p (x ∷ xs) ys h = ground (arith, not-has-append_left p xs ys)

pub not-has-append_right : (p : ℕ) (xs ys : List ℕ) → has p (xs ++ ys) ≡ false → has p ys ≡ false
not-has-append_right p [] ys h = h
not-has-append_right p (x ∷ xs) ys h = not-has-append_right p xs ys (ground arith)

pub not-has-append :
    (p : ℕ) (xs ys : List ℕ) → has p xs ≡ false → has p ys ≡ false → has p (xs ++ ys) ≡ false
not-has-append p [] ys h k = k
not-has-append p (x ∷ xs) ys h k = ground (arith, not-has-append p xs ys)

pub here : (p : ℕ) (xs : List ℕ) → has p (p ∷ xs) ≡ true
here p xs = ground arith

pub there : (q p : ℕ) (xs : List ℕ) → has q xs ≡ true → has q (p ∷ xs) ≡ true
there q p xs h = ground arith

pub not_equal : (p q : ℕ) (xs : List ℕ) → has p xs ≡ false → has q xs ≡ true → (p == q) ≡ false
not_equal p q xs out is = elim (Bool-cases (p == q)) [
  | inr e ↦ e
  | inl e ↦ ground (arith, ap (λ r. has r xs) ((==_iff p q).0 e))
]

-- Links are read at the nodes of the list alone.
pub Linked-frame :
    (m m' : Store) (before : ℕ) (xs : List ℕ) (after : ℕ)
    → ((q : ℕ) → has q xs ≡ true → m' q ≡ m q)
    → Linked m before xs after
    → Linked m' before xs after
Linked-frame m m' before [] after same l = tt
Linked-frame m m' before (p ∷ xs) after same (a, b, c, d, e) =
    let here : m' p ≡ m p = same p (here p xs) in
    (
      a,
      ap (λ n. n.prev) here ∙ b,
      ap (λ n. n.next) here ∙ c,
      d,
      Linked-frame m m' p xs after (λ q h. same q (ground arith)) e,
    )

pub Linked-append :
    (m : Store) (before : ℕ) (xs ys : List ℕ) (after : ℕ)
    → Linked m before (xs ++ ys) after
    → Linked m before xs (first ys after) × Linked m (last xs before) ys after
Linked-append m before [] ys after l = (tt, l)
Linked-append m before (p ∷ []) ys after (a, b, c, d, e) = ((a, b, c, refl, tt), e)
Linked-append m before (p ∷ q ∷ xs) ys after (a, b, c, d, e) =
    let (front, back) = Linked-append m p (q ∷ xs) ys after e in
    ((a, b, c, not-has-append_left p (q ∷ xs) ys d, front), back)

-- Two segments that share no node are one.
pub append-Linked :
    (m : Store) (before : ℕ) (xs ys : List ℕ) (after : ℕ)
    → Linked m before xs (first ys after)
    → Linked m (last xs before) ys after
    → ((q : ℕ) → has q xs ≡ true → has q ys ≡ false)
    → Linked m before (xs ++ ys) after
append-Linked m before [] ys after front back apart = back
append-Linked m before (p ∷ []) ys after (a, b, c, d, e) back apart =
    (a, b, c, apart p (here p []), back)
append-Linked m before (p ∷ q ∷ xs) ys after (a, b, c, d, e) back apart = (
  a,
  b,
  c,
  not-has-append p (q ∷ xs) ys d (apart p (here p (q ∷ xs))),
  append-Linked m p (q ∷ xs) ys after e back (λ r h. apart r (there r p (q ∷ xs) h)),
)
