-- ===== src/Target/Split.antt =====
-- Which arguments `parse_target` splits, and how.
use sftfs.Prelude.{
  ℕ, ◌≡◌, ◌↔◌, ◌⊎◌, inl, inr, refl, ap, subst, ◌∙◌, Bool-cases, ==_iff, Option, Bool, false, ◌||◌,
  none, some, List, [], ◌∷◌, ◌++◌, ok, fault, arith, ◌==◌,
}
use sftfs.Target.{Target, strchr, parse_target}

abbrev pub contains : ℕ → List ℕ → Bool
contains c [] = false
contains c (b ∷ bs) = (b == c) || contains c bs

strchr-append :
    (c : ℕ) (front back : List ℕ)
    → contains c front ≡ false
    → strchr c (front ++ c ∷ back) ≡ some (front, back)
unfolding strchr
strchr-append c [] back h = ground arith
strchr-append c (b ∷ front) back h = ground (arith, strchr-append c front back)

strchr-none : (c : ℕ) (bs : List ℕ) → contains c bs ≡ false → strchr c bs ≡ none
unfolding strchr
strchr-none c [] h = refl
strchr-none c (b ∷ bs) h = ground (arith, strchr-none c bs)

-- The text with its parts put together again.
abbrev pub join : Target → List ℕ
join t = t.user ++ b'@' ∷ (elim t.path [ none ↦ t.host | some path ↦ t.host ++ b':' ∷ path ])

-- The first `@` ends the user, and the first colon behind it the host.
pub record IsSplit (target : List ℕ) (t : Target) : Type 0 where
  pub joined : target ≡ join t
  pub user_has_none : contains b'@' t.user ≡ false
  pub host_has_none : contains b':' t.host ≡ false

strchr_cases :
    (c : ℕ) (bs : List ℕ)
    → ((strchr c bs ≡ none) × (contains c bs ≡ false))
      ⊎ ((front : List ℕ) × (back : List ℕ) × (strchr c bs ≡ some (front, back))
          × (bs ≡ front ++ c ∷ back)
          × (contains c front ≡ false))
unfolding strchr
strchr_cases c [] = inl (refl, refl)
strchr_cases c (b ∷ bs) = elim (Bool-cases (b == c)) [
  | inl e ↦ inr ([], bs, rw e refl, ap (λ x. x ∷ bs) ((==_iff b c).0 e), refl)
  | inr e ↦ elim (strchr_cases c bs) [
    | inl (n, h) ↦ inl (rw (e, n) refl, rw (e, h) refl)
    | inr (front, back, found, parts, h) ↦
        inr (b ∷ front, back, rw (e, found) refl, ap (λ l. b ∷ l) parts, rw (e, h) refl)
  ]
]

parse_target_lem :
    (target user rest : List ℕ) {o : Option (List ℕ × List ℕ)}
    → strchr b'@' target ≡ some (user, rest)
    → strchr b':' rest ≡ o
    → parse_target target ≡ elim o [
      | none ↦ ok (record { user = user; host = rest; path = none })
      | some (host, path) ↦ ok (record { user = user; host = host; path = some path })
    ]
unfolding parse_target
parse_target_lem target user rest found found' = rw (found, parse_target, found') refl

parse_target-none : (target : List ℕ) → strchr b'@' target ≡ none → parse_target target ≡ fault
unfolding parse_target
parse_target-none target n = rw (n, parse_target) refl

parse_target-IsSplit :
    (target : List ℕ) (t : Target) → parse_target target ≡ ok t → IsSplit target t
parse_target-IsSplit target t h = elim (strchr_cases b'@' target) [
  | inl (n, none_there) ↦ cc (parse_target-none target n, h)
  | inr (user, rest, found, parts, hu) ↦ elim (strchr_cases b':' rest) [
    | inl (n, hh) ↦
        let e : record { user = user; host = rest; path = none } ≡ t =
          cc (parse_target_lem target user rest found n, h) in
        subst (IsSplit target) e (record { joined = parts; user_has_none = hu; host_has_none = hh })
    | inr (host, path, found', parts', hh) ↦
        let e : record { user = user; host = host; path = some path } ≡ t =
          cc (parse_target_lem target user rest found found', h) in
        subst (IsSplit target) e (record {
          joined = parts ∙ ap (λ l. user ++ b'@' ∷ l) parts';
          user_has_none = hu;
          host_has_none = hh;
        })
  ]
]

path_cases :
    (user host : List ℕ) (path : Option (List ℕ))
    → contains b'@' user ≡ false
    → contains b':' host ≡ false
    → parse_target (join (record { user = user; host = host; path = path }))
      ≡ ok (record { user = user; host = host; path = path })
path_cases user host none hu hh =
    parse_target_lem (user ++ b'@' ∷ host) user host (strchr-append b'@' user host hu)
      (strchr-none b':' host hh)
path_cases user host (some path) hu hh =
    parse_target_lem (user ++ b'@' ∷ (host ++ b':' ∷ path)) user (host ++ b':' ∷ path)
      (strchr-append b'@' user (host ++ b':' ∷ path) hu) (strchr-append b':' host path hh)

IsSplit-parse_target :
    (target : List ℕ) (t : Target) → IsSplit target t → parse_target target ≡ ok t
IsSplit-parse_target target t x =
    ap parse_target x.joined ∙ path_cases t.user t.host t.path x.user_has_none x.host_has_none

-- `parse_target` splits an argument into a user, a host and a path exactly if these parts, put
-- together with `@` and, where there is a path, a colon, are the argument, with no `@` in the user
-- and no colon in the host. So an argument without an `@` is never split.
pub parse_target_iff :
    (target : List ℕ) (t : Target) → (parse_target target ≡ ok t) ↔ IsSplit target t
parse_target_iff target t = (parse_target-IsSplit target t, IsSplit-parse_target target t)
