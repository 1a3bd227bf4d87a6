-- ===== src/Main/Options.antt =====
-- What the options are after any sequence of arguments.
use sftfs.Prelude.{
  ℕ, ◌≤◌, ◌≡◌, refl, sym, ap, subst, ◌∙◌, ◌↔◌, ◌≢◌, Bool, true, false, ◌||◌, not, Option, none,
  some, List, [], ◌∷◌, Run, ok, >>=_ok, if◌then◌else◌, ltb, drop, arith, some_inj, Option-cases,
  Bool-cases, inl, inr,
}
use sftfs.Target.{Target, parse_target}
use sftfs.Main.{
  SftfsOptions, ℤ, pos, negsuc, Number, port_of, is_empty, Key, key_port, key_help, key_nonopt,
  key_other, Verdict, refuse, keep, parse_port, process_port, process_target, process_ssh_options,
}

-- `opts.port = 22` on options that are else zero.
abbrev pub initial : SftfsOptions
initial = record {
  target_buffer = none;
  user = none;
  host = none;
  path = none;
  port = some 22;
  help = false;
}

module _ (strtol : List ℕ → Number) where
  -- Calls of `process_ssh_options` that are not refused lead from the first options to the second.
  pub data Parses : SftfsOptions → SftfsOptions → Type 0 where
    parsed : {o : SftfsOptions} → Parses o o
    argument :
        {o o₁ o' : SftfsOptions} (granted : Bool) (arg : List ℕ) (key : Key) (verdict : Verdict)
        → process_ssh_options strtol granted arg key o ≡ ok (verdict, o₁)
        → verdict ≢ refuse
        → Parses o₁ o'
        → Parses o o'

  -- The port is one that TCP has.
  abbrev pub HasPort : SftfsOptions → Type 0
  HasPort o = (p : ℕ) × (o.port ≡ some p) × (p ≤ 65535)

  -- A host is only ever there with the argument that it is a part of.
  abbrev pub HasTarget : SftfsOptions → Type 0
  HasTarget o =
      (host : List ℕ)
      → o.host ≡ some host
      → (arg : List ℕ) × (t : Target) × (o.target_buffer ≡ some arg)
        × (parse_target arg ≡ ok t)
        × (t.host ≡ host)
        × (o.user ≡ some t.user)

  port_of-bound : (z : ℤ) (p : ℕ) → port_of z ≡ some p → (z ≡ pos p) × (p ≤ 65535)
  unfolding port_of
  port_of-bound (negsuc n) p h = cc
  port_of-bound (pos n) p h = elim (Bool-cases (ltb 65535 n)) [
    | inl e ↦ let f = rw (e) at h in cc
    | inr e ↦
        let f : some n ≡ some p = rw (e) at h in
        let same = some_inj f in (ap pos same, ground arith)
  ]

  port_of_pos : (p : ℕ) → p ≤ 65535 → port_of (pos p) ≡ some p
  unfolding port_of
  port_of_pos p small = let e : ltb 65535 p ≡ false = ground arith in rw e

  parse_port-bound :
      (in_range : Bool) (rest : List ℕ) (z : ℤ) (p : ℕ)
      → (if not in_range || not (is_empty rest) then none else port_of z) ≡ some p
      → (in_range ≡ true) × (rest ≡ []) × (z ≡ pos p) × (p ≤ 65535)
  unfolding is_empty
  parse_port-bound false rest z p h = cc
  parse_port-bound true (b ∷ bs) z p h = cc
  parse_port-bound true [] z p h =
      let (value, small) = port_of-bound z p h in (refl, refl, value, small)

  -- A port is accepted exactly if the whole text is a number up to 65535.
  pub parse_port_iff :
      (arg : List ℕ) (p : ℕ)
      → (parse_port strtol arg ≡ some p) ↔ (
          ((strtol arg).in_range ≡ true)
          × ((strtol arg).rest ≡ [])
          × ((strtol arg).value ≡ pos p)
          × (p ≤ 65535))
  unfolding parse_port
  parse_port_iff arg p = (
    parse_port-bound _ _ _ p,
    λ (range, empty, value, small). rw (range, empty, value, is_empty, port_of_pos p small),
  )

  process_port-HasPort :
      (arg : List ℕ) (o o₁ : SftfsOptions) (v : Verdict)
      → process_port strtol arg o ≡ (v, o₁)
      → v ≢ refuse
      → HasPort o₁
  unfolding process_port
  process_port-HasPort arg o o₁ v e taken = elim (Option-cases (parse_port strtol (drop 2 arg))) [
    | inl n ↦ absurd (taken (let g = rw (n) at e in cc))
    | inr (p, f) ↦ (p, ap (λ r. r.1.port) (sym e) ∙ f, ((parse_port_iff (drop 2 arg) p).0 f).3)
  ]

  abbrev with_target : List ℕ → Target → SftfsOptions → SftfsOptions
  with_target arg t o = record o {
    target_buffer = some arg;
    user = some t.user;
    host = some t.host;
    path = elim t.path [ none ↦ o.path | some p ↦ some p ];
  }

  process_target-Keeps :
      (dup : Option (List ℕ)) (o o₁ : SftfsOptions) (v : Verdict)
      → process_target strtol dup o ≡ ok (v, o₁)
      → (o₁.port ≡ o.port) × HasTarget o₁
  unfolding process_target
  process_target-Keeps none o o₁ v e = cc
  process_target-Keeps (some arg) o o₁ v e =
      let (t, f, g) = >>=_ok (parse_target arg) e in
      let same : (with_target arg t o) ≡ o₁ = cc in
      subst (λ q. (q.port ≡ o.port) × HasTarget q) same
        (refl, λ host h. (arg, t, refl, f, some_inj h, refl))

  -- The port and the target as every argument leaves them.
  abbrev pub IsUsable : SftfsOptions → Type 0
  IsUsable o = HasPort o × HasTarget o

  nonopt-IsUsable :
      (granted : Bool) (arg : List ℕ) (v : Verdict) (o o₁ : SftfsOptions) (buffer : Option (List ℕ))
      → (elim buffer as (λ _. Run (Verdict × SftfsOptions)) [
        | some b ↦ ok (keep, o)
        | none ↦ process_target strtol (if granted then some arg else none) o
      ])
        ≡ ok (v, o₁)
      → IsUsable o
      → IsUsable o₁
  nonopt-IsUsable granted arg v o o₁ (some b) e h = let same : o ≡ o₁ = cc in subst IsUsable same h
  nonopt-IsUsable granted arg v o o₁ none e ((p, is, small), target) =
      let (same, has) = process_target-Keeps (if granted then some arg else none) o o₁ v e in
      ((p, same ∙ is, small), has)

  process-IsUsable :
      (granted : Bool) (arg : List ℕ) (key : Key) (v : Verdict) (o o₁ : SftfsOptions)
      → process_ssh_options strtol granted arg key o ≡ ok (v, o₁)
      → v ≢ refuse
      → IsUsable o
      → IsUsable o₁
  unfolding process_ssh_options process_port
  process-IsUsable granted arg key_port v o o₁ e taken (port, target) =
      let f : process_port strtol arg o ≡ (v, o₁) = cc in
      let same : record o { port = parse_port strtol (drop 2 arg) } ≡ o₁ = ap (λ r. r.1) f in
      (process_port-HasPort arg o o₁ v f taken, subst HasTarget same target)
  process-IsUsable granted arg key_nonopt v o o₁ e taken h =
      nonopt-IsUsable granted arg v o o₁ o.target_buffer e h
  process-IsUsable granted arg key_help v o o₁ e taken h =
      let same : record o { help = true } ≡ o₁ = cc in subst IsUsable same h
  process-IsUsable granted arg key_other v o o₁ e taken h =
      let same : o ≡ o₁ = cc in subst IsUsable same h

  -- Whatever the arguments, options that were not refused have a port below 2 ^ 16, and a host only
  -- as a part of an argument that was split.
  pub Parses-IsUsable : {o o' : SftfsOptions} → Parses o o' → IsUsable o → IsUsable o'
  Parses-IsUsable parsed h = h
  Parses-IsUsable (argument granted arg key v e taken more) h =
      Parses-IsUsable more (process-IsUsable granted arg key v _ _ e taken h)
