-- ===== src/Cache/Lru/Queue.antt =====
-- The list as a queue of addresses with the times at which they were put there: what cache/list.c
-- implements.
use mathlib.Core.List.{map-append}
use sftfs.Prelude.{
  ℕ, ◌+◌, ◌%◌, ◌≡◌, ◌≢◌, refl, ap, ap₂, sym, subst, ◌∙◌, true, false, Option, none, some, List, [],
  ◌∷◌, ◌++◌, inl, inr, arith, if◌then◌else◌, ◌==◌, ==_iff, ltb, map, All, Bool-cases, Returns, Run,
  ok, ◌>>=◌, word,
}
use sftfs.Cache.Lru.{Store, State, null, insert, remove, refresh, lru_invalid, evict_invalid_lru}
use sftfs.Cache.Lru.Seg.{IsList, has, not-has-append}
use sftfs.Cache.Lru.Ends.{PutLast, insert-PutLast, evict_invalid_lru_cases}
use sftfs.Cache.Lru.Middle.{parts, remove-TakenOff, refresh-PutLast}

abbrev pub Queue : Type 0
Queue = List (ℕ × ℕ)

abbrev pub addresses : Queue → List ℕ
addresses q = map (λ e. e.0) q

-- The queue without the first element at the address.
unfoldable pub without : ℕ → Queue → Queue
without p [] = []
without p (e ∷ q) = if p == e.0 then q else e ∷ without p q

pub data Op : Type 0 where
  insert_op : (now p : ℕ) → Op
  remove_op : (p : ℕ) → Op
  refresh_op : (now p : ℕ) → Op
  evict_op : (now : ℕ) → Op

unfoldable pub evict_spec : (ttl now : ℕ) → Queue → Option ℕ × Queue
evict_spec ttl now [] = (none, [])
evict_spec ttl now (e ∷ q) = if ltb ((e.1 + ttl) % word) now then (some e.0, q) else (none, e ∷ q)

-- The queue's answer to an operation, and what becomes of it.
unfoldable pub spec : (ttl : ℕ) → Op → Queue → Option ℕ × Queue
unfolding without evict_spec
spec ttl (insert_op now p) q = (none, q ++ (p, now) ∷ [])
spec ttl (remove_op p) q = (none, without p q)
spec ttl (refresh_op now p) q = (none, without p q ++ (p, now) ∷ [])
spec ttl (evict_op now) q = evict_spec ttl now q

-- What cache/list.c does.
unfoldable pub perform : Op → State → Run (Option ℕ × State)
perform (insert_op now p) s = ok (none, insert now s p)
perform (remove_op p) s = remove s p >>= λ s'. ok (none, s')
perform (refresh_op now p) s = refresh now s p >>= λ s'. ok (none, s')
perform (evict_op now) s = evict_invalid_lru now s

-- A node is inserted that is not on the list, and removed or refreshed where it is.
abbrev pub Admits : Op → Queue → Type 0
Admits (insert_op now p) q = (p ≢ null) × (has p (addresses q) ≡ false)
Admits (remove_op p) q = has p (addresses q) ≡ true
Admits (refresh_op now p) q = has p (addresses q) ≡ true
Admits (evict_op now) q = Unit {0}

nil-ne-cons : {x : ℕ} {xs : List ℕ} → ¬ ([] ≡ x ∷ xs)
nil-ne-cons h = cc

cons_inj : {x y : ℕ} {xs ys : List ℕ} → x ∷ xs ≡ y ∷ ys → (x ≡ y) × (xs ≡ ys)
cons_inj h = (cc, cc)

abbrev Timed : Store → Queue → Type 0
Timed m q = All (λ e. (m e.0).mod_time ≡ e.1) q

pub record Represents (ttl : ℕ) (s : State) (q : Queue) : Type 0 where
  pub list : IsList s (addresses q)
  pub timed : Timed s.nodes q
  pub same_ttl : s.list.ttl ≡ ttl

Timed-frame :
    (m m' : Store) (p : ℕ) (q : Queue)
    → has p (addresses q) ≡ false
    → ((r : ℕ) → (r == p) ≡ false → (m' r).mod_time ≡ (m r).mod_time)
    → Timed m q
    → Timed m' q
Timed-frame m m' p [] out same t = tt
Timed-frame m m' p (e ∷ q) out same t =
    (same e.0 (ground arith) ∙ t.0, Timed-frame m m' p q (ground arith) same t.1)

Timed-append : (m : Store) (q r : Queue) → Timed m q → Timed m r → Timed m (q ++ r)
Timed-append m [] r t u = u
Timed-append m (e ∷ q) r t u = (t.0, Timed-append m q r t.1 u)

-- An element of the queue, with those before and behind it.
record Place (p : ℕ) (q : Queue) : Type 0 where
  front : List ℕ
  back : List ℕ
  split : addresses q ≡ front ++ p ∷ back
  left : addresses (without p q) ≡ front ++ back

place : (p : ℕ) (q : Queue) → has p (addresses q) ≡ true → Place p q
unfolding without
place p [] h = cc
place p (e ∷ q) h = elim (Bool-cases (p == e.0)) [
  | inl same ↦ record {
    front = [];
    back = addresses q;
    split = ap (λ a. a ∷ addresses q) (sym ((==_iff p e.0).0 same));
    left = rw same;
  }
  | inr other ↦
      let r = place p q (ground arith) in
      record {
        front = e.0 ∷ r.front;
        back = r.back;
        split = ap (λ l. e.0 ∷ l) r.split;
        left = rw other (ap (λ l. e.0 ∷ l) r.left);
      }
]

Timed-without :
    (m m' : Store) (p : ℕ) (q : Queue)
    → has p (addresses (without p q)) ≡ false
    → ((r : ℕ) → (r == p) ≡ false → (m' r).mod_time ≡ (m r).mod_time)
    → Timed m q
    → Timed m' (without p q)
unfolding without
Timed-without m m' p [] out same t = tt
Timed-without m m' p (e ∷ q) out same t = elim (Bool-cases (p == e.0)) [
  | inl found ↦ rw found (Timed-frame m m' p q (rw found at out) same t.1)
  | inr other ↦
      let out' = rw other at out in
      rw other (same e.0 (ground arith) ∙ t.0, Timed-without m m' p q (ground arith) same t.1)
]

-- The address that leaves the queue is not in the rest.
left_once :
    (s : State) (p : ℕ) (q : Queue) (k : Place p q)
    → IsList s (addresses q)
    → has p (addresses (without p q)) ≡ false
left_once s p q k l =
    let t = parts s.nodes k.front p k.back (subst (IsList s) k.split l).links in
    rw k.left (not-has-append p k.front k.back t.not_front t.not_back)

abbrev pub Answers : (ttl : ℕ) → Op → Queue → Option ℕ × State → Type 0
Answers ttl op q r = (r.0 ≡ (spec ttl op q).0) × Represents ttl r.1 (spec ttl op q).1

put-Represents :
    (ttl now : ℕ) (s s' : State) (p : ℕ) (q : Queue) (xs : List ℕ)
    → addresses q ≡ xs
    → has p xs ≡ false
    → PutLast now s p xs s'
    → s.list.ttl ≡ ttl
    → Timed s'.nodes q
    → Represents ttl s' (q ++ (p, now) ∷ [])
put-Represents ttl now s s' p q xs e out put ttl_is timed = record {
  list =
      subst (IsList s')
        (ap (λ l. l ++ p ∷ []) (sym e) ∙ sym (map-append (λ e. e.0) q ((p, now) ∷ []))) put.longer;
  timed = Timed-append s'.nodes q ((p, now) ∷ []) timed (put.time, tt);
  same_ttl = put.same_ttl ∙ ttl_is;
}

lru_invalid-time :
    (ttl now : ℕ) (s : State) (e : ℕ × ℕ) (q : Queue)
    → Represents ttl s (e ∷ q)
    → lru_invalid now s ≡ ltb ((e.1 + ttl) % word) now
unfolding lru_invalid
lru_invalid-time ttl now s e q r =
    ap (λ k. ltb (((s.nodes k).mod_time + s.list.ttl) % word) now) r.list.head
    ∙ ap (λ k. ltb ((k + s.list.ttl) % word) now) r.timed.0
    ∙ ap (λ k. ltb ((e.1 + k) % word) now) r.same_ttl

evict-Answers :
    (ttl now : ℕ) (s : State) (q : Queue)
    → Represents ttl s q
    → Returns (evict_invalid_lru now s) (Answers ttl (evict_op now) q)
unfolding spec evict_spec
evict-Answers ttl now s [] r =
    let (o, run, cases) = evict_invalid_lru_cases now s [] r.list in
    elim cases [
      | inl (e, why) ↦ ((none, s), run ∙ ap ok e, (refl, r))
      | inr (p, ys, xe, _, _, _) ↦ absurd (nil-ne-cons xe)
    ]
evict-Answers ttl now s (e ∷ q) r =
    let (o, run, cases) = evict_invalid_lru_cases now s (addresses (e ∷ q)) r.list in
    let expired = lru_invalid-time ttl now s e q r in
    elim cases [
      | inl (eq, inl none_left) ↦ absurd (nil-ne-cons (sym none_left))
      | inl (eq, inr keep) ↦
          let late = sym expired ∙ keep in ((none, s), run ∙ ap ok eq, rw late (refl, r))
      | inr (p, ys, xe, old, took, off) ↦
          let late = sym expired ∙ old in
          let (h, t) = cons_inj xe in
          let (_, _, _, once, _) = r.list.links in
          (
            o,
            run,
            rw late (
              took ∙ ap some (sym h),
              record {
                list = subst (IsList o.1) (sym t) off.rest;
                timed =
                    Timed-frame s.nodes o.1.nodes p q
                      (subst (λ k. has k (addresses q) ≡ false) h once) off.same_times r.timed.1;
                same_ttl = off.same_ttl ∙ r.same_ttl;
              },
            ),
          )
    ]

perform-Answers :
    (ttl : ℕ) (op : Op) (s : State) (q : Queue)
    → Represents ttl s q
    → Admits op q
    → Returns (perform op s) (Answers ttl op q)
unfolding perform spec
perform-Answers ttl (insert_op now p) s q r (ne, out) =
    let put = insert-PutLast now s p (addresses q) r.list ne out in
    (
      (none, insert now s p),
      refl,
      (
        refl,
        put-Represents ttl now s (insert now s p) p q (addresses q) refl out put r.same_ttl
            (Timed-frame s.nodes (insert now s p).nodes p q out put.same_times r.timed),
      ),
    )
perform-Answers ttl (remove_op p) s q r h =
    let k = place p q h in
    let (s', run, off) = remove-TakenOff s p k.front k.back (subst (IsList s) k.split r.list) in
    (
      (none, s'),
      rw run,
      (
        refl,
        record {
          list = subst (IsList s') (sym k.left) off.rest;
          timed =
              Timed-without s.nodes s'.nodes p q (left_once s p q k r.list) off.same_times r.timed;
          same_ttl = off.same_ttl ∙ r.same_ttl;
        },
      ),
    )
perform-Answers ttl (refresh_op now p) s q r h =
    let k = place p q h in
    let (s', run, put) = refresh-PutLast now s p k.front k.back (subst (IsList s) k.split r.list) in
    let out = left_once s p q k r.list in
    (
      (none, s'),
      rw run,
      (
        refl,
        put-Represents ttl now s s' p (without p q) (k.front ++ k.back) k.left (rw k.left at out)
            put r.same_ttl (Timed-without s.nodes s'.nodes p q out put.same_times r.timed),
      ),
    )
perform-Answers ttl (evict_op now) s q r h = evict-Answers ttl now s q r

unfoldable pub perform_all : List Op → State → Run (List (Option ℕ) × State)
unfolding perform
perform_all [] s = ok ([], s)
perform_all (op ∷ ops) s =
    perform op s >>= λ r. perform_all ops r.1 >>= λ rest. ok (r.0 ∷ rest.0, rest.1)

unfoldable pub spec_all : (ttl : ℕ) → List Op → Queue → List (Option ℕ) × Queue
unfolding spec
spec_all ttl [] q = ([], q)
spec_all ttl (op ∷ ops) q =
    let rest = spec_all ttl ops (spec ttl op q).1 in ((spec ttl op q).0 ∷ rest.0, rest.1)

-- Each operation is admitted by the queue that those before it leave.
abbrev pub AdmitsAll : (ttl : ℕ) → List Op → Queue → Type 0
AdmitsAll ttl [] q = Unit {0}
AdmitsAll ttl (op ∷ ops) q = Admits op q × AdmitsAll ttl ops (spec ttl op q).1

-- cache/list.c implements a queue of addresses with times: from a list that stands for a queue, any
-- sequence of operations that the queue admits runs without a fault and gives the answers of the
-- queue, and the list stands for the queue afterwards.
pub perform_all-Represents :
    (ttl : ℕ) (ops : List Op) (s : State) (q : Queue)
    → Represents ttl s q
    → AdmitsAll ttl ops q
    → Returns
        (perform_all ops s)
        λ r. (r.0 ≡ (spec_all ttl ops q).0) × Represents ttl r.1 (spec_all ttl ops q).1
unfolding perform_all spec_all
perform_all-Represents ttl [] s q r h = (([], s), refl, (refl, r))
perform_all-Represents ttl (op ∷ ops) s q r h =
    let (o, run, a) = perform-Answers ttl op s q r h.0 in
    let (o', run', b) = perform_all-Represents ttl ops o.1 (spec ttl op q).1 a.1 h.1 in
    ((o.0 ∷ o'.0, o'.1), rw (run, run'), (ap₂ (λ x l. x ∷ l) a.0 b.0, b.1))
