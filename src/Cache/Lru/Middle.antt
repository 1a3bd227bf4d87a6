-- ===== src/Cache/Lru/Middle.antt =====
-- `sftfs_cache_list_remove` and `sftfs_cache_list_refresh`: a node leaves from anywhere in the list.
use mathlib.Core.Bool.{false≢true}
use sftfs.Prelude.{
  ℕ, ◌-◌, ◌≡◌, refl, ap, sym, subst, ◌∙◌, true, false, List, [], ◌∷◌, ◌++◌, inl, inr, arith,
  if◌then◌else◌, ◌==◌, ==_iff, ==_refl, length, length-append, Bool-cases, Returns,
}
use sftfs.Cache.Lru.{
  CacheList, lru_without, mru_without, Store, State, null, bypass, reset_node, remove, refresh,
  insert,
}
use sftfs.Cache.Lru.Seg.{
  not_equal, has, first, last, Linked, IsList, Detached, Linked-append, append-Linked, here, there,
  not-has-append_left, not-has-append_right, not-has-append,
}
use sftfs.Cache.Lru.Ends.{
  relink_front, relink_back, not_has_other, not_null, has-last, TakenOff, PutLast, insert-PutLast,
}

-- A node of the list between the addresses `a` and `b`, either of which may be NULL.
module _ (m : Store) (p a b : ℕ) (prev : (m p).prev ≡ a) (next : (m p).next ≡ b)
    (before : (p == a) ≡ false) (behind : (p == b) ≡ false) where
  bypass_self : ((bypass m p p).prev ≡ a) × ((bypass m p p).next ≡ b)
  unfolding bypass
  bypass_self = elim (Bool-cases (a == null)) [
    | inl e ↦ (ground arith, ground arith)
    | inr e ↦ (ground arith, ground arith)
  ]

  module _ (q : ℕ) (other : (q == p) ≡ false) (real : (q == null) ≡ false) where
    remove_next : (reset_node (bypass m p) p q).next ≡ (if q == a then b else (m q).next)
    unfolding bypass reset_node
    remove_next = ground arith

    remove_prev : (reset_node (bypass m p) p q).prev ≡ (if q == b then a else (m q).prev)
    unfolding bypass reset_node
    remove_prev = ground arith

  remove_time : (q : ℕ) → (q == p) ≡ false → (reset_node (bypass m p) p q).mod_time ≡ (m q).mod_time
  unfolding bypass reset_node
  remove_time q other = ground arith

  remove_outside :
      (q : ℕ)
      → (q == p) ≡ false
      → (q == a) ≡ false
      → (q == b) ≡ false
      → reset_node (bypass m p) p q ≡ m q
  unfolding bypass reset_node
  remove_outside q other na nb = ground arith

append-nil-last : (xs : List ℕ) (d : ℕ) → last (xs ++ []) d ≡ last xs d
append-nil-last [] d = refl
append-nil-last (x ∷ xs) d = append-nil-last xs x

last-append_cons : (xs : List ℕ) (p : ℕ) (ys : List ℕ) (d : ℕ) → last (xs ++ p ∷ ys) d ≡ last ys p
last-append_cons [] p ys d = refl
last-append_cons (x ∷ xs) p ys d = last-append_cons xs p ys x

first-apart :
    (q : ℕ) (ys : List ℕ) → has q ys ≡ false → (q == null) ≡ false → (q == first ys null) ≡ false
first-apart q [] out real = real
first-apart q (y ∷ ys) out real = ground arith

last-apart :
    (q : ℕ) (xs : List ℕ) → has q xs ≡ false → (q == null) ≡ false → (q == last xs null) ≡ false
last-apart q [] out real = real
last-apart q (x ∷ xs) out real = not_equal q (last xs x) (x ∷ xs) out (has-last x xs)

Linked-apart :
    (m : Store) (before : ℕ) (xs ys : List ℕ) (after : ℕ)
    → Linked m before (xs ++ ys) after
    → (q : ℕ) → has q xs ≡ true
    → has q ys ≡ false
Linked-apart m before [] ys after l q h = cc
Linked-apart m before (x ∷ xs) ys after (a, b, c, d, e) q h = elim (Bool-cases (q == x)) [
  | inl same ↦
      subst (λ k. has k ys ≡ false) (sym ((==_iff q x).0 same)) (not-has-append_right x xs ys d)
  | inr other ↦ Linked-apart m x xs ys after e q (ground arith)
]

-- A list with the node `p` between `xs` and `ys`.
module _ (m : Store) (xs : List ℕ) (p : ℕ) (ys : List ℕ)
    (l : Linked m null (xs ++ p ∷ ys) null) where
  -- What the links say of the three parts.
  pub record Parts : Type 0 where
    front : Linked m null xs p
    back : Linked m p ys null
    pub real : (p == null) ≡ false
    prev : (m p).prev ≡ last xs null
    next : (m p).next ≡ first ys null
    pub not_front : has p xs ≡ false
    pub not_back : has p ys ≡ false
    apart : (q : ℕ) → has q xs ≡ true → has q ys ≡ false

  pub parts : Parts
  parts =
      let (front, back) = Linked-append m null xs (p ∷ ys) null l in
      let (a, b, c, d, e) = back in
      let apart = Linked-apart m null xs (p ∷ ys) null l in
      record {
        front = front;
        back = e;
        real = ground arith;
        prev = b;
        next = c;
        not_front = elim (Bool-cases (has p xs)) [
          | inr out ↦ out
          | inl is ↦ absurd (false≢true (sym (apart p is) ∙ here p ys))
        ];
        not_back = d;
        apart = λ q h. ground (arith, apart q h);
      }

-- The segments before and behind the node, after it was taken out.
module _ (m m' : Store) (p : ℕ) (xs ys : List ℕ)
    (nexts : (q : ℕ)
      → (q == p) ≡ false
      → (q == null) ≡ false
      → (m' q).next ≡ (if q == last xs null then first ys null else (m q).next))
    (prevs : (q : ℕ)
      → (q == p) ≡ false
      → (q == null) ≡ false
      → (m' q).prev ≡ (if q == first ys null then last xs null else (m q).prev))
    (outside : (q : ℕ)
      → (q == p) ≡ false
      → (q == last xs null) ≡ false
      → (q == first ys null) ≡ false
      → m' q ≡ m q)
    (apart : (q : ℕ) → has q xs ≡ true → has q ys ≡ false) where
  real_of :
      (before after q : ℕ) (zs : List ℕ)
      → Linked m before zs after
      → has q zs ≡ true
      → (q == null) ≡ false
  real_of before after q zs l h = let z = not_null m before zs after q l h in ground arith

  apart_back : (q : ℕ) → has q ys ≡ true → has q xs ≡ false
  apart_back q h = elim (Bool-cases (has q xs)) [
    | inr out ↦ out
    | inl is ↦ absurd (false≢true (sym (apart q is) ∙ h))
  ]

  joined_front :
      (before : ℕ) (zs : List ℕ)
      → xs ≡ zs
      → Linked m before zs p
      → has p zs ≡ false
      → Linked m' before zs (first ys null)
  joined_front before [] e l out = tt
  joined_front before (x ∷ zs) e l out =
      let other = λ (q : ℕ) (h : has q (x ∷ zs) ≡ true). not_has_other p q (x ∷ zs) out h in
      let real = λ (q : ℕ) (h : has q (x ∷ zs) ≡ true). real_of before p q (x ∷ zs) l h in
      let end = ap (λ l. last l null) e in
      let z = last zs x in
      let h = has-last x zs in
      relink_back m m' before x zs p (first ys null) l
        (λ q h.
          prevs q (other q h) (real q h) ∙ rw (first-apart q ys (apart q (rw e h)) (real q h)))
        (λ q h k. nexts q (other q h) (real q h) ∙ rw (end, k))
        (nexts z (other z h) (real z h) ∙ rw (end, ==_refl z))

  joined_back :
      (zs : List ℕ) (after : ℕ)
      → ys ≡ zs
      → Linked m p zs after
      → has p zs ≡ false
      → Linked m' (last xs null) zs after
  joined_back [] after e l out = tt
  joined_back (y ∷ zs) after e l out =
      let (a, b, c, d, f) = l in
      let other = λ (q : ℕ) (h : has q (y ∷ zs) ≡ true). not_has_other p q (y ∷ zs) out h in
      let real = λ (q : ℕ) (h : has q (y ∷ zs) ≡ true). real_of p after q (y ∷ zs) l h in
      let start = ap (λ l. first l null) e in
      let off =
        λ (q : ℕ) (h : has q (y ∷ zs) ≡ true). last-apart q xs (apart_back q (rw e h)) (real q h) in
      let hy = here y zs in
      relink_front m m' p (last xs null) y zs after l
        (prevs y (other y hy) (real y hy) ∙ rw (start, ==_refl y))
        (nexts y (other y hy) (real y hy) ∙ rw (off y hy))
        (λ q h.
          outside q (other q (there q y zs h)) (off q (there q y zs h))
            (rw start (not_has_other y q zs d h)))

lru_without-first :
    (l : CacheList) (m : Store) (p : ℕ) (xs ys : List ℕ)
    → l.lru ≡ first (xs ++ p ∷ ys) null
    → l.mru ≡ last (xs ++ p ∷ ys) null
    → has p xs ≡ false
    → has p ys ≡ false
    → (m p).next ≡ first ys null
    → lru_without l m p ≡ first (xs ++ ys) null
unfolding lru_without
lru_without-first l m p [] [] lru mru out out' next = ground arith
lru_without-first l m p [] (y ∷ ys) lru mru out out' next =
    let other = not_has_other p (last ys y) (y ∷ ys) out' (has-last y ys) in ground arith
lru_without-first l m p (x ∷ xs) ys lru mru out out' next = ground arith

mru_without-last :
    (l : CacheList) (m : Store) (p : ℕ) (xs ys : List ℕ)
    → l.lru ≡ first (xs ++ p ∷ ys) null
    → l.mru ≡ last (xs ++ p ∷ ys) null
    → has p xs ≡ false
    → has p ys ≡ false
    → (m p).prev ≡ last xs null
    → mru_without l m p ≡ last (xs ++ ys) null
unfolding mru_without
mru_without-last l m p [] [] lru mru out out' prev = ground arith
mru_without-last l m p (x ∷ xs) [] lru mru out out' prev =
    ground (arith, last-append_cons xs p [] x, append-nil-last xs x)
mru_without-last l m p xs (y ∷ ys) lru mru out out' prev =
    let other = not_has_other p (last ys y) (y ∷ ys) out' (has-last y ys) in
    ground (arith, last-append_cons xs p (y ∷ ys) null, last-append_cons xs y ys null)

reset_node-Detached : (m : Store) (p : ℕ) → Detached (reset_node m p) p
unfolding reset_node
reset_node-Detached m p = (ground arith, ground arith)

not_empty :
    (n : ℕ) (xs : List ℕ) (p : ℕ) (ys : List ℕ) → n ≡ length (xs ++ p ∷ ys) → (n == 0) ≡ false
not_empty n [] p ys h = ground arith
not_empty n (x ∷ xs) p ys h = ground arith

-- Removing a node takes it off the list, wherever it stands in it: the others stay in their order and
-- keep their times, and the node is linked to nothing.
pub remove-TakenOff :
    (s : State) (p : ℕ) (xs ys : List ℕ)
    → IsList s (xs ++ p ∷ ys)
    → Returns (remove s p) (TakenOff s p (xs ++ ys))
unfolding remove
remove-TakenOff s p xs ys l =
    let m = s.nodes in
    let m' = reset_node (bypass m p) p in
    let t = parts m xs p ys l.links in
    let na = last-apart p xs t.not_front t.real in
    let nb = first-apart p ys t.not_back t.real in
    let a = last xs null in
    let b = first ys null in
    let filled : (s.list.nr_nodes == 0) ≡ false = not_empty s.list.nr_nodes xs p ys l.counted in
    let nexts = remove_next m p a b t.prev t.next na nb in
    let prevs = remove_prev m p a b t.prev t.next na nb in
    let outside = remove_outside m p a b t.prev t.next na nb in
    let self = bypass_self m p a b t.prev t.next na nb in
    let links : Linked m' null (xs ++ ys) null =
      append-Linked m' null xs ys null
        (joined_front m m' p xs ys nexts prevs outside t.apart null xs refl t.front t.not_front)
        (joined_back m m' p xs ys nexts prevs outside t.apart ys null refl t.back t.not_back)
        t.apart in
    let s' : State = record {
      list = record s.list {
        lru = lru_without s.list (bypass m p) p;
        mru = mru_without s.list (bypass m p) p;
        nr_nodes = s.list.nr_nodes - 1;
      };
      nodes = m';
    } in
    (
      s',
      rw filled,
      record {
        rest = record {
          head =
              lru_without-first s.list (bypass m p) p xs ys l.head l.tail t.not_front t.not_back
                self.1;
          tail =
              mru_without-last s.list (bypass m p) p xs ys l.head l.tail t.not_front t.not_back
                self.0;
          links = links;
          counted = omega (arith, l.counted, length-append xs (p ∷ ys), length-append xs ys);
        };
        detached = reset_node-Detached (bypass m p) p;
        same_ttl = refl;
        same_times = remove_time m p a b t.prev t.next na nb;
        outside = λ q out other real.
            outside q other (last-apart q xs (not-has-append_left q xs ys out) real)
              (first-apart q ys (not-has-append_right q xs ys out) real);
      },
    )

-- Refreshing a node moves it to the recent end, with the time of the clock; the others stay in their
-- order and keep their times.
pub refresh-PutLast :
    (now : ℕ) (s : State) (p : ℕ) (xs ys : List ℕ)
    → IsList s (xs ++ p ∷ ys)
    → Returns (refresh now s p) (PutLast now s p (xs ++ ys))
unfolding refresh
refresh-PutLast now s p xs ys l =
    let t = parts s.nodes xs p ys l.links in
    let (s', run, off) = remove-TakenOff s p xs ys l in
    let out = not-has-append p xs ys t.not_front t.not_back in
    let put =
      insert-PutLast now s' p (xs ++ ys) off.rest (λ e. absurd (false≢true (sym t.real ∙ rw e)))
        out in
    (
      insert now s' p,
      rw run,
      record {
        longer = put.longer;
        same_ttl = put.same_ttl ∙ off.same_ttl;
        time = put.time;
        same_times = λ q other. put.same_times q other ∙ off.same_times q other;
        outside = λ q out other real. put.outside q out other real ∙ off.outside q out other real;
      },
    )
