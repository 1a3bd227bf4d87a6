-- ===== src/Cache/Lru/Ends.antt =====
-- `sftfs_cache_list_insert` and `sftfs_cache_list_evict_invalid_lru`: the two ends of the list.
use sftfs.Prelude.{
  ℕ, ◌≡◌, ◌≢◌, refl, ap, sym, ◌∙◌, true, false, none, some, List, [], ◌∷◌, ◌++◌, ◌⊎◌, inl, inr,
  arith, if◌then◌else◌, ◌==◌, ==_iff, ==_refl, length-append, Bool-cases, Returns,
}
use sftfs.Cache.Lru.{
  Store, State, null, reset_node, insert, empty, unlink_lru, lru_invalid, evict_lru,
  evict_invalid_lru,
}
use sftfs.Cache.Lru.Seg.{
  not_equal, has, last, Linked, IsList, Detached, Linked-frame, append-Linked, here, there,
}

-- The first node of a segment gets another predecessor.
pub relink_front :
    (m m' : Store) (before before' p : ℕ) (xs : List ℕ) (after : ℕ)
    → Linked m before (p ∷ xs) after
    → (m' p).prev ≡ before'
    → (m' p).next ≡ (m p).next
    → ((q : ℕ) → has q xs ≡ true → m' q ≡ m q)
    → Linked m' before' (p ∷ xs) after
relink_front m m' before before' p xs after (a, b, c, d, e) front next same =
    (a, front, next ∙ c, d, Linked-frame m m' p xs after same e)

-- The outcome of taking the address `p` off the list: the addresses `xs` are left, `p` is linked to
-- nothing, no other node has another time, and the nodes off the list are as they were.
pub record TakenOff (s : State) (p : ℕ) (xs : List ℕ) (s' : State) : Type 0 where
  pub rest : IsList s' xs
  pub detached : Detached s'.nodes p
  pub same_ttl : s'.list.ttl ≡ s.list.ttl
  pub same_times : (q : ℕ) → (q == p) ≡ false → (s'.nodes q).mod_time ≡ (s.nodes q).mod_time
  pub outside :
      (q : ℕ) → has q xs ≡ false → (q == p) ≡ false → (q == null) ≡ false → s'.nodes q ≡ s.nodes q

unlink_lru-TakenOff :
    (s : State) (p : ℕ) (xs : List ℕ) → IsList s (p ∷ xs) → TakenOff s p xs (unlink_lru s)
unfolding unlink_lru reset_node
unlink_lru-TakenOff s p [] l =
    let (a, b, c, d, e) = l.links in
    let at = l.head in
    let next : (s.nodes s.list.lru).next ≡ null = ap (λ k. (s.nodes k).next) at ∙ c in
    record {
      rest = record { head = next; tail = rw next; links = tt; counted = omega (arith, l.counted) };
      detached = (ground arith, ground arith);
      same_ttl = refl;
      same_times = λ q ne. ground arith;
      outside = λ q out ne real. ground arith;
    }
unlink_lru-TakenOff s p (q ∷ xs) l =
    let (a, b, c, d, e) = l.links in
    let (a', b', c', d', e') = e in
    let at = l.head in
    let next : (s.nodes s.list.lru).next ≡ q = ap (λ k. (s.nodes k).next) at ∙ c in
    let some_next : (q == null) ≡ false = ground arith in
    let other : (p == q) ≡ false = not_equal p q (q ∷ xs) d (here q xs) in
    record {
      rest = record {
        head = next;
        tail = rw (next, some_next) l.tail;
        links =
            relink_front s.nodes (unlink_lru s).nodes p null q xs null e (ground arith)
              (ground arith)
              (λ r h.
                let x = not_equal p r (q ∷ xs) d (there r q xs h) in
                let y = not_equal q r xs d' h in ground arith);
        counted = omega (arith, l.counted);
      };
      detached = (ground arith, ground arith);
      same_ttl = refl;
      same_times = λ r ne. ground arith;
      outside = λ r out ne real. ground arith;
    }

-- Where the least recently used node has outlived the time to live, it is taken off the list and
-- returned. Otherwise, and from an empty list, NULL is returned and nothing changes.
pub evict_invalid_lru_cases :
    (now : ℕ) (s : State) (xs : List ℕ)
    → IsList s xs
    → Returns (evict_invalid_lru now s) λ r.
      ((r ≡ (none, s)) × ((xs ≡ []) ⊎ (lru_invalid now s ≡ false)))
      ⊎ ((p : ℕ) × (ys : List ℕ) × (xs ≡ p ∷ ys)
          × (lru_invalid now s ≡ true)
          × (r.0 ≡ some p)
          × TakenOff s p ys r.1)
unfolding evict_invalid_lru empty evict_lru
evict_invalid_lru_cases now s [] l = ((none, s), rw l.head, inl (refl, inl refl))
evict_invalid_lru_cases now s (p ∷ ys) l =
    let (a, b, c, d, e) = l.links in
    let lru : (s.list.lru == null) ≡ false = ground arith in
    let filled : (s.list.nr_nodes == 0) ≡ false = ground (arith, l.counted) in
    elim (Bool-cases (lru_invalid now s)) [
      | inr keep ↦ ((none, s), rw (lru, keep), inl (refl, inr keep))
      | inl old ↦ (
        (some s.list.lru, unlink_lru s),
        rw (lru, old, filled),
        inr (p, ys, refl, old, ap some l.head, unlink_lru-TakenOff s p ys l),
      )
    ]

pub has-last : (p : ℕ) (xs : List ℕ) → has (last xs p) (p ∷ xs) ≡ true
has-last p [] = here p []
has-last p (q ∷ xs) = there (last xs q) p (q ∷ xs) (has-last q xs)

-- The last node of a segment gets another successor.
pub relink_back :
    (m m' : Store) (before : ℕ) (p : ℕ) (xs : List ℕ) (after after' : ℕ)
    → Linked m before (p ∷ xs) after
    → ((q : ℕ) → has q (p ∷ xs) ≡ true → (m' q).prev ≡ (m q).prev)
    → ((q : ℕ) → has q (p ∷ xs) ≡ true → (q == last xs p) ≡ false → (m' q).next ≡ (m q).next)
    → (m' (last xs p)).next ≡ after'
    → Linked m' before (p ∷ xs) after'
relink_back m m' before p [] after after' (a, b, c, d, e) prevs nexts end =
    (a, prevs p (here p []) ∙ b, end, d, tt)
relink_back m m' before p (q ∷ xs) after after' (a, b, c, d, e) prevs nexts end = (
  a,
  prevs p (here p (q ∷ xs)) ∙ b,
  nexts p (here p (q ∷ xs)) (not_equal p (last xs q) (q ∷ xs) d (has-last q xs)) ∙ c,
  d,
  relink_back m m' p q xs after after' e (λ r h. prevs r (there r p (q ∷ xs) h))
      (λ r h. nexts r (there r p (q ∷ xs) h)) end,
)

pub not_has_other : (p q : ℕ) (xs : List ℕ) → has p xs ≡ false → has q xs ≡ true → (q == p) ≡ false
not_has_other p q xs out is = elim (Bool-cases (q == p)) [
  | inr e ↦ e
  | inl e ↦ ground (arith, ap (λ r. has r xs) ((==_iff q p).0 e))
]

pub not_null :
    (m : Store) (before : ℕ) (xs : List ℕ) (after q : ℕ)
    → Linked m before xs after
    → has q xs ≡ true
    → q ≢ null
not_null m before [] after q l h = cc
not_null m before (p ∷ xs) after q (a, b, c, d, e) h = elim (Bool-cases (q == p)) [
  | inl same ↦ λ z. a (sym ((==_iff q p).0 same) ∙ z)
  | inr other ↦ not_null m p xs after q e (ground arith)
]

last-append : (xs : List ℕ) (p d : ℕ) → last (xs ++ p ∷ []) d ≡ p
last-append [] p d = refl
last-append (x ∷ xs) p d = last-append xs p x

-- The nodes after an insertion behind a most recently used node.
module _ (now : ℕ) (s : State) (p : ℕ) (filled : (s.list.mru == null) ≡ false) where
  insert_self :
      let n = (insert now s p).nodes p in
      (n.prev ≡ s.list.mru) × (n.next ≡ null) × (n.mod_time ≡ now)
  unfolding insert
  insert_self = (rw filled (ground arith), rw filled (ground arith), ground arith)

  module _ (q : ℕ) (other : (q == p) ≡ false) where
    insert_prev : ((insert now s p).nodes q).prev ≡ (s.nodes q).prev
    unfolding insert
    insert_prev = rw filled (ground arith)

    insert_next :
        ((insert now s p).nodes q).next ≡ (if q == s.list.mru then p else (s.nodes q).next)
    unfolding insert
    insert_next = rw filled (ground arith)

    insert_time : ((insert now s p).nodes q).mod_time ≡ (s.nodes q).mod_time
    unfolding insert
    insert_time = rw filled (ground arith)

    insert_outside : (q == s.list.mru) ≡ false → (insert now s p).nodes q ≡ s.nodes q
    unfolding insert
    insert_outside ne = rw filled (ground arith)

-- The outcome of putting the address `p` at the recent end of the list at a time; the nodes off the
-- list are as they were.
pub record PutLast (now : ℕ) (s : State) (p : ℕ) (xs : List ℕ) (s' : State) : Type 0 where
  pub longer : IsList s' (xs ++ p ∷ [])
  pub same_ttl : s'.list.ttl ≡ s.list.ttl
  pub time : (s'.nodes p).mod_time ≡ now
  pub same_times : (q : ℕ) → (q == p) ≡ false → (s'.nodes q).mod_time ≡ (s.nodes q).mod_time
  pub outside :
      (q : ℕ) → has q xs ≡ false → (q == p) ≡ false → (q == null) ≡ false → s'.nodes q ≡ s.nodes q

-- Inserting a node that is not on the list puts it at the recent end, with the time of the clock.
-- The other nodes stay in their order and keep their times.
pub insert-PutLast :
    (now : ℕ) (s : State) (p : ℕ) (xs : List ℕ)
    → IsList s xs
    → p ≢ null
    → has p xs ≡ false
    → PutLast now s p xs (insert now s p)
unfolding insert
insert-PutLast now s p [] l ne out =
    let none_yet : (s.list.mru == null) ≡ true = ground (arith, l.tail) in
    record {
      longer = record {
        head = rw none_yet;
        tail = refl;
        links = (ne, ground arith, ground arith, refl, tt);
        counted = omega (arith, l.counted);
      };
      same_ttl = refl;
      time = ground arith;
      same_times = λ q other. ground arith;
      outside = λ q out other real. ground arith;
    }
insert-PutLast now s p (x ∷ xs) l ne out =
    let z = last xs x in
    let m = s.nodes in
    let m' = (insert now s p).nodes in
    let (a, b, c, d, e) = l.links in
    let at : s.list.mru ≡ z = l.tail in
    let filled : (s.list.mru == null) ≡ false =
      (let z0 = not_null m null (x ∷ xs) null z l.links (has-last x xs) in ground arith) in
    let self = insert_self now s p filled in
    let apart = λ (q : ℕ) (h : has q (x ∷ xs) ≡ true). not_has_other p q (x ∷ xs) out h in
    record {
      longer = record {
        head = rw filled l.head;
        tail = sym (last-append xs p x);
        links =
            append-Linked m' null (x ∷ xs) (p ∷ []) null
              (relink_back m m' null x xs null p l.links
                (λ q h. insert_prev now s p filled q (apart q h))
                (λ q h k. insert_next now s p filled q (apart q h) ∙ rw (at, k))
                (insert_next now s p filled z (apart z (has-last x xs)) ∙ rw (at, ==_refl z)))
              (ne, self.0 ∙ at, self.1, refl, tt) (λ q h. rw (apart q h));
        counted = omega (arith, l.counted, length-append xs (p ∷ []));
      };
      same_ttl = refl;
      time = self.2;
      same_times = λ q other. insert_time now s p filled q other;
      outside = λ q away other real.
          insert_outside now s p filled q other
            (rw at (not_equal q z (x ∷ xs) away (has-last x xs)));
    }
