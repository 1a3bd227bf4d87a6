-- ===== src/Cache/Core/Stands.antt =====
-- Which entry of a valid table stands at an address, and what cache/cache.c does to reach it.
use mathlib.Core.List.{flatten, Perm}
use sftfs.Prelude.{
  ℕ, zero, suc, ◌+◌, ◌%◌, ◌≡◌, refl, sym, ap, ◌∙◌, subst, Bool, true, false, ◌||◌, some, List, [],
  ◌∷◌, ◌++◌, inl, inr, arith, get_elem?, get_or, set, All, Bool-cases, ◌==◌, ==_iff, ==_refl,
  Returns, some_inj,
}
use sftfs.Htable.{
  Entry, Chain, Table, bucket, deref, remove_at, find_and_remove, find_entry_link, remove, Link,
}
use sftfs.Htable.Valid.{IsValid, entries}
use sftfs.Htable.Find.{first_addr, find_entry_link-first_addr}
use sftfs.Htable.Remove.{remove-Extracted}
use sftfs.Cache.Lru.Seg.{here}
use sftfs.Cache.Core.{at_address}

module _ {ℓ} {A : Type ℓ} where
  -- Some entry stands at the address.
  unfoldable pub stands : ℕ → List (Entry A) → Bool
  stands q [] = false
  stands q (e ∷ es) = (e.addr == q) || stands q es

  stands-append :
      (q : ℕ) (xs ys : List (Entry A)) → stands q (xs ++ ys) ≡ (stands q xs || stands q ys)
  unfolding stands
  stands-append q [] ys = refl
  stands-append q (x ∷ xs) ys = ground (arith, stands-append q xs ys)

  stands-remove_at :
      (q k : ℕ) (c : Chain A) {e : Entry A}
      → get_elem? c k ≡ some e
      → (e.addr == q) ≡ false
      → stands q (remove_at k c) ≡ stands q c
  unfolding stands remove_at
  stands-remove_at q k [] h ne = refl
  stands-remove_at q zero (x ∷ c) {e} h ne =
      let other : (x.addr == q) ≡ false = ap (λ y. y.addr == q) (some_inj h) ∙ ne in rw other
  stands-remove_at q (suc k) (x ∷ c) h ne =
      ap (λ b. (x.addr == q) || b) (stands-remove_at q k c h ne)

  stands-flatten-set :
      (q : ℕ) (bs : List (Chain A)) (i : ℕ) (c : Chain A)
      → stands q c ≡ stands q (get_or bs i [])
      → stands q (flatten (set bs i c)) ≡ stands q (flatten bs)
  unfolding stands flatten
  stands-flatten-set q [] i c h = refl
  stands-flatten-set q (b ∷ bs) zero c h =
      stands-append q c (flatten bs)
      ∙ ap (λ x. x || stands q (flatten bs)) h
      ∙ sym (stands-append q b (flatten bs))
  stands-flatten-set q (b ∷ bs) (suc i) c h =
      stands-append q b (flatten (set bs i c))
      ∙ ap (λ x. stands q b || x) (stands-flatten-set q bs i c h)
      ∙ sym (stands-append q b (flatten bs))

  found_in_chain :
      (q : ℕ) (P : Entry A → Type 0) (c : Chain A)
      → All P c
      → stands q c ≡ true
      → (rest : List (Entry A))
      → (e : Entry A) × (at_address q (c ++ rest) ≡ some e)
        × P e
        × (first_addr q e.hash c ≡ some e)
        × (e.addr ≡ q)
  unfolding stands at_address first_addr
  found_in_chain q P [] all h rest = cc
  found_in_chain q P (x ∷ c) all h rest = elim (Bool-cases (x.addr == q)) [
    | inl a ↦ (x, rw a, all.0, rw (==_refl x.hash, a), (==_iff x.addr q).0 a)
    | inr a ↦
        let (e, at, here, first, eq) = found_in_chain q P c all.1 (rw a at h) rest in
        (e, rw a at, here, ground (arith, first), eq)
  ]

  at_address-append_right :
      (q : ℕ) (c rest : List (Entry A))
      → stands q c ≡ false
      → at_address q (c ++ rest) ≡ at_address q rest
  unfolding stands at_address
  at_address-append_right q [] rest h = refl
  at_address-append_right q (x ∷ c) rest h = ground (arith, at_address-append_right q c rest)

  -- An address that stands in one of the buckets from `k` on is found by the search through its
  -- entry.
  found_in_buckets :
      (n q k : ℕ) (bs : List (Chain A))
      → ((i : ℕ) → All (λ e. e.hash % n ≡ k + i) (get_or bs i []))
      → stands q (flatten bs) ≡ true
      → (e : Entry A) × (i : ℕ) × (at_address q (flatten bs) ≡ some e)
        × (e.hash % n ≡ k + i)
        × (first_addr q e.hash (get_or bs i []) ≡ some e)
        × (e.addr ≡ q)
  unfolding stands flatten
  found_in_buckets n q k [] placed h = cc
  found_in_buckets n q k (c ∷ cs) placed h = elim (Bool-cases (stands q c)) [
    | inl a ↦
        let (e, at, here, first, eq) =
          found_in_chain q (λ e. e.hash % n ≡ k + 0) c (placed 0) a (flatten cs) in
        (e, 0, at, here, first, eq)
    | inr a ↦
        let tail : stands q (flatten cs) ≡ true =
          rw a at (sym (stands-append q c (flatten cs)) ∙ h) in
        let (e, i, at, here, first, eq) =
          found_in_buckets n q (suc k) cs
            (λ i.
              subst (λ m. All (λ e. e.hash % n ≡ m) (get_or cs i [])) (omega arith)
                (placed (suc i)))
            tail in
        (e, suc i, at_address-append_right q c (flatten cs) a ∙ at, omega (arith, here), first, eq)
  ]

  -- The outcome of removing the entry `e`: the table is valid, it holds each other entry as often
  -- as before, and the other addresses stand as before.
  pub record Without (t : Table A) (e : Entry A) (t' : Table A) : Type ℓ where
    pub valid : IsValid t'
    pub lost : Perm (e ∷ entries t') (entries t)
    pub others : (q : ℕ) → (e.addr == q) ≡ false → stands q (entries t') ≡ stands q (entries t)

  -- The search for an address that stands in a valid table ends at an entry of that address.
  pub find_entry_link-leads :
      (t : Table A) (p : ℕ)
      → IsValid t
      → stands p (entries t) ≡ true
      → (e : Entry A) × (at_address p (entries t) ≡ some e)
        × (e.addr ≡ p)
        × Returns (find_entry_link t p e.hash) λ l. deref t l ≡ some e
  unfolding deref
  find_entry_link-leads t p v h =
      let (e, i, at, home, first, eq) =
        found_in_buckets t.nr_buckets p 0 t.buckets
          (λ i.
            subst (λ m. All (λ e. e.hash % t.nr_buckets ≡ m) (bucket t i)) (omega arith)
              (v.placed i))
          h in
      let home' : e.hash % t.nr_buckets ≡ i = omega (arith, home) in
      let (l, run, leads) = find_entry_link-first_addr t p e.hash in
      (e, at, eq, (l, run, rw home' at leads ∙ first))

  -- Removing through a link leaves every address but that of its entry as it was.
  pub remove-Without :
      (t : Table A) (l : Link) {f : Entry A}
      → IsValid t
      → deref t l ≡ some f
      → Returns (remove t l) (Without t f)
  unfolding deref
  remove-Without t l v here =
      let (t', run, x) = remove-Extracted t l v here in
      (
        t',
        run,
        record {
          valid = x.valid;
          lost = x.rest;
          others = λ q ne.
              ap (λ bs. stands q (flatten bs)) x.chains
              ∙ stands-flatten-set q t.buckets l.index (remove_at l.pos (bucket t l.index))
                  (stands-remove_at q l.pos (bucket t l.index) here ne);
        },
      )

  pub find_and_remove-Without :
      (t : Table A) (p : ℕ)
      → IsValid t
      → stands p (entries t) ≡ true
      → (e : Entry A) × (at_address p (entries t) ≡ some e)
        × (e.addr ≡ p)
        × Returns (find_and_remove t p e.hash) (Without t e)
  unfolding find_and_remove
  find_and_remove-Without t p v h =
      let (e, at, eq, (l, run, here)) = find_entry_link-leads t p v h in
      let (t', run', w) = remove-Without t l v here in (e, at, eq, (t', rw run run', w))
