-- ===== src/Htable/Valid.antt =====
-- The invariant of a table, and that insertion, growth and extraction keep it and the entries.
use mathlib.Core.List.{flatten, Perm, perm_middle, perm_append_comm, append_assoc, append-nil}
use mathlib.Core.List.Perm
use sftfs.Prelude.{
  ℕ, zero, suc, ◌+◌, ◌-◌, ◌*◌, ◌%◌, ◌≤◌, ◌<◌, ◌≡◌, refl, sym, ap, subst, ◌∙◌, some, List, [], ◌∷◌,
  ◌++◌, arith, set, replicate, length, length-replicate, length-set, length-append,
  get_or-replicate, get_or-set, Bool-cases, some_inj, some-ne-none, inl, inr, ok, Returns, word,
  ==_refl,
}
use sftfs.Htable.Primes.{prime_lower_bound}
use sftfs.Htable.Primes.Bound.{prime_lower_bound_pos}
use sftfs.Htable.Buckets.{
  IsPlaced, flatten-set_cons, flatten-set_remove, length-flatten-set, flatten-replicate,
  set-IsPlaced, remove_at-All, length-remove_at, lt_of_get_elem?,
}
use sftfs.Htable.{
  Entry, Chain, Table, Link, link, Grants, bucket, deref, create, insert_entry, remove_at,
  extract_entry, migrate_chain, migrate, extend_and_rehash, find_hash, lookup,
}

abbrev pub entries {ℓ} : {A : Type ℓ} → Table A → List (Entry A)
entries t = flatten t.buckets

pub record IsValid {ℓ} {A : Type ℓ} (t : Table A) : Type 0 where
  pub width : length t.buckets ≡ t.nr_buckets
  pub pos : 0 < t.nr_buckets
  pub counted : t.nr_entries ≡ length (entries t)
  pub placed : IsPlaced t.nr_buckets t.buckets

perm_front {ℓ} : {A : Type ℓ} (xs ys zs : List A) → Perm (ys ++ (xs ++ zs)) ((xs ++ ys) ++ zs)
perm_front xs ys zs =
    subst (λ w. Perm w ((xs ++ ys) ++ zs)) (append_assoc ys xs zs)
      (Perm.append_right zs (perm_append_comm ys xs))

module _ {ℓ} {A : Type ℓ} where
  home-lt : (t : Table A) (h : ℕ) → IsValid t → h % t.nr_buckets < length t.buckets
  home-lt t h v = omega (arith, v.width, v.pos)

  pub insert_entry-IsValid : (t : Table A) (e : Entry A) → IsValid t → IsValid (insert_entry t e)
  unfolding insert_entry
  insert_entry-IsValid t e v =
      let i = e.hash % t.nr_buckets in
      record {
        width = length-set t.buckets i (e ∷ bucket t i) ∙ v.width;
        pos = v.pos;
        counted = omega (
          arith,
          v.counted,
          length-flatten-set t.buckets i (e ∷ bucket t i) (home-lt t e.hash v),
        );
        placed =
            set-IsPlaced t.nr_buckets t.buckets i (e ∷ bucket t i) (home-lt t e.hash v) v.placed
              (refl, v.placed i);
      }

  pub insert_entry-perm :
      (t : Table A) (e : Entry A) → IsValid t → Perm (entries (insert_entry t e)) (e ∷ entries t)
  unfolding insert_entry
  insert_entry-perm t e v =
      flatten-set_cons t.buckets (e.hash % t.nr_buckets) e (home-lt t e.hash v)

  pub insert_entry-deref :
      (t : Table A) (e : Entry A)
      → IsValid t
      → deref (insert_entry t e) (link (e.hash % t.nr_buckets) 0) ≡ some e
  unfolding insert_entry deref
  insert_entry-deref t e v =
      let i = e.hash % t.nr_buckets in
      rw (get_or-set t.buckets i i (e ∷ bucket t i) [] (home-lt t e.hash v), ==_refl i)

  pub insert_entry-lookup :
      (t : Table A) (e : Entry A)
      → IsValid t
      → lookup (insert_entry t e) e.hash ≡ link (e.hash % t.nr_buckets) 0
  unfolding insert_entry lookup find_hash
  insert_entry-lookup t e v =
      let i = e.hash % t.nr_buckets in
      rw (
        get_or-set t.buckets i i (e ∷ bucket t i) [] (home-lt t e.hash v),
        ==_refl i,
        ==_refl e.hash,
      )

  -- What `extract_entry` gives at a link that leads to an entry.
  pub record Extracted (t : Table A) (l : Link) (e : Entry A) (r : Entry A × Table A) : Type ℓ where
    pub got : r.0 ≡ e
    pub valid : IsValid r.1
    pub rest : Perm (e ∷ entries r.1) (entries t)
    pub same : r.1.nr_buckets ≡ t.nr_buckets
    pub chains : r.1.buckets ≡ set t.buckets l.index (remove_at l.pos (bucket t l.index))

  pub extract_entry-Extracted :
      (t : Table A) (l : Link) {e : Entry A}
      → IsValid t
      → deref t l ≡ some e
      → Returns (extract_entry t l) (Extracted t l e)
  unfolding extract_entry deref
  extract_entry-Extracted t l {e} v h =
      let c = bucket t l.index in
      let c' = remove_at l.pos c in
      let lt = lt_of_get_elem? t.buckets l.index l.pos h in
      let size = length-flatten-set t.buckets l.index c' lt in
      let one = length-remove_at l.pos c h in
      (
        (e, record t { nr_entries = t.nr_entries - 1; buckets = set t.buckets l.index c' }),
        ground (arith, h),
        record {
          got = refl;
          valid = record {
            width = length-set t.buckets l.index c' ∙ v.width;
            pos = v.pos;
            counted = omega (arith, v.counted);
            placed =
                set-IsPlaced t.nr_buckets t.buckets l.index c' lt v.placed
                  (remove_at-All (λ e. e.hash % t.nr_buckets ≡ l.index) l.pos c (v.placed l.index));
          };
          rest = flatten-set_remove t.buckets l.index l.pos h;
          same = refl;
          chains = refl;
        },
      )

  -- `t'` is valid and holds the entries `es` beside those of `t`.
  abbrev pub Gains : Table A → List (Entry A) → Table A → Type ℓ
  Gains t es t' = IsValid t' × Perm (entries t') (es ++ entries t)

  migrate_chain-Gains :
      (c : Chain A) (n : ℕ) (to : Table A)
      → IsValid to
      → length c ≤ n
      → (to' : Table A) × (migrate_chain c n (some to) ≡ ok (n - length c, some to'))
        × Gains to c to'
  unfolding migrate_chain
  migrate_chain-Gains [] n to v h = (to, ap (λ k. ok (k, some to)) (omega arith), (v, Perm.refl _))
  migrate_chain-Gains (e ∷ c) zero to v h = absurd (omega arith)
  migrate_chain-Gains (e ∷ c) (suc n) to v h =
      let (to', run, (v', p)) =
        migrate_chain-Gains c n (insert_entry to e) (insert_entry-IsValid to e v) (omega arith) in
      (
        to',
        run ∙ ap (λ k. ok (k, some to')) (omega arith),
        (
          v',
          Perm.trans p
              (Perm.trans (Perm.append_left c (insert_entry-perm to e v)) (perm_middle c _)),
        ),
      )

  migrate-Gains :
      (cs : List (Chain A)) (n : ℕ) (to : Table A)
      → IsValid to
      → length (flatten cs) ≤ n
      → Returns
          (migrate cs n (some to))
          λ r. (to' : Table A) × (r ≡ some to') × Gains to (flatten cs) to'
  unfolding migrate flatten
  migrate-Gains [] n to v h = (some to, refl, (to, refl, (v, Perm.refl _)))
  migrate-Gains (c ∷ cs) n to v h =
      let size = length-append c (flatten cs) in
      let (to', run, (v', p)) = migrate_chain-Gains c n to v (omega arith) in
      let (r, run', (to'', e, (v'', q))) = migrate-Gains cs (n - length c) to' v' (omega arith) in
      (
        r,
        rw run run',
        (
          to'',
          e,
          (
            v'',
            Perm.trans q (
                Perm.trans (Perm.append_left (flatten cs) p)
                  (perm_front c (flatten cs) (entries to))),
          ),
        ),
      )

  pub empty-IsValid :
      (n : ℕ)
      → 0 < n
      → IsValid {A = A} (record { nr_buckets = n; nr_entries = 0; buckets = replicate n [] })
  empty-IsValid n pos = record {
    width = length-replicate n [];
    pos = pos;
    counted = sym (ap length (flatten-replicate n));
    placed = λ i. rw get_or-replicate tt;
  }

  -- A table that `sftfs_htable_create` returns is valid and empty.
  pub create-IsValid :
      (grants : Grants) (n : ℕ) {t : Table A}
      → create grants n ≡ some t
      → IsValid t × (entries t ≡ [])
  unfolding create
  create-IsValid grants n h =
      let primes = prime_lower_bound n in
      elim (Bool-cases (grants ((16 + 16 * primes % word) % word))) [
        | inl e ↦
            let e' = some_inj (rw e at h) in
            (
              subst IsValid e' (empty-IsValid primes (omega (arith, prime_lower_bound_pos n))),
              ap entries (sym e') ∙ flatten-replicate primes,
            )
        | inr e ↦ absurd (some-ne-none (rw e at h))
      ]

  -- Where the new table is granted, growth of a valid table ends without a fault and gives a valid
  -- table with every entry, as often; a chain may come out in another order.
  pub extend_and_rehash-perm :
      (grants : Grants) (t : Table A) {fresh : Table A}
      → IsValid t
      → create grants (t.nr_buckets * 2 % word) ≡ some fresh
      → Returns
          (extend_and_rehash grants t)
          λ r. (t' : Table A) × (r ≡ some t') × IsValid t' × Perm (entries t') (entries t)
  unfolding extend_and_rehash
  extend_and_rehash-perm grants t {fresh} v h =
      let (fv, none_yet) = create-IsValid grants _ h in
      let (r, run, (t', e, (v', p))) =
        migrate-Gains t.buckets t.nr_entries fresh fv (omega (arith, v.counted)) in
      (r, rw h run, (t', e, v', rw (none_yet, append-nil) at p))
