-- ===== src/Htable/Walk.antt =====
-- `sftfs_htable_first_entry` and `sftfs_htable_next_entry`: the walk through a table.
use mathlib.Core.List.{flatten}
use native.Mathlib.Nat.{suc-add}
use sftfs.Prelude.{
  ℕ, zero, suc, ◌+◌, ◌%◌, ◌≡◌, refl, sym, ap, ◌∙◌, subst, Option, none, some, List, [], ◌∷◌, ◌++◌,
  get_elem?, get_or, drop, All, Run, ok, fault, some_inj,
}
use sftfs.Htable.{
  Entry, Chain, Table, Link, link, bucket, deref, first_from, first_entry, next_entry,
}
use sftfs.Htable.Valid.{IsValid, entries}

module _ {ℓ} {A : Type ℓ} where
  drop-cons :
      (k : ℕ) (xs : List A) {x : A} {ys : List A}
      → drop k xs ≡ x ∷ ys
      → (get_elem? xs k ≡ some x) × (drop (k + 1) xs ≡ ys)
  drop-cons zero [] h = cc
  drop-cons (suc k) [] h = cc
  drop-cons zero (x ∷ xs) h = (cc, cc)
  drop-cons (suc k) (x ∷ xs) h = rw (suc-add k 1) (drop-cons k xs h)

  drop-nil : (k : ℕ) (xs : List A) → drop k xs ≡ [] → get_elem? xs k ≡ none
  drop-nil zero [] h = refl
  drop-nil (suc k) [] h = refl
  drop-nil zero (x ∷ xs) h = cc
  drop-nil (suc k) (x ∷ xs) h = drop-nil k xs h

  get_or_of_some :
      (k : ℕ) (xs : List A) (d : A) {x : A} → get_elem? xs k ≡ some x → get_or xs k d ≡ x
  get_or_of_some zero [] d h = cc
  get_or_of_some (suc k) [] d h = cc
  get_or_of_some zero (x ∷ xs) d h = cc
  get_or_of_some (suc k) (x ∷ xs) d h = get_or_of_some k xs d h

All-at {ℓ} :
    {A : Type ℓ} (P : A → Type 0) (k : ℕ) (xs : List A) {x : A}
    → All P xs
    → get_elem? xs k ≡ some x
    → P x
All-at P zero [] all h = cc
All-at P (suc k) [] all h = cc
All-at P zero (y ∷ xs) all h = subst P (some_inj h) all.0
All-at P (suc k) (y ∷ xs) all h = All-at P k xs all.1 h

module _ {ℓ} {A : Type ℓ} (t : Table A) where
  -- From the link on, each entry with the link behind it, up to NULL.
  pub data Walks : Option Link → List (Entry A) → Type ℓ where
    ended : Walks none []
    visits :
        {l : Link} {e : Entry A} {next : Option Link} {es : List (Entry A)}
        → deref t l ≡ some e
        → next_entry t l ≡ ok next
        → Walks next es
        → Walks (some l) (e ∷ es)

  -- The next entry, by what stands behind the link.
  abbrev after_entry : (i p : ℕ) → Entry A → Option (Entry A) → Run (Option Link)
  after_entry i p e (some f) = ok (some (link i (p + 1)))
  after_entry i p e none = let j = e.hash % t.nr_buckets + 1 in ok (first_from (drop j t.buckets) j)

  next_entry_runs :
      (i p : ℕ) {e : Entry A} {after : Option (Entry A)}
      → deref t (link i p) ≡ some e
      → deref t (link i (p + 1)) ≡ after
      → next_entry t (link i p) ≡ after_entry i p e after
  unfolding next_entry
  next_entry_runs i p {e} at behind =
      let from_entry : Option (Entry A) → Run (Option Link) =
        λ o. elim o [ none ↦ fault | some e ↦ after_entry i p e (deref t (link i (p + 1))) ] in
      ap from_entry at ∙ ap (after_entry i p e) behind

  chain-Walks :
      (i p : ℕ) (e : Entry A) (c : Chain A) {rest : List (Entry A)}
      → All (λ e. e.hash % t.nr_buckets ≡ i) (bucket t i)
      → drop p (bucket t i) ≡ e ∷ c
      → Walks (first_from (drop (i + 1) t.buckets) (i + 1)) rest
      → Walks (some (link i p)) (e ∷ c ++ rest)
  unfolding deref
  chain-Walks i p e [] placed at w =
      let (leads, tail) = drop-cons p (bucket t i) at in
      let home = All-at (λ e. e.hash % t.nr_buckets ≡ i) p (bucket t i) placed leads in
      let ends = next_entry_runs i p leads (drop-nil (p + 1) (bucket t i) tail) in
      visits leads (ends ∙ ap (λ j. ok (first_from (drop (j + 1) t.buckets) (j + 1))) home) w
  chain-Walks i p e (f ∷ c) placed at w =
      let (leads, tail) = drop-cons p (bucket t i) at in
      let (leads', _) = drop-cons (p + 1) (bucket t i) tail in
      visits leads (next_entry_runs i p leads leads') (chain-Walks i (p + 1) f c placed tail w)

  buckets-Walks :
      (k : ℕ) (bs : List (Chain A))
      → ((i : ℕ) → All (λ e. e.hash % t.nr_buckets ≡ i) (bucket t i))
      → drop k t.buckets ≡ bs
      → Walks (first_from bs k) (flatten bs)
  unfolding first_from flatten
  buckets-Walks k [] placed at = ended
  buckets-Walks k ([] ∷ cs) placed at = buckets-Walks (k + 1) cs placed (drop-cons k t.buckets at).1
  buckets-Walks k ((e ∷ c) ∷ cs) placed at =
      let (found, tail) = drop-cons k t.buckets at in
      let chain : bucket t k ≡ e ∷ c = get_or_of_some k t.buckets [] found in
      let more = buckets-Walks (k + 1) cs placed tail in
      chain-Walks k 0 e c (placed k) chain
        (subst (λ ds. Walks (first_from ds (k + 1)) (flatten cs)) (sym tail) more)

  -- In a valid table, the walk from the first entry visits every entry once, in the order of the
  -- buckets, and ends.
  pub first_entry-Walks : IsValid t → Walks (first_entry t) (entries t)
  unfolding first_entry
  first_entry-Walks v = buckets-Walks 0 t.buckets v.placed refl
