-- ===== src/Htable/Insert.antt =====
-- `sftfs_htable_new_entry` and `sftfs_htable_insert`, with and without growth.
use mathlib.Core.List.{Perm}
use mathlib.Core.List.Perm
use sftfs.Prelude.{
  ℕ, ◌*◌, ◌%◌, ◌≡◌, ◌≢◌, refl, true, Option, none, some, ◌∷◌, Bool-cases, Option-cases, inl, inr,
  ok, Returns, word, if◌then◌else◌,
}
use sftfs.Htable.{
  Entry, Table, Link, link, Grants, deref, create, insert_entry, extend_and_rehash, is_loaded,
  new_entry, lookup,
}
use sftfs.Htable.Valid.{
  entries, IsValid, insert_entry-IsValid, insert_entry-perm, insert_entry-deref,
  insert_entry-lookup, extend_and_rehash-perm,
}

-- The allocation that growth makes, if the table has to grow, succeeds.
abbrev pub CanGrow {ℓ} : {A : Type ℓ} → Grants → Table A → Type ℓ
CanGrow {A} grants t = is_loaded t ≡ true → create {A = A} grants (t.nr_buckets * 2 % word) ≢ none

-- The outcome of adding `e`: a valid table with `e` added, and a link that leads to
-- `e`, as the lookup of its hash does.
pub record Added {ℓ} {A : Type ℓ} (t : Table A) (e : Entry A) (r : Table A × Option Link)
    : Type ℓ where
  pub valid : IsValid r.0
  pub added : Perm (entries r.0) (e ∷ entries t)
  pub place : Link
  pub returned : r.1 ≡ some place
  pub leads : deref r.0 place ≡ some e
  pub found : lookup r.0 e.hash ≡ place

abbrev pub entry {ℓ} : {A : Type ℓ} → ℕ → ℕ → A → Entry A
entry addr hash x = record { addr = addr; hash = hash; payload = x }

module _ {ℓ} {A : Type ℓ} (grants : Grants) (t : Table A) (valid : IsValid t) where
  grown :
      CanGrow grants t
      → Returns
          (if is_loaded t then extend_and_rehash grants t else ok (some t))
          λ r. (t' : Table A) × (r ≡ some t') × IsValid t' × Perm (entries t') (entries t)
  grown can = elim (Bool-cases (is_loaded t)) [
    | inr e ↦ rw e (some t, refl, (t, refl, valid, Perm.refl _))
    | inl e ↦ elim (Option-cases (create {A = A} grants (t.nr_buckets * 2 % word))) [
      | inl f ↦ absurd (can e f)
      | inr (fresh, f) ↦ rw e (extend_and_rehash-perm grants t valid f)
    ]
  ]

  -- Adding an entry keeps the table valid, also when it grows: the new table holds the old entries
  -- and the new one, each as often, and the returned link and the lookup of its hash lead to the
  -- new entry.
  -- Growth must not fail for want of memory.
  pub new_entry-Added :
      (addr hash : ℕ) (junk : A)
      → CanGrow grants t
      → Returns (new_entry grants (some (addr, junk)) t hash) (Added t (entry addr hash junk))
  unfolding new_entry
  new_entry-Added addr hash junk can =
      let (r, run, (t', e, v, p)) = grown can in
      let new = entry addr hash junk in
      (
        (insert_entry t' new, some (link (hash % t'.nr_buckets) 0)),
        rw (run, e),
        record {
          valid = insert_entry-IsValid t' new v;
          added = Perm.trans (insert_entry-perm t' new v) (Perm.cons new p);
          place = link (hash % t'.nr_buckets) 0;
          returned = refl;
          leads = insert_entry-deref t' new v;
          found = insert_entry-lookup t' new v;
        },
      )
