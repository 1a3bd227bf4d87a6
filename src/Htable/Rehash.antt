-- ===== src/Htable/Rehash.antt =====
-- `sftfs_htable_rehash_entry`: an entry moves to another hash.
use mathlib.Core.List.{Perm}
use sftfs.Prelude.{ℕ, ◌%◌, ◌≡◌, ap, some, List, ◌∷◌, ok, Returns}
use sftfs.Htable.{Entry, Table, Link, link, deref, lookup, insert_entry, rehash_entry}
use sftfs.Htable.Valid.{
  IsValid, entries, extract_entry-Extracted, insert_entry-IsValid, insert_entry-perm,
  insert_entry-deref, insert_entry-lookup,
}

module _ {ℓ} {A : Type ℓ} where
  -- The entry with the new hash is in the place of the one that was there, beside the same others.
  pub record Rehashed (t : Table A) (e : Entry A) (h : ℕ) (r : Table A × Link) : Type ℓ where
    pub valid : IsValid r.0
    pub others : List (Entry A)
    pub before : Perm (e ∷ others) (entries t)
    pub after : Perm (entries r.0) (record e { hash = h } ∷ others)
    pub leads : deref r.0 r.1 ≡ some (record e { hash = h })
    pub found : lookup r.0 h ≡ r.1

  -- In a valid table, rehashing through a link to an entry ends without a fault in a valid table
  -- with the same entries, but for that entry's hash; the link returned leads to the entry, and so
  -- does the lookup of its new hash.
  pub rehash_entry-Rehashed :
      (t : Table A) (l : Link) (h : ℕ) {e : Entry A}
      → IsValid t
      → deref t l ≡ some e
      → Returns (rehash_entry t l h) (Rehashed t e h)
  unfolding rehash_entry
  rehash_entry-Rehashed t l h {e} v here =
      let ((f, t'), run, x) = extract_entry-Extracted t l v here in
      let moved : Entry A → Entry A = λ f. record f { hash = h } in
      let new = moved e in
      (
        (insert_entry t' new, link (h % t'.nr_buckets) 0),
        rw run (ap (λ f. ok (insert_entry t' (moved f), link (h % t'.nr_buckets) 0)) x.got),
        record {
          valid = insert_entry-IsValid t' new x.valid;
          others = entries t';
          before = x.rest;
          after = insert_entry-perm t' new x.valid;
          leads = insert_entry-deref t' new x.valid;
          found = insert_entry-lookup t' new x.valid;
        },
      )
