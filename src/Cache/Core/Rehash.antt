-- ===== src/Cache/Core/Rehash.antt =====
-- Rehashing in cache/cache.c: the list and the table stay in step.
use mathlib.Core.List.{Perm}
use sftfs.Prelude.{
  ◌∷◌, ℕ, ◌≡◌, refl, ap, ◌∙◌, true, Option, none, some, List, ok, Run, Returns, ◌>>=◌,
}
use sftfs.Htable
use sftfs.Htable.{lookup, Entry, Table, Link, deref}
use sftfs.Htable.Valid.{entries}
use sftfs.Htable.Rehash.{Rehashed, rehash_entry-Rehashed}
use sftfs.Cache.Core.{
  load, Cache, CacheRc, Config, cache_ok, unexpected_entry, link_of, rehash_entry,
}
use sftfs.Cache.Core.Stands.{stands}
use sftfs.Cache.Core.Evict.{Backed}
use sftfs.Cache.Core.Alloc.{stands-Perm}
use sftfs.Cache.Core.Take.{Idle, link_of-leads}

-- Rehashing moves no address.
stands-Rehashed {ℓ} :
    {A : Type ℓ} (q h : ℕ) (t : Table A) (e : Entry A) (r : Table A × Link)
    → Rehashed t e h r
    → stands q (entries r.0) ≡ stands q (entries t)
unfolding stands
stands-Rehashed q h t e r x = stands-Perm q x.after ∙ stands-Perm q x.before

module _ {ℓ} {A U : Type ℓ} where
  -- The entry `e` at `p` has another hash in the second cache, and all else is as in the first.
  pub record Moved (p h : ℕ) (e : Entry A) (c c' : Cache A U) : Type ℓ where
    pub at : e.addr ≡ p
    pub others : List (Entry A)
    pub before : Perm (e ∷ others) (entries c.table)
    pub after : Perm (entries c'.table) (record e { hash = h } ∷ others)
    pub found : deref c'.table (lookup c'.table h) ≡ some (record e { hash = h })
    pub same_list : c'.lru ≡ c.lru
    pub same_user : c'.user ≡ c.user

  rehash_entry_runs :
      (c : Cache A U) (p h : ℕ) {l : Link} {f : Entry A} {r : Table A × Link}
      → link_of c p ≡ ok l
      → deref c.table l ≡ some f
      → Htable.rehash_entry c.table l h ≡ ok r
      → rehash_entry c p h ≡ ok (record c { table = r.0 }, cache_ok)
  unfolding rehash_entry
  rehash_entry_runs c p h {l = l} run leads moved =
      let from_entry : Link → Option (Entry A) → Run (Cache A U × CacheRc) = λ l o. elim o [
        | none ↦ ok (c, unexpected_entry)
        | some e ↦ Htable.rehash_entry c.table l h >>= λ r. ok (record c { table = r.0 }, cache_ok)
      ] in
      ap (λ r. r >>= λ l. from_entry l (deref c.table l)) run
      ∙ ap (from_entry l) leads
      ∙ ap (λ r. r >>= λ r. ok (record c { table = r.0 }, cache_ok)) moved

  -- In a cache whose list and table agree, rehashing an entry that stands in the table succeeds: the
  -- entry at that address, with the new hash, is in the place of what it was, beside the same others,
  -- and the lookup of the new hash leads to it. The list is not touched and agrees with the table
  -- as before, and an entry that was off the list, linked to nothing, still is.
  pub rehash_entry-Backed :
      (config : Config A U) (c : Cache A U) (p h : ℕ) (xs : List ℕ)
      → Backed c xs
      → stands p (entries c.table) ≡ true
      → Returns (rehash_entry c p h) λ r.
        (r.1 ≡ cache_ok)
        × (e : Entry A) × (load c p ≡ ok e)
        × Moved p h e c r.0
        × Backed r.0 xs
        × ((q : ℕ) → Idle config c xs q → Idle config r.0 xs q)
  rehash_entry-Backed config c p h xs b stood =
      let (e, loaded, eq, (l, run, leads)) = link_of-leads c p b.valid stood in
      let (r, moved, x) = rehash_entry-Rehashed c.table l h b.valid leads in
      let same = λ (q : ℕ). stands-Rehashed q h c.table e r x in
      (
        (record c { table = r.0 }, cache_ok),
        rehash_entry_runs c p h run leads moved,
        (
          refl,
          e,
          loaded,
          record {
            at = eq;
            others = x.others;
            before = x.before;
            after = x.after;
            found = ap (deref r.0) x.found ∙ x.leads;
            same_list = refl;
            same_user = refl;
          },
          record { valid = x.valid; list = b.list; held = λ q k. same q ∙ b.held q k },
          λ q i. record { held = same q ∙ i.held; off = i.off; detached = i.detached },
        ),
      )
