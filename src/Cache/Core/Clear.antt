-- ===== src/Cache/Core/Clear.antt =====
-- Clearing in cache/cache.c: whom it calls back, and what it leaves.
use sftfs.Prelude.{
  ℕ, zero, suc, ◌<◌, ◌≡◌, refl, ap, ◌∙◌, Option, none, some, List, [], ◌∷◌, arith, length, ok, Run,
  Returns, ◌>>=◌, if◌then◌else◌,
}
use sftfs.Htable
use sftfs.Htable.{Entry, Chain, Table, Link, deref, first_entry, next_entry}
use sftfs.Htable.Valid.{IsValid, entries, empty-IsValid}
use sftfs.Htable.Buckets.{flatten-replicate}
use sftfs.Htable.Walk.{Walks, ended, visits, first_entry-Walks}
use sftfs.Cache.Lru.{null}
use sftfs.Cache.Core.{Cache, Config, call_on_evict, unlisted_entry}
use sftfs.Cache.Core.Walk.{call_on_evict_loop, clear}

module _ {ℓ} {A U : Type ℓ} (config : Config A U) where
  -- The callback has seen the entries that are on the list, one after the other.
  abbrev pub told : Cache A U → List (Entry A) → U → U
  told c [] u = u
  told c (e ∷ es) u =
      told c es (if unlisted_entry c e.addr then u else call_on_evict config e.payload u)

  call_on_evict_loop-told :
      (fuel : ℕ) (c : Cache A U) {l : Option Link} {es : List (Entry A)}
      → length es < fuel
      → Walks c.table l es
      → call_on_evict_loop config fuel c l ≡ ok (told c es c.user)
  unfolding call_on_evict_loop
  call_on_evict_loop-told zero c lt w = absurd (omega arith)
  call_on_evict_loop-told (suc fuel) c lt ended = refl
  call_on_evict_loop-told (suc fuel) c lt
        (visits {l = l} {e = e} {next = next} {es = es} at step more) =
      let u = if unlisted_entry c e.addr then c.user else call_on_evict config e.payload c.user in
      let from_entry : Option (Entry A) → Run U = λ o. elim o [
        | none ↦ ok c.user
        | some e ↦
            let u =
              if unlisted_entry c e.addr then c.user else call_on_evict config e.payload c.user in
            next_entry c.table l >>= call_on_evict_loop config fuel (record c { user = u })
      ] in
      ap from_entry at
      ∙ ap (λ r. r >>= call_on_evict_loop config fuel (record c { user = u })) step
      ∙ call_on_evict_loop-told fuel (record c { user = u }) (omega arith) more

  -- The cache after it was cleared.
  pub record Cleared (c : Cache A U) (c' : Cache A U) : Type ℓ where
    pub valid : IsValid c'.table
    pub empty : entries c'.table ≡ []
    pub same_width : c'.table.nr_buckets ≡ c.table.nr_buckets
    pub callbacks : c'.user ≡ told c (entries c.table) c.user
    pub list_empty : (c'.lru.list.lru ≡ null) × (c'.lru.list.mru ≡ null)

  -- Clearing a cache with a valid table ends without a fault; the callback sees every entry that is
  -- on the list, once and in the order of the table, and no other one, and the table that is left is
  -- valid, as wide as before, and empty.
  pub clear-Cleared : (c : Cache A U) → IsValid c.table → Returns (clear config c) (Cleared c)
  unfolding clear Htable.clear
  clear-Cleared c v =
      let run =
        call_on_evict_loop-told (suc (suc c.table.nr_entries)) c (omega (arith, v.counted))
          (first_entry-Walks c.table v) in
      let s = c.lru in
      let l = s.list in
      (
        record c {
          table = Htable.clear c.table;
          lru = record s { list = record l { lru = null; mru = null } };
          user = told c (entries c.table) c.user;
        },
        rw run refl,
        record {
          valid = empty-IsValid c.table.nr_buckets v.pos;
          empty = flatten-replicate c.table.nr_buckets;
          same_width = refl;
          callbacks = refl;
          list_empty = (refl, refl);
        },
      )
