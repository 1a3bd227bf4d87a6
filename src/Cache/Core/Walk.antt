-- ===== src/Cache/Core/Walk.antt =====
-- Walking through the entries of cache/cache.c: peeking at those on the list, and clearing.
use sftfs.Prelude.{
  ℕ, zero, suc, Bool, true, false, ◌&&◌, ◌||◌, not, Option, none, some, Run, ok, fault, ◌>>=◌,
  if◌then◌else◌,
}
use sftfs.Htable
use sftfs.Htable.{Entry, Table, Link, deref, lookup, lookup_next, first_entry, next_entry}
use sftfs.Cache.Lru.{null}
use sftfs.Cache.Core.{
  Cache, Config, link_of, unlisted_entry, maybe_unlisted_entry, call_on_evict,
  evict_invalid_lru_entries,
}

module _ {ℓ} {A U : Type ℓ} where
  -- Without the cache, as `peek_next` calls it, only the links of a node are looked at. Fuel bounds
  -- the chain of the bucket.
  unfoldable pub find_listed_entry : ℕ → (first : Bool) → Cache A U → Link → Run (Option ℕ)
  unfolding maybe_unlisted_entry
  find_listed_entry zero first c l = fault
  find_listed_entry (suc fuel) first c l = elim (deref c.table l) [
    | none ↦ ok none
    | some e ↦
        let rest = lookup_next c.table l >>= find_listed_entry fuel first c in
        let listed =
          (first && not (unlisted_entry c e.addr)) || not (maybe_unlisted_entry c e.addr) in
        if listed then ok (some e.addr) else rest
  ]

  unfoldable pub peek_next : Cache A U → ℕ → Run (Option ℕ)
  unfolding find_listed_entry link_of
  peek_next c p = do
    l ← link_of c p
    l' ← lookup_next c.table l
    find_listed_entry (suc c.table.nr_entries) false c l'

  module _ (config : Config A U) where
    unfoldable pub peek : Cache A U → (hash : ℕ) → Run (Cache A U × Option ℕ)
    unfolding find_listed_entry evict_invalid_lru_entries
    peek c hash = do
      c' ← evict_invalid_lru_entries config c
      found ← find_listed_entry (suc c'.table.nr_entries) true c' (lookup c'.table hash)
      ok (c', found)

    -- The entries that are on the list, in the order of the table.
    unfoldable pub call_on_evict_loop : ℕ → Cache A U → Option Link → Run U
    unfolding call_on_evict
    call_on_evict_loop zero c l = fault
    call_on_evict_loop (suc fuel) c none = ok c.user
    call_on_evict_loop (suc fuel) c (some l) = elim (deref c.table l) [
      | none ↦ ok c.user
      | some e ↦
          let u =
            if unlisted_entry c e.addr then c.user else call_on_evict config e.payload c.user in
          next_entry c.table l >>= call_on_evict_loop fuel (record c { user = u })
    ]

    -- The count of the list's nodes stays.
    unfoldable pub clear : Cache A U → Run (Cache A U)
    unfolding call_on_evict_loop
    clear c = do
      u ← call_on_evict_loop (suc (suc c.table.nr_entries)) c (first_entry c.table)
      let s = c.lru in
          let l = s.list in
          ok (record c {
            table = Htable.clear c.table;
            lru = record s { list = record l { lru = null; mru = null } };
            user = u;
          })
    -- The entry's own link stands for its address in the chain.
