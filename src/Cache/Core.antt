-- ===== src/Cache/Core.antt =====
-- cache/cache.c: entries in a hash table, the idle ones also on a list from which they expire.
--
-- The node of an entry is part of its payload and points back to the entry: the address of the
-- entry stands for all three. Nodes are kept in the store of the list, and the payload in the table
-- is the data behind the node. `user` is the state that the eviction callback works on, and
-- `ticks` counts how often the clock was read.
pub mod Walk
pub mod Stands
pub mod Evict
pub mod Take
pub mod Alloc
pub mod Free
pub mod Peek
pub mod Clear
pub mod Rehash
use mathlib.Core.List.{flatten}
use sftfs.Prelude.{
  ℕ, zero, suc, ◌+◌, Bool, true, false, ◌&&◌, ◌||◌, not, Option, none, some, List, [], ◌∷◌, Run, ok,
  fault, ◌>>=◌, if◌then◌else◌, ◌==◌,
}
use sftfs.Htable
use sftfs.Htable.{
  Entry, Table, Link, Grants, deref, new_entry, lookup, lookup_next, find_entry_link, first_entry,
  next_entry,
}
use sftfs.Cache.Lru
use sftfs.Cache.Lru.{State, null}

pub record Cache {ℓ} (A U : Type ℓ) : Type ℓ where
  pub table : Table A
  pub lru : State
  pub user : U
  pub ticks : ℕ

-- SFTFS_CACHE_OK and SFTFS_CACHE_UNEXPECTED_ENTRY
pub data CacheRc : Type 0 where
  cache_ok unexpected_entry : CacheRc

-- What the configuration holds: the clock by the number of its readings, and the callback or NULL.
-- The size of the data is that of the payload.
pub record Config {ℓ} (A U : Type ℓ) : Type ℓ where
  pub clock : ℕ → ℕ
  pub on_evict : Option (A → U → U)

-- The entry that stands at an address.
unfoldable pub at_address {ℓ} : {A : Type ℓ} → ℕ → List (Entry A) → Option (Entry A)
at_address p [] = none
at_address p (e ∷ es) = if e.addr == p then some e else at_address p es

module _ {ℓ} {A U : Type ℓ} where
  unfoldable pub construct : Grants → (ttl : ℕ) → U → Option (Cache A U)
  construct grants ttl user = elim (Htable.create {A = A} grants 0) [
    | none ↦ none
    | some t ↦
        let s : State = record {
          list = Lru.construct ttl;
          nodes = λ p. record { prev = 0; next = 0; mod_time = 0 };
        } in
        some (record { table = t; lru = s; user = user; ticks = 0 })
  ]

  -- Reading through a pointer to no entry is a fault.
  unfoldable pub load : Cache A U → ℕ → Run (Entry A)
  load c p = elim (at_address p (flatten c.table.buckets)) [ none ↦ fault | some e ↦ ok e ]

  -- `sftfs_htable_find_entry_link` of an entry, which reads the hash from it.
  unfoldable pub link_of : Cache A U → ℕ → Run Link
  unfolding load
  link_of c p = load c p >>= λ e. find_entry_link c.table p e.hash

  abbrev pub unlisted_entry : Cache A U → ℕ → Bool
  unlisted_entry c p = Lru.node_unlinked c.lru p

  unfoldable pub maybe_unlisted_entry : Cache A U → ℕ → Bool
  maybe_unlisted_entry c p = let n = c.lru.nodes p in (n.prev == null) && (n.next == null)

  unfoldable pub contains : Cache A U → ℕ → Run Bool
  unfolding link_of
  contains c p = link_of c p >>= λ l. elim (deref c.table l) [ none ↦ ok false | some e ↦ ok true ]

  unfoldable pub contains_unlisted : Cache A U → ℕ → Run Bool
  unfolding link_of
  contains_unlisted c p = link_of c p >>= λ l. elim (deref c.table l) [
    | none ↦ ok false
    | some e ↦ ok (unlisted_entry c e.addr)
  ]

  module _ (config : Config A U) where
    unfoldable pub call_on_evict : A → U → U
    call_on_evict x u = elim config.on_evict [ none ↦ u | some f ↦ f x u ]

    -- The clock is read once for each node that is examined. Every round takes a node off the list.
    unfoldable pub evict_loop : ℕ → Cache A U → Run (Cache A U)
    unfolding load call_on_evict
    evict_loop zero c = fault
    evict_loop (suc fuel) c = Lru.evict_invalid_lru (config.clock c.ticks) c.lru >>= λ r. elim r.0 [
      | none ↦ ok (record c { lru = r.1; ticks = c.ticks + 1 })
      | some p ↦ do
        e ← load c p
        t ← Htable.find_and_remove c.table p e.hash
        evict_loop fuel (record {
          table = t;
          lru = r.1;
          user = call_on_evict e.payload c.user;
          ticks = c.ticks + 1;
        })
    ]

    unfoldable pub evict_invalid_lru_entries : Cache A U → Run (Cache A U)
    unfolding evict_loop
    evict_invalid_lru_entries c = evict_loop (suc c.lru.list.nr_nodes) c

    -- `fresh` is the new entry of the table with the bytes behind its node, or NULL.
    unfoldable pub alloc :
        Grants → (fresh : Option (ℕ × A)) → Cache A U → (hash : ℕ) → Run (Cache A U × Option ℕ)
    unfolding evict_invalid_lru_entries
    alloc grants fresh c hash = do
      c₁ ← evict_invalid_lru_entries c
      r ← new_entry grants fresh c₁.table hash
      let c₂ : Cache A U = record c₁ { table = r.0 } in
          elim r.1 [
            | none ↦ ok (c₂, none)
            | some l ↦ elim (deref r.0 l) [
              | none ↦ ok (c₂, none)
              | some e ↦
                  let s = c₁.lru in
                  let s' : State = record s { nodes = Lru.reset_node s.nodes e.addr } in
                  ok (record c₂ { lru = s' }, some e.addr)
            ]
          ]

    -- A fault where the assertion fails; NULL is `none`.
    unfoldable pub free : Cache A U → Option ℕ → Run (Cache A U × CacheRc)
    unfolding link_of evict_invalid_lru_entries
    free c none = ok (c, cache_ok)
    free c (some p) =
        if not (unlisted_entry c p)
        then fault
        else (link_of c p >>= λ l. elim (deref c.table l) [
          | none ↦ ok (c, unexpected_entry)
          | some e ↦ do
            t ← Htable.remove c.table l
            c' ← evict_invalid_lru_entries (record c { table = t })
            ok (c', cache_ok)
        ])

    unfoldable pub take : Cache A U → ℕ → Run (Cache A U × Option ℕ)
    unfolding link_of evict_invalid_lru_entries
    take c p = link_of c p >>= λ l. elim (deref c.table l) [
      | none ↦ ok (c, none)
      | some e ↦ do
        s ← Lru.remove c.lru e.addr
        c' ← evict_invalid_lru_entries (record c { lru = s })
        ok (c', some e.addr)
    ]

    unfoldable pub give : Cache A U → ℕ → Run (Cache A U × CacheRc)
    unfolding contains_unlisted evict_invalid_lru_entries
    give c p = do
      c' ← evict_invalid_lru_entries c
      idle ← contains_unlisted c' p
      if idle
          then ok (
            record c' { lru = Lru.insert (config.clock c'.ticks) c'.lru p; ticks = c'.ticks + 1 },
            cache_ok,
          )
          else ok (c', unexpected_entry)

    unfoldable pub invalidate : Cache A U → ℕ → Run (Cache A U × CacheRc)
    unfolding take free load call_on_evict
    invalidate c p = take c p >>= λ r. elim r.1 [
      | none ↦ ok (r.0, unexpected_entry)
      | some q ↦ do
        e ← load r.0 q
        let c₁ = r.0 in
            free (record c₁ { user = call_on_evict e.payload c₁.user }) (some q) >>= λ r'.
            evict_invalid_lru_entries r'.0 >>= λ c₂. ok (c₂, r'.1)
    ]

  unfoldable pub rehash_entry : Cache A U → ℕ → (new_hash : ℕ) → Run (Cache A U × CacheRc)
  unfolding link_of
  rehash_entry c p new_hash = link_of c p >>= λ l. elim (deref c.table l) [
    | none ↦ ok (c, unexpected_entry)
    | some e ↦
        Htable.rehash_entry c.table l new_hash >>= λ r. ok (record c { table = r.0 }, cache_ok)
  ]
