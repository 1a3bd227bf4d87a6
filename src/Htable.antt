-- ===== src/Htable.antt =====
-- abs/htable.c: a chained hash table keyed by the hash alone, growing through a list of primes.
--
-- A chain is the list of its entries in order; the address of an entry is part of it. A pointer
-- to a pointer to an entry (`sftfs_htable_entry_link`) is the bucket and the position in its
-- chain that the inner pointer leads to; past the last entry it leads to NULL. The `_ro` twins of
-- the functions differ in `const` alone.
pub mod Primes
pub mod Buckets
pub mod Valid
pub mod Insert
pub mod Lookup
pub mod Find
pub mod Walk
pub mod Rehash
pub mod Remove
use sftfs.Prelude.{
  ℕ, zero, suc, ◌+◌, ◌-◌, ◌*◌, ◌/◌, ◌%◌, ◌<◌, Bool, Option, none, some, List, [], ◌∷◌, ◌++◌, Run,
  ok, fault, ◌>>=◌, if◌then◌else◌, ◌==◌, ltb, get_elem?, get_or, set, take, drop, replicate, length,
  word,
}
use Primes.{prime_lower_bound}

pub record Entry {ℓ} (A : Type ℓ) : Type ℓ where
  pub addr : ℕ
  pub hash : ℕ
  pub payload : A

abbrev pub Chain {ℓ} : Type ℓ → Type ℓ
Chain A = List (Entry A)

-- `nr_entries` counts allocated entries, so it cannot overflow.
pub record Table {ℓ} (A : Type ℓ) : Type ℓ where
  pub nr_buckets : ℕ
  pub nr_entries : ℕ
  pub buckets : List (Chain A)

pub record Link : Type 0 where
  pub index : ℕ
  pub pos : ℕ

abbrev pub link : ℕ → ℕ → Link
link i p = record { index = i; pos = p }

-- The allocator: whether a request for so many bytes is granted.
abbrev pub Grants : Type 0
Grants = ℕ → Bool

module _ {ℓ} {A : Type ℓ} where
  -- `table->buckets[index]`
  abbrev pub bucket : Table A → ℕ → Chain A
  bucket t i = get_or t.buckets i []

  -- `*link`
  unfoldable pub deref : Table A → Link → Option (Entry A)
  deref t l = get_elem? (bucket t l.index) l.pos

  -- The size multiplies by the 16 bytes of an entry's header, as the source does.
  unfoldable pub create_htable : Grants → ℕ → Option (Table A)
  create_htable grants nr_buckets =
      if grants ((16 + 16 * nr_buckets % word) % word)
      then some
          (record { nr_buckets = nr_buckets; nr_entries = 0; buckets = replicate nr_buckets [] })
      else none

  unfoldable pub create : Grants → ℕ → Option (Table A)
  unfolding create_htable
  create grants nr_buckets = create_htable grants (prime_lower_bound nr_buckets)

  unfoldable pub insert_entry : Table A → Entry A → Table A
  insert_entry t e =
      let i = e.hash % t.nr_buckets in
      record t { nr_entries = t.nr_entries + 1; buckets = set t.buckets i (e ∷ bucket t i) }

  -- A fault where the assertion fails or `*entry_link` is NULL.
  unfoldable pub remove_at : ℕ → Chain A → Chain A
  remove_at n [] = []
  remove_at zero (e ∷ c) = c
  remove_at (suc n) (e ∷ c) = e ∷ remove_at n c

  unfoldable pub extract_entry : Table A → Link → Run (Entry A × Table A)
  unfolding deref remove_at
  extract_entry t l = if t.nr_entries == 0 then fault else elim (deref t l) [
    | none ↦ fault
    | some e ↦ ok (
      e,
      record t {
        nr_entries = t.nr_entries - 1;
        buckets = set t.buckets l.index (remove_at l.pos (bucket t l.index));
      },
    )
  ]

  -- The inner loop of `migrate`: it takes the head of the chain until none is left. The number is
  -- `from->nr_entries`, which `extract_entry` asserts and counts down; `to` may be NULL.
  unfoldable pub migrate_chain : Chain A → ℕ → Option (Table A) → Run (ℕ × Option (Table A))
  unfolding insert_entry
  migrate_chain [] n to = ok (n, to)
  migrate_chain (e ∷ c) zero to = fault
  migrate_chain (e ∷ c) (suc n) none = fault
  migrate_chain (e ∷ c) (suc n) (some to) = migrate_chain c n (some (insert_entry to e))

  unfoldable pub migrate : List (Chain A) → ℕ → Option (Table A) → Run (Option (Table A))
  unfolding migrate_chain
  migrate [] n to = ok to
  migrate (c ∷ cs) n to = migrate_chain c n to >>= λ r. migrate cs r.0 r.1

  unfoldable pub extend_and_rehash : Grants → Table A → Run (Option (Table A))
  unfolding create migrate
  extend_and_rehash grants t =
      migrate t.buckets t.nr_entries (create grants (t.nr_buckets * 2 % word))

  -- The test in `sftfs_htable_new_entry`.
  unfoldable pub is_loaded : Table A → Bool
  is_loaded t = ltb ((t.nr_buckets / 2 + t.nr_buckets) % word / 2) t.nr_entries

  -- `fresh` is the result of `create_entry`: the address and the payload's bytes before they are
  -- written, or NULL. The result is the table behind `table_ptr` and the returned link. Where growth
  -- yields NULL without a fault the old table was empty, and freed; a loaded table is not empty.
  unfoldable pub new_entry : Grants → Option (ℕ × A) → Table A → ℕ → Run (Table A × Option Link)
  unfolding is_loaded extend_and_rehash insert_entry
  new_entry grants none t hash = ok (t, none)
  new_entry grants (some (addr, junk)) t hash =
      let e : Entry A = record { addr = addr; hash = hash; payload = junk } in
      do
        grown ← if is_loaded t then extend_and_rehash grants t else ok (some t)
        elim grown [
          | none ↦ ok (t, none)
          | some t' ↦ ok (insert_entry t' e, some (link (hash % t'.nr_buckets) 0))
        ]

  -- `sftfs_htable_insert` writes the payload after `sftfs_htable_new_entry`.
  unfoldable pub insert : Grants → Option ℕ → Table A → ℕ → A → Run (Table A × Option Link)
  unfolding new_entry
  insert grants none t hash x = new_entry grants none t hash
  insert grants (some addr) t hash x = new_entry grants (some (addr, x)) t hash

  -- The position of the first entry with the hash, or the end.
  unfoldable pub find_hash : ℕ → Chain A → ℕ
  find_hash h [] = 0
  find_hash h (e ∷ c) = if e.hash == h then 0 else suc (find_hash h c)

  unfoldable pub lookup : Table A → ℕ → Link
  unfolding find_hash
  lookup t h = let i = h % t.nr_buckets in link i (find_hash h (bucket t i))

  -- From the entry that `l` leads to on; NULL there is a fault.
  unfoldable pub lookup_next : Table A → Link → Run Link
  unfolding deref find_hash
  lookup_next t l = elim (deref t l) [
    | none ↦ fault
    | some e ↦
        let p = l.pos + 1 in ok (link l.index (p + find_hash e.hash (drop p (bucket t l.index))))
  ]

  -- The first link that leads into a bucket from `index` on.
  unfoldable pub first_from : List (Chain A) → ℕ → Option Link
  first_from [] i = none
  first_from ([] ∷ cs) i = first_from cs (i + 1)
  first_from ((e ∷ c) ∷ cs) i = some (link i 0)

  unfoldable pub first_entry : Table A → Option Link
  unfolding first_from
  first_entry t = first_from t.buckets 0

  -- The successor of the entry that `l` leads to. The bucket is computed from the entry's hash.
  unfoldable pub next_entry : Table A → Link → Run (Option Link)
  unfolding first_from deref
  next_entry t l = elim (deref t l) [
    | none ↦ fault
    | some e ↦
        let i = e.hash % t.nr_buckets + 1 in
        elim (deref t (link l.index (l.pos + 1))) [
          | some _ ↦ ok (some (link l.index (l.pos + 1)))
          | none ↦ ok (first_from (drop i t.buckets) i)
        ]
  ]

  -- The loop visits the entries with the hash until it meets the address.
  unfoldable pub find_entry_loop : ℕ → Table A → ℕ → Link → Run Link
  unfolding deref lookup_next
  find_entry_loop zero t addr l = fault
  find_entry_loop (suc fuel) t addr l = elim (deref t l) [
    | none ↦ ok l
    | some e ↦
        let rest = lookup_next t l >>= find_entry_loop fuel t addr in
        if e.addr == addr then ok l else rest
  ]

  -- `entry->hash` and the address stand for the entry; a chain holds at most `nr_entries`.
  unfoldable pub find_entry_link : Table A → (addr hash : ℕ) → Run Link
  unfolding find_entry_loop lookup
  find_entry_link t addr hash =
      find_entry_loop (suc (length (bucket t (hash % t.nr_buckets)))) t addr (lookup t hash)

  unfoldable pub remove : Table A → Link → Run (Table A)
  unfolding extract_entry
  remove t l = extract_entry t l >>= λ r. ok r.1

  -- `while (*entry_link) sftfs_htable_remove(table, entry_link);`: the link is not looked up again.
  unfoldable pub remove_while : ℕ → Table A → Link → Run (Table A)
  unfolding remove deref
  remove_while zero t l = fault
  remove_while (suc fuel) t l = elim (deref t l) [
    | none ↦ ok t
    | some _ ↦ remove t l >>= λ t'. remove_while fuel t' l
  ]

  unfoldable pub remove_hash : Table A → ℕ → Run (Table A)
  unfolding remove_while lookup
  remove_hash t h = remove_while (suc (length (bucket t (h % t.nr_buckets)))) t (lookup t h)

  unfoldable pub find_and_remove : Table A → (addr hash : ℕ) → Run (Table A)
  unfolding remove find_entry_link
  find_and_remove t addr hash = find_entry_link t addr hash >>= remove t

  unfoldable pub clear : Table A → Table A
  clear t = record t { nr_entries = 0; buckets = replicate t.nr_buckets [] }

  unfoldable pub rehash_entry : Table A → Link → ℕ → Run (Table A × Link)
  unfolding extract_entry insert_entry
  rehash_entry t l new_hash = extract_entry t l >>= λ r.
      let t' = r.1 in
      ok (insert_entry t' (record r.0 { hash = new_hash }), link (new_hash % t'.nr_buckets) 0)
