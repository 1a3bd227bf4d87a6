-- ===== src/Tests/Tables.antt =====
-- Tables of abs/htable.c with two buckets.
use mathlib.Core.List.{flatten}
use sftfs.Prelude.{
  ℕ, zero, suc, ◌*◌, ◌%◌, ◌≡◌, ◌≢◌, refl, true, none, some, [], ◌∷◌, arith, take, ok, Returns, word,
  All, get_or,
}
use sftfs.Htable.{
  Table, Grants, bucket, deref, create, new_entry, lookup, first_entry, find_hash, remove_hash,
}
use sftfs.Htable.Primes.{prime_list, prime_lower_bound}
use sftfs.Htable.Primes.Bound.{IsBound, prime_lower_bound_first}
use sftfs.Htable.Valid.{IsValid, entries}
use sftfs.Htable.Insert.{entry, Added, new_entry-Added}
use sftfs.Htable.Lookup.{first_hash, lookup-first_hash}
use sftfs.Htable.Walk.{Walks, first_entry-Walks}
use sftfs.Htable.Remove.{Cut, remove_hash-Cut}

abbrev always : Grants
always n = true

-- Hashes 4, 6 and 8 share a bucket of two; the address of an entry is ten times its hash.
abbrev shared : Table ℕ
shared = record {
  nr_buckets = 2;
  nr_entries = 4;
  buckets = (entry 40 4 1 ∷ entry 60 6 2 ∷ entry 80 8 3 ∷ []) ∷ (entry 30 3 4 ∷ []) ∷ [];
}

shared_placed : (i : ℕ) → All (λ e. e.hash % 2 ≡ i) (get_or shared.buckets i [])
shared_placed zero = (refl, (refl, (refl, tt)))
shared_placed (suc zero) = (refl, tt)
shared_placed (suc (suc i)) = tt

shared-IsValid : IsValid shared
unfolding flatten
shared-IsValid = record { width = refl; pos = omega arith; counted = refl; placed = shared_placed }

fresh_table : create {A = ℕ} always (2 * 2 % word) ≢ none
unfolding create
fresh_table h = cc

abbrev bigger : Table ℕ
bigger = record { nr_buckets = 5; nr_entries = 0; buckets = [] ∷ [] ∷ [] ∷ [] ∷ [] ∷ [] }

create-bigger : create {A = ℕ} always (2 * 2 % word) ≡ some bigger
unfolding create prime_lower_bound
create-bigger = refl

new_entry-Added_example :
    Returns (new_entry always (some (70, 5)) shared 7) (Added shared (entry 70 7 5))
new_entry-Added_example =
    new_entry-Added always shared shared-IsValid 70 7 5 (λ loaded. fresh_table)

lookup-first_hash_example : deref shared (lookup shared 6) ≡ first_hash 6 (entries shared)
lookup-first_hash_example = lookup-first_hash shared 6 shared-IsValid

remove_hash-Cut_example :
    Returns
      (remove_hash shared 6)
      (Cut shared 0 (take (find_hash 6 (bucket shared 0)) (bucket shared 0)))
remove_hash-Cut_example = remove_hash-Cut shared 6 shared-IsValid

-- Removing the hash 4 takes the entries of 6 and 8 along.
remove_hash_collateral :
    remove_hash shared 4
    ≡ ok (record { nr_buckets = 2; nr_entries = 1; buckets = [] ∷ (entry 30 3 4 ∷ []) ∷ [] })
unfolding remove_hash
remove_hash_collateral = refl

prime_lower_bound_first_example :
    (i : ℕ) × IsBound prime_list 100 i × (prime_lower_bound 100 ≡ get_or prime_list i 0)
prime_lower_bound_first_example = prime_lower_bound_first 100

next_prime : prime_lower_bound 100 ≡ 103
unfolding prime_lower_bound
next_prime = refl

first_entry-Walks_example : Walks shared (first_entry shared) (entries shared)
first_entry-Walks_example = first_entry-Walks shared shared-IsValid
