-- ===== src/Tests/Caches.antt =====
-- Caches of cache/cache.c and paths of cache/file.c.
use mathlib.Core.List.{flatten}
use sftfs.Prelude.{
  ok, ℕ, zero, suc, ◌+◌, ◌*◌, ◌%◌, refl, some, none, false, ◌≢◌, word, arith, All, get_or, ◌==◌,
  if◌then◌else◌, Returns, ◌≡◌, ◌↔◌, true, List, [], ◌∷◌, ◌++◌,
}
use sftfs.Htable.{Entry, Table, create}
use sftfs.Htable.Valid.{IsValid, entries}
use sftfs.Htable.Insert.{entry}
use sftfs.Cache.Lru.{State}
use sftfs.Cache.Lru.Seg.{IsList}
use sftfs.Cache.Core.Alloc.{Allocated, alloc-Idle}
use sftfs.Cache.Core.Free.{Invalidated, invalidate-Backed}
use sftfs.Cache.Core.Take.{Idle, Taken, Given, take-Idle, give-Backed}
use sftfs.Cache.Core.{
  load, Cache, Config, rehash_entry, invalidate, alloc, take, give, cache_ok,
  evict_invalid_lru_entries,
}
use sftfs.Cache.Core.Walk.{peek, clear}
use sftfs.Cache.Core.Clear.{Cleared, clear-Cleared}
use sftfs.Cache.Core.Rehash.{Moved, rehash_entry-Backed}
use sftfs.Cache.Core.Peek.{Found, peek-Found}
use sftfs.Cache.Core.Stands.{stands}
use sftfs.Cache.Core.Evict.{Backed, Evicted, evict_invalid_lru_entries-Evicted}
use sftfs.Cache.File.{str_eq}
use sftfs.Cache.File.Paths.{str_eq_iff}

abbrev short : List ℕ
short = b'/' ∷ b'a' ∷ []

abbrev long : List ℕ
long = b'/' ∷ b'a' ∷ b'b' ∷ []

str_eq_iff_example : (str_eq short long ≡ true) ↔ ((rest : List ℕ) × (long ≡ short ++ rest))
str_eq_iff_example = str_eq_iff short long

-- The clock advances by four with each reading; the callback counts the evicted entries.
abbrev config : Config ℕ ℕ
config = record { clock = λ n. 4 * n + 20; on_evict = some (λ x u. u + 1) }

abbrev table : Table ℕ
table = record {
  nr_buckets = 2;
  nr_entries = 2;
  buckets = (entry 7 4 1 ∷ entry 8 6 2 ∷ []) ∷ [] ∷ [];
}

table_placed : (i : ℕ) → All (λ e. e.hash % 2 ≡ i) (get_or table.buckets i [])
table_placed zero = (refl, (refl, tt))
table_placed (suc zero) = tt
table_placed (suc (suc i)) = tt

table-IsValid : IsValid table
unfolding flatten
table-IsValid = record { width = refl; pos = omega arith; counted = refl; placed = table_placed }

-- The entry at 7 has expired, the one at 8 has not.
abbrev lru : State
lru = record {
  list = record { lru = 7; mru = 8; ttl = 10; nr_nodes = 2 };
  nodes = λ p.
      if p == 7
      then record { prev = 0; next = 8; mod_time = 5 }
      else record { prev = 7; next = 0; mod_time = 15 };
}

lru-IsList : IsList lru (7 ∷ 8 ∷ [])
lru-IsList = record {
  head = refl;
  tail = refl;
  links = (omega arith, refl, refl, refl, (omega arith, refl, refl, refl, tt));
  counted = refl;
}

abbrev cache : Cache ℕ ℕ
cache = record { table = table; lru = lru; user = 0; ticks = 0 }

cache-Backed : Backed cache (7 ∷ 8 ∷ [])
unfolding flatten stands
cache-Backed = record { valid = table-IsValid; list = lru-IsList; held = λ q h. ground arith }

evict_invalid_lru_entries-Evicted_example :
    Returns (evict_invalid_lru_entries config cache) (Evicted config cache (7 ∷ 8 ∷ []))
evict_invalid_lru_entries-Evicted_example =
    evict_invalid_lru_entries-Evicted config cache (7 ∷ 8 ∷ []) cache-Backed

take-Idle_example :
    Returns (take config cache 8) λ r. (r.1 ≡ some 8) × Taken config cache (7 ∷ []) [] 8 r.0
take-Idle_example = take-Idle config cache 8 (7 ∷ []) [] cache-Backed

-- The entry at 7 is taken, the one at 8 is on the list.
abbrev half : Cache ℕ ℕ
half = record cache {
  lru = record {
    list = record { lru = 8; mru = 8; ttl = 10; nr_nodes = 1 };
    nodes = λ p. record { prev = 0; next = 0; mod_time = 15 };
  };
}

half-Backed : Backed half (8 ∷ [])
unfolding flatten stands
half-Backed = record {
  valid = table-IsValid;
  list = record {
    head = refl;
    tail = refl;
    links = (omega arith, refl, refl, refl, tt);
    counted = refl;
  };
  held = λ q h. ground arith;
}

half-Idle : Idle config half (8 ∷ []) 7
unfolding flatten stands
half-Idle = record { held = refl; off = refl; detached = (refl, refl) }

give-Backed_example :
    Returns (give config half 7) λ r. (r.1 ≡ cache_ok) × Given config half (8 ∷ []) 7 r.0
give-Backed_example = give-Backed config half 7 (8 ∷ []) (omega arith) half-Backed half-Idle

fresh_table : (n : ℕ) → create {A = ℕ} (λ n. true) n ≢ none
unfolding create
fresh_table n h = cc

none_at_nine : stands 9 (entries cache.table) ≡ false
unfolding flatten stands
none_at_nine = refl

alloc-Idle_example :
    Returns
      (alloc config (λ n. true) (some (9, 5)) cache 3)
      λ r. (r.1 ≡ some 9) × Allocated config (λ n. true) cache (7 ∷ 8 ∷ []) (entry 9 3 5) r.0
alloc-Idle_example =
    alloc-Idle config (λ n. true) cache (7 ∷ 8 ∷ []) 9 3 5 cache-Backed (omega arith) none_at_nine
      (λ t loaded refused. fresh_table (t.nr_buckets * 2 % word) refused)

invalidate-Backed_example :
    Returns
      (invalidate config cache 7)
      λ r. (r.1 ≡ cache_ok) × Invalidated config cache [] (8 ∷ []) 7 r.0
invalidate-Backed_example = invalidate-Backed config cache 7 [] (8 ∷ []) (omega arith) cache-Backed

peek-Found_example : Returns (peek config cache 6) λ r. Found config cache (7 ∷ 8 ∷ []) 6 r.0 r.1
peek-Found_example = peek-Found config cache (7 ∷ 8 ∷ []) 6 cache-Backed

clear-Cleared_example : Returns (clear config cache) (Cleared config cache)
clear-Cleared_example = clear-Cleared config cache table-IsValid

stands_at_seven : stands 7 (entries half.table) ≡ true
unfolding flatten stands
stands_at_seven = refl

rehash_entry-Backed_example : Returns (rehash_entry half 7 5) λ r.
    (r.1 ≡ cache_ok)
    × (e : Entry ℕ) × (load half 7 ≡ ok e)
    × Moved 7 5 e half r.0
    × Backed r.0 (8 ∷ [])
    × ((q : ℕ) → Idle config half (8 ∷ []) q → Idle config r.0 (8 ∷ []) q)
rehash_entry-Backed_example =
    rehash_entry-Backed config half 7 5 (8 ∷ []) half-Backed stands_at_seven
