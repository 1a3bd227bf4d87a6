-- ===== src/Str.antt =====
-- abs/str.c: a growable byte string, kept with a terminating NUL.
--
-- `c` is the block behind the header, with one byte of it for each byte that was allocated: a
-- write past it is a fault. NULL is `none`. The bytes that an allocation does not set are `junk`.
pub mod Room
pub mod Contents
use sftfs.Prelude.{
  ℕ, zero, suc, ◌+◌, ◌-◌, ◌*◌, ◌%◌, Bool, false, Option, none, some, List, [], ◌∷◌, ◌++◌, Run, ok,
  fault, ◌>>=◌, if◌then◌else◌, ◌==◌, ltb, leb, length, set, take, drop, word, min,
}

pub record Str : Type 0 where
  pub size : ℕ
  pub capacity : ℕ
  pub c : List ℕ

-- `malloc` and `realloc`: which requests are granted, and what a new byte holds.
pub record Heap : Type 0 where
  pub grants : ℕ → Bool
  pub junk : ℕ → ℕ

-- The number of bytes that the code asks for; the header has 16.
abbrev pub request : ℕ → ℕ
request capacity = ((16 + capacity) % word + 1) % word

unfoldable pub fresh_bytes : (ℕ → ℕ) → ℕ → ℕ → List ℕ
fresh_bytes junk zero i = []
fresh_bytes junk (suc n) i = junk i ∷ fresh_bytes junk n (i + 1)

-- `str->c[i] = b`
unfoldable pub store : List ℕ → ℕ → ℕ → Run (List ℕ)
store c i b = if ltb i (length c) then ok (set c i b) else fault

-- `memcpy(&str->c[at], from, size)`; `from` has `size` bytes.
unfoldable pub copy : List ℕ → ℕ → List ℕ → Run (List ℕ)
copy c at bytes =
    if leb (at + length bytes) (length c)
    then ok (take at c ++ (bytes ++ drop (at + length bytes) c))
    else fault

unfoldable pub null_term : Str → Run Str
unfolding store
null_term s = store s.c s.size 0 >>= λ c. ok (record s { c = c })

-- `str[0] == b`
abbrev pub head_is : ℕ → List ℕ → Bool
head_is b [] = false
head_is b (x ∷ xs) = x == b

module _ (heap : Heap) where
  -- The bytes of a new block behind the header.
  abbrev pub block : ℕ → List ℕ
  block n = fresh_bytes heap.junk (n - 16) 0

  -- `sftfs_str_create`; a `from` that is NULL is `none`, with the size on its own.
  unfoldable pub create : Option (List ℕ) → ℕ → Run (Option Str)
  unfolding fresh_bytes copy null_term
  create from size =
      let n = request size in
      if heap.grants n
      then (do
        c ← elim from [ none ↦ ok (block n) | some bytes ↦ copy (block n) 0 (take size bytes) ]
        s ← null_term (record { size = size; capacity = size; c = c })
        ok (some s))
      else ok none

  -- `realloc` keeps the bytes up to the smaller of the two sizes.
  unfoldable pub reserve : Str → ℕ → Option Str
  unfolding fresh_bytes
  reserve s capacity =
      let n = request capacity - 16 in
      if leb capacity s.capacity
      then some s
      else if heap.grants (request capacity)
      then some (record s {
        capacity = capacity;
        c = take n s.c ++ fresh_bytes heap.junk (n - length s.c) (length s.c);
      })
      else none

  unfoldable pub resize : Str → ℕ → Run (Option Str)
  unfolding reserve null_term
  resize s size = elim (reserve s size) [
    | none ↦ ok none
    | some s' ↦ null_term (record s' { size = size }) >>= λ s''. ok (some s'')
  ]

  unfoldable pub shrink : Str → ℕ → Run (Option Str)
  unfolding resize
  shrink s shrink_size = if ltb s.size shrink_size then ok none else resize s (s.size - shrink_size)

  -- `from` has `size` bytes: its length is the argument `size`.
  unfoldable pub extend : Str → List ℕ → Run (Option Str)
  unfolding resize copy null_term
  extend s from = resize s ((s.size + length from) % word) >>= λ r. elim r [
    | none ↦ ok none
    | some s' ↦ do c ← copy s'.c s.size from; s'' ← null_term (record s' { c = c }); ok (some s'')
  ]

  -- The room that `sftfs_str_append` makes.
  unfoldable pub append_room : Str → Option Str
  unfolding reserve
  append_room s =
      if leb s.capacity s.size
      then reserve s (if s.capacity == 0 then 1 else s.capacity * 2 % word)
      else some s

  unfoldable pub append : Str → ℕ → Run (Option Str)
  unfolding append_room store null_term
  append s b = elim (append_room s) [
    | none ↦ ok none
    | some s' ↦ do
      c ← store s'.c s'.size b
      s'' ← null_term (record s' { size = (s'.size + 1) % word; c = c })
      ok (some s'')
  ]

  unfoldable pub assign : Str → List ℕ → Run (Option Str)
  unfolding resize copy null_term
  assign s from = resize s (length from) >>= λ r. elim r [
    | none ↦ ok none
    | some s' ↦ do c ← copy s'.c 0 from; s'' ← null_term (record s' { c = c }); ok (some s'')
  ]
