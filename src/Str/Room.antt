-- ===== src/Str/Room.antt =====
-- The invariant of a string, and the lists of bytes behind it.
use native.Mathlib.Nat.{suc-add}
use sftfs.Prelude.{
  lt→ltb, le→leb, ℕ, zero, suc, ◌+◌, ◌-◌, ◌≤◌, ◌<◌, ◌≡◌, refl, ap, sym, ◌∙◌, none, some, List, [],
  ◌∷◌, ◌++◌, ◌⊎◌, inl, inr, arith, false, length, set, take, drop, get_or, length-append,
  length-take, length-drop, length-set, take-append-drop, word, Returns, Bool-cases, leb,
}
use sftfs.Str.{Str, Heap, request, fresh_bytes, store, copy, null_term, reserve}

-- The block has a byte for the NUL beyond the capacity; its size is a `size_t`.
pub record IsRoomy (s : Str) : Type 0 where
  pub fits : s.size ≤ s.capacity
  pub small : s.capacity + 17 < word
  pub room : length s.c ≡ s.capacity + 1

-- The text ends in a NUL.
pub record IsValid (s : Str) : Type 0 where
  pub roomy : IsRoomy s
  pub ended : get_or s.c s.size 1 ≡ 0

-- The bytes before the terminating NUL.
abbrev pub text : Str → List ℕ
text s = take s.size s.c

-- The allocator refuses the block for this capacity.
abbrev pub Refused : Heap → ℕ → Type 0
Refused heap capacity = heap.grants (request capacity) ≡ false

drop_at_zero : (c : List ℕ) (n : ℕ) → get_or c n 1 ≡ 0 → (rest : List ℕ) × (drop n c ≡ 0 ∷ rest)
drop_at_zero [] zero h = absurd (omega arith)
drop_at_zero [] (suc n) h = absurd (omega arith)
drop_at_zero (x ∷ c) zero h = (c, ap (λ y. y ∷ c) h)
drop_at_zero (x ∷ c) (suc n) h = drop_at_zero c n h

-- The block of a valid string: its text, the NUL, and bytes that are not read.
pub block_is : (s : Str) → IsValid s → (rest : List ℕ) × (s.c ≡ text s ++ 0 ∷ rest)
block_is s v =
    let (rest, e) = drop_at_zero s.c s.size v.ended in
    (rest, sym (take-append-drop s.size s.c) ∙ ap (λ b. text s ++ b) e)

pub length-text : (s : Str) → IsValid s → length (text s) ≡ s.size
length-text s v = omega (arith, length-take s.size s.c, v.roomy.room, v.roomy.fits)

pub length-fresh_bytes : (junk : ℕ → ℕ) (n i : ℕ) → length (fresh_bytes junk n i) ≡ n
unfolding fresh_bytes
length-fresh_bytes junk zero i = refl
length-fresh_bytes junk (suc n) i = ap suc (length-fresh_bytes junk n (i + 1))

pub take-append_left : (n : ℕ) (xs ys : List ℕ) → n ≤ length xs → take n (xs ++ ys) ≡ take n xs
take-append_left zero xs ys h = refl
take-append_left (suc n) [] ys h = absurd (omega arith)
take-append_left (suc n) (x ∷ xs) ys h = ap (λ l. x ∷ l) (take-append_left n xs ys (omega arith))

pub take-append_right : (n : ℕ) (xs ys : List ℕ) → take (length xs + n) (xs ++ ys) ≡ xs ++ take n ys
take-append_right n [] ys = ap (λ k. take k ys) (omega arith)
take-append_right n (x ∷ xs) ys =
    rw (suc-add (length xs) n) (ap (λ l. x ∷ l) (take-append_right n xs ys))

pub take-take : (m n : ℕ) (xs : List ℕ) → m ≤ n → take m (take n xs) ≡ take m xs
take-take zero n xs h = refl
take-take (suc m) zero xs h = absurd (omega arith)
take-take (suc m) (suc n) [] h = refl
take-take (suc m) (suc n) (x ∷ xs) h = ap (λ l. x ∷ l) (take-take m n xs (omega arith))

pub take-set : (n : ℕ) (xs : List ℕ) (i v : ℕ) → n ≤ i → take n (set xs i v) ≡ take n xs
take-set zero xs i v h = refl
take-set (suc n) [] i v h = refl
take-set (suc n) (x ∷ xs) zero v h = absurd (omega arith)
take-set (suc n) (x ∷ xs) (suc i) v h = ap (λ l. x ∷ l) (take-set n xs i v (omega arith))

pub take-set_last :
    (n : ℕ) (xs : List ℕ) (v : ℕ) → n < length xs → take (suc n) (set xs n v) ≡ take n xs ++ v ∷ []
take-set_last n [] v h = absurd (omega arith)
take-set_last zero (x ∷ xs) v h = refl
take-set_last (suc n) (x ∷ xs) v h = ap (λ l. x ∷ l) (take-set_last n xs v (omega arith))

pub take-length : (xs : List ℕ) → take (length xs) xs ≡ xs
take-length [] = refl
take-length (x ∷ xs) = ap (λ l. x ∷ l) (take-length xs)

pub get_or-set_same : (xs : List ℕ) (i v d : ℕ) → i < length xs → get_or (set xs i v) i d ≡ v
get_or-set_same [] i v d h = absurd (omega arith)
get_or-set_same (x ∷ xs) zero v d h = refl
get_or-set_same (x ∷ xs) (suc i) v d h = get_or-set_same xs i v d (omega arith)

-- Terminating a text that fits keeps it, and makes the string valid.
pub null_term-IsValid :
    (s : Str)
    → IsRoomy s
    → Returns (null_term s) λ r.
      IsValid r
      × (r.size ≡ s.size)
      × (r.capacity ≡ s.capacity)
      × ((k : ℕ) → k ≤ s.size → take k r.c ≡ take k s.c)
unfolding null_term store
null_term-IsValid s v = (
  record s { c = set s.c s.size 0 },
  rw (lt→ltb s.size (length s.c) (omega arith)),
  (
    record {
      roomy = record { fits = v.fits; small = v.small; room = length-set s.c s.size 0 ∙ v.room };
      ended = get_or-set_same s.c s.size 0 1 (omega arith);
    },
    refl,
    refl,
    λ k h. take-set k s.c s.size 0 h,
  ),
)

-- Copying into the block keeps its length, and writes the bytes behind the first ones.
pub copy_lem :
    (c : List ℕ) (at : ℕ) (bytes : List ℕ)
    → at + length bytes ≤ length c
    → Returns
        (copy c at bytes)
        λ c'. (length c' ≡ length c) × (take (at + length bytes) c' ≡ take at c ++ bytes)
unfolding copy
copy_lem c at bytes h =
    let back = drop (at + length bytes) c in
    let front : length (take at c) ≡ at = omega (arith, length-take at c) in
    (
      take at c ++ (bytes ++ back),
      rw (le→leb (at + length bytes) (length c) h),
      (
        omega (
          arith,
          length-append (take at c) (bytes ++ back),
          length-append bytes back,
          length-drop (at + length bytes) c,
        ),
        ap (λ n. take (n + length bytes) (take at c ++ (bytes ++ back))) (sym front)
            ∙ take-append_right (length bytes) (take at c) (bytes ++ back)
            ∙ ap (λ l. take at c ++ l)
                (take-append_left (length bytes) bytes back (omega arith) ∙ take-length bytes),
      ),
    )

-- What `reserve` makes of `s` for this capacity.
pub record Reserved (s : Str) (capacity : ℕ) (s' : Str) : Type 0 where
  pub roomy : IsRoomy s'
  pub size : s'.size ≡ s.size
  pub enough : capacity ≤ s'.capacity
  pub kept : (k : ℕ) → k ≤ s.capacity → take k s'.c ≡ take k s.c

-- `sftfs_str_reserve` makes room and keeps size and text, or the allocator refuses the block.
pub reserve-Reserved :
    (heap : Heap) (s : Str) (capacity : ℕ)
    → IsRoomy s
    → capacity + 17 < word
    → ((s' : Str) × (reserve heap s capacity ≡ some s') × Reserved s capacity s')
      ⊎ ((reserve heap s capacity ≡ none) × Refused heap capacity)
unfolding reserve
reserve-Reserved heap s capacity v small = elim (Bool-cases (leb capacity s.capacity)) [
  | inl e ↦
      inl (s, rw e, record { roomy = v; size = refl; enough = ground arith; kept = λ k h. refl })
  | inr e ↦ elim (Bool-cases (heap.grants (request capacity))) [
    | inr refused ↦ inr (rw (e, refused), refused)
    | inl granted ↦
        let n = request capacity - 16 in
        let bytes : n ≡ capacity + 1 = omega arith in
        let more : s.capacity < capacity = ground arith in
        let new = fresh_bytes heap.junk (n - length s.c) (length s.c) in
        inl (
          record s { capacity = capacity; c = take n s.c ++ new },
          rw (e, granted),
          record {
            roomy = record {
              fits = omega (arith, v.fits);
              small = small;
              room = omega (
                arith,
                length-append (take n s.c) new,
                length-take n s.c,
                v.room,
                length-fresh_bytes heap.junk (n - length s.c) (length s.c),
              );
            };
            size = refl;
            enough = omega arith;
            kept = λ k h.
                take-append_left k (take n s.c) new (omega (arith, length-take n s.c, v.room))
                ∙ take-take k n s.c (omega arith);
          },
        )
  ]
]
