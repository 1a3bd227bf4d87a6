-- ===== src/Str/Contents.antt =====
-- What the operations of abs/str.c make of the text: they never write outside the block, and fail
-- only where the allocator refuses the block that they ask for.
use sftfs.Prelude.{
  ℕ, suc, ◌+◌, ◌-◌, ◌*◌, ◌%◌, ◌≤◌, ◌<◌, ◌≡◌, refl, ap, sym, ◌∙◌, Option, none, some, List, [], ◌∷◌,
  ◌++◌, ◌⊎◌, inl, inr, arith, length, set, take, word, Run, ok, ◌>>=◌, Returns, Bool-cases, leb,
  if◌then◌else◌, length-set, lt→ltb, ◌==◌,
}
use sftfs.Str.{
  Str, Heap, request, block, store, copy, null_term, create, resize, extend, append_room, append,
  assign,
}
use sftfs.Str.Room.{
  IsValid, text, Refused, Reserved, length-fresh_bytes, take-set_last, take-length,
  null_term-IsValid, copy_lem, reserve-Reserved,
}

-- The call returns a valid string with this text, or NULL because the allocator refused a block
-- for the capacity.
abbrev pub Yields : Heap → ℕ → List ℕ → Run (Option Str) → Type 0
Yields heap capacity bytes r = Returns r λ o.
    ((s : Str) × (o ≡ some s) × IsValid s × (text s ≡ bytes)) ⊎ ((o ≡ none) × Refused heap capacity)

module _ (heap : Heap) where
  -- What `resize` makes of `s` for a new size.
  pub record Resized (s : Str) (size : ℕ) (s' : Str) : Type 0 where
    pub valid : IsValid s'
    pub size_is : s'.size ≡ size
    pub kept : (k : ℕ) → k ≤ s.size → k ≤ size → take k s'.c ≡ take k s.c

  pub resize-Resized :
      (s : Str) (size : ℕ)
      → IsValid s
      → size + 17 < word
      → Returns
          (resize heap s size)
          λ o. ((s' : Str) × (o ≡ some s') × Resized s size s') ⊎ ((o ≡ none) × Refused heap size)
  unfolding resize
  resize-Resized s size v small = elim (reserve-Reserved heap s size v.roomy small) [
    | inr (e, refused) ↦ rw (e, resize) (none, refl, inr (refl, refused))
    | inl (s₁, e, r) ↦
        let (s₂, run, (v₂, size₂, cap₂, kept₂)) =
          null_term-IsValid (record s₁ { size = size })
            (record { fits = r.enough; small = r.roomy.small; room = r.roomy.room }) in
        rw (e, resize)
          (
            some s₂,
            rw run,
            inl (
              s₂,
              refl,
              record {
                valid = v₂;
                size_is = size₂;
                kept = λ k h h'. kept₂ k h' ∙ r.kept k (omega (arith, v.roomy.fits));
              },
            ),
          )
  ]

  -- Copying text into a valid string up to its size, and terminating it again.
  written :
      (s : Str) (at : ℕ) (bytes : List ℕ)
      → IsValid s
      → at + length bytes ≡ s.size
      → Returns
          (copy s.c at bytes >>= λ c. null_term (record s { c = c }) >>= λ s'. ok (some s'))
          λ o. (s' : Str) × (o ≡ some s') × IsValid s' × (text s' ≡ take at s.c ++ bytes)
  written s at bytes v e =
      let (c, run, (len, front)) =
        copy_lem s.c at bytes (omega (arith, v.roomy.fits, v.roomy.room)) in
      let (s', run', (v', size', cap', kept)) =
        null_term-IsValid (record s { c = c })
          (record { fits = v.roomy.fits; small = v.roomy.small; room = len ∙ v.roomy.room }) in
      (
        some s',
        rw (run, run'),
        (
          s',
          refl,
          v',
          ap (λ k. take k s'.c) size'
              ∙ kept s.size (omega arith)
              ∙ ap (λ k. take k c) (sym e)
              ∙ front,
        ),
      )

  -- Extending a valid string writes the new bytes behind its text and inside its block, whether the
  -- block has to grow or not; NULL means that the allocator refused the bigger block. The new size
  -- must not come near the largest `size_t`.
  pub extend-Yields :
      (s : Str) (from : List ℕ)
      → IsValid s
      → s.size + length from + 17 < word
      → Yields heap (s.size + length from) (text s ++ from) (extend heap s from)
  unfolding extend
  extend-Yields s from v small =
      let n = s.size + length from in
      let whole : n % word ≡ n = omega arith in
      let (o, run, cases) = resize-Resized s n v (omega arith) in
      elim cases [
        | inr (e, refused) ↦ (none, rw (whole, run, e), inr (refl, refused))
        | inl (s₁, e, r) ↦
            let (o', run', (s₂, e', v₂, t)) = written s₁ s.size from r.valid (sym r.size_is) in
            (
              o',
              rw (whole, run, e) run',
              inl (s₂, e', v₂, t ∙ ap (λ l. l ++ from) (r.kept s.size (omega arith) (omega arith))),
            )
      ]

  -- Assigning replaces the text by the new bytes, inside the block; NULL means that the allocator
  -- refused a bigger one. The new size must not come near the largest `size_t`.
  pub assign-Yields :
      (s : Str) (from : List ℕ)
      → IsValid s
      → length from + 17 < word
      → Yields heap (length from) from (assign heap s from)
  unfolding assign
  assign-Yields s from v small =
      let (o, run, cases) = resize-Resized s (length from) v small in
      elim cases [
        | inr (e, refused) ↦ (none, rw (run, e), inr (refl, refused))
        | inl (s₁, e, r) ↦
            let (o', run', (s₂, e', v₂, t)) =
              written s₁ 0 from r.valid (omega (arith, r.size_is)) in
            (o', rw (run, e) run', inl (s₂, e', v₂, t))
      ]

  -- A string that is created from bytes has those bytes as its text and is valid; NULL means that
  -- the allocator refused its block. The size must not come near the largest `size_t`.
  pub create-Yields :
      (bytes : List ℕ)
      → length bytes + 17 < word
      → Yields heap (length bytes) bytes (create heap (some bytes) (length bytes))
  unfolding create
  create-Yields bytes small =
      let n = length bytes in
      let c = block heap (request n) in
      let room : length c ≡ n + 1 =
        omega (arith, length-fresh_bytes heap.junk (request n - 16) 0) in
      elim (Bool-cases (heap.grants (request n))) [
        | inr refused ↦ (none, rw refused, inr (refl, refused))
        | inl granted ↦
            let (c', run, (len, front)) = copy_lem c 0 bytes (omega arith) in
            let (s', run', (v', size', cap', kept)) =
              null_term-IsValid (record { size = n; capacity = n; c = c' })
                (record { fits = omega arith; small = small; room = len ∙ room }) in
            (
              some s',
              rw (granted, take-length bytes, run, run'),
              inl (
                s',
                refl,
                v',
                ap (λ k. take k s'.c) size'
                    ∙ kept n (omega arith)
                    ∙ ap (λ k. take k c') (omega arith)
                    ∙ front,
              ),
            )
      ]

  -- The capacity that `append` asks for when the block is full.
  abbrev pub doubled : ℕ → ℕ
  doubled capacity = if capacity == 0 then 1 else capacity * 2 % word

  append_room-Reserved :
      (s : Str)
      → IsValid s
      → s.capacity * 2 + 18 < word
      → ((s' : Str) × (append_room heap s ≡ some s') × Reserved s (s.size + 1) s')
        ⊎ ((append_room heap s ≡ none) × Refused heap (doubled s.capacity))
  unfolding append_room
  append_room-Reserved s v small = elim (Bool-cases (leb s.capacity s.size)) [
    | inr e ↦ inl (
      s,
      rw e,
      record { roomy = v.roomy; size = refl; enough = ground arith; kept = λ k h. refl },
    )
    | inl e ↦
        let d = doubled s.capacity in
        let one : s.size + 1 ≤ d = ground (arith, v.roomy.fits) in
        elim (reserve-Reserved heap s d v.roomy (ground arith)) [
          | inr (none_yet, refused) ↦ inr (rw e none_yet, refused)
          | inl (s', got, r) ↦ inl (
            s',
            rw e got,
            record {
              roomy = r.roomy;
              size = r.size;
              enough = omega (arith, r.enough);
              kept = r.kept;
            },
          )
        ]
  ]

  -- Appending a byte to a valid string writes it and the NUL inside the block: where the block is
  -- full, its capacity is doubled first. NULL means that the allocator refused the bigger block.
  -- Twice the capacity must not come near the largest `size_t`.
  pub append-Yields :
      (s : Str) (b : ℕ)
      → IsValid s
      → s.capacity * 2 + 18 < word
      → Yields heap (doubled s.capacity) (text s ++ b ∷ []) (append heap s b)
  unfolding append store
  append-Yields s b v small = elim (append_room-Reserved s v small) [
    | inr (e, refused) ↦ (none, rw (e, append), inr (refl, refused))
    | inl (s₁, e, r) ↦
        let n = s₁.size in
        let whole : (n + 1) % word ≡ n + 1 = omega (arith, r.enough, r.size, r.roomy.small) in
        let inside : n < length s₁.c = omega (arith, r.roomy.room, r.roomy.fits) in
        let next : n + 1 ≡ suc n = omega arith in
        let c = set s₁.c n b in
        let (s₂, run, (v₂, size₂, cap₂, kept₂)) =
          null_term-IsValid (record s₁ { size = n + 1; c = c })
            (record {
              fits = omega (arith, r.enough, r.size);
              small = r.roomy.small;
              room = length-set s₁.c n b ∙ r.roomy.room;
            }) in
        (
          some s₂,
          rw (e, append, lt→ltb n (length s₁.c) inside)
              (ap (λ k. null_term (record s₁ { size = k; c = c }) >>= λ t. ok (some t)) whole
                ∙ ap (λ r. r >>= λ t. ok (some t)) run),
          inl (
            s₂,
            refl,
            v₂,
            ap (λ k. take k s₂.c) size₂
                ∙ kept₂ (n + 1) (omega arith)
                ∙ ap (λ k. take k c) next
                ∙ take-set_last n s₁.c b inside
                ∙ ap (λ k. take k s₁.c ++ b ∷ []) r.size
                ∙ ap (λ l. l ++ b ∷ []) (r.kept s.size v.roomy.fits),
          ),
        )
  ]
