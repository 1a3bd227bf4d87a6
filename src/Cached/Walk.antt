-- ===== src/Cached/Walk.antt =====
-- One step of the walk over a directory's entries in endp/cached.c: the path of a name, and back.
use mathlib.Core.List.{append_assoc}
use sftfs.Prelude.{
  ℕ, ◌+◌, ◌*◌, ◌<◌, ◌≡◌, refl, ap, sym, ◌∙◌, true, false, List, [], ◌∷◌, ◌++◌, ok, Returns, arith,
  length, length-append, take, lt→ltb, IsText, c_string-append, word, inl, inr,
}
use sftfs.Str.{Str, Heap, request}
use sftfs.Str.Contents.{append-Yields, extend-Yields, resize-Resized, doubled}
use sftfs.Str.Room.{IsValid, Refused, text, take-take, take-append_left, block_is, length-text}
use sftfs.Cached.Entries.{push_entry, push_name, pop_entry, entry_path, is_dot, is_dot_dot}

-- The path that stands for a text: "/" for the empty one.
abbrev pub shown : List ℕ → List ℕ
shown [] = b'/' ∷ []
shown (b ∷ bs) = b ∷ bs

-- Pushing `entry` succeeds, `path` is looked up then, and popping gives the text back.
abbrev pub Stepped : Heap → Str → (entry path : List ℕ) → Type 0
Stepped heap s entry path = Returns (push_entry heap s entry) λ r.
    (r.0 ≡ true)
    × (entry_path r.1 ≡ ok path)
    × Returns (pop_entry heap r.1 s.size) λ s'. IsValid s' × (text s' ≡ text s)

pub entry_path_lem :
    (s : Str) (t rest : List ℕ) → s.c ≡ t ++ 0 ∷ rest → IsText t → entry_path s ≡ ok (shown t)
unfolding entry_path
entry_path_lem s [] rest e h = rw e (rw (c_string-append [] rest h) refl)
entry_path_lem s (b ∷ t) rest e h = rw e (rw (c_string-append (b ∷ t) rest h) refl)

-- Every request of memory is granted.
abbrev pub Granting : Heap → Type 0
Granting heap = (n : ℕ) → heap.grants n ≡ true

granted {ℓ} : {A : Type ℓ} (heap : Heap) (capacity : ℕ) → Granting heap → Refused heap capacity → A
granted heap capacity g refused = absurd (cc (g (request capacity)))

-- What pushing a name makes of a valid string.
push_name_lem :
    (heap : Heap) (s : Str) (name : List ℕ)
    → Granting heap
    → IsValid s
    → s.capacity * 2 + length name + 18 < word
    → Returns
        (push_name heap s name)
        λ r. (r.0 ≡ true) × IsValid r.1 × (text r.1 ≡ text s ++ b'/' ∷ name)
unfolding push_name
push_name_lem heap s name g v small =
    let (o, run, cases) = append-Yields heap s b'/' v (omega arith) in
    elim cases [
      | inr (e, refused) ↦ granted heap (doubled heap s.capacity) g refused
      | inl (s₁, e, v₁, t₁) ↦
          let longer : s₁.size ≡ s.size + 1 = omega (
            arith,
            sym (length-text s₁ v₁),
            ap length t₁,
            length-append (text s) (b'/' ∷ []),
            length-text s v,
          ) in
          let (o', run', cases') =
            extend-Yields heap s₁ name v₁ (omega (arith, longer, v.roomy.fits)) in
          elim cases' [
            | inr (e', refused) ↦ granted heap (s₁.size + length name) g refused
            | inl (s₂, e', v₂, t₂) ↦ (
              (true, s₂),
              rw (run, e, run', e') refl,
              (refl, v₂, t₂ ∙ ap (λ t. t ++ name) t₁ ∙ append_assoc (text s) (b'/' ∷ []) name),
            )
          ]
    ]

shown-append : (xs : List ℕ) (y : ℕ) (ys : List ℕ) → shown (xs ++ y ∷ ys) ≡ xs ++ y ∷ ys
shown-append [] y ys = refl
shown-append (x ∷ xs) y ys = refl

IsText-append : (xs ys : List ℕ) → IsText xs → IsText ys → IsText (xs ++ ys)
IsText-append [] ys h k = k
IsText-append (x ∷ xs) ys (e, h) k = (e, IsText-append xs ys h k)

-- Popping what was pushed behind a text.
pop_entry_lem :
    (heap : Heap) (s s₂ : Str) (more : List ℕ)
    → Granting heap
    → IsValid s
    → IsValid s₂
    → text s₂ ≡ text s ++ more
    → 0 < length more
    → Returns (pop_entry heap s₂ s.size) λ s'. IsValid s' × (text s' ≡ text s)
unfolding pop_entry
pop_entry_lem heap s s₂ more g v v₂ t pos =
    let longer : s₂.size ≡ s.size + length more =
      omega (
        arith,
        sym (length-text s₂ v₂),
        ap length t,
        length-append (text s) more,
        length-text s v,
      ) in
    let (o, run, cases) =
      resize-Resized heap s₂ s.size v₂ (omega (arith, v.roomy.fits, v.roomy.small)) in
    elim cases [
      | inr (e, refused) ↦ granted heap s.size g refused
      | inl (s₃, e, r) ↦ (
        s₃,
        rw (lt→ltb s.size s₂.size (omega (arith, longer)), run, e) refl,
        (
          r.valid,
          ap (λ k. take k s₃.c) r.size_is
              ∙ r.kept s.size (omega (arith, longer)) (omega arith)
              ∙ sym (take-take s.size s₂.size s₂.c (omega (arith, longer)))
              ∙ ap (take s.size) t
              ∙ take-append_left s.size (text s) more (omega (arith, length-text s v))
              ∙ take-take s.size s.size s.c (omega arith),
        ),
      )
    ]

-- From a valid path without a NUL, and where memory is granted, an entry that is neither "." nor ".."
-- has the path with a separator and its name looked up; the path is back afterwards. Twice the
-- capacity of the path and the name must not come near the largest `size_t`.
pub push_entry-pop_entry_name :
    (heap : Heap) (s : Str) (name : List ℕ)
    → Granting heap
    → IsValid s
    → IsText (text s)
    → IsText name
    → is_dot name ≡ false
    → is_dot_dot name ≡ false
    → s.capacity * 2 + length name + 18 < word
    → Stepped heap s name (text s ++ b'/' ∷ name)
unfolding push_entry
push_entry-pop_entry_name heap s name g v h k dot dots small =
    let (r, run, (e, v₂, t)) = push_name_lem heap s name g v small in
    let (rest, block) = block_is r.1 v₂ in
    let whole = IsText-append (text s) (b'/' ∷ name) h (refl, k) in
    (
      r,
      rw (dots, dot) run,
      (
        e,
        entry_path_lem r.1 (text s ++ b'/' ∷ name) rest (block ∙ ap (λ b. b ++ 0 ∷ rest) t) whole
            ∙ ap ok (shown-append (text s) b'/' name),
        pop_entry_lem heap s r.1 (b'/' ∷ name) g v v₂ t (omega arith),
      ),
    )
