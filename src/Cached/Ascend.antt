-- ===== src/Cached/Ascend.antt =====
-- One step of the walk over a directory's entries in endp/cached.c: the entry "..", and back.
use mathlib.Core.List.{append_assoc}
use sftfs.Prelude.{
  ℕ, suc, ◌+◌, ◌-◌, ◌<◌, ◌≡◌, refl, ap, sym, ◌∙◌, true, false, List, [], ◌∷◌, ◌++◌, ok, ◌>>=◌,
  arith, ◌==◌, length, length-append, ltb, lt→ltb, IsText, c_string-append,
}
use sftfs.Str.{Str, Heap, store}
use sftfs.Str.Room.{IsValid, text, block_is, length-text}
use sftfs.Cached.Entries.{push_entry, pop_entry, mark_base_dir, unmark_base_dir, strnlen}
use sftfs.Cached.Slash.{IsLast, get_or-append_right, set-append, last_slash_lem, strnlen_lem}
use sftfs.Cached.Walk.{Stepped, shown, entry_path_lem}

not_lt : (n : ℕ) → ltb n n ≡ false
not_lt n = ground arith

module _ (heap : Heap) (cap n : ℕ) (dir : List ℕ) (b : ℕ) (name rest : List ℕ) where
  -- The block with `x` in place of the last separator.
  with : ℕ → Str
  with x = record { size = n; capacity = cap; c = dir ++ x ∷ ((b ∷ name) ++ 0 ∷ rest) }

  mark_lem :
      n ≡ suc (length dir + length (b ∷ name))
      → (b == 0) ≡ false
      → IsLast (b ∷ name)
      → mark_base_dir (with b'/') ≡ ok (with 0)
  unfolding mark_base_dir with
  mark_lem e nz last =
      let w = (b ∷ name) ++ 0 ∷ rest in
      rw
        (
          e,
          last_slash_lem dir (b ∷ name) (0 ∷ rest) last,
          get_or-append_right dir (b'/' ∷ w) 1,
          nz,
          set-append dir b'/' 0 w,
        )
        refl

  unmark_lem : length dir < n → IsText dir → pop_entry heap (with 0) n ≡ ok (with b'/')
  unfolding pop_entry unmark_base_dir with store
  unmark_lem lt h =
      let w = (b ∷ name) ++ 0 ∷ rest in
      let at_nul : strnlen (dir ++ 0 ∷ w) n ≡ length dir =
        ap (strnlen (dir ++ 0 ∷ w)) (omega arith) ∙ strnlen_lem dir w (n - length dir) h in
      let inside : length dir < length (dir ++ 0 ∷ w) = omega (arith, length-append dir (0 ∷ w)) in
      rw
        (
          not_lt n,
          at_nul,
          lt→ltb (length dir) n lt,
          c_string-append dir w h,
          lt→ltb (length dir) (length (dir ++ 0 ∷ w)) inside,
          set-append dir 0 b'/' w,
        )
        refl

abbrev dot_dot : List ℕ
dot_dot = b'.' ∷ b'.' ∷ []

-- From a valid path with a separator before its last component, both without a NUL, the entry ".."
-- has the path before that separator looked up, or "/" where that is empty; the path is back
-- afterwards.
pub push_entry-pop_entry_parent :
    (heap : Heap) (s : Str) (dir : List ℕ) (b : ℕ) (name : List ℕ)
    → IsValid s
    → text s ≡ dir ++ b'/' ∷ (b ∷ name)
    → IsText dir
    → (b == 0) ≡ false
    → IsLast (b ∷ name)
    → Stepped heap s dot_dot (shown dir)
unfolding push_entry with
push_entry-pop_entry_parent heap s dir b name v is h nz last =
    let (rest, e) = block_is s v in
    let w = (b ∷ name) ++ 0 ∷ rest in
    let block : s.c ≡ dir ++ b'/' ∷ w =
      e ∙ ap (λ t. t ++ 0 ∷ rest) is ∙ append_assoc dir (b'/' ∷ (b ∷ name)) (0 ∷ rest) in
    let size : s.size ≡ suc (length dir + length (b ∷ name)) =
      omega (arith, sym (length-text s v), ap length is, length-append dir (b'/' ∷ (b ∷ name))) in
    let same : s ≡ with heap s.capacity s.size dir b name rest b'/' =
      ap (λ c. record s { c = c }) block in
    let marked = with heap s.capacity s.size dir b name rest 0 in
    (
      (true, marked),
      ap (λ r. r >>= λ s'. ok (true, s'))
          (ap mark_base_dir same ∙ mark_lem heap s.capacity s.size dir b name rest size nz last),
      (
        refl,
        entry_path_lem marked dir w refl h,
        (
          s,
          unmark_lem heap s.capacity s.size dir b name rest (omega (arith, size)) h
              ∙ ap ok (sym same),
          (v, refl),
        ),
      ),
    )
