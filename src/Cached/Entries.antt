-- ===== src/Cached/Entries.antt =====
-- The walk over the paths of a directory's entries in endp/cached.c: `push_entry` and `pop_entry`.
use sftfs.Prelude.{
  ℕ, zero, suc, ◌+◌, Bool, true, false, ◌&&◌, none, some, List, [], ◌∷◌, Run, ok, fault, ◌>>=◌,
  if◌then◌else◌, ◌==◌, ltb, get_or, set, length, c_string,
}
use sftfs.Str
use sftfs.Str.{Str, Heap, store}

-- `while (*--c != '/')` from the end of the first `n` bytes on; before the first byte is a fault.
unfoldable pub last_slash : (n : ℕ) → List ℕ → Run ℕ
last_slash zero c = fault
last_slash (suc n) c = let rest = last_slash n c in if get_or c n 0 == b'/' then ok n else rest

unfoldable pub mark_base_dir : Str → Run Str
unfolding last_slash
mark_base_dir s = last_slash s.size s.c >>= λ i.
    if get_or s.c (i + 1) 0 == 0 then ok s else ok (record s { c = set s.c i 0 })

-- `path[strlen(path)] = '/'`
unfoldable pub unmark_base_dir : Str → Run Str
unmark_base_dir s = do t ← c_string s.c; c ← store s.c (length t.0) b'/'; ok (record s { c = c })

unfoldable pub strnlen : List ℕ → ℕ → ℕ
strnlen [] n = 0
strnlen (b ∷ bs) zero = 0
strnlen (b ∷ bs) (suc n) = let rest = strnlen bs n in if b == 0 then 0 else suc rest

-- `entry` is "." or ".."
abbrev pub is_dot : List ℕ → Bool
is_dot (b ∷ []) = b == b'.'
is_dot _ = false

abbrev pub is_dot_dot : List ℕ → Bool
is_dot_dot (a ∷ b ∷ []) = (a == b'.') && (b == b'.')
is_dot_dot _ = false

module _ (heap : Heap) where
  -- Where the name gets no room after the separator had the block moved, the old pointer dangles and
  -- is freed later: a fault.
  unfoldable pub push_name : Str → List ℕ → Run (Bool × Str)
  push_name s entry = Str.append heap s b'/' >>= λ r. elim r [
    | none ↦ ok (false, s)
    | some s₁ ↦ Str.extend heap s₁ entry >>= λ r'. elim r' [
      | none ↦ if s₁.capacity == s.capacity then ok (false, s₁) else fault
      | some s₂ ↦ ok (true, s₂)
    ]
  ]

  unfoldable pub push_entry : Str → List ℕ → Run (Bool × Str)
  unfolding push_name mark_base_dir
  push_entry s entry =
      if is_dot_dot entry
      then (mark_base_dir s >>= λ s'. ok (true, s'))
      else if is_dot entry
      then ok (true, s)
      else push_name s entry

  unfoldable pub pop_entry : Str → (original_path_size : ℕ) → Run Str
  unfolding unmark_base_dir strnlen
  pop_entry s n =
      if ltb n s.size
      then (Str.resize heap s n >>= λ r. elim r [ none ↦ ok s | some s' ↦ ok s' ])
      else if ltb (strnlen s.c n) n
      then unmark_base_dir s
      else ok s

-- The path that is looked up: the text, or "/" where it is empty.
unfoldable pub entry_path : Str → Run (List ℕ)
entry_path s = c_string s.c >>= λ t. elim t.0 [ [] ↦ ok (b'/' ∷ []) | b ∷ bs ↦ ok (b ∷ bs) ]
