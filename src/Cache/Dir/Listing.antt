-- ===== src/Cache/Dir/Listing.antt =====
-- Reading the names of a directory back: `read_dir` and `add_dir_entry` of cache/dir.c.
use mathlib.Core.List.{append_assoc}
use sftfs.Prelude.{
  ℕ, zero, suc, ◌+◌, ◌<◌, ◌≤◌, ◌≡◌, ◌⊎◌, inl, inr, refl, ap, sym, ◌∙◌, none, some, List, [], ◌∷◌,
  ◌++◌, Run, ok, fault, Returns, ◌>>=◌, arith, length, length-append, All, word, c_string-append,
  IsText,
}
use sftfs.Str.{Str, Heap}
use sftfs.Str.Room.{Refused, IsValid, text, block_is}
use sftfs.Str.Contents.{extend-Yields}
use sftfs.Cache.Dir.{dir_ok, add_entry_failed, read_dir, add_dir_entry}

-- A name has a byte and no NUL.
abbrev pub IsName : List ℕ → Type 0
IsName [] = ⊥
IsName (b ∷ bs) = IsText (b ∷ bs)

-- The bytes that the names stand for.
unfoldable pub bytes_of : List (List ℕ) → List ℕ
bytes_of [] = []
bytes_of (n ∷ ns) = n ++ 0 ∷ bytes_of ns

-- Reading names until NULL, a round for each and one for the NULL.
unfoldable pub read_all : ℕ → List ℕ → Run (List (List ℕ))
unfolding read_dir
read_all zero h = fault
read_all (suc fuel) h =
    read_dir h >>= λ r. elim r.0 [ none ↦ ok [] | some n ↦ read_all fuel r.1 >>= λ ns. ok (n ∷ ns) ]

read_dir-append : (n rest : List ℕ) → IsName n → read_dir (n ++ 0 ∷ rest) ≡ ok (some n, rest)
unfolding read_dir
read_dir-append [] rest h = elim h [ ]
read_dir-append (b ∷ n) rest (e, h) = rw (e, c_string-append n rest h)

-- Reading at names yields the first of them and moves on behind its NUL.
pub read_dir_name :
    (n : List ℕ) (ns : List (List ℕ)) (rest : List ℕ)
    → IsName n
    → read_dir (bytes_of (n ∷ ns) ++ 0 ∷ rest) ≡ ok (some n, bytes_of ns ++ 0 ∷ rest)
unfolding bytes_of
read_dir_name n ns rest h =
    ap read_dir (append_assoc n (0 ∷ bytes_of ns) (0 ∷ rest))
    ∙ read_dir-append n (bytes_of ns ++ 0 ∷ rest) h

-- Reading at the end yields NULL and stays.
pub read_dir_end : (rest : List ℕ) → read_dir (bytes_of [] ++ 0 ∷ rest) ≡ ok (none, 0 ∷ rest)
unfolding read_dir bytes_of
read_dir_end rest = refl

-- A valid string whose text is the names.
pub record Lists (s : Str) (ns : List (List ℕ)) : Type 0 where
  pub valid : IsValid s
  pub names : All IsName ns
  pub holds : text s ≡ bytes_of ns

bytes_of-append :
    (ns : List (List ℕ)) (n : List ℕ) → bytes_of (ns ++ n ∷ []) ≡ bytes_of ns ++ (n ++ 0 ∷ [])
unfolding bytes_of
bytes_of-append [] n = refl
bytes_of-append (m ∷ ns) n =
    ap (λ l. m ++ 0 ∷ l) (bytes_of-append ns n)
    ∙ sym (append_assoc m (0 ∷ bytes_of ns) (n ++ 0 ∷ []))

All-append :
    (ns : List (List ℕ)) (n : List ℕ) → All IsName ns → IsName n → All IsName (ns ++ n ∷ [])
All-append [] n h k = (k, tt)
All-append (m ∷ ns) n (g, h) k = (g, All-append ns n h k)

-- Adding a name to a directory that holds names makes it hold that name behind them, or changes
-- nothing and reports it, and then the allocator refuses the block for the bytes and the new name.
-- The bytes must not come near the largest `size_t`.
pub add_dir_entry-Lists :
    (heap : Heap) (s : Str) (ns : List (List ℕ)) (n : List ℕ)
    → Lists s ns
    → IsName n
    → s.size + length n + 18 < word
    → Returns (add_dir_entry heap (some s) n) λ r.
      ((s' : Str) × (r ≡ (some s', dir_ok)) × Lists s' (ns ++ n ∷ []))
      ⊎ ((r ≡ (some s, add_entry_failed)) × Refused heap (s.size + length (n ++ 0 ∷ [])))
unfolding add_dir_entry
add_dir_entry-Lists heap s ns n l h small =
    let longer : s.size + length (n ++ 0 ∷ []) + 17 < word =
      omega (arith, length-append n (0 ∷ [])) in
    let (o, run, cases) = extend-Yields heap s (n ++ 0 ∷ []) l.valid longer in
    elim cases [
      | inr (e, refused) ↦ ((some s, add_entry_failed), rw (run, e), inr (refl, refused))
      | inl (s', e, v, t) ↦ (
        (some s', dir_ok),
        rw (run, e),
        inl (
          s',
          refl,
          record {
            valid = v;
            names = All-append ns n l.names h;
            holds = t ∙ ap (λ b. b ++ (n ++ 0 ∷ [])) l.holds ∙ sym (bytes_of-append ns n);
          },
        ),
      )
    ]

read_all-bytes_of :
    (ns : List (List ℕ)) (rest : List ℕ)
    → All IsName ns
    → read_all (suc (length ns)) (bytes_of ns ++ 0 ∷ rest) ≡ ok ns
unfolding read_all
read_all-bytes_of [] rest h = rw (read_dir_end rest)
read_all-bytes_of (n ∷ ns) rest (g, h) = rw (read_dir_name n ns rest g, read_all-bytes_of ns rest h)

-- The block of a directory's string: its names, the NUL, and bytes that are not read.
pub ends_in_zero :
    (s : Str) (ns : List (List ℕ)) → Lists s ns → (rest : List ℕ) × (s.c ≡ bytes_of ns ++ 0 ∷ rest)
ends_in_zero s ns l =
    let (rest, e) = block_is s l.valid in (rest, e ∙ ap (λ b. b ++ 0 ∷ rest) l.holds)

-- Reading a directory that holds names yields these names in their order, and then NULL.
pub read_all-Lists :
    (s : Str) (ns : List (List ℕ)) → Lists s ns → read_all (suc (length ns)) s.c ≡ ok ns
read_all-Lists s ns l =
    let (rest, e) = ends_in_zero s ns l in
    ap (read_all (suc (length ns))) e ∙ read_all-bytes_of ns rest l.names

-- Every name takes a byte and its NUL.
pub length-bytes_of : (ns : List (List ℕ)) → length ns ≤ length (bytes_of ns)
unfolding bytes_of
length-bytes_of [] = omega arith
length-bytes_of (n ∷ ns) = omega (arith, length-append n (0 ∷ bytes_of ns), length-bytes_of ns)
