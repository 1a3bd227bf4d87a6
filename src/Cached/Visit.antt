-- ===== src/Cached/Visit.antt =====
-- What `fetch_dir_entries_without_attr` of endp/cached.c makes of a listing.
use sftfs.Prelude.{
  ℕ, zero, suc, ◌<◌, ◌≡◌, ap, ◌∙◌, List, [], ◌∷◌, ◌++◌, Run, ok, ◌>>=◌, if◌then◌else◌, arith,
  length, length-append, All, >>=_cong,
}
use sftfs.Str.{Str}
use sftfs.Cache.Dir.Listing.{
  IsName, Lists, bytes_of, length-bytes_of, ends_in_zero, read_dir_name, read_dir_end,
}
use sftfs.Endpoint.{zero_stat, Callee}
use sftfs.Cached.Readdir.{without_attr_loop, fetch_dir_entries_without_attr}

-- The callee on each name in order, until it asks to stop.
unfoldable pub visit : {V : Type 0} → Callee V → List (List ℕ) → V → Run V
visit callee [] v = ok v
visit callee (n ∷ ns) v = callee (record { name = n; stat = zero_stat }) v >>= λ q.
    let rest = visit callee ns q.1 in if q.0 then ok q.1 else rest

module _ {V : Type 0} (callee : Callee V) where
  loop-visit :
      (fuel : ℕ) (ns : List (List ℕ)) (rest : List ℕ) (v : V)
      → All IsName ns
      → length ns < fuel
      → without_attr_loop fuel (bytes_of ns ++ 0 ∷ rest) callee v ≡ visit callee ns v
  unfolding without_attr_loop visit
  loop-visit zero ns rest v h small = absurd (omega arith)
  loop-visit (suc fuel) [] rest v h small = rw (read_dir_end rest)
  loop-visit (suc fuel) (n ∷ ns) rest v (g, h) small = rw (read_dir_name n ns rest g) (
      >>=_cong (callee (record { name = n; stat = zero_stat }) v)
        λ q. ap (λ r. if q.0 then ok q.1 else r) (loop-visit fuel ns rest q.1 h (omega arith)))

  -- From a listing that holds names, every name is passed to the callee once, in the order of the
  -- listing and without attributes, until the callee asks to stop.
  pub fetch-visit :
      (s : Str) (ns : List (List ℕ)) (v : V)
      → Lists s ns
      → fetch_dir_entries_without_attr s.c callee v ≡ visit callee ns v
  unfolding fetch_dir_entries_without_attr
  fetch-visit s ns v l =
      let (rest, e) = ends_in_zero s ns l in
      ap (λ c. without_attr_loop (suc (length c)) c callee v) e
      ∙ loop-visit (suc (length (bytes_of ns ++ 0 ∷ rest))) ns rest v l.names
          (omega (arith, length-append (bytes_of ns) (0 ∷ rest), length-bytes_of ns))
