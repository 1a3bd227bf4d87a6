-- ===== src/Cached/Handles.antt =====
-- The paths that endp/cached.c keeps for the handles of open files.
use sftfs.Prelude.{ℕ, ◌≡◌, refl, none, some, List, Returns}
use sftfs.Htable
use sftfs.Htable.{Table, deref, lookup, remove_hash}
use sftfs.Htable.Valid.{IsValid}
use sftfs.Htable.Insert.{CanGrow, new_entry-Added}
use sftfs.Htable.Remove.{lookup-remove_hash}
use sftfs.Cached.{Caches, Setup, get_handled_path, handle_path, unhandle_path}

-- After the path of a handle was given up in a valid map, the map is valid and has none for it.
pub get_handled_path-unhandle_path :
    (c : Caches) (handle : ℕ)
    → IsValid c.handle_path_map
    → Returns
        (unhandle_path c handle)
        λ c'. IsValid c'.handle_path_map × (get_handled_path c' handle ≡ none)
unfolding unhandle_path get_handled_path
get_handled_path-unhandle_path c handle v =
    let (t, run, (v', gone)) = lookup-remove_hash c.handle_path_map handle v in
    (record c { handle_path_map = t }, rw run refl, (v', rw (get_handled_path, gone)))

-- An entry can be allocated in a map, at this address.
abbrev pub Allocates : Setup → ℕ → Type 0
Allocates setup addr =
    (t : Table (List ℕ)) → (setup.fresh_path t ≡ some addr) × CanGrow setup.grants t

-- Where the allocator grants an entry, a path that is kept for a handle in a valid map replaces the
-- path that was kept for the handle before: it is the one that is found afterwards.
pub get_handled_path-handle_path :
    (setup : Setup) (addr handle : ℕ) (path : List ℕ) (c : Caches)
    → Allocates setup addr
    → IsValid c.handle_path_map
    → Returns
        (handle_path setup handle path c)
        λ c'. IsValid c'.handle_path_map × (get_handled_path c' handle ≡ some path)
unfolding handle_path get_handled_path Htable.insert
get_handled_path-handle_path setup addr handle path c grants v =
    let (t, run, (v', gone)) = lookup-remove_hash c.handle_path_map handle v in
    let (granted, can) = grants t in
    let (r, run', a) = new_entry-Added setup.grants t v' addr handle path can in
    (
      record c { handle_path_map = r.0 },
      rw (run, granted, run'),
      (a.valid, rw (get_handled_path, a.found, a.leads)),
    )
