-- ===== src/Tests/Endpoints.antt =====
-- Listings of cache/dir.c, and paths, handles and listings of endp/cached.c.
use mathlib.Core.List.{flatten}
use sftfs.Prelude.{
  length, ℕ, zero, suc, ◌+◌, ◌%◌, ◌*◌, ◌≡◌, ◌≢◌, ◌⊎◌, word, refl, arith, true, false, none, some,
  List, [], ◌∷◌, ◌++◌, All, get_or, Returns, ok, ◌>>=◌,
}
use sftfs.Str.{Str, Heap}
use sftfs.Str.Room.{Refused, IsValid}
use sftfs.Htable.{Table, create}
use sftfs.Htable.Valid
use sftfs.Htable.Insert.{entry}
use sftfs.Cache.Core.{Cache}
use sftfs.Cache.File.{FileEntry}
use sftfs.Cache.Dir.{Dir, peek_dir, dir_ok, add_entry_failed, add_dir_entry}
use sftfs.Cache.Dir.Listing.{Lists, bytes_of, read_all, add_dir_entry-Lists, read_all-Lists}
use sftfs.Sftp.{Stat}
use sftfs.Sftp.Errno.{done, minus, eacces}
use sftfs.Endpoint.{zero_stat, Endpoint, Callee, no_endpoint}
use sftfs.Cached.{Files}
use sftfs.Cached.Api.{Cached, cached_readdir}
use sftfs.Cached.Whole.{cached_readdir-visit}
use sftfs.Fuse.{access}
use sftfs.Fuse.Access.{Permits, access-Permits}
use sftfs.Cached.{Caches, Setup, inval_all, inval_all_dir, handle_path, get_handled_path}
use sftfs.Cached.Parent.{inval_all_dir_short}
use sftfs.Cached.Handles.{Allocates, get_handled_path-handle_path}
use sftfs.Cached.Readdir.{fetch_dir_entries_without_attr}
use sftfs.Cached.Visit.{visit, fetch-visit}
use sftfs.Cached.Walk.{Stepped, push_entry-pop_entry_name}
use sftfs.Cached.Ascend.{push_entry-pop_entry_parent}

abbrev heap : Heap
heap = record { grants = λ n. true; junk = λ i. 7 }

-- The names "." and "b", in a block with a spare byte.
abbrev listing : Str
listing = record { size = 4; capacity = 5; c = b'.' ∷ 0 ∷ b'b' ∷ 0 ∷ 0 ∷ 7 ∷ [] }

abbrev names : List (List ℕ)
names = (b'.' ∷ []) ∷ (b'b' ∷ []) ∷ []

listing-Lists : Lists listing names
unfolding bytes_of
listing-Lists = record {
  valid = record {
    roomy = record { fits = omega arith; small = omega arith; room = refl };
    ended = refl;
  };
  names = ((refl, tt), ((refl, tt), tt));
  holds = refl;
}

abbrev entry_of_two : List ℕ
entry_of_two = b'x' ∷ b'y' ∷ []

add_dir_entry-Lists_example : Returns (add_dir_entry heap (some listing) (b'x' ∷ b'y' ∷ [])) λ r.
    ((s' : Str) × (r ≡ (some s', dir_ok)) × Lists s' (names ++ (b'x' ∷ b'y' ∷ []) ∷ []))
    ⊎ ((r ≡ (some listing, add_entry_failed))
        × Refused heap (listing.size + length (entry_of_two ++ 0 ∷ [])))
add_dir_entry-Lists_example =
    add_dir_entry-Lists heap listing names (b'x' ∷ b'y' ∷ []) listing-Lists (refl, (refl, tt))
      (omega arith)

read_all-Lists_example : read_all 3 listing.c ≡ ok names
read_all-Lists_example = read_all-Lists listing names listing-Lists

-- Counts the names and does not stop.
abbrev counting : Callee ℕ
counting d n = ok (false, n + 1)

fetch-visit_example : fetch_dir_entries_without_attr listing.c counting 0 ≡ visit counting names 0
fetch-visit_example = fetch-visit counting listing names 0 listing-Lists

-- "/a/b", full.
abbrev path : Str
path = record { size = 4; capacity = 4; c = b'/' ∷ b'a' ∷ b'/' ∷ b'b' ∷ 0 ∷ [] }

path-IsValid : IsValid path
path-IsValid = record {
  roomy = record { fits = omega arith; small = omega arith; room = refl };
  ended = refl;
}

push_entry-pop_entry_name_example :
    Stepped heap path (b'x' ∷ []) (b'/' ∷ b'a' ∷ b'/' ∷ b'b' ∷ b'/' ∷ b'x' ∷ [])
push_entry-pop_entry_name_example =
    push_entry-pop_entry_name heap path (b'x' ∷ []) (λ n. refl) path-IsValid
      (refl, (refl, (refl, (refl, tt)))) (refl, tt) refl refl (omega arith)

push_entry-pop_entry_parent_example : Stepped heap path (b'.' ∷ b'.' ∷ []) (b'/' ∷ b'a' ∷ [])
push_entry-pop_entry_parent_example =
    push_entry-pop_entry_parent heap path (b'/' ∷ b'a' ∷ []) b'b' [] path-IsValid refl
      (refl, (refl, tt)) refl (refl, tt)

abbrev files {ℓ} : {D : Type ℓ} → Cache (FileEntry D) Unit
files = record {
  table = record { nr_buckets = 2; nr_entries = 0; buckets = [] ∷ [] ∷ [] };
  lru = record {
    list = record { lru = 0; mru = 0; ttl = 10; nr_nodes = 0 };
    nodes = λ p. record { prev = 0; next = 0; mod_time = 0 };
  };
  user = tt;
  ticks = 0;
}

abbrev setup : Setup
setup = record {
  attr_config = record { clock = λ n. n; on_evict = none };
  dir_config = record { clock = λ n. n; on_evict = none };
  symlink_config = record { clock = λ n. n; on_evict = none };
  attr_memory = record { heap = heap; grants = λ n. true; fresh = λ c. none };
  dir_memory = record { heap = heap; grants = λ n. true; fresh = λ c. none };
  symlink_memory = record { heap = heap; grants = λ n. true; fresh = λ c. none };
  heap = heap;
  grants = λ n. true;
  fresh_path = λ t. some 70;
}

-- The handle 3 stands for "/a".
abbrev handles : Table (List ℕ)
handles = record {
  nr_buckets = 2;
  nr_entries = 1;
  buckets = [] ∷ (entry 7 3 (b'/' ∷ b'a' ∷ []) ∷ []) ∷ [];
}

abbrev caches : Caches
caches = record {
  attr_cache = files;
  dir_cache = files;
  symlink_cache = files;
  handle_path_map = handles;
}

handles_placed : (i : ℕ) → All (λ e. e.hash % 2 ≡ i) (get_or handles.buckets i [])
handles_placed zero = tt
handles_placed (suc zero) = (refl, tt)
handles_placed (suc (suc i)) = tt

handles-IsValid : Valid.IsValid handles
unfolding flatten
handles-IsValid = record {
  width = refl;
  pos = omega arith;
  counted = refl;
  placed = handles_placed;
}

fresh_map : (n : ℕ) → create {A = List ℕ} (λ n. true) n ≢ none
unfolding create
fresh_map n h = cc

setup-Allocates : Allocates setup 70
setup-Allocates t = (refl, λ loaded refused. fresh_map (t.nr_buckets * 2 % word) refused)

get_handled_path-handle_path_example :
    Returns
      (handle_path setup 3 (b'/' ∷ b'b' ∷ []) caches)
      λ c'. Valid.IsValid c'.handle_path_map × (get_handled_path c' 3 ≡ some (b'/' ∷ b'b' ∷ []))
get_handled_path-handle_path_example =
    get_handled_path-handle_path setup 70 3 (b'/' ∷ b'b' ∷ []) caches setup-Allocates
      handles-IsValid

inval_all_dir_short_example :
    inval_all_dir setup true (b'/' ∷ b'a' ∷ b'/' ∷ b'b' ∷ []) caches
    ≡ inval_all setup (b'/' ∷ b'a' ∷ b'/' ∷ b'b' ∷ []) caches >>= inval_all setup (b'/' ∷ [])
inval_all_dir_short_example = inval_all_dir_short setup [] b'a' (b'b' ∷ []) caches (refl, tt)

-- The listing of "/", which is on the list.
abbrev root : List ℕ
root = b'/' ∷ []

abbrev file : FileEntry Dir
file = record {
  path = some (record { size = 1; capacity = 1; c = b'/' ∷ 0 ∷ [] });
  data_of = some listing;
}

abbrev listings : (ticks : ℕ) → Files Dir
listings ticks = record {
  table = record {
    nr_buckets = 2;
    nr_entries = 1;
    buckets = (entry 7 36342609509914462 file ∷ []) ∷ [] ∷ [];
  };
  lru = record {
    list = record { lru = 7; mru = 7; ttl = 10; nr_nodes = 1 };
    nodes = λ p. record { prev = 0; next = 0; mod_time = 0 };
  };
  user = tt;
  ticks = ticks;
}

peek_runs : peek_dir setup.dir_config (listings 0) root ≡ ok (listings 1, some listing.c)
unfolding peek_dir sftfs.Cache.Core.Walk.peek sftfs.Cache.Lru.evict_invalid_lru sftfs.Htable.deref
    sftfs.Htable.lookup sftfs.Cache.Lru.node_unlinked sftfs.Cache.Core.at_address flatten
peek_runs = refl

abbrev cached : Cached (no_endpoint Unit) setup
cached = record { caches = record caches { dir_cache = listings 0 }; world = tt }

abbrev after : Cached (no_endpoint Unit) setup
after = record { caches = record caches { dir_cache = listings 1 }; world = tt }

cached_readdir-visit_example :
    cached_readdir (no_endpoint Unit) setup root 0 counting 0 0 cached
    ≡ visit counting names 0 >>= λ v'. ok ((done, v'), after)
cached_readdir-visit_example =
    cached_readdir-visit (no_endpoint Unit) setup root counting 0 cached (listings 1) listing names
      0 refl peek_runs listing-Lists

-- The owner may read and write.
abbrev plain_file : Stat
plain_file = record zero_stat { mode = 384 }

abbrev one_file : Endpoint
one_file = record (no_endpoint Unit) { getattr = λ path file stat w. ok ((done, plain_file), w) }

access-Permits_example :
    ((access one_file zero_stat root 6 tt ≡ ok (done, tt)) × Permits 6 384)
    ⊎ ((access one_file zero_stat root 6 tt ≡ ok (minus eacces, tt)) × ¬ (Permits 6 384))
access-Permits_example = access-Permits one_file zero_stat plain_file root 6 tt tt refl
