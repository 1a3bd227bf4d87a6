-- ===== src/Cache/Lru.antt =====
-- cache/list.c and include/cache/list.h: an intrusive doubly linked list of nodes, from the least
-- to the most recently used.
--
-- The nodes stand in a store by their addresses; the address 0 is NULL. The list is built without
-- NDEBUG, so it counts its nodes.
pub mod Seg
pub mod Ends
pub mod Middle
pub mod Queue
use sftfs.Prelude.{
  ℕ, zero, suc, ◌+◌, ◌-◌, ◌%◌, Bool, true, false, ◌&&◌, ◌||◌, not, Option, none, some, Run, ok,
  fault, ◌>>=◌, if◌then◌else◌, ◌==◌, ltb, word,
}

abbrev pub null : ℕ
null = 0

pub record Node : Type 0 where
  pub prev : ℕ
  pub next : ℕ
  pub mod_time : ℕ

abbrev pub Store : Type 0
Store = ℕ → Node

-- `node->... = ...`
abbrev pub update : Store → ℕ → Node → Store
update m p n q = if p == q then n else m q

-- The time to live is `config.ttl`; the clock is the parameter `now` of the operations that read it.
pub record CacheList : Type 0 where
  pub lru : ℕ
  pub mru : ℕ
  pub ttl : ℕ
  pub nr_nodes : ℕ

pub record State : Type 0 where
  pub list : CacheList
  pub nodes : Store

unfoldable pub construct : ℕ → CacheList
construct ttl = record { lru = null; mru = null; ttl = ttl; nr_nodes = 0 }

-- The configuration is zeroed as well; its clock is not part of the list here.
unfoldable pub destruct : CacheList → CacheList
destruct l = record l { lru = null; mru = null; ttl = 0 }

unfoldable pub empty : State → Bool
empty s = s.list.lru == null

unfoldable pub node_unlinked : State → ℕ → Bool
node_unlinked s p =
    let n = s.nodes p in (n.prev == null) && ((n.next == null) && not (p == s.list.lru))

unfoldable pub reset_node : Store → ℕ → Store
reset_node m p = update m p (record { prev = null; next = null; mod_time = 0 })

-- `p->next = q` and `p->prev = q`
abbrev pub set_next : Store → ℕ → ℕ → Store
set_next m p q = let n = m p in update m p (record n { next = q })

abbrev pub set_prev : Store → ℕ → ℕ → Store
set_prev m p q = let n = m p in update m p (record n { prev = q })

-- The stores of `sftfs_cache_list_insert`, in the order of the source.
unfoldable pub insert : (now : ℕ) → State → ℕ → State
insert now s p =
    let l = s.list in
    let linked =
      if l.mru == null
      then set_prev s.nodes p null
      else set_prev (set_next s.nodes l.mru p) p l.mru in
    let ended = set_next linked p null in
    let n = ended p in
    record {
      list = record l {
        lru = if l.mru == null then p else l.lru;
        mru = p;
        nr_nodes = l.nr_nodes + 1;
      };
      nodes = update ended p (record n { mod_time = now });
    }

-- The links around the node are joined.
unfoldable pub bypass : Store → ℕ → Store
bypass m p =
    let n = m p in
    let m₁ = if n.prev == null then m else set_next m n.prev n.next in
    if (m₁ p).next == null then m₁ else set_prev m₁ (m₁ p).next (m₁ p).prev

-- The ends of the list without the node, whose neighbours are joined in `m`.
unfoldable pub lru_without : CacheList → Store → ℕ → ℕ
lru_without l m p =
    if (l.lru == p) && (l.mru == p) then null else if l.lru == p then (m p).next else l.lru

unfoldable pub mru_without : CacheList → Store → ℕ → ℕ
mru_without l m p =
    if (l.lru == p) && (l.mru == p) then null else if l.mru == p then (m p).prev else l.mru

-- `assert(list->nr_nodes > 0)` fails in the last step where the count is 0.
unfoldable pub remove : State → ℕ → Run State
unfolding bypass lru_without mru_without reset_node
remove s p =
    let l = s.list in
    let m = bypass s.nodes p in
    if l.nr_nodes == 0
    then fault
    else ok (record {
      list = record l {
        lru = lru_without l m p;
        mru = mru_without l m p;
        nr_nodes = l.nr_nodes - 1;
      };
      nodes = reset_node m p;
    })

-- What `evict_lru` makes of the list and the nodes.
unfoldable pub unlink_lru : State → State
unfolding reset_node
unlink_lru s =
    let l = s.list in
    let lru = (s.nodes l.lru).next in
    let m = if lru == null then s.nodes else set_prev s.nodes lru null in
    record {
      list = record l {
        lru = lru;
        mru = if lru == null then null else l.mru;
        nr_nodes = l.nr_nodes - 1;
      };
      nodes = reset_node m l.lru;
    }

-- Assumes a list that is not empty; reading through NULL is a fault, as is the assertion's failure.
unfoldable pub evict_lru : State → Run (ℕ × State)
unfolding unlink_lru
evict_lru s =
    if (s.list.lru == null) || (s.list.nr_nodes == 0) then fault else ok (s.list.lru, unlink_lru s)

unfoldable pub lru_invalid : (now : ℕ) → State → Bool
lru_invalid now s = ltb (((s.nodes s.list.lru).mod_time + s.list.ttl) % word) now

-- The evicted node, or NULL as `none`.
unfoldable pub evict_invalid_lru : (now : ℕ) → State → Run (Option ℕ × State)
unfolding empty lru_invalid evict_lru
evict_invalid_lru now s =
    if empty s
    then ok (none, s)
    else if lru_invalid now s
    then (evict_lru s >>= λ r. ok (some r.0, r.1))
    else ok (none, s)

unfoldable pub refresh : (now : ℕ) → State → ℕ → Run State
unfolding remove insert
refresh now s p = remove s p >>= λ s'. ok (insert now s' p)
