-- ===== src/Cache/Core/Evict.antt =====
-- Eviction in cache/cache.c: the list and the table stay in step.
use mathlib.Core.List.{Perm}
use mathlib.Core.List.Perm
use sftfs.Prelude.{
  ap₂, Bool, ◌%◌, ltb, word, ℕ, zero, suc, ◌+◌, ◌<◌, ◌≡◌, refl, sym, ap, ◌∙◌, subst, true, false,
  Option, some, List, [], ◌∷◌, ◌++◌, ◌⊎◌, inl, inr, arith, length, ◌==◌, ok, Returns,
}
use sftfs.Htable.{Entry, Table, find_and_remove}
use sftfs.Htable.Valid.{IsValid, entries}
use sftfs.Cache.Lru.{State, null, lru_invalid, evict_invalid_lru}
use sftfs.Cache.Lru.Seg.{first, has-append, IsList, Linked, has, here, there, not_equal}
use sftfs.Cache.Lru.Ends.{evict_invalid_lru_cases}
use sftfs.Cache.Core.{
  Cache, Config, at_address, load, call_on_evict, evict_loop, evict_invalid_lru_entries,
}
use sftfs.Cache.Core.Stands.{stands, find_and_remove-Without}

apart : (q p : ℕ) (ys : List ℕ) → has q (p ∷ ys) ≡ false → ((p == q) ≡ false) × (has q ys ≡ false)
apart q p ys h = (ground arith, ground arith)

swap_ne : (p q : ℕ) → (p == q) ≡ false → (q == p) ≡ false
swap_ne p q h = ground arith

on_front :
    (q : ℕ) (gone left : List ℕ) {xs : List ℕ}
    → xs ≡ gone ++ left
    → has q gone ≡ true
    → has q xs ≡ true
on_front q gone left e h = ap (has q) e ∙ has-append q gone left ∙ ground (arith, h)

on_back :
    (q : ℕ) (gone left : List ℕ) {xs : List ℕ}
    → xs ≡ gone ++ left
    → has q left ≡ true
    → has q xs ≡ true
on_back q gone left e h = ap (has q) e ∙ has-append q gone left ∙ ground (arith, h)

module _ {ℓ} {A U : Type ℓ} where
  -- The addresses on the list are those of `xs`, and an entry of the valid table stands at each.
  pub record Backed (c : Cache A U) (xs : List ℕ) : Type ℓ where
    pub valid : IsValid c.table
    pub list : IsList c.lru xs
    pub held : (q : ℕ) → has q xs ≡ true → stands q (entries c.table) ≡ true

  module _ (config : Config A U) where
    -- The node at `p` has outlived the time to live at `now`, and so have, at a reading of the clock
    -- for each from `ticks` on, all of some nodes.
    abbrev pub outlived : (now : ℕ) → State → ℕ → Bool
    outlived now s p = ltb (((s.nodes p).mod_time + s.list.ttl) % word) now

    abbrev pub AllExpired : State → (ticks : ℕ) → List ℕ → Type 0
    AllExpired s ticks [] = Unit
    AllExpired s ticks (p ∷ ps) =
        (outlived (config.clock ticks) s p ≡ true) × AllExpired s (ticks + 1) ps

    -- The callback for each entry in turn.
    abbrev pub call_all : List (Entry A) → U → U
    call_all [] u = u
    call_all (e ∷ es) u = call_all es (call_on_evict config e.payload u)

    abbrev pub addresses : List (Entry A) → List ℕ
    addresses [] = []
    addresses (e ∷ es) = e.addr ∷ addresses es

    -- The front of the list `xs` is gone, as far as its nodes had expired, each at its reading of
    -- the clock; what is left is an end of it, of which the oldest node had not expired at the last
    -- reading. The table has lost exactly the entries at the addresses that are gone, and the
    -- callback was called with these in their order. The nodes that are left keep their times, and
    -- what is not on the list `xs` is as it was.
    pub record Evicted (c : Cache A U) (xs : List ℕ) (c' : Cache A U) : Type ℓ where
      pub removed : List (Entry A)
      pub left : List ℕ
      pub parts : xs ≡ addresses removed ++ left
      pub expired : AllExpired c.lru c.ticks (addresses removed)
      pub lost : Perm (removed ++ entries c'.table) (entries c.table)
      pub called : c'.user ≡ call_all removed c.user
      pub backed : Backed c' left
      pub reading : ℕ
      pub reading_is : reading ≡ c.ticks + length removed
      pub last_reading : c'.ticks ≡ reading + 1
      pub fresh : (left ≡ []) ⊎ (lru_invalid (config.clock reading) c'.lru ≡ false)
      pub same_ttl : c'.lru.list.ttl ≡ c.lru.list.ttl
      pub same_times :
          (q : ℕ) → has q left ≡ true → (c'.lru.nodes q).mod_time ≡ (c.lru.nodes q).mod_time
      pub unlisted :
          (q : ℕ) → has q xs ≡ false → stands q (entries c'.table) ≡ stands q (entries c.table)
      pub same_node :
          (q : ℕ) → has q xs ≡ false → (q == null) ≡ false → c'.lru.nodes q ≡ c.lru.nodes q

    -- Nodes with the same times expire at the same readings.
    still_expired :
        (s s' : State) (ticks : ℕ) (ps : List ℕ)
        → s'.list.ttl ≡ s.list.ttl
        → ((q : ℕ) → has q ps ≡ true → (s'.nodes q).mod_time ≡ (s.nodes q).mod_time)
        → AllExpired s' ticks ps
        → AllExpired s ticks ps
    still_expired s s' ticks [] ttl times x = tt
    still_expired s s' ticks (p ∷ ps) ttl times (old, x) = (
      sym (ap₂ (λ t k. ltb ((t + k) % word) (config.clock ticks)) (times p (here p ps)) ttl) ∙ old,
      still_expired s s' (ticks + 1) ps ttl (λ q h. times q (there q p ps h)) x,
    )

    first_outlived :
        (s : State) (p now : ℕ)
        → s.list.lru ≡ p
        → lru_invalid now s ≡ true
        → outlived now s p ≡ true
    unfolding lru_invalid
    first_outlived s p now at old = ap (outlived now s) (sym at) ∙ old

    evict_loop_round :
        (fuel : ℕ) (c : Cache A U) {o : Option ℕ} {s : State} {p : ℕ} {e : Entry A} {t' : Table A}
        → evict_invalid_lru (config.clock c.ticks) c.lru ≡ ok (o, s)
        → o ≡ some p
        → at_address p (entries c.table) ≡ some e
        → find_and_remove c.table p e.hash ≡ ok t'
        → evict_loop config (suc fuel) c
          ≡ evict_loop config fuel (record {
            table = t';
            lru = s;
            user = call_on_evict config e.payload c.user;
            ticks = c.ticks + 1;
          })
    unfolding evict_loop load
    evict_loop_round fuel c run took at removed = rw (run, took, load, at, removed) refl

    evict_loop-Evicted :
        (fuel : ℕ) (c : Cache A U) (xs : List ℕ)
        → Backed c xs
        → length xs < fuel
        → Returns (evict_loop config fuel c) (Evicted c xs)
    unfolding evict_loop load
    evict_loop-Evicted zero c xs b lt = absurd (omega arith)
    evict_loop-Evicted (suc fuel) c xs b lt =
        let now = config.clock c.ticks in
        let (r, run, cases) = evict_invalid_lru_cases now c.lru xs b.list in
        elim cases [
          | inl (e, fine) ↦ (
            record c { ticks = c.ticks + 1 },
            rw (run, e),
            record {
              removed = [];
              left = xs;
              parts = refl;
              expired = tt;
              lost = Perm.refl _;
              called = refl;
              backed = record { valid = b.valid; list = b.list; held = b.held };
              reading = c.ticks;
              reading_is = omega arith;
              last_reading = refl;
              fresh = fine;
              same_ttl = refl;
              same_times = λ q h. refl;
              unlisted = λ q h. refl;
              same_node = λ q h real. refl;
            },
          )
          | inr (p, ys, xe, expired, took, off) ↦
              let (_, _, _, once, _) =
                subst (λ l. Linked c.lru.nodes null l null) xe b.list.links in
              let (entry, at, addr, (t', run', w)) =
                find_and_remove-Without c.table p b.valid (b.held p (rw xe (here p ys))) in
              let next : Cache A U = record {
                table = t';
                lru = r.1;
                user = call_on_evict config entry.payload c.user;
                ticks = c.ticks + 1;
              } in
              let (c', run'', done) =
                evict_loop-Evicted fuel next ys
                  (record {
                    valid = w.valid;
                    list = off.rest;
                    held = λ q h.
                        w.others q (ap (λ a. a == q) addr ∙ not_equal p q ys once h)
                        ∙ b.held q (rw xe (there q p ys h));
                  })
                  (omega (arith, ap length xe)) in
              let times = λ (q : ℕ) (h : has q ys ≡ true).
                off.same_times q (swap_ne p q (not_equal p q ys once h)) in
              (
                c',
                evict_loop_round fuel c run took at run' ∙ run'',
                record {
                  removed = entry ∷ done.removed;
                  left = done.left;
                  parts = xe ∙ ap₂ (λ a l. a ∷ l) (sym addr) done.parts;
                  expired = (
                    ap (outlived now c.lru) addr
                        ∙ first_outlived c.lru p now (b.list.head ∙ ap (λ l. first l null) xe)
                            expired,
                    still_expired c.lru r.1 (c.ticks + 1) (addresses done.removed) off.same_ttl
                        (λ q h.
                          times q (on_front q (addresses done.removed) done.left done.parts h))
                        done.expired,
                  );
                  lost = Perm.trans (Perm.cons entry done.lost) w.lost;
                  called = done.called;
                  backed = done.backed;
                  reading = done.reading;
                  reading_is = omega (arith, done.reading_is);
                  last_reading = done.last_reading;
                  fresh = done.fresh;
                  same_ttl = done.same_ttl ∙ off.same_ttl;
                  same_times = λ q h.
                      done.same_times q h
                      ∙ times q (on_back q (addresses done.removed) done.left done.parts h);
                  unlisted = λ q h.
                      let (ne, out) = apart q p ys (sym (ap (has q) xe) ∙ h) in
                      done.unlisted q out ∙ w.others q (ap (λ a. a == q) addr ∙ ne);
                  same_node = λ q h real.
                      let (ne, out) = apart q p ys (sym (ap (has q) xe) ∙ h) in
                      done.same_node q out real ∙ off.outside q out (swap_ne p q ne) real;
                },
              )
        ]

    -- Where every node on the list has an entry in a valid table, the eviction ends without a
    -- fault. It takes nodes off the front of the list as long as they have expired, each by its own
    -- reading of the clock, and stops at the first that has not, or at the end of the list. The
    -- table loses exactly the entries of these nodes, each is handed to the callback in the order
    -- of the list, and the table stays valid, with an entry for each node that is left. Entries off
    -- the list stay, with their nodes as they were.
    pub evict_invalid_lru_entries-Evicted :
        (c : Cache A U) (xs : List ℕ)
        → Backed c xs
        → Returns (evict_invalid_lru_entries config c) (Evicted c xs)
    unfolding evict_invalid_lru_entries
    evict_invalid_lru_entries-Evicted c xs b =
        evict_loop-Evicted (suc c.lru.list.nr_nodes) c xs b (omega (arith, b.list.counted))
