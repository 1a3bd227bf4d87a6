-- ===== src/Cache/Core/Free.antt =====
-- Freeing and invalidating an entry of cache/cache.c.
use mathlib.Core.List.{Perm}
use sftfs.Prelude.{
  ℕ, ◌≡◌, ◌≢◌, refl, ap, ◌∙◌, true, false, not, Option, some, none, List, ◌∷◌, ◌++◌, ok, fault, Run,
  Returns, ◌>>=◌, if◌then◌else◌, ◌==◌,
}
use sftfs.Htable
use sftfs.Htable.{Entry, Table, Link, deref}
use sftfs.Htable.Valid.{entries}
use sftfs.Cache.Lru.{null, node_unlinked}
use sftfs.Cache.Lru.Seg.{has, not_equal}
use sftfs.Cache.Core.{
  Cache, CacheRc, cache_ok, unexpected_entry, Config, load, link_of, take, free, invalidate,
  call_on_evict, evict_invalid_lru_entries,
}
use sftfs.Cache.Core.Stands.{remove-Without}
use sftfs.Cache.Core.Evict.{Evicted, Backed, evict_invalid_lru_entries-Evicted}
use sftfs.Cache.Core.Take.{Taken, not_left, Idle, link_of-leads, unlinked_lem, take-Idle}

module _ {ℓ} {A U : Type ℓ} (config : Config A U) where
  free_runs :
      (c : Cache A U) (p : ℕ) {l : Link} {f : Entry A} {t : Table A} {c' : Cache A U}
      → node_unlinked c.lru p ≡ true
      → link_of c p ≡ ok l
      → deref c.table l ≡ some f
      → Htable.remove c.table l ≡ ok t
      → evict_invalid_lru_entries config (record c { table = t }) ≡ ok c'
      → free config c (some p) ≡ ok (c', cache_ok)
  unfolding free
  free_runs c p {l = l} unlinked run leads removed evicted =
      let from_entry : Link → Option (Entry A) → Run (Cache A U × CacheRc) = λ l o. elim o [
        | none ↦ ok (c, unexpected_entry)
        | some e ↦ Htable.remove c.table l >>= λ t.
            evict_invalid_lru_entries config (record c { table = t }) >>= λ c'. ok (c', cache_ok)
      ] in
      let found = λ (r : Run Link). r >>= λ l. from_entry l (deref c.table l) in
      ap (λ b. if not b then fault else found (link_of c p)) unlinked
      ∙ ap found run
      ∙ ap (from_entry l) leads
      ∙ rw (removed, evicted) refl

  -- What `free` makes of a cache: the table loses the entry at `p`, and then what has expired is
  -- evicted.
  pub record Freed (c : Cache A U) (xs : List ℕ) (p : ℕ) (c' : Cache A U) : Type ℓ where
    pub gone : Entry A
    pub loaded : load c p ≡ ok gone
    pub at : gone.addr ≡ p
    pub table : Table A
    pub lost : Perm (gone ∷ entries table) (entries c.table)
    pub evicted : Evicted config (record c { table = table }) xs c'

  -- In a cache whose list and table agree, freeing an entry that stands off the list, linked to
  -- nothing, succeeds: the table loses that entry, and then exactly what has expired is evicted.
  pub free-Backed :
      (c : Cache A U) (p : ℕ) (xs : List ℕ)
      → p ≢ null
      → Backed c xs
      → Idle config c xs p
      → Returns (free config c (some p)) λ r. (r.1 ≡ cache_ok) × Freed c xs p r.0
  free-Backed c p xs ne b idle =
      let (f, loaded, eq, (l, run, leads)) = link_of-leads c p b.valid idle.held in
      let (t, run', w) = remove-Without c.table l b.valid leads in
      let (c', run'', e) =
        evict_invalid_lru_entries-Evicted config (record c { table = t }) xs
          (record {
            valid = w.valid;
            list = b.list;
            held =
                λ q h. w.others q (ap (λ a. a == q) eq ∙ not_equal p q xs idle.off h) ∙ b.held q h;
          }) in
      (
        (c', cache_ok),
        free_runs c p (unlinked_lem c.lru p xs b.list ne idle.off idle.detached) run leads run'
            run'',
        (
          refl,
          record { gone = f; loaded = loaded; at = eq; table = t; lost = w.lost; evicted = e },
        ),
      )

  invalidate_runs :
      (c : Cache A U) (p : ℕ) {c₁ c₂ c₃ : Cache A U} {e : Entry A}
      → take config c p ≡ ok (c₁, some p)
      → load c₁ p ≡ ok e
      → free config (record c₁ { user = call_on_evict config e.payload c₁.user }) (some p)
        ≡ ok (c₂, cache_ok)
      → evict_invalid_lru_entries config c₂ ≡ ok c₃
      → invalidate config c p ≡ ok (c₃, cache_ok)
  unfolding invalidate
  invalidate_runs c p {c₁ = c₁} taken loaded freed evicted =
      let ended : Cache A U × CacheRc → Run (Cache A U × CacheRc) =
        λ r. evict_invalid_lru_entries config r.0 >>= λ c. ok (c, r.1) in
      let freeing : Cache A U → ℕ → Entry A → Run (Cache A U × CacheRc) = λ d q e.
        free config (record d { user = call_on_evict config e.payload d.user }) (some q)
        >>= ended in
      let after : Cache A U × Option ℕ → Run (Cache A U × CacheRc) = λ r. elim r.1 [
        | none ↦ ok (r.0, unexpected_entry)
        | some q ↦ load r.0 q >>= freeing r.0 q
      ] in
      ap (λ r. r >>= after) taken
      ∙ ap (λ r. r >>= freeing c₁ p) loaded
      ∙ ap (λ r. r >>= ended) freed
      ∙ ap (λ r. r >>= λ c. ok (c, cache_ok)) evicted

  -- What `invalidate` makes of a cache: the entry is taken, the callback is called for it, it is
  -- freed, and what has expired is evicted once more.
  pub record Invalidated (c : Cache A U) (xs ys : List ℕ) (p : ℕ) (c' : Cache A U) : Type ℓ where
    pub after_take : Cache A U
    pub taken : Taken config c xs ys p after_take
    pub gone : Entry A
    pub loaded : load after_take p ≡ ok gone
    pub after_free : Cache A U
    pub freed :
        Freed
          (record after_take { user = call_on_evict config gone.payload after_take.user })
          taken.evicted.left
          p
          after_free
    pub evicted : Evicted config after_free freed.evicted.left c'
    pub off : has p evicted.left ≡ false

  -- In a cache whose list and table agree, invalidating an entry that is on the list succeeds. The
  -- entry is taken off the list and what has expired is evicted; then the callback is called with
  -- the payload of the entry, and the table loses that entry. Whatever expires meanwhile is
  -- evicted, nothing else leaves the list or the table, and these agree.
  pub invalidate-Backed :
      (c : Cache A U) (p : ℕ) (xs ys : List ℕ)
      → p ≢ null
      → Backed c (xs ++ p ∷ ys)
      → Returns (invalidate config c p) λ r. (r.1 ≡ cache_ok) × Invalidated c xs ys p r.0
  invalidate-Backed c p xs ys ne b =
      let ((c₁, o), run, (same, taken)) = take-Idle config c p xs ys b in
      let b₁ = taken.evicted.backed in
      let idle = taken.idle in
      let left = taken.evicted.left in
      let (e, run', _, _) = link_of-leads c₁ p b₁.valid idle.held in
      let called : Cache A U = record c₁ { user = call_on_evict config e.payload c₁.user } in
      let ((c₂, rc), run'', (fine, freed)) =
        free-Backed called p left ne (record { valid = b₁.valid; list = b₁.list; held = b₁.held })
          (record { held = idle.held; off = idle.off; detached = idle.detached }) in
      let left₂ = freed.evicted.left in
      let (c₃, run₃, e₃) = evict_invalid_lru_entries-Evicted config c₂ left₂ freed.evicted.backed in
      (
        (c₃, cache_ok),
        invalidate_runs c p (run ∙ ap (λ o. ok (c₁, o)) same) run'
            (run'' ∙ ap (λ r. ok (c₂, r)) fine) run₃,
        (
          refl,
          record {
            after_take = c₁;
            taken = taken;
            gone = e;
            loaded = run';
            after_free = c₂;
            freed = freed;
            evicted = e₃;
            off = not_left config p e₃ (not_left config p freed.evicted idle.off);
          },
        ),
      )
