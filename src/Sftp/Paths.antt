-- ===== src/Sftp/Paths.antt =====
-- `get_abs_path` of endp/sftp.c: the remote path of a path that FUSE hands over.
use sftfs.Prelude.{
  ℕ, ◌+◌, ◌≤◌, ◌<◌, ◌≡◌, refl, ap, ◌∙◌, sym, none, some, List, ◌++◌, ◌⊎◌, inl, inr, arith, length,
  length-append, length-take, take, take_all, word, Returns, Option, ok, ◌>>=◌, subst, Ensures,
  >>=_Ensures, elim_Ensures, Ensures-any, Ensures-ok, ensured,
}
use sftfs.Str.{Heap}
use sftfs.Str.Room.{IsValid, Refused, text, take-take, take-append_left}
use sftfs.Str.Contents.{resize-Resized, extend-Yields}
use sftfs.Sftp.Api.{Libssh}
use sftfs.Sftp.{Sftp, Op, get_abs_path}
use sftfs.Str

-- The allocator refuses some block.
abbrev pub Short : Heap → Type 0
Short heap = (n : ℕ) × Refused heap n

module _ (ssh : Libssh) where
  -- The handle holds the base directory `base`, and maybe a path behind it.
  pub record HoldsBase (base : List ℕ) (s : Sftp ssh) : Type 0 where
    pub valid : IsValid s.curr_abs_path
    pub longer : s.base_dir_len ≤ s.curr_abs_path.size
    pub base_is : take s.base_dir_len s.curr_abs_path.c ≡ base
    pub base_len : length base ≡ s.base_dir_len

  pub elsewhere :
      {base : List ℕ} {s : Sftp ssh} (w : ssh.World)
      → HoldsBase base s
      → HoldsBase base (record s { world = w })
  elsewhere w h = record {
    valid = h.valid;
    longer = h.longer;
    base_is = h.base_is;
    base_len = h.base_len;
  }

  module _ (heap : Heap) where
    -- Where the handle holds the base directory, and the whole length does not come near the
    -- largest `size_t`: the absolute path is the base directory followed by the given path, and the
    -- handle still holds the base directory; NULL, with the same promise, only where the allocator
    -- refuses some block.
    pub get_abs_path-HoldsBase :
        (base rel : List ℕ) (s : Sftp ssh)
        → HoldsBase base s
        → length base + length rel + 17 < word
        → Returns
            (get_abs_path ssh heap rel s)
            λ r. HoldsBase base r.1 × ((r.0 ≡ some (base ++ rel)) ⊎ ((r.0 ≡ none) × Short heap))
    unfolding get_abs_path
    get_abs_path-HoldsBase base rel s h small =
        let (o, run, cases) =
          resize-Resized heap s.curr_abs_path s.base_dir_len h.valid (omega (arith, h.base_len)) in
        elim cases [
          | inr (e, refused) ↦ ((none, s), rw (run, e), (h, inr (refl, (s.base_dir_len, refused))))
          | inl (p₁, e, r) ↦
              let kept = r.kept s.base_dir_len h.longer (omega arith) ∙ h.base_is in
              let (o', run', cases') =
                extend-Yields heap p₁ rel r.valid (omega (arith, r.size_is, h.base_len)) in
              elim cases' [
                | inr (e', refused) ↦ (
                  (none, record s { curr_abs_path = p₁ }),
                  rw (run, e, run', e'),
                  (
                    record {
                      valid = r.valid;
                      longer = omega (arith, r.size_is);
                      base_is = kept;
                      base_len = h.base_len;
                    },
                    inr (refl, (p₁.size + length rel, refused)),
                  ),
                )
                | inl (p₂, e', v₂, t) ↦
                    let front = ap (λ k. take k p₁.c) r.size_is ∙ kept in
                    let whole = t ∙ ap (λ l. l ++ rel) front in
                    let longer : s.base_dir_len ≤ p₂.size = omega (
                      arith,
                      h.base_len,
                      ap length whole,
                      length-append base rel,
                      length-take p₂.size p₂.c,
                    ) in
                    (
                      (some (text p₂), record s { curr_abs_path = p₂ }),
                      rw (run, e, run', e'),
                      (
                        record {
                          valid = v₂;
                          longer = longer;
                          base_is =
                              sym (take-take s.base_dir_len p₂.size p₂.c longer)
                              ∙ ap (take s.base_dir_len) whole
                              ∙ take-append_left s.base_dir_len base rel (omega (arith, h.base_len))
                              ∙ take_all s.base_dir_len base (omega (arith, h.base_len));
                          base_len = h.base_len;
                        },
                        inl (ap some whole),
                      ),
                    )
              ]
        ]

    get_abs_path-world :
        (rel : List ℕ) (s : Sftp ssh)
        → Ensures (λ r. r.1.world ≡ s.world) (get_abs_path ssh heap rel s)
    unfolding get_abs_path
    get_abs_path-world rel s =
        >>=_Ensures {Q = λ o. Unit} (Str.resize heap s.curr_abs_path s.base_dir_len) _
          (Ensures-any _ λ o. tt)
          λ o q. elim_Ensures o _ _ (ensured refl) λ p₁.
            >>=_Ensures {Q = λ o. Unit} (Str.extend heap p₁ rel) _ (Ensures-any _ λ o. tt)
              λ o' q'. elim_Ensures o' _ _ (ensured refl) λ p₂. ensured refl

    -- An operation that begins with the absolute path, with its result where there is none.
    abbrev pub begins : {A : Type 0} → A → List ℕ → (List ℕ → Op ssh A) → Op ssh A
    begins fallback rel f s = get_abs_path ssh heap rel s >>= λ r. elim r.0 [
      | none ↦ ok (fallback, r.1)
      | some path ↦ f path r.1
    ]

    begins-from :
        {A : Type 0} {Q : A × Sftp ssh → Type 0} (fallback : A) (rel : List ℕ)
        (f : List ℕ → Op ssh A) (s : Sftp ssh) (o : Option (List ℕ)) (s' : Sftp ssh)
        → get_abs_path ssh heap rel s ≡ ok (o, s')
        → ((path : List ℕ) × (o ≡ some path) × Returns (f path s') Q)
          ⊎ ((o ≡ none) × Q (fallback, s'))
        → Returns (begins fallback rel f s) Q
    begins-from fallback rel f s o s' run (inl (path, e, (r, run', q))) = (r, rw (run, e) run', q)
    begins-from fallback rel f s o s' run (inr (e, q)) = ((fallback, s'), rw (run, e) refl, q)

    -- What a step after `get_abs_path` may rely on, and what holds without it.
    pub begins-Returns :
        {A : Type 0} (base rel : List ℕ) (fallback : A) (f : List ℕ → Op ssh A) (s : Sftp ssh)
        (Q : A × Sftp ssh → Type 0)
        → HoldsBase base s
        → length base + length rel + 17 < word
        → ((s' : Sftp ssh)
            → HoldsBase base s'
            → s'.world ≡ s.world
            → Returns (f (base ++ rel) s') Q)
        → ((s' : Sftp ssh) → HoldsBase base s' → s'.world ≡ s.world → Short heap → Q (fallback, s'))
        → Returns (begins fallback rel f s) Q
    begins-Returns base rel fallback f s Q h small step short =
        let ((o, s'), run, (h', cases)) = get_abs_path-HoldsBase base rel s h small in
        let same =
          Ensures-ok (subst (Ensures (λ r. r.1.world ≡ s.world)) run (get_abs_path-world rel s)) in
        begins-from fallback rel f s o s' run (elim cases [
          | inl e ↦ inl (base ++ rel, e, step s' h' same)
          | inr (e, lack) ↦ inr (e, short s' h' same lack)
        ])
