-- ===== src/Fuse/Access.antt =====
-- What `sftfs_access` of core.c grants.
use Prim.Native.Nat.{bit_and}
use sftfs.Prelude.{
  ℕ, ◌≡◌, ◌≢◌, ◌⊎◌, inl, inr, refl, true, false, List, ok, ==_iff, ◌==◌, Bool-cases,
}
use sftfs.Sftp.{Stat}
use sftfs.Sftp.Errno.{done, minus, eacces}
use sftfs.Endpoint.{Endpoint}
use sftfs.Fuse.{access, access_denied, lacks}

-- Where `mode` has the bit, the permissions have the owner's one.
abbrev pub Allows : (mode st_mode bit perm_bit : ℕ) → Type 0
Allows mode st_mode bit perm_bit = bit_and mode bit ≢ 0 → bit_and st_mode perm_bit ≢ 0

-- Reading, writing and executing, as far as they are asked for.
abbrev pub Permits : (mode st_mode : ℕ) → Type 0
Permits mode st_mode =
    Allows mode st_mode 4 256 × Allows mode st_mode 2 128 × Allows mode st_mode 1 64

lacks-cases :
    (mode st_mode bit perm_bit : ℕ)
    → ((lacks mode st_mode bit perm_bit ≡ false) × Allows mode st_mode bit perm_bit)
      ⊎ ((lacks mode st_mode bit perm_bit ≡ true) × ¬ (Allows mode st_mode bit perm_bit))
lacks-cases mode st_mode bit perm_bit =
    let asked = bit_and mode bit in
    let had = bit_and st_mode perm_bit in
    elim (Bool-cases (asked == 0)) [
      | inl e ↦ inl (rw e refl, λ asks. absurd (asks ((==_iff asked 0).0 e)))
      | inr e ↦ elim (Bool-cases (had == 0)) [
        | inl f ↦ inr (
          rw (e, f) refl,
          λ allows. allows (λ z. absurd (cc ((==_iff asked 0).1 z, e))) ((==_iff had 0).0 f),
        )
        | inr f ↦ inl (rw (e, f) refl, λ asks z. cc ((==_iff had 0).1 z, f))
      ]
    ]

denied-cases :
    (mode st_mode : ℕ)
    → ((access_denied mode st_mode ≡ false) × Permits mode st_mode)
      ⊎ ((access_denied mode st_mode ≡ true) × ¬ (Permits mode st_mode))
unfolding access_denied
denied-cases mode st_mode = elim (lacks-cases mode st_mode 4 256) [
  | inr (e, denied) ↦ inr (rw e refl, λ p. denied p.0)
  | inl (e, r) ↦ elim (lacks-cases mode st_mode 2 128) [
    | inr (f, denied) ↦ inr (rw (e, f) refl, λ p. denied p.1)
    | inl (f, w) ↦ elim (lacks-cases mode st_mode 1 64) [
      | inr (g, denied) ↦ inr (rw (e, f, g) refl, λ p. denied p.2)
      | inl (g, x) ↦ inl (rw (e, f, g) refl, (r, w, x))
    ]
  ]
]

-- Where the endpoint reports the attributes of a path, access to it is granted if the owner's
-- permissions have every kind that is asked for, and denied with -EACCES if they do not.
pub access-Permits :
    (endp : Endpoint) (attr stat : Stat) (path : List ℕ) (mode : ℕ) (w w' : endp.World)
    → endp.getattr path 0 attr w ≡ ok ((done, stat), w')
    → ((access endp attr path mode w ≡ ok (done, w')) × Permits mode stat.mode)
      ⊎ ((access endp attr path mode w ≡ ok (minus eacces, w')) × ¬ (Permits mode stat.mode))
unfolding access
access-Permits endp attr stat path mode w w' e = elim (denied-cases mode stat.mode) [
  | inl (f, allowed) ↦ inl (rw (e, f) refl, allowed)
  | inr (f, denied) ↦ inr (rw (e, f) refl, denied)
]
