-- ===== src/Fuse/Listing.antt =====
-- `sftfs_readdir` of core.c over the SFTP endpoint: what FUSE gets of a directory of the server.
use Prim.Native.Nat.{bit_and}
use mathlib.Core.List.{map}
use sftfs.Prelude.{
  ℕ, ◌<◌, ◌≡◌, refl, ap, ◌∙◌, Bool, true, false, List, [], ◌∷◌, Run, ok, fault, ◌>>=◌, Returns,
  if◌then◌else◌, length,
}
use sftfs.Str.{Heap}
use sftfs.Sftp.{Sftp}
use sftfs.Sftp.Api.{Libssh, Attributes}
use sftfs.Sftp.Errno.{Rc, done, minus, enomem}
use sftfs.Sftp.Transfer.{direntry}
use sftfs.Sftp.Whole.{sftp_endpoint}
use sftfs.Sftp.Listing.{HandsOut, feed, finished, sftp_readdir-feed}
use sftfs.Endpoint.{Direntry}
use sftfs.Fuse.{FileInfo, FillDir, readdir, readdir_callee}

-- The buffer after the entries up to the one that it is too small for, and whether there is one.
unfoldable pub fill_all : {B : Type 0} → FillDir B → List Direntry → B → B × Bool
fill_all fill [] buf = (buf, false)
fill_all fill (d ∷ ds) buf =
    let (full, buf') = fill d.name d.stat buf in
    let rest = fill_all fill ds buf' in if full then (buf', true) else rest

fill_all_step :
    {B : Type 0} (fill : FillDir B) (ds : List Direntry) (full : Bool) (buf : B)
    → feed (readdir_callee fill) ds (buf, false) ≡ ok (fill_all fill ds buf)
    → (if full then ok (buf, full) else feed (readdir_callee fill) ds (buf, full))
      ≡ ok (if full then (buf, true) else fill_all fill ds buf)
fill_all_step fill ds true buf h = refl
fill_all_step fill ds false buf h = h

feed-fill_all :
    {B : Type 0} (fill : FillDir B) (ds : List Direntry) (buf : B)
    → feed (readdir_callee fill) ds (buf, false) ≡ ok (fill_all fill ds buf)
unfolding fill_all readdir_callee
feed-fill_all fill [] buf = refl
feed-fill_all fill (d ∷ ds) buf = fill_all_step fill ds _ _ (feed-fill_all fill ds _)

module _ (ssh : Libssh) (fi : FileInfo) {Left : List Attributes → ssh.World → Type 0}
    (server : HandsOut ssh fi.fh Left) (heap : Heap) where
  -- The result of `sftfs_readdir`, and the buffer.
  abbrev pub Filled : {B : Type 0} → B × Bool → (Rc × B) × Sftp ssh → Type 0
  Filled (buf, short) r = r.0 ≡ ((if short then minus enomem else done), buf)

  ends-Filled :
      {B : Type 0} (run : Run ((Rc × (B × Bool)) × Sftp ssh)) (filled : B × Bool)
      → (run >>= λ r. ok r.0) ≡ ok (done, filled)
      → Returns
          (run >>= λ r.
            let (buf', failed) = r.0.1 in
            ok (((if failed then minus enomem else r.0.0), buf'), r.1))
          (Filled filled)
  ends-Filled fault filled h = cc
  ends-Filled (ok (q, s)) filled h =
      let same : q ≡ (done, filled) = cc in
      (_, refl, ap (λ q. ((if q.1.1 then minus enomem else q.0), q.1.0)) same)

  -- Over the SFTP endpoint, `sftfs_readdir` of a directory of the server that is read from its
  -- beginning ends, and puts the entries into the buffer of FUSE in the order of the server, each
  -- once and with its attributes only if the flag for them is set. Where all of them go in, the
  -- result is 0; where the buffer does not take one, nothing follows it and the result is -ENOMEM.
  -- The fuel is more than the number of entries.
  pub sftfs_readdir-Filled :
      {B : Type 0} (fuel flags : ℕ) (path : List ℕ) (xs : List Attributes) (fill : FillDir B)
      (buf : B) (s : Sftp ssh)
      → Left xs s.world
      → length xs < fuel
      → Returns
          (readdir (sftp_endpoint ssh heap fuel) path buf fill fi flags s)
          (Filled (fill_all fill (map (direntry ssh (bit_and flags 1)) xs) buf))
  unfolding readdir
  sftfs_readdir-Filled fuel flags path xs fill buf s left lt =
      let entries = map (direntry ssh (bit_and flags 1)) xs in
      ends-Filled _ (fill_all fill entries buf) (
        sftp_readdir-feed ssh fi.fh server (readdir_callee fill) heap fuel (bit_and flags 1) path xs
          (buf, false) s left lt
        ∙ ap (λ r. r >>= finished ssh fi.fh server (readdir_callee fill))
            (feed-fill_all fill entries buf))
