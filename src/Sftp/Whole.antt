-- ===== src/Sftp/Whole.antt =====
-- include/endp/sftp.h: the operations of endp/sftp.c as an endpoint.
--
-- A buffer that an operation fills on success alone keeps what it holds otherwise. `fuel` bounds the
-- entries of a directory that are read in one call: what a server never ends is a fault.
use sftfs.Prelude.{ℕ, Option, none, some, List, ◌++◌, Run, ok, fault, ◌>>=◌, length, drop}
use sftfs.Str.{Heap}
use sftfs.Sftp
use sftfs.Sftp.{Sftp, Stat}
use sftfs.Sftp.Api.{Libssh}
use sftfs.Sftp.Errno.{Rc}
use sftfs.Sftp.Transfer
use sftfs.Endpoint.{Endpoint}

-- What a buffer holds after an operation.
abbrev pub filled : {A W : Type 0} → A → (Rc × Option A) × W → Run ((Rc × A) × W)
filled old ((rc, none), w) = ok ((rc, old), w)
filled old ((rc, some new), w) = ok ((rc, new), w)

-- What a buffer holds after an operation that writes to its front.
abbrev pub filled_front :
    {W : Type 0} → List ℕ → (Rc × Option (List ℕ)) × W → Run ((Rc × List ℕ) × W)
filled_front old ((rc, none), w) = ok ((rc, old), w)
filled_front old ((rc, some new), w) = ok ((rc, new ++ drop (length new) old), w)

-- The bytes read are in front of what the buffer held.
abbrev pub read_into : {W : Type 0} → List ℕ → (Rc × List ℕ) × W → (Rc × List ℕ) × W
read_into buf r = ((r.0.0, r.0.1 ++ drop (length r.0.1) buf), r.1)

abbrev pub within_fuel : {A : Type 0} → Option A → Run A
within_fuel none = fault
within_fuel (some a) = ok a

abbrev pub sftp_endpoint : (ssh : Libssh) → Heap → (fuel : ℕ) → Endpoint
sftp_endpoint ssh heap fuel = record {
  World = Sftp ssh;
  getattr = λ path file stat w. Sftp.getattr ssh heap path file w >>= filled stat;
  readlink = λ path buf bufsiz w. Sftp.readlink ssh heap path bufsiz w >>= filled_front buf;
  mkdir = Sftp.mkdir ssh heap;
  unlink = Sftp.unlink ssh heap;
  rmdir = Sftp.rmdir ssh heap;
  symlink = Sftp.symlink ssh heap;
  rename = Sftp.rename ssh heap;
  chmod = Sftp.chmod ssh heap;
  chown = Sftp.chown ssh heap;
  opendir = Sftp.opendir ssh heap;
  readdir =
      λ path dir flags callee v w. Transfer.readdir ssh fuel dir flags callee v w >>= within_fuel;
  closedir = Sftp.closedir ssh;
  open_file = Sftp.open_file ssh heap;
  read = λ file buf size off w. ok (read_into buf (Transfer.read ssh file size off w));
  write = λ file buf off w. ok (Transfer.write ssh file buf off w);
  statfs = Sftp.statfs ssh heap;
  close = Sftp.close ssh;
  access = Sftp.access ssh heap;
  create = Sftp.create ssh heap;
  utimens = Sftp.utimens ssh heap;
}
