-- ===== src/Tests/Sessions.antt =====
-- A session of endp/sftp.c with a server that hands out a file byte by byte.
use mathlib.Core.List.{map}
use sftfs.Prelude.{
  Returns, inl, inr, Bool-cases, ◌==◌, ==_iff, if◌then◌else◌, ◌+◌, ◌-◌, sym, Option, replicate, ltb,
  ℕ, zero, suc, ◌≤◌, ◌<◌, ◌≡◌, refl, subst, true, false, none, some, some_inj, List, [], ◌∷◌, arith,
  length, take, drop,
}
use sftfs.Str.{Str, Heap}
use sftfs.Str.Room.{IsValid}
use sftfs.Sftp.Api.{Libssh, Attributes}
use sftfs.Sftp.{Sftp}
use sftfs.Sftp.Transfer.{read, write, direntry}
use sftfs.Sftp.Writes.{Accepts, Writes, patched, in_range, unpatched, write-Writes}
use sftfs.Sftp.Whole.{sftp_endpoint}
use sftfs.Sftp.Listing.{HandsOut}
use sftfs.Fuse.{FileInfo, FillDir, readdir}
use sftfs.Fuse.Listing.{fill_all, Filled, sftfs_readdir-Filled}
use sftfs.Sftp.Reads.{Serves, Reads, read-Reads}

abbrev content : List ℕ
content = 10 ∷ 11 ∷ 12 ∷ []

unfoldable pub next_byte : ℕ → List ℕ → List ℕ
next_byte zero bytes = []
next_byte (suc n) [] = []
next_byte (suc n) (b ∷ bs) = b ∷ []

-- A server that refuses everything.
abbrev pub refusing : (World : Type 0) → Libssh
refusing World = record {
  World = World;
  get_error = λ w. 4;
  sftp_new = λ w. (true, w);
  sftp_init = λ w. (true, w);
  sftp_free = λ w. w;
  canonicalize_path = λ path w. (some path, w);
  stat = λ path w. (none, w);
  lstat = λ path w. (none, w);
  fstat = λ file w. (none, w);
  readlink = λ path w. (none, w);
  mkdir = λ path mode w. (false, w);
  unlink = λ path w. (false, w);
  rmdir = λ path w. (false, w);
  symlink = λ target path w. (false, w);
  rename = λ old new w. (false, w);
  chmod = λ path mode w. (false, w);
  chown = λ path uid gid w. (false, w);
  utimes = λ path atime mtime w. (false, w);
  opendir = λ path w. (none, w);
  readdir = λ dir w. (none, w);
  dir_eof = λ dir w. true;
  closedir = λ dir w. (true, w);
  open_file = λ path flags mode w. (none, w);
  seek64 = λ file off w. (true, w);
  read = λ file size w. (none, w);
  write = λ file bytes w. (none, w);
  statvfs = λ path w. (none, w);
  close = λ file w. (true, w);
}

-- The world is the position in the file, of which the server hands out a byte at a time.
abbrev pub server : Libssh
server = record (refusing ℕ) {
  seek64 = λ file off w. (true, off);
  read = λ file size w. (some (next_byte size (drop w content)), w);
}

next_byte-front :
    (left : ℕ) (d : List ℕ)
    → (next_byte left d ≡ take (length (next_byte left d)) d) × (length (next_byte left d) ≤ left)
unfolding next_byte
next_byte-front zero d = (refl, omega arith)
next_byte-front (suc n) [] = (refl, omega arith)
next_byte-front (suc n) (b ∷ bs) = (refl, omega arith)

next_byte-end : (left : ℕ) (d : List ℕ) → 0 < left → next_byte left d ≡ [] → d ≡ []
unfolding next_byte
next_byte-end zero d pos h = absurd (omega arith)
next_byte-end (suc n) [] pos h = refl
next_byte-end (suc n) (b ∷ bs) pos h = cc

abbrev Open : ℕ → Type 0
Open w = Unit

server-Serves : Serves server 1 content Open
server-Serves = record {
  stays = λ off left w o. tt;
  answers = λ off left w bytes o h.
      subst (λ l. (l ≡ take (length l) (drop off content)) × (length l ≤ left)) (some_inj h)
        (next_byte-front left (drop off content));
  ends = λ off left w o pos h. next_byte-end left (drop off content) pos (some_inj h);
}

abbrev pub base_path : Str
base_path = record { size = 2; capacity = 2; c = b'/' ∷ b'r' ∷ 0 ∷ [] }

pub base_path-IsValid : IsValid base_path
base_path-IsValid = record {
  roomy = record { fits = omega arith; small = omega arith; room = refl };
  ended = refl;
}

abbrev session : Sftp server
session = record { world = 0; base_dir_len = 2; curr_abs_path = base_path }

abbrev pub base : List ℕ
base = b'/' ∷ b'r' ∷ []

read-Reads_example : Reads server 1 content Open 2 1 (read server 1 2 1 session)
read-Reads_example = read-Reads server 1 content server-Serves 2 1 (omega arith) session tt

read_runs : (read server 1 2 1 session).0.1 ≡ 11 ∷ 12 ∷ []
unfolding read next_byte
read_runs = refl

abbrev pub heap : Heap
heap = record { grants = λ n. true; junk = λ i. 7 }

-- A file that takes a byte at a time, with the position in it.
abbrev File : Type 0
File = (ℕ → ℕ) × ℕ

abbrev put : ℕ → ℕ → (ℕ → ℕ) → ℕ → ℕ
put off b old i = if i == off then b else old i

unfoldable take_byte : List ℕ → File → Option ℕ × File
take_byte [] w = (some 0, w)
take_byte (b ∷ bs) w = (some 1, (put w.1 b w.0, w.1))

abbrev writer : Libssh
writer = record (refusing File) {
  seek64 = λ file off w. (true, (w.0, off));
  write = λ file bytes w. take_byte bytes w;
}

abbrev Always : File → Type 0
Always w = Unit

put-patched :
    (off b : ℕ) (bs : List ℕ) (old : ℕ → ℕ) (i : ℕ) → put off b old i ≡ patched off 1 (b ∷ bs) old i
put-patched off b bs old i = elim (Bool-cases (i == off)) [
  | inl e ↦
      let same = (==_iff i off).0 e in
      let within : in_range off 1 i ≡ true = ground (arith, same) in
      let first : i - off ≡ 0 = omega (arith, same) in rw (e, within, first) refl
  | inr e ↦ let outside : in_range off 1 i ≡ false = ground arith in rw (e, outside) refl
]

taken :
    (off : ℕ) (bytes : List ℕ) (w : File) (k : ℕ)
    → (take_byte bytes (w.0, off)).0 ≡ some k
    → (k ≤ length bytes)
      × ((i : ℕ) → (take_byte bytes (w.0, off)).1.0 i ≡ patched off k bytes w.0 i)
unfolding take_byte
taken off [] w k h =
    let nothing : 0 ≡ k = some_inj h in
    (
      omega (arith, nothing),
      λ i. subst (λ n. w.0 i ≡ patched off n [] w.0 i) nothing (sym (unpatched off [] w.0 i)),
    )
taken off (b ∷ bs) w k h =
    let one : 1 ≡ k = some_inj h in
    (
      omega (arith, one),
      λ i.
          subst (λ n. put off b w.0 i ≡ patched off n (b ∷ bs) w.0 i) one
            (put-patched off b bs w.0 i),
    )

writer-Accepts : Accepts writer 1 Always (λ w. w.0)
writer-Accepts = record {
  stays = λ off bytes w o. tt;
  accepted = λ off bytes w k o h. taken off bytes w k h;
}

abbrev empty_file : Sftp writer
empty_file = record { world = ((λ i. 0), 0); base_dir_len = 2; curr_abs_path = base_path }

write-Writes_example :
    Writes writer 1 writer-Accepts
      (7 ∷ 8 ∷ [])
      5
      (omega arith)
      empty_file.world
      (write writer 1 (7 ∷ 8 ∷ []) 5 empty_file)
write-Writes_example =
    write-Writes writer 1 writer-Accepts (7 ∷ 8 ∷ []) 5 (omega arith) empty_file tt

-- A directory in which so many files are left.
abbrev a_file : Attributes
a_file = record {
  name = b'f' ∷ [];
  permissions = 420;
  size = 3;
  uid = 1;
  gid = 1;
  atime = 0;
  atime_nseconds = 0;
  mtime = 0;
  mtime_nseconds = 0;
}

unfoldable hand_out : ℕ → Option Attributes × ℕ
hand_out zero = (none, zero)
hand_out (suc n) = (some a_file, n)

abbrev lister : Libssh
lister = record (refusing ℕ) { readdir = λ dir w. hand_out w }

abbrev Left : List Attributes → ℕ → Type 0
Left xs w = replicate w a_file ≡ xs

handed :
    (a : Attributes) (xs : List Attributes) (w : ℕ)
    → Left (a ∷ xs) w
    → ((hand_out w).0 ≡ some a) × Left xs (hand_out w).1
unfolding hand_out
handed a xs zero h = cc
handed a xs (suc n) h = (cc, cc)

ended : (w : ℕ) → Left [] w → ((hand_out w).0 ≡ none) × (true ≡ true)
unfolding hand_out
ended zero h = (refl, refl)
ended (suc n) h = cc

lister-HandsOut : HandsOut lister 1 Left
lister-HandsOut = record { entry = handed; last = ended }

abbrev directory : Sftp lister
directory = record { world = 2; base_dir_len = 2; curr_abs_path = base_path }

abbrev two_files : List Attributes
two_files = a_file ∷ a_file ∷ []

abbrev dir_path : List ℕ
dir_path = b'/' ∷ b'd' ∷ []

abbrev fi : FileInfo
fi = record { fh = 1; flags = 0 }

-- A buffer with room for one entry.
abbrev one_fits : FillDir ℕ
one_fits name stat n = (ltb 0 n, n + 1)

sftfs_readdir-Filled_example :
    Returns (readdir (sftp_endpoint lister heap 3) dir_path 0 one_fits fi 1 directory) (
      Filled lister fi lister-HandsOut heap
        (fill_all one_fits (map (direntry lister 1) two_files) 0))
sftfs_readdir-Filled_example =
    sftfs_readdir-Filled lister fi lister-HandsOut heap 3 1 dir_path two_files one_fits 0 directory
      refl (omega arith)
