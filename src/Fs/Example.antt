-- ===== src/Fs/Example.antt =====
-- A disk of six blocks for the runs of src/fs.c: the boot block, one of inodes, the map, one of a file
-- and two that are free.
use waka_b4_research.Base.{
  ℕ, zero, suc, ◌+◌, ◌%◌, ◌/◌, ◌<◌, ◌≤◌, ◌≡◌, ◌≢◌, refl, sym, ◌∙◌, arith, true, false, ◌&&◌, some,
  List, [], ◌∷◌, ◌==◌, leb, if◌then◌else◌, Bool-cases, inl, inr, get_or,
}
use waka_b4_research.Fs.{Super, Volume, is_clear}
use waka_b4_research.Fs.Bitmap.{is_free, IsVolume}
use waka_b4_research.Fs.Inode.{Inode}
use waka_b4_research.Fs.Inode.Owned.{owned, IsOwned}
use waka_b4_research.Fs.Inode.Slots.{IsFile}
use waka_b4_research.Fs.Content.Bytes.{IsDense}
use waka_b4_research.CString.{strncmp}
use waka_b4_research.Fs.Bits.{AreBytes}
use waka_b4_research.Fs.Directory.{is_entry, namecmp}
use waka_b4_research.Fs.Directory.Entries.{IsDirectory, entry_at}
use waka_b4_research.Fs.Directory.Free.{IsText}
use waka_b4_research.Fs.Icache.{Icache, no_inode}
use waka_b4_research.Fs.Icache.Lock.{AreWords}

abbrev pub six_blocks : Super
six_blocks = record { size = 6; ninodes = 8; inodestart = 1; bmapstart = 2 }

-- The map has the first four blocks in use, and block 3 the bytes `x`.
abbrev pub disk_with : (ℕ → ℕ) → Volume
disk_with x = record {
  block = λ b i. if b == 2 && i == 0 then 15 else if b == 3 then x i else 0;
  logged = [];
}

is_free-of :
    (x : ℕ → ℕ) (m n : ℕ)
    → m ≡ n
    → is_free six_blocks (disk_with x) n ≡ false
    → is_free six_blocks (disk_with x) m ≡ false
is_free-of x m n e h = rw e h

in_use-one : (x : ℕ → ℕ) → is_free six_blocks (disk_with x) 1 ≡ false
unfolding is_clear
in_use-one x = refl

in_use-two : (x : ℕ → ℕ) → is_free six_blocks (disk_with x) 2 ≡ false
unfolding is_clear
in_use-two x = refl

in_use-three : (x : ℕ → ℕ) → is_free six_blocks (disk_with x) 3 ≡ false
unfolding is_clear
in_use-three x = refl

in_use-boot : (x : ℕ → ℕ) → is_free six_blocks (disk_with x) 0 ≡ false
unfolding is_clear
in_use-boot x = refl

disk_with-IsVolume : (x : ℕ → ℕ) → AreBytes x → IsVolume six_blocks (disk_with x)
disk_with-IsVolume x small = record {
  word = omega arith;
  bytes = λ b i. let here = small i in ground arith;
  boot = in_use-boot x;
  mapped = λ m (low, high). (omega arith, is_free-of x m 2 (omega arith) (in_use-two x));
  inodes = λ b (i, lt, e). (
    omega arith,
    is_free-of x b 1 (omega arith) (in_use-one x),
    λ (low, high). absurd (omega arith),
  );
}

abbrev pub zeros : ℕ → List ℕ
zeros zero = []
zeros (suc n) = 0 ∷ zeros n

-- An inode with block 3 alone.
abbrev pub one_block : (type size : ℕ) → Inode
one_block type size = record {
  dev = 1;
  inum = 1;
  ref = 1;
  holder = some 1;
  valid = true;
  type = type;
  major = 0;
  minor = 0;
  nlink = 1;
  size = size;
  addrs = 3 ∷ zeros 12;
}

abbrev pub file : Inode
file = one_block 2 2

-- The bytes of the file, 0 and 1 being below its size.
abbrev pub counting : ℕ → ℕ
counting i = i % 256

pub counting-AreBytes : AreBytes counting
counting-AreBytes i = omega arith

abbrev pub disk : Volume
disk = disk_with counting

pub disk-IsVolume : IsVolume six_blocks disk
disk-IsVolume = disk_with-IsVolume counting counting-AreBytes

get_or-zeros : (n k : ℕ) → get_or (zeros n) k 0 ≡ 0
get_or-zeros zero k = refl
get_or-zeros (suc n) zero = refl
get_or-zeros (suc n) (suc k) = get_or-zeros n k

pub zeros-AreWords : (n : ℕ) → AreWords (zeros n)
zeros-AreWords zero = tt
zeros-AreWords (suc n) = (omega arith, zeros-AreWords n)

owned-later : (x : ℕ → ℕ) (k : ℕ) → owned (3 ∷ zeros 12) (disk_with x) (suc k) ≡ 0
owned-later x k = elim (Bool-cases (leb (suc k) 12)) [
  | inl e ↦ rw e (get_or-zeros 12 k)
  | inr e ↦ rw e refl
]

owned-first : (x : ℕ → ℕ) (k : ℕ) → owned (3 ∷ zeros 12) (disk_with x) k ≢ 0 → k ≡ 0
owned-first x zero pos = refl
owned-first x (suc k) pos = absurd (pos (owned-later x k))

three-IsOwned : (x : ℕ → ℕ) → IsOwned six_blocks (disk_with x) 3
three-IsOwned x =
    (omega arith, in_use-three x, λ (low, high). omega arith, λ (i, lt, e). omega arith)

one_block-IsFile :
    (x : ℕ → ℕ) (type size : ℕ) → AreBytes x → IsFile six_blocks (one_block type size) (disk_with x)
one_block-IsFile x type size small = record {
  slots = refl;
  volume = disk_with-IsVolume x small;
  owns = record {
    owner = λ k lt pos. rw (owned-first x k pos) (three-IsOwned x);
    distinct = λ j k lt lt' pos e. owned-first x j pos ∙ sym (owned-first x k (λ z. pos (e ∙ z)));
  };
}

pub one_block-IsDense :
    (x : ℕ → ℕ) (type size : ℕ) → size ≤ 512 → IsDense (one_block type size) (disk_with x)
one_block-IsDense x type size le = record {
  small = omega arith;
  blocks = λ y lt. let low : y / 512 ≡ 0 = omega arith in rw low (λ e. omega arith);
}

pub file-IsFile : IsFile six_blocks file disk
file-IsFile = one_block-IsFile counting 2 2 counting-AreBytes

pub file-IsDense : IsDense file disk
file-IsDense = one_block-IsDense counting 2 2 (omega arith)

-- A buffer of bytes.
abbrev pub buffer : ℕ → ℕ
buffer i = (i + 100) % 256

pub disk_with-AreBytes : (x : ℕ → ℕ) → AreBytes x → (b : ℕ) → AreBytes ((disk_with x).block b)
disk_with-AreBytes x h b i = ground (arith, h i)

-- The bytes of a directory with the entry "." for inode 1.
abbrev pub dot_entry : ℕ → ℕ
dot_entry i = if i == 0 then 1 else if i == 2 then b'.' else 0

pub dot_entry-AreBytes : AreBytes dot_entry
dot_entry-AreBytes i = ground arith

abbrev pub directory : Icache
directory = record { inodes = one_block 1 16 ∷ no_inode ∷ []; volume = disk_with dot_entry }

abbrev pub directory-IsDirectory : IsDirectory six_blocks (one_block 1 16) (disk_with dot_entry)
directory-IsDirectory = record {
  type = refl;
  dense = one_block-IsDense dot_entry 1 16 (omega arith);
  count = 1;
  whole = refl;
}

pub not_in_directory :
    (j : ℕ)
    → j < 1
    → is_entry six_blocks (b'a' ∷ []) (entry_at (one_block 1 16) (disk_with dot_entry) j) ≡ false
unfolding namecmp strncmp
not_in_directory zero lt = refl
not_in_directory (suc j) lt = absurd (omega arith)

pub letter-IsText : IsText (b'a' ∷ [])
letter-IsText zero = omega arith
letter-IsText (suc i) = omega arith

pub directory-IsFile : IsFile six_blocks (one_block 1 16) (disk_with dot_entry)
directory-IsFile = one_block-IsFile dot_entry 1 16 dot_entry-AreBytes
