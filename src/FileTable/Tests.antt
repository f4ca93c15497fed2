-- ===== src/FileTable/Tests.antt =====
-- Runs of the functions of src/file.c on a table of two files.
use waka_b4_research.Base.{
  ℕ, zero, suc, ◌≡◌, refl, arith, true, Option, some, List, [], ◌∷◌, Returns,
}
use waka_b4_research.FileTable.{
  File, no_file, file_at, fd_inode, fileclose, filewrite, puts_inode, Chunk,
}
use waka_b4_research.FileTable.Refs.{AreCounted, holds}
use waka_b4_research.FileTable.Chunks.{WriteEnds, filewrite_lem}

abbrev log_file : File
log_file = record {
  type = fd_inode;
  ref = 2;
  readable = true;
  writable = true;
  pipe = 0;
  ip = 7;
  off = 100;
}

-- Two descriptors hold the first file.
abbrev table : List File
table = log_file ∷ no_file ∷ []

held_twice : (i : ℕ) → (file_at table i).ref ≡ holds i (0 ∷ 0 ∷ [])
held_twice zero = refl
held_twice (suc zero) = refl
held_twice (suc (suc i)) = ground arith

table-AreCounted : AreCounted table (0 ∷ 0 ∷ [])
table-AreCounted = record { exact = held_twice; few = omega arith }

-- The last descriptor gives the inode back.
last_close : Returns (λ r _. r ≡ puts_inode 7) (fileclose 0 (record log_file { ref = 1 } ∷ []))
unfolding fileclose
last_close = refl

-- An inode that takes every chunk whole.
abbrev writes_all : Chunk → Option ℕ
writes_all c = some c.size

filewrite_lem_example : WriteEnds writes_all 100 4000 (filewrite writes_all 0 4000 log_file)
filewrite_lem_example =
    filewrite_lem writes_all 0 4000 log_file refl refl (omega arith) (omega arith)
