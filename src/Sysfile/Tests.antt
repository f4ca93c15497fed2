-- ===== src/Sysfile/Tests.antt =====
-- Runs of the system calls on descriptors, where descriptors 0 and 2 and one of another process hold
-- the first file. The arguments are all 0.
use waka_b4_research.Base.{
  find_index, ℕ, zero, suc, ◌≡◌, refl, arith, true, [], ◌∷◌, Returns, replicate,
}
use waka_b4_research.FileTable.{File, no_file, file_at, fd_inode, filedup, fileread}
use waka_b4_research.FileTable.Refs.{holds}
use waka_b4_research.Syscall.{argint, argptr, fetchint}
use waka_b4_research.Sysfile.{Desc, sys_dup, sys_close, sys_read, argfd, fdalloc, transfer_args}
use waka_b4_research.Sysfile.Descriptors.{IsOpen, Close, sys_close_lem}

abbrev shared_file : File
shared_file = record {
  type = fd_inode;
  ref = 3;
  readable = true;
  writable = true;
  pipe = 0;
  ip = 7;
  off = 100;
}

abbrev two_open : Desc
two_open = record {
  user = record { sz = 4096; esp = 100; mem = λ _. 0 };
  ofile = 1 ∷ 0 ∷ 1 ∷ replicate 13 0;
  files = shared_file ∷ no_file ∷ [];
}

counts : (i : ℕ) → (file_at two_open.files i).ref ≡ holds i (0 ∷ 0 ∷ 0 ∷ [])
counts zero = refl
counts (suc zero) = refl
counts (suc (suc i)) = ground arith

two_open-IsOpen : IsOpen two_open (0 ∷ [])
two_open-IsOpen = record { exact = counts; few = omega arith }

sys_close_lem_example :
    Returns (λ r s'. IsOpen s' (0 ∷ []) × Close two_open s' (0 ∷ []) r) (sys_close two_open)
sys_close_lem_example = sys_close_lem two_open (0 ∷ []) two_open-IsOpen

-- The lowest closed descriptor is taken.
dup_first : Returns (λ r s'. r ≡ 1) (sys_dup two_open)
unfolding sys_dup argfd argint fetchint fdalloc filedup find_index
dup_first = refl

-- A read of 12 bytes moves the offset that all the descriptors share.
read_moves :
    Returns
      (λ r s'. (r ≡ 12) × ((file_at s'.files 0).off ≡ 112))
      (sys_read (λ _ _. 0) (λ _ _. 12) two_open)
unfolding sys_read transfer_args argfd argint argptr fetchint fileread
read_moves = (refl, refl)
