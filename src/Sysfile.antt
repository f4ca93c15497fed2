-- ===== src/Sysfile.antt =====
-- src/sysfile.c: the system calls on descriptors. `ofile` is the array of the process, which has
-- NOFILE elements: 0 is null, and `i + 1` is file `i` of the table.
pub mod Descriptors
pub mod Hexa
mod Tests
use waka_b4_research.Base.{
  ℕ, zero, suc, ◌+◌, ◌-◌, ◌^◌, Bool, true, false, ◌||◌, Option, none, some, List, ◌==◌, leb,
  if◌then◌else◌, Outcome, ok, on_ok, minus_one, get_or, set, find_index,
}
use waka_b4_research.Syscall.{User, on_some, argint, argptr}
use waka_b4_research.FileTable.{
  File, file_at, filedup, fileclose, fileread, filewrite, filestat, Closing, keeps, Chunk,
}

-- The arguments, the descriptors of the process, and the table of files.
pub record Desc : Type 0 where
  pub user : User
  pub ofile : List ℕ
  pub files : List File

abbrev pub nofile : ℕ
nofile = 16

-- `fd` is the pattern of an `int`.
abbrev pub open_file : List ℕ → ℕ → Option (ℕ × ℕ)
open_file ofile fd =
    if leb (2 ^ 31) fd || leb nofile fd || (get_or ofile fd 0 == 0)
    then none
    else some (fd, get_or ofile fd 0)

unfoldable pub argfd : ℕ → Desc → Option (ℕ × ℕ)
argfd n s = on_some (argint n s.user) λ fd. open_file s.ofile fd

-- The loop of `fdalloc`; the write to the array is made by the callers below.
abbrev pub free_fd : List ℕ → Option ℕ
free_fd ofile = find_index (λ f. f == 0) ofile

unfoldable pub fdalloc : ℕ → List ℕ → Option (ℕ × List ℕ)
fdalloc f ofile = on_some (free_fd ofile) λ fd. some (fd, set ofile fd f)

abbrev pub dup_into : ℕ → Option (ℕ × List ℕ) → Desc → Outcome (ℕ × Desc)
dup_into f none s = ok (minus_one, s)
dup_into f (some (fd, ofile)) s =
    on_ok (filedup (f - 1) s.files) λ (_, fs). ok (fd, record s { ofile = ofile; files = fs })

abbrev pub dup_of : Option (ℕ × ℕ) → Desc → Outcome (ℕ × Desc)
dup_of none s = ok (minus_one, s)
dup_of (some (_, f)) s = dup_into f (fdalloc f s.ofile) s

unfoldable pub sys_dup : Desc → Outcome (ℕ × Desc)
unfolding fdalloc
sys_dup s = dup_of (argfd 0 s) s

-- With what fileclose does behind the lock.
abbrev pub close_of : Option (ℕ × ℕ) → Desc → Outcome ((ℕ × Closing) × Desc)
close_of none s = ok ((minus_one, keeps), s)
close_of (some (fd, f)) s =
    on_ok (fileclose (f - 1) s.files)
      λ (c, fs). ok ((0, c), record s { ofile = set s.ofile fd 0; files = fs })

unfoldable pub sys_close : Desc → Outcome ((ℕ × Closing) × Desc)
sys_close s = close_of (argfd 0 s) s

-- The file, the buffer and its size, as `sys_read` and `sys_write` fetch them.
unfoldable pub transfer_args : Desc → Option (ℕ × ℕ × ℕ)
transfer_args s =
    on_some (argfd 0 s)
      λ (_, f). on_some (argint 2 s.user) λ n. on_some (argptr 1 n s.user) λ p. some (f, p, n)

-- `from_pipe p n` and `from_inode p n` are what piperead and readi of `n` bytes to `p` return.
unfoldable pub sys_read : (from_pipe from_inode : ℕ → ℕ → ℕ) → Desc → Outcome (ℕ × Desc)
sys_read from_pipe from_inode s = elim (transfer_args s) [
  | none ↦ ok (minus_one, s)
  | some (f, p, n) ↦
      on_ok (fileread (from_pipe p n) (from_inode p n) (file_at s.files (f - 1)))
        λ (r, x). ok (r, record s { files = set s.files (f - 1) x })
]

-- `to_pipe p n` is what pipewrite returns, `writei p` what the calls of writei from buffer `p` do.
unfoldable pub sys_write :
    (to_pipe : ℕ → ℕ → ℕ) (writei : ℕ → Chunk → Option ℕ) → Desc → Outcome (ℕ × Desc)
sys_write to_pipe writei s = elim (transfer_args s) [
  | none ↦ ok (minus_one, s)
  | some (f, p, n) ↦
      on_ok (filewrite (writei p) (to_pipe p n) n (file_at s.files (f - 1)))
        λ (r, x). ok (r, record s { files = set s.files (f - 1) x.file })
]

-- `sizeof(struct stat)`
abbrev pub stat_size : ℕ
stat_size = 20

-- The return value, with the inode that is read.
unfoldable pub sys_fstat : Desc → ℕ × Option ℕ
sys_fstat s =
    elim (on_some (argfd 0 s) (λ (_, f). on_some (argptr 1 stat_size s.user) λ _. some f)) [
      | none ↦ (minus_one, none)
      | some f ↦ let x = file_at s.files (f - 1) in filestat x.type x
    ]
