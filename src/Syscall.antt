-- ===== src/Syscall.antt =====
-- src/syscall.c: the checks of the arguments of system calls, and the dispatch. Addresses and
-- arguments are 32-bit words; `none` is the return value -1.
pub mod Args
mod Tests
use waka_b4_research.Base.{
  ℕ, zero, suc, ◌+◌, ◌-◌, ◌*◌, ◌^◌, ◌%◌, Bool, true, false, ◌&&◌, ◌||◌, not, Option, none, some,
  List, ◌==◌, ltb, leb, if◌then◌else◌, add_word, minus_one, get_or,
}

-- What the checks read of the process and its trap frame; `mem` is its memory by bytes.
pub record User : Type 0 where
  pub sz : ℕ
  pub esp : ℕ
  pub mem : ℕ → ℕ

abbrev pub on_some {ℓ κ} : {A : Type ℓ} {B : Type κ} → Option A → (A → Option B) → Option B
on_some none k = none
on_some (some a) k = k a

-- `*(int *)(addr)`
abbrev pub load_word : (ℕ → ℕ) → ℕ → ℕ
load_word mem a = mem a + 2 ^ 8 * mem (a + 1) + 2 ^ 16 * mem (a + 2) + 2 ^ 24 * mem (a + 3)

unfoldable pub fetchint : ℕ → User → Option ℕ
fetchint addr u =
    if leb u.sz addr || ltb u.sz (add_word addr 4) then none else some (load_word u.mem addr)

-- The loop of `fetchstr` over the `left` bytes from `s` on, `len` bytes into the string.
unfoldable pub scan_string : (ℕ → ℕ) → ℕ → ℕ → ℕ → Option ℕ
scan_string mem zero s len = none
scan_string mem (suc left) s len =
    let later = scan_string mem left (s + 1) (len + 1) in if mem s == 0 then some len else later

-- The pointer and the length.
unfoldable pub fetchstr : ℕ → User → Option (ℕ × ℕ)
unfolding scan_string
fetchstr addr u =
    if leb u.sz addr
    then none
    else on_some (scan_string u.mem (u.sz - addr) addr 0) λ len. some (addr, len)

unfoldable pub argint : ℕ → User → Option ℕ
unfolding fetchint
argint n u = fetchint ((u.esp + 4 + 4 * n) % 2 ^ 32) u

-- The checks of `argptr` on the argument `i`; `size < 0` is on the pattern of an `int`.
abbrev pub check_block : ℕ → ℕ → ℕ → Option ℕ
check_block sz size i =
    if leb (2 ^ 31) size || leb sz i || ltb sz (add_word i size) then none else some i

unfoldable pub argptr : ℕ → ℕ → User → Option ℕ
argptr n size u = on_some (argint n u) λ i. check_block u.sz size i

unfoldable pub argstr : ℕ → User → Option (ℕ × ℕ)
unfolding fetchstr
argstr n u = on_some (argint n u) λ addr. fetchstr addr u

-- `syscall`: the value that goes to eax. `syscalls` has what each entry of the table returns, `none`
-- where the table has no function.
unfoldable pub syscall : List (Option ℕ) → ℕ → ℕ
syscall syscalls num =
    if leb (2 ^ 31) num
    then minus_one
    else elim (get_or syscalls num none) [ none ↦ minus_one | some r ↦ r ]
