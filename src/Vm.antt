-- ===== src/Vm.antt =====
-- src/vm.c: page tables, in the memory of the page allocator (src/kalloc.c). A pointer to an entry is the
-- address of its word. The messages of allocuvm to the console are left out.
pub mod Tables
pub mod Walk
pub mod Extended
pub mod Page
pub mod Mapped
pub mod Flags
pub mod Space
mod Tests
use Prim.Native.Nat.{bit_and, bit_or}
use waka_b4_research.Base.{
  ℕ, zero, suc, ◌+◌, ◌-◌, ◌*◌, ◌/◌, ◌%◌, ◌^◌, Bool, true, false, ◌&&◌, ◌||◌, not, List, [], ◌∷◌,
  ◌==◌, ltb, leb, if◌then◌else◌, M, pure, fail, get, modify, ◌>>=◌, ◌>>◌, and_then, update,
  add_word, sub_word, minus_one,
}
use waka_b4_research.Kmem.{Kmem, Site, page_size, phys_stop, kern_base, kalloc, kfree}

-- `PDX`, `PTX`, `PTE_ADDR`, `PTE_FLAGS`, `V2P` and `P2V`
abbrev pub pdx : ℕ → ℕ
pdx va = va / 2 ^ 22 % 1024

abbrev pub ptx : ℕ → ℕ
ptx va = va / 2 ^ 12 % 1024

abbrev pub pte_addr : ℕ → ℕ
pte_addr pte = pte / page_size * page_size

abbrev pub pte_flags : ℕ → ℕ
pte_flags pte = pte % page_size

abbrev pub v2p : ℕ → ℕ
v2p a = sub_word a kern_base

abbrev pub p2v : ℕ → ℕ
p2v a = add_word a kern_base

-- `PTE_P`, `PTE_W` and `PTE_U` are the lowest bits.
abbrev pub is_present : ℕ → Bool
is_present pte = pte % 2 == 1

abbrev pub is_user : ℕ → Bool
is_user pte = pte / 4 % 2 == 1

abbrev pub pte_w : ℕ
pte_w = 2

abbrev pub pte_wu : ℕ
pte_wu = 6

-- `EXTMEM` and `DEVSPACE`
abbrev pub ext_mem : ℕ
ext_mem = 0x10_0000

abbrev pub dev_space : ℕ
dev_space = 0xFE00_0000

-- `PGROUNDDOWN` and `PGROUNDUP`
abbrev pub round_down : ℕ → ℕ
round_down a = a / page_size * page_size

abbrev pub round_up : ℕ → ℕ
round_up a = round_down (add_word a (page_size - 1))

-- `memset(v, 0, PGSIZE)`, word by word.
abbrev pub zero_page : ℕ → Kmem → Kmem
zero_page v k = record k { mem = λ a. if leb v a && ltb a (v + page_size) then 0 else k.mem a }

abbrev pub set_entry : ℕ → ℕ → Kmem → Kmem
set_entry a w k = record k { mem = update k.mem a w }

-- `V2P(pgtab) | PTE_P | PTE_W | PTE_U`: the lowest three bits are set.
abbrev pub table_entry : ℕ → ℕ
table_entry pgtab = v2p pgtab / 8 * 8 + 7

-- `pa | perm | PTE_P`
abbrev pub page_entry : ℕ → ℕ → ℕ
page_entry pa perm = bit_or (bit_or pa perm) 1

module _ (m : Site) where
  -- A new page of entries, which the entry at `pde` then leads to.
  abbrev pub add_table : (pde pgtab va : ℕ) → M Kmem ℕ
  add_table pde pgtab va = if pgtab == 0 then pure 0 else do
    modify (zero_page pgtab)
    modify (set_entry pde (table_entry pgtab))
    pure (pgtab + 4 * ptx va)

  unfoldable pub walkpgdir : (pgdir va : ℕ) → Bool → M Kmem ℕ
  walkpgdir pgdir va alloc = do
    k ← get
    let pde = pgdir + 4 * pdx va
    let there = pure (p2v (pte_addr (k.mem pde)) + 4 * ptx va)
    let new = (do pgtab ← kalloc m; add_table pde pgtab va)
    if is_present (k.mem pde) then there else if not alloc then pure 0 else new

  -- The entry at `pte` is written, if there is one; false where there was no memory for its table.
  abbrev pub put_page : (pte pa perm : ℕ) → M Kmem Bool
  put_page pte pa perm = do
    k ← get
    let put = (do modify (set_entry pte (page_entry pa perm)); pure true)
    if pte == 0 then pure false else if is_present (k.mem pte) then fail "remap" else put

  -- A round of the loop of `mappages`.
  unfoldable pub map_page : (pgdir a pa perm : ℕ) → M Kmem Bool
  map_page pgdir a pa perm = do pte ← walkpgdir pgdir a true; put_page pte pa perm

  -- The end of a round, which may go on with `later`.
  abbrev pub go_on : M Kmem ℕ → Bool → Bool → M Kmem ℕ
  go_on later is_last false = pure minus_one
  go_on later true true = pure 0
  go_on later false true = later

  unfoldable pub map_from : ℕ → (pgdir a last pa perm : ℕ) → M Kmem ℕ
  map_from zero pgdir a last pa perm = fail "out of fuel"
  map_from (suc fuel) pgdir a last pa perm = do
    mapped ← map_page pgdir a pa perm
    go_on (map_from fuel pgdir (add_word a page_size) last (add_word pa page_size) perm) (a == last)
        mapped

  unfoldable pub mappages : (pgdir va size pa perm : ℕ) → M Kmem ℕ
  unfolding map_from
  mappages pgdir va size pa perm =
      let a = round_down va in
      let last = round_down (sub_word (add_word va size) 1) in
      map_from (sub_word last a / page_size + 1) pgdir a last pa perm
