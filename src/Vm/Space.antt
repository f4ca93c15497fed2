-- ===== src/Vm/Space.antt =====
-- src/vm.c: growing, shrinking, freeing and copying an address space, and the kernel's part of one.
use Prim.Native.Nat.{bit_and}
use waka_b4_research.Base.{
  ℕ, zero, suc, ◌+◌, ◌-◌, ◌*◌, ◌/◌, ◌%◌, ◌^◌, false, ◌&&◌, not, List, [], ◌∷◌, ◌==◌, ltb, leb,
  if◌then◌else◌, M, pure, fail, get, modify, ◌>>=◌, ◌>>◌, add_word, sub_word,
}
use waka_b4_research.Kmem.{Kmem, Site, page_size, phys_stop, kern_base, kalloc, kfree}
use waka_b4_research.Vm.{
  pdx, pte_addr, pte_flags, v2p, p2v, is_present, is_user, pte_w, pte_wu, ext_mem, dev_space,
  round_up, zero_page, set_entry, walkpgdir, mappages,
}

module _ (m : Site) where
  -- `PGADDR(PDX(a) + 1, 0, 0)`
  abbrev pub next_table : ℕ → ℕ
  next_table a = (pdx a + 1) * 2 ^ 22 % 2 ^ 32

  abbrev pub free_entry : ℕ → M Kmem (Unit {0})
  free_entry pte = do
    k ← get
    let pa = pte_addr (k.mem pte)
    let freed = (do kfree m (p2v pa); modify (set_entry pte 0))
    if not (is_present (k.mem pte)) then pure tt else if pa == 0 then fail "kfree" else freed

  unfoldable pub dealloc_from : ℕ → (pgdir a oldsz : ℕ) → M Kmem (Unit {0})
  dealloc_from zero pgdir a oldsz = fail "out of fuel"
  dealloc_from (suc fuel) pgdir a oldsz =
      let skip = dealloc_from fuel pgdir (next_table a) oldsz in
      let later = dealloc_from fuel pgdir (add_word a page_size) oldsz in
      let round = (do
        pte ← walkpgdir m pgdir a false
        if pte == 0 then skip else (do free_entry pte; later)) in
      if ltb a oldsz then round else pure tt

  unfoldable pub deallocuvm : (pgdir oldsz newsz : ℕ) → M Kmem ℕ
  unfolding dealloc_from
  deallocuvm pgdir oldsz newsz =
      if leb oldsz newsz
      then pure oldsz
      else do dealloc_from (oldsz / page_size + 2) pgdir (round_up newsz) oldsz; pure newsz

  unfoldable pub alloc_from : ℕ → (pgdir a oldsz newsz : ℕ) → M Kmem ℕ
  alloc_from zero pgdir a oldsz newsz = fail "out of fuel"
  alloc_from (suc fuel) pgdir a oldsz newsz =
      let later = alloc_from fuel pgdir (add_word a page_size) oldsz newsz in
      let undo = deallocuvm pgdir newsz oldsz in
      let round = (do
        page ← kalloc m
        if page == 0 then (do _ ← undo; pure 0) else do
          modify (zero_page page)
          r ← mappages m pgdir a page_size (v2p page) pte_wu
          if r == 0 then later else (do _ ← undo; kfree m page; pure 0)) in
      if ltb a newsz then round else pure newsz

  unfoldable pub allocuvm : (pgdir oldsz newsz : ℕ) → M Kmem ℕ
  unfolding alloc_from
  allocuvm pgdir oldsz newsz =
      if leb kern_base newsz
      then pure 0
      else if ltb newsz oldsz
      then pure oldsz
      else alloc_from (newsz / page_size + 2) pgdir (round_up oldsz) oldsz newsz

  -- The loop of `freevm`, with so many entries to go.
  unfoldable pub free_tables : ℕ → (pgdir i : ℕ) → M Kmem (Unit {0})
  free_tables zero pgdir i = pure tt
  free_tables (suc left) pgdir i = do
    k ← get
    let pde = k.mem (pgdir + 4 * i)
    (if is_present pde then kfree m (p2v (pte_addr pde)) else pure tt)
    free_tables left pgdir (i + 1)

  unfoldable pub freevm : ℕ → M Kmem (Unit {0})
  unfolding free_tables
  freevm pgdir =
      if pgdir == 0
      then fail "freevm: no pgdir"
      else do _ ← deallocuvm pgdir kern_base 0; free_tables 1024 pgdir 0; kfree m pgdir

  -- `kmap`, by virtual address, first and last physical address and permissions; `kernel_data` is the address
  -- of the linker script.
  abbrev pub kmap : ℕ → List (ℕ × ℕ × ℕ × ℕ)
  kmap kernel_data =
      (kern_base, 0, ext_mem, pte_w)
      ∷ (kern_base + ext_mem, ext_mem, v2p kernel_data, 0)
      ∷ (kernel_data, v2p kernel_data, phys_stop, pte_w)
      ∷ (dev_space, dev_space, 0, pte_w)
      ∷ []

  unfoldable pub map_kernel : ℕ → List (ℕ × ℕ × ℕ × ℕ) → M Kmem ℕ
  map_kernel pgdir [] = pure pgdir
  map_kernel pgdir ((virt, from, to, perm) ∷ ks) = do
    r ← mappages m pgdir virt (sub_word to from) from perm
    let later = map_kernel pgdir ks
    let failed = (do freevm pgdir; pure 0)
    if r == 0 then later else failed

  unfoldable pub setupkvm : ℕ → M Kmem ℕ
  unfolding map_kernel
  setupkvm kernel_data = do
    pgdir ← kalloc m
    if pgdir == 0 then pure 0 else do
      modify (zero_page pgdir)
      if ltb dev_space (p2v phys_stop)
          then fail "PHYSTOP too high"
          else map_kernel pgdir (kmap kernel_data)

  unfoldable pub clearpteu : (pgdir uva : ℕ) → M Kmem (Unit {0})
  clearpteu pgdir uva = do
    pte ← walkpgdir m pgdir uva false
    if pte == 0
        then fail "clearpteu"
        else modify (λ k. set_entry pte (bit_and (k.mem pte) (2 ^ 32 - 5)) k)

  -- `memmove(to, from, PGSIZE)` between two pages.
  abbrev pub copy_page : (to from : ℕ) → Kmem → Kmem
  copy_page to from k = record k {
    mem = λ a. if leb to a && ltb a (to + page_size) then k.mem (from + (a - to)) else k.mem a;
  }

  -- The loop of `copyuvm` from page `i` on: the new directory, or 0.
  unfoldable pub copy_from : ℕ → (pgdir d i sz : ℕ) → M Kmem ℕ
  copy_from zero pgdir d i sz = fail "out of fuel"
  copy_from (suc fuel) pgdir d i sz =
      let later = copy_from fuel pgdir d (add_word i page_size) sz in
      let bad = (do freevm d; pure 0) in
      let copied = λ (pte page : ℕ). (do
        modify (copy_page page (p2v (pte_addr pte)))
        r ← mappages m d i page_size (v2p page) (pte_flags pte)
        if r == 0 then later else (do kfree m page; bad)) in
      let round = (do
        at ← walkpgdir m pgdir i false
        k ← get
        if at == 0
            then fail "copyuvm: pte should exist"
            else if not (is_present (k.mem at))
            then fail "copyuvm: page not present"
            else (do page ← kalloc m; if page == 0 then bad else copied (k.mem at) page)) in
      if ltb i sz then round else pure d

  unfoldable pub copyuvm : (kernel_data pgdir sz : ℕ) → M Kmem ℕ
  unfolding copy_from
  copyuvm kernel_data pgdir sz = do
    d ← setupkvm kernel_data
    if d == 0 then pure 0 else copy_from (sz / page_size + 2) pgdir d 0 sz

  -- `uva2ka`; the source reads the word at 0 where there is no table.
  unfoldable pub uva2ka : (pgdir uva : ℕ) → M Kmem ℕ
  uva2ka pgdir uva = do
    at ← walkpgdir m pgdir uva false
    k ← get
    let pte = k.mem at
    pure (if is_present pte && is_user pte then p2v (pte_addr pte) else 0)
