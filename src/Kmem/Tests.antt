-- ===== src/Kmem/Tests.antt =====
-- Runs of the page allocator of src/kalloc.c, with the lock in use.
use waka_b4_research.Base.{refl, none, true, false, [], arith, Returns}
use waka_b4_research.Kmem.{Kmem, Site, freerange}
use waka_b4_research.Kmem.FreeList.{IsFree}
use waka_b4_research.Kmem.Range.{pages_onto, freerange_lem}

abbrev boot_site : Site
boot_site = record { me = 0; pcs = []; kernel_end = 0x8010_8000 }

abbrev no_pages : Kmem
no_pages = record {
  lock = record { locked = 0; name = "kmem"; cpu = none; pcs = [] };
  use_lock = true;
  freelist = 0;
  cpu = record { ncli = 0; intena = false; iflag = true };
  mem = λ _. 5;
}

no_pages-IsFree : IsFree no_pages []
no_pages-IsFree = record {
  chain = refl;
  aligned = tt;
  distinct = tt;
  unlocked = refl;
  masked = record { off = λ h. absurd (omega arith) };
}

freerange_lem_example :
    Returns
      (λ _ k'. IsFree k' (pages_onto 2 0x8040_1000 []))
      (freerange boot_site 0x8040_0001 0x8040_3fff no_pages)
freerange_lem_example =
    freerange_lem boot_site 0x8040_0001 0x8040_3fff [] no_pages
      (record { aligned = refl; above = omega arith; in_kernel = omega arith; below = omega arith })
      (omega arith) tt no_pages-IsFree
