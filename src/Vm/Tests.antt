-- ===== src/Vm/Tests.antt =====
-- The theorem on mappages of src/vm.c at a concrete memory: a directory without tables at
-- 0x80401000 and one free page.
use waka_b4_research.Base.{none, true, false, [], ◌∷◌, arith, refl}
use waka_b4_research.Kmem.{Kmem, Site}
use waka_b4_research.Vm.{mappages, pte_wu}
use waka_b4_research.Vm.Tables.{IsTables}
use waka_b4_research.Vm.Flags.{FlagEnds, mappages-IsEntry}

abbrev site : Site
site = record { me = 0; pcs = []; kernel_end = 0x8010_8000 }

abbrev one_page : Kmem
one_page = record {
  lock = record { locked = 0; name = "kmem"; cpu = none; pcs = [] };
  use_lock = true;
  freelist = 0x8040_2000;
  cpu = record { ncli = 0; intena = false; iflag = true };
  mem = λ _. 0;
}

one_page-IsTables : IsTables 0x8040_1000 one_page (0x8040_2000 ∷ [])
one_page-IsTables = record {
  free = record {
    chain = (refl, λ e. omega arith, refl);
    aligned = (refl, tt);
    distinct = (tt, tt);
    unlocked = refl;
    masked = record { off = λ h. absurd (omega arith) };
  };
  below = (omega arith, tt);
  aligned = refl;
  in_use = (λ e. omega arith, tt);
  tables = λ d lt h. ground arith;
  distinct = λ d e lt lt' h h' same. ground arith;
}

-- Two pages at 0x3000, which end in one table.
mappages-IsEntry_example :
    FlagEnds site 0x8040_1000 pte_wu 0x3000 0x4000 0xA000 one_page
      (mappages site 0x8040_1000 0x3010 0x1800 0xA000 pte_wu one_page)
mappages-IsEntry_example =
    mappages-IsEntry site 0x8040_1000 pte_wu 0x3010 0x1800 0xA000 one_page (0x8040_2000 ∷ [])
      (omega arith) (omega arith) (omega arith) one_page-IsTables
