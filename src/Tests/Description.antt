-- ===== src/Tests/Description.antt =====
-- A run of the checks of a description.
use sel4cp.Prelude.{
  ◌≡◌, ◌≢◌, ap, arith, ◌++◌, Pairwise, true, refl, false, none, some, List, [], ◌∷◌, ok,
}
use sel4cp.Description.{
  ProtectionDomain, PdTrees, pd, no_pds, more_pds, SysMemoryRegion, Channel, FlatPd,
  system_description,
}
use sel4cp.Description.Ends.{HasTwoEnds, irq_ends, channel_ends, system_description-Pairwise}

abbrev pub parent : ProtectionDomain
parent = record {
  pd_id = some 0;
  partition = 1;
  name = "server";
  priority = 200;
  budget = 1000;
  period = 1000;
  nthreads = 0;
  num_child_pds = 1;
  pp = false;
  root_ppc = false;
  timeouts = false;
  passive = false;
  maps =
      record {
        mr = "uart";
        vaddr = 0x2000000;
        perms = record { readable = true; writable = true; executable = false };
        cached = false;
      }
      ∷ [];
  irqs = record { irq = 33; id = 0 } ∷ [];
}

abbrev pub child : ProtectionDomain
child = record parent {
  name = "client";
  pd_id = some 7;
  irqs = record { irq = 34; id = 1 } ∷ [];
  maps = [];
}

abbrev domains : PdTrees
domains = more_pds (pd parent (more_pds (pd child no_pds) no_pds)) no_pds

abbrev pub uart : List SysMemoryRegion
uart =
    record { name = "uart"; size = 0x1000; page_size = 0x1000; page_count = 1; phys_addr = none }
    ∷ []

abbrev pub channels : List Channel
channels = record { pd_a = "server"; id_a = 2; pd_b = "client"; id_b = 3 } ∷ []

abbrev pub flat : List FlatPd
flat = record { info = parent; parent = none } ∷ record { info = child; parent = some parent } ∷ []

description_run :
    system_description uart domains channels
      (record { id = 1; length = 10; num_direct = 1; num_pds = 0 } ∷ [])
    ≡ ok (flat, record { id = 1; length = 10; num_direct = 1; num_pds = 2 } ∷ [])
unfolding system_description
description_run = refl

ends_differ : HasTwoEnds (record { pd_a = "server"; id_a = 2; pd_b = "client"; id_b = 3 })
ends_differ same = let names = ap (λ e. e.1) same in omega (arith, names)

system_description-Pairwise_example :
    Pairwise (λ d e. d ≢ e) (irq_ends flat ++ channel_ends channels)
system_description-Pairwise_example =
    system_description-Pairwise uart domains channels
      (record { id = 1; length = 10; num_direct = 1; num_pds = 0 } ∷ []) description_run
      (ends_differ, tt)
