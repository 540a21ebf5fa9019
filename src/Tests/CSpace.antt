-- ===== src/Tests/CSpace.antt =====
-- The capability spaces of two domains: a server with an interrupt and a channel, and its child.
use sel4cp.Prelude.{
  ℕ, ◌+◌, ◌^◌, ◌≤◌, ◌≡◌, ◌≢◌, refl, ap, arith, true, none, some, List, [], ◌∷◌, ◌++◌, map, Result,
  ok, err, All, Pairwise,
}
use sel4cp.Invocation.{Command, tcb_set_space}
use sel4cp.Description.{Partition}
use Prim.Native.String.{String}
use sel4cp.Description.Ends.{End, irq_ends, channel_ends}
use sel4cp.Builder.InitSystem.{KernelObject}
use sel4cp.Builder.InitSystem.Batches.{range}
use sel4cp.Builder.CSpace.{Caps, BuiltPd, info, pd_name, find_pd}
use sel4cp.Builder.CSpace.System.{
  Phase, MrPages, PageDescriptor, SystemCaps, system_caps, mint_pages, badged_irqs, irq_handlers,
  assign_asids, mint_faults, mint_maps, mint_map,
}
use sel4cp.Builder.CSpace.System.Slots.{Fills, filled_by, system_caps-Fills}
use sel4cp.Builder.CSpace.Channels.{mint_channels, mint_notification, mint_endpoint}
use sel4cp.Builder.CSpace.Channels.Ends.{keys_of}
use sel4cp.Builder.CSpace.Channels.Slots.{filled_slot, mint_channels-filled_slot}
use sel4cp.Builder.CSpace.Channels.Badges.{minted_badge, minted_badge-Pairwise}
use sel4cp.Builder.Setup.{map_pages, page_descriptors, set_domains, set_spaces}
use sel4cp.Builder.Setup.Mapped.{mapped_pages, mapped_places, places_of}
use sel4cp.Builder.Setup.Mapped.Pages.{map_pages-mint_pages}
use sel4cp.Builder.Setup.Domains.{
  all_domain_rounds, set_domains-map, space_rounds, set_spaces-rounds,
}
use sel4cp.Tests.Description.{channels, uart, parent, child}

-- What a call that returns has returned.
abbrev value : {A : Type 0} → A → Result A → A
value default (ok a) = a
value default (err e) = default

abbrev object : ℕ → KernelObject
object slot = record {
  object_type = 1;
  cap_slot = slot;
  cap_addr = 2 ^ 63 + slot;
  phys_addr = 0;
  name = "";
}

abbrev caps : Caps
caps = record {
  root_cnode_cap = 20;
  system_cnode_cap = 21;
  system_cnode_bits = 12;
  system_cap_address_mask = 2 ^ 63;
  cap_address_bits = 64;
  schedcontrol_cap = 15;
}

abbrev server : BuiltPd
server = record {
  flat = record { info = record parent { pp = true }; parent = none };
  tcb = object 30;
  schedcontext = object 32;
  reply = object 34;
  endpoint = some (object 36);
  notification = object 37;
  vspace = object 39;
  cnode = object 41;
  thread_objects = record {
    threads_tcbs = [];
    threads_sc = [];
    threads_cnodes = [];
    threads_replies = [];
  };
  extra_maps = [];
}

abbrev client : BuiltPd
client = record server {
  flat = record { info = child; parent = some parent };
  tcb = object 31;
  schedcontext = object 33;
  reply = object 35;
  endpoint = none;
  notification = object 38;
  vspace = object 40;
  cnode = object 42;
}

abbrev pds : List BuiltPd
pds = server ∷ client ∷ []

abbrev regions : List MrPages
regions = map (λ mr. record { mr = mr; pages = object 50 ∷ object 51 ∷ [] }) uart

abbrev nothing : SystemCaps
nothing = record {
  commands = [];
  irq_cap_addresses = [];
  page_descriptors = [];
  badged_irq_caps = [];
  badged_fault_ep = 0;
  next_slot = 0;
}

abbrev built : SystemCaps
built = value nothing (system_caps caps regions 60 pds)

system_caps_run : system_caps caps regions 60 pds ≡ ok built
unfolding system_caps irq_handlers assign_asids mint_pages mint_maps mint_map badged_irqs
    mint_faults
system_caps_run = refl

slots_used : built.next_slot ≡ 68
unfolding system_caps irq_handlers assign_asids mint_pages mint_maps mint_map badged_irqs
    mint_faults
slots_used = refl

system_caps-Fills_example : Fills caps built.commands 60 built.next_slot
system_caps-Fills_example = system_caps-Fills caps regions 60 pds system_caps_run

abbrev no_pages : Phase (List (List PageDescriptor))
no_pages = record { commands = []; computed = []; cap_slot = 0 }

abbrev pages : Phase (List (List PageDescriptor))
pages = value no_pages (mint_pages caps regions 0 60 pds)

abbrev maps : List Command
maps = value [] (map_pages pds (page_descriptors pages.computed))

pages_run : mint_pages caps regions 0 60 pds ≡ ok pages
unfolding mint_pages mint_maps mint_map
pages_run = refl

maps_run : map_pages pds (page_descriptors pages.computed) ≡ ok maps
unfolding mint_pages mint_maps mint_map map_pages
maps_run = refl

pages_end : pages.cap_slot ≤ 2 ^ 63
unfolding mint_pages mint_maps mint_map
pages_end = omega arith

map_pages-mint_pages_example :
    (mapped_pages maps ≡ filled_by caps pages.commands)
    × (mapped_places maps ≡ places_of regions pds)
map_pages-mint_pages_example =
    map_pages-mint_pages caps regions pds 63 60 pages maps refl pages_end pages_run maps_run

-- The server and the client are connected; the server has an interrupt too.
abbrev minted : List Command
minted = value [] (mint_channels caps pds channels)

channels_run : mint_channels caps pds channels ≡ ok minted
unfolding mint_channels mint_notification mint_endpoint find_pd
channels_run = refl

mint_channels-filled_slot_example : Pairwise (λ k l. k ≢ l) (keys_of filled_slot minted)
mint_channels-filled_slot_example =
    mint_channels-filled_slot caps pds channels minted (((λ e. omega (arith, e)), tt), (tt, tt))
      ((omega arith, omega arith), tt)
      ((λ e. let n = ap (λ k. k.1) e in omega (arith, n), tt), (tt, tt)) channels_run

found_by_name : All (λ p. find_pd (pd_name p) pds ≡ ok p) pds
unfolding find_pd
found_by_name = (refl, (refl, tt))

differ : (a b : String) (m n : ℕ) → m ≢ n → ◌≢◌ {A = End} (a, m) (b, n)
differ a b m n ne same = ne (ap (λ k. k.1) same)

ends_distinct : Pairwise (λ d e. d ≢ e) (irq_ends (map (λ p. p.flat) pds) ++ channel_ends channels)
ends_distinct = (
  (
    differ _ _ 0 1 (omega arith),
    (differ _ _ 0 2 (omega arith), (differ _ _ 0 3 (omega arith), tt)),
  ),
  (
    (differ _ _ 1 2 (omega arith), (differ _ _ 1 3 (omega arith), tt)),
    ((differ _ _ 2 3 (omega arith), tt), (tt, tt)),
  ),
)

minted_badge-Pairwise_example :
    Pairwise (λ k l. k ≢ l) (keys_of minted_badge ((badged_irqs caps 64 pds).commands ++ minted))
minted_badge-Pairwise_example =
    minted_badge-Pairwise caps pds 64 channels minted
      (
        (((λ e. omega (arith, e)), (λ e f given missing. absurd (no_endpoint f missing))), tt),
        (tt, tt),
      )
      found_by_name ((omega arith, tt), ((omega arith, tt), tt)) ((omega arith, omega arith), tt)
      ends_distinct channels_run
  where
    no_endpoint : (f : KernelObject) → ¬ (none ≡ some f)
    no_endpoint f e = cc

abbrev partitions : List Partition
partitions = record { id = 1; length = 10; num_direct = 1; num_pds = 2 } ∷ []

abbrev domains_set : List Command
domains_set = value [] (set_domains (2 ^ 63 + 30) partitions)

domains_run : set_domains (2 ^ 63 + 30) partitions ≡ ok domains_set
unfolding set_domains
domains_run = refl

set_domains-map_example :
    all_domain_rounds domains_set ≡ map (λ p. ((info p).partition, p.tcb.cap_addr)) pds
set_domains-map_example =
    set_domains-map (2 ^ 63 + 30) partitions pds domains_set (omega arith, tt) refl refl domains_run

abbrev spaces : Command
spaces = record {
  invocation = tcb_set_space (2 ^ 63 + 30) (2 ^ 63 + 66) (2 ^ 63 + 41) 55 (2 ^ 63 + 39) 0;
  repeated = some (record {
    repeat_count = 2;
    repeat_incr = ("tcb", 1) ∷ ("fault_ep", 1) ∷ ("cspace_root", 1) ∷ ("vspace_root", 1) ∷ [];
  });
}

spaces_run : set_spaces caps (2 ^ 63 + 66) pds ≡ ok spaces
unfolding set_spaces
spaces_run = refl

set_spaces-rounds_example :
    space_rounds spaces
    ≡ map (λ p. p.tcb.cap_addr) pds
      ∷ range (2 ^ 63 + 66) 2
      ∷ map (λ p. p.cnode.cap_addr) pds
      ∷ map (λ p. p.vspace.cap_addr) pds
      ∷ []
set_spaces-rounds_example =
    set_spaces-rounds caps (2 ^ 63 + 66) pds spaces refl refl refl spaces_run
