-- ===== src/Builder/CSpace.antt =====
-- The capability spaces that the builder of tool/sel4coreplat/__main__.py fills: the layout of a
-- protection domain's slots, the badges, and what the minting needs of the objects made before.
pub mod Rounds
pub mod System
pub mod Domains
pub mod Threads
pub mod Channels
use text.Mathlib.Text.{◌==◌ as str_eq}
use Prim.Native.String.{String}
use sel4cp.Prelude.{
  ℕ, ◌+◌, ◌*◌, ◌^◌, bit_or, Bool, true, false, ◌||◌, Option, none, some, List, [], ◌∷◌, Result, ok,
  err, key_error, index_error, ◌>>=◌, if◌then◌else◌, map,
}
use sel4cp.Invocation.{Invocation, Command, once, cnode_mint, cnode_copy}
use sel4cp.Description.{ProtectionDomain, FlatPd, SysMap, SysMemoryRegion}
use sel4cp.Builder.InitSystem.{KernelObject}
use sel4cp.Builder.Layout.{base_tcb_cap, pd_cap_size}

abbrev pub root_pd_ep_cap_idx : ℕ
root_pd_ep_cap_idx = 1

abbrev pub vspace_cap_idx : ℕ
vspace_cap_idx = 2

abbrev pub reply_cap_idx : ℕ
reply_cap_idx = 4

abbrev pub input_cap_idx : ℕ
input_cap_idx = 5

abbrev pub self_cnode_cap_idx : ℕ
self_cnode_cap_idx = 6

abbrev pub self_tcb_cap_idx : ℕ
self_tcb_cap_idx = 7

abbrev pub schedcontrol_cap_idx : ℕ
schedcontrol_cap_idx = 8

abbrev pub base_output_ntfn_cap_idx : ℕ
base_output_ntfn_cap_idx = 10

abbrev pub base_output_ep_cap_idx : ℕ
base_output_ep_cap_idx = base_output_ntfn_cap_idx + 64

abbrev pub base_irq_cap : ℕ
base_irq_cap = base_output_ep_cap_idx + 64

-- `int(log2(PD_CAP_SIZE))`.
abbrev pub pd_cap_bits : ℕ
pd_cap_bits = 9

-- `int(log2(EMPTY_THREAD_CAP_SIZE))`.
abbrev pub empty_thread_cap_bits : ℕ
empty_thread_cap_bits = 2

abbrev pub badge_type_bit : ℕ
badge_type_bit = 62

abbrev pub badge_type_fault : ℕ
badge_type_fault = 2 ^ badge_type_bit

abbrev pub badge_fault_root : ℕ
badge_fault_root = 2 ^ 61

abbrev pub badge_type_ppc : ℕ
badge_type_ppc = 2 * 2 ^ badge_type_bit

abbrev pub badge_type_root_ppc : ℕ
badge_type_root_ppc = 3 * 2 ^ badge_type_bit

abbrev pub rights_write : ℕ
rights_write = 1

abbrev pub rights_read : ℕ
rights_read = 2

abbrev pub rights_all : ℕ
rights_all = 0xf

abbrev pub init_tcb_cap : ℕ
init_tcb_cap = 1

abbrev pub irq_control_cap : ℕ
irq_control_cap = 4

abbrev pub init_asid_pool_cap : ℕ
init_asid_pool_cap = 6

abbrev pub domain_cap : ℕ
domain_cap = 11

-- The variables of `build_system` that no phase of the minting assigns.
pub record Caps : Type 0 where
  pub root_cnode_cap : ℕ
  pub system_cnode_cap : ℕ
  pub system_cnode_bits : ℕ
  pub system_cap_address_mask : ℕ
  pub cap_address_bits : ℕ
  pub schedcontrol_cap : ℕ

-- The objects of the spawnable threads of one domain, in the order of the threads.
pub record ThreadObjects : Type 0 where
  pub threads_tcbs : List KernelObject
  pub threads_sc : List KernelObject
  pub threads_cnodes : List KernelObject
  pub threads_replies : List KernelObject

-- A domain with the objects that the zips of the source pair it with, its input endpoint where it
-- needs one, and the maps that the builder adds to those of the description. Names of
-- capabilities, which only the report prints, are left out.
pub record BuiltPd : Type 0 where
  pub flat : FlatPd
  pub tcb : KernelObject
  pub schedcontext : KernelObject
  pub reply : KernelObject
  pub endpoint : Option KernelObject
  pub notification : KernelObject
  pub vspace : KernelObject
  pub cnode : KernelObject
  pub thread_objects : ThreadObjects
  pub extra_maps : List SysMap

abbrev pub info : BuiltPd → ProtectionDomain
info p = p.flat.info

abbrev pub pd_name : BuiltPd → String
pd_name p = p.flat.info.name

abbrev pub is_root : BuiltPd → Bool
is_root p = elim p.flat.parent [ none ↦ true | some parent ↦ false ]

-- `ProtectionDomain.needs_ep`.
abbrev pub needs_ep : BuiltPd → Bool
needs_ep p = p.flat.info.pp || is_root p

-- The domain's own endpoint in the dictionary of those that need one.
abbrev pub endpoint_of : BuiltPd → Result KernelObject
endpoint_of p = elim p.endpoint [ none ↦ err key_error | some ep ↦ ok ep ]

-- Domains as keys of a dictionary: by their names, which differ.
unfoldable pub find_pd : String → List BuiltPd → Result BuiltPd
find_pd name [] = err key_error
find_pd name (p ∷ ps) = if str_eq name (pd_name p) then ok p else find_pd name ps

-- The first item of a list that is indexed with 0.
abbrev pub first_of {ℓ} : {A : Type ℓ} → List A → Result A
first_of [] = err index_error
first_of (x ∷ xs) = ok x

-- A copy of a capability with all rights in a slot of a domain's capability node.
abbrev pub mint_in_pd : Caps → BuiltPd → ℕ → ℕ → ℕ → Invocation
mint_in_pd c p idx src badge =
    cnode_mint p.cnode.cap_addr idx pd_cap_bits c.root_cnode_cap src c.cap_address_bits rights_all
      badge

abbrev pub copy_in_pd : Caps → BuiltPd → ℕ → ℕ → Invocation
copy_in_pd c p idx src =
    cnode_copy p.cnode.cap_addr idx pd_cap_bits c.root_cnode_cap src c.cap_address_bits rights_all

-- A copy of a capability with all rights in a slot of the system capability node.
abbrev pub mint_in_system : Caps → ℕ → ℕ → ℕ → ℕ → Invocation
mint_in_system c slot src rights badge =
    cnode_mint c.system_cnode_cap slot c.system_cnode_bits c.root_cnode_cap src c.cap_address_bits
      rights badge
