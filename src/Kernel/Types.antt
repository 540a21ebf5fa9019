-- ===== src/Kernel/Types.antt =====
-- Constants, untyped objects, boot information and kernel configuration
-- (tool/sel4coreplat/sel4.py).
use sel4cp.Prelude.{ℕ, ◌-◌, ◌*◌, ◌^◌, Bool, Option, none, some, List, ◌==◌, if◌then◌else◌, ℤ}
use sel4cp.Words.{lsb}
use sel4cp.Memory.{MemoryRegion}

abbrev pub slot_bits : ℕ
slot_bits = 5

abbrev pub slot_size : ℕ
slot_size = 2 ^ slot_bits

abbrev pub large_page_size : ℕ
large_page_size = 2 * 1024 * 1024

abbrev pub small_page_size : ℕ
small_page_size = 4 * 1024

-- `SEL4_PAGE_TABLE_SIZE`.
abbrev pub page_table_object_size : ℕ
page_table_object_size = 2 ^ 12

abbrev pub untyped_object_type : ℕ
untyped_object_type = 0

abbrev pub tcb_object : ℕ
tcb_object = 1

abbrev pub endpoint_object : ℕ
endpoint_object = 2

abbrev pub notification_object : ℕ
notification_object = 3

abbrev pub cnode_object : ℕ
cnode_object = 4

abbrev pub schedcontext_object : ℕ
schedcontext_object = 5

abbrev pub reply_object : ℕ
reply_object = 6

abbrev pub page_upper_directory_object : ℕ
page_upper_directory_object = 8

-- `SEL4_VSPACE_OBJECT` is the page global directory.
abbrev pub vspace_object : ℕ
vspace_object = 9

abbrev pub small_page_object : ℕ
small_page_object = 10

abbrev pub large_page_object : ℕ
large_page_object = 11

abbrev pub page_table_object : ℕ
page_table_object = 12

abbrev pub page_directory_object : ℕ
page_directory_object = 13

-- `FIXED_OBJECT_SIZES.get`.
unfoldable pub fixed_object_size : ℕ → Option ℕ
fixed_object_size t =
    if t == tcb_object
    then some (2 ^ 11)
    else if t == endpoint_object
    then some (2 ^ 4)
    else if t == notification_object
    then some (2 ^ 6)
    else if t == reply_object
    then some (2 ^ 5)
    else if t == vspace_object
    then some (4 * 1024)
    else if t == page_upper_directory_object
    then some (2 ^ 12)
    else if t == page_directory_object
    then some (2 ^ 12)
    else if t == page_table_object
    then some page_table_object_size
    else if t == large_page_object
    then some large_page_size
    else if t == small_page_object
    then some small_page_size
    else none

pub record UntypedObject : Type 0 where
  pub cap : ℕ
  pub region : MemoryRegion
  pub is_device : Bool

-- `UntypedObject.size_bits`.
unfoldable pub size_bits : UntypedObject → ℤ
size_bits ut = lsb (ut.region.end - ut.region.base)

pub record KernelBootInfo : Type 0 where
  pub fixed_cap_count : ℕ
  pub schedcontrol_cap : ℕ
  pub paging_cap_count : ℕ
  pub page_cap_count : ℕ
  pub untyped_objects : List UntypedObject
  pub first_available_cap : ℕ

pub record KernelConfig : Type 0 where
  pub word_size : ℕ
  pub minimum_page_size : ℕ
  pub paddr_user_device_top : ℕ
  pub kernel_frame_size : ℕ
  pub init_cnode_bits : ℕ
  pub cap_address_bits : ℕ
  pub fan_out_limit : ℕ
