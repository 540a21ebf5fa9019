-- ===== src/Invocation.antt =====
-- The kernel invocations that the tool emits (the dataclasses of tool/sel4coreplat/sel4.py): their
-- fields in order, which of them are capabilities, and their labels.
pub mod Labels
pub mod Registers
pub mod Encode
use text.Mathlib.Text.{◌==◌}
use Prim.Native.String.{String}
use sel4cp.Prelude.{
  ℕ, Bool, true, false, ◌||◌, List, [], ◌∷◌, ◌++◌, map, Option, none, some, if◌then◌else◌, Result,
  ok, err, assertion, guard, ◌>>=◌, ◌>>◌, ltb, ◌&&◌,
}
use Labels.{Label}
use Registers.{Aarch64Regs}

pub data Invocation : Type 0 where
  untyped_retype :
      (untyped object_type size_bits root node_index node_depth node_offset num_objects : ℕ)
      → Invocation
  tcb_set_timeout_endpoint : (tcb timeout_fault_ep : ℕ) → Invocation
  tcb_set_sched_params : (tcb authority mcp priority sched_context fault_ep : ℕ) → Invocation
  tcb_set_space :
      (tcb fault_ep cspace_root cspace_root_data vspace_root vspace_root_data : ℕ) → Invocation
  tcb_set_cspace : (tcb cspace_root cspace_root_data : ℕ) → Invocation
  tcb_set_fault_handler : (tcb fault_ep : ℕ) → Invocation
  tcb_set_ipc_buffer : (tcb buffer buffer_frame : ℕ) → Invocation
  tcb_resume : (tcb : ℕ) → Invocation
  tcb_suspend : (tcb : ℕ) → Invocation
  tcb_write_registers : (tcb : ℕ) (resume : Bool) (arch_flags : ℕ) (regs : Aarch64Regs) → Invocation
  tcb_bind_notification : (tcb notification : ℕ) → Invocation
  domain_set : (domainset domain tcb : ℕ) → Invocation
  asid_pool_assign : (asid_pool vspace : ℕ) → Invocation
  irq_control_get : (irq_control irq dest_root dest_index dest_depth : ℕ) → Invocation
  irq_handler_set_notification : (irq_handler notification : ℕ) → Invocation
  page_upper_directory_map : (page_upper_directory vspace vaddr attr : ℕ) → Invocation
  page_directory_map : (page_directory vspace vaddr attr : ℕ) → Invocation
  page_table_map : (page_table vspace vaddr attr : ℕ) → Invocation
  page_map : (page vspace vaddr rights attr : ℕ) → Invocation
  cnode_mint :
      (cnode dest_index dest_depth src_root src_obj src_depth rights badge : ℕ) → Invocation
  cnode_copy : (cnode dest_index dest_depth src_root src_obj src_depth rights : ℕ) → Invocation
  cnode_mutate : (cnode dest_index dest_depth src_root src_obj src_depth badge : ℕ) → Invocation
  sched_control_configure_flags :
      (schedcontrol schedcontext budget period extra_refills badge flags : ℕ) → Invocation
  sched_context_bind : (schedcontext tcb : ℕ) → Invocation

unfoldable pub label : Invocation → Label
label (untyped_retype _ _ _ _ _ _ _ _) = Label.untyped_retype
label (tcb_set_timeout_endpoint _ _) = Label.tcb_set_timeout_endpoint
label (tcb_set_sched_params _ _ _ _ _ _) = Label.tcb_set_sched_params
label (tcb_set_space _ _ _ _ _ _) = Label.tcb_set_space
label (tcb_set_cspace _ _ _) = Label.tcb_set_cspace
label (tcb_set_fault_handler _ _) = Label.tcb_set_fault_handler
label (tcb_set_ipc_buffer _ _ _) = Label.tcb_set_ipc_buffer
label (tcb_resume _) = Label.tcb_resume
label (tcb_suspend _) = Label.tcb_suspend
label (tcb_write_registers _ _ _ _) = Label.tcb_write_registers
label (tcb_bind_notification _ _) = Label.tcb_bind_notification
label (domain_set _ _ _) = Label.domain_set_set
label (asid_pool_assign _ _) = Label.arm_asid_pool_assign
label (irq_control_get _ _ _ _ _) = Label.irq_issue_irq_handler
label (irq_handler_set_notification _ _) = Label.irq_set_irq_handler
label (page_upper_directory_map _ _ _ _) = Label.arm_page_upper_directory_map
label (page_directory_map _ _ _ _) = Label.arm_page_directory_map
label (page_table_map _ _ _ _) = Label.arm_page_table_map
label (page_map _ _ _ _ _) = Label.arm_page_map
label (cnode_mint _ _ _ _ _ _ _ _) = Label.cnode_mint
label (cnode_copy _ _ _ _ _ _ _) = Label.cnode_copy
label (cnode_mutate _ _ _ _ _ _ _) = Label.cnode_mutate
label (sched_control_configure_flags _ _ _ _ _ _ _) = Label.sched_control_configure_flags
label (sched_context_bind _ _) = Label.sched_context_bind

-- The fields of the invocations on interrupts, paging structures, capability nodes and scheduling.
abbrev pub system_fields : Invocation → List (String × ℕ)
system_fields (irq_control_get irq_control irq dest_root dest_index dest_depth) =
    ("irq_control", irq_control)
    ∷ ("irq", irq)
    ∷ ("dest_root", dest_root)
    ∷ ("dest_index", dest_index)
    ∷ ("dest_depth", dest_depth)
    ∷ []
system_fields (irq_handler_set_notification irq_handler notification) =
    ("irq_handler", irq_handler) ∷ ("notification", notification) ∷ []
system_fields (page_upper_directory_map page_upper_directory vspace vaddr attr) =
    ("page_upper_directory", page_upper_directory)
    ∷ ("vspace", vspace)
    ∷ ("vaddr", vaddr)
    ∷ ("attr", attr)
    ∷ []
system_fields (page_directory_map page_directory vspace vaddr attr) =
    ("page_directory", page_directory) ∷ ("vspace", vspace) ∷ ("vaddr", vaddr) ∷ ("attr", attr) ∷ []
system_fields (page_table_map page_table vspace vaddr attr) =
    ("page_table", page_table) ∷ ("vspace", vspace) ∷ ("vaddr", vaddr) ∷ ("attr", attr) ∷ []
system_fields (page_map page vspace vaddr rights attr) =
    ("page", page)
    ∷ ("vspace", vspace)
    ∷ ("vaddr", vaddr)
    ∷ ("rights", rights)
    ∷ ("attr", attr)
    ∷ []
system_fields (cnode_mint cnode dest_index dest_depth src_root src_obj src_depth rights badge) =
    ("cnode", cnode)
    ∷ ("dest_index", dest_index)
    ∷ ("dest_depth", dest_depth)
    ∷ ("src_root", src_root)
    ∷ ("src_obj", src_obj)
    ∷ ("src_depth", src_depth)
    ∷ ("rights", rights)
    ∷ ("badge", badge)
    ∷ []
system_fields (cnode_copy cnode dest_index dest_depth src_root src_obj src_depth rights) =
    ("cnode", cnode)
    ∷ ("dest_index", dest_index)
    ∷ ("dest_depth", dest_depth)
    ∷ ("src_root", src_root)
    ∷ ("src_obj", src_obj)
    ∷ ("src_depth", src_depth)
    ∷ ("rights", rights)
    ∷ []
system_fields (cnode_mutate cnode dest_index dest_depth src_root src_obj src_depth badge) =
    ("cnode", cnode)
    ∷ ("dest_index", dest_index)
    ∷ ("dest_depth", dest_depth)
    ∷ ("src_root", src_root)
    ∷ ("src_obj", src_obj)
    ∷ ("src_depth", src_depth)
    ∷ ("badge", badge)
    ∷ []
system_fields
      (sched_control_configure_flags schedcontrol schedcontext budget period extra_refills badge
        flags) =
    ("schedcontrol", schedcontrol)
    ∷ ("schedcontext", schedcontext)
    ∷ ("budget", budget)
    ∷ ("period", period)
    ∷ ("extra_refills", extra_refills)
    ∷ ("badge", badge)
    ∷ ("flags", flags)
    ∷ []
system_fields (sched_context_bind schedcontext tcb) =
    ("schedcontext", schedcontext) ∷ ("tcb", tcb) ∷ []
system_fields _ = []

-- The fields that hold a number, with their names, in the order of the declaration; a Boolean is 0
-- or 1. The first is the capability that is invoked.
unfoldable pub fields : Invocation → List (String × ℕ)
fields
      (untyped_retype untyped object_type size_bits root node_index node_depth node_offset
        num_objects) =
    ("untyped", untyped)
    ∷ ("object_type", object_type)
    ∷ ("size_bits", size_bits)
    ∷ ("root", root)
    ∷ ("node_index", node_index)
    ∷ ("node_depth", node_depth)
    ∷ ("node_offset", node_offset)
    ∷ ("num_objects", num_objects)
    ∷ []
fields (tcb_set_timeout_endpoint tcb timeout_fault_ep) =
    ("tcb", tcb) ∷ ("timeout_fault_ep", timeout_fault_ep) ∷ []
fields (tcb_set_sched_params tcb authority mcp priority sched_context fault_ep) =
    ("tcb", tcb)
    ∷ ("authority", authority)
    ∷ ("mcp", mcp)
    ∷ ("priority", priority)
    ∷ ("sched_context", sched_context)
    ∷ ("fault_ep", fault_ep)
    ∷ []
fields (tcb_set_space tcb fault_ep cspace_root cspace_root_data vspace_root vspace_root_data) =
    ("tcb", tcb)
    ∷ ("fault_ep", fault_ep)
    ∷ ("cspace_root", cspace_root)
    ∷ ("cspace_root_data", cspace_root_data)
    ∷ ("vspace_root", vspace_root)
    ∷ ("vspace_root_data", vspace_root_data)
    ∷ []
fields (tcb_set_cspace tcb cspace_root cspace_root_data) =
    ("tcb", tcb) ∷ ("cspace_root", cspace_root) ∷ ("cspace_root_data", cspace_root_data) ∷ []
fields (tcb_set_fault_handler tcb fault_ep) = ("tcb", tcb) ∷ ("fault_ep", fault_ep) ∷ []
fields (tcb_set_ipc_buffer tcb buffer buffer_frame) =
    ("tcb", tcb) ∷ ("buffer", buffer) ∷ ("buffer_frame", buffer_frame) ∷ []
fields (tcb_resume tcb) = ("tcb", tcb) ∷ []
fields (tcb_suspend tcb) = ("tcb", tcb) ∷ []
fields (tcb_write_registers tcb resume arch_flags _) =
    ("tcb", tcb) ∷ ("resume", (if resume then 1 else 0)) ∷ ("arch_flags", arch_flags) ∷ []
fields (tcb_bind_notification tcb notification) = ("tcb", tcb) ∷ ("notification", notification) ∷ []
fields (domain_set domainset domain tcb) =
    ("domainset", domainset) ∷ ("domain", domain) ∷ ("tcb", tcb) ∷ []
fields (asid_pool_assign asid_pool vspace) = ("asid_pool", asid_pool) ∷ ("vspace", vspace) ∷ []
fields inv = system_fields inv

-- The one field that holds no number.
unfoldable pub other_fields : Invocation → List String
other_fields (tcb_write_registers _ _ _ _) = "regs" ∷ []
other_fields _ = []

-- `_extra_caps`. Three classes write a text where a tuple is meant; `in` is then a test for a part
-- of that text, which holds of the field of that name and of none of the other fields.
unfoldable pub extra_caps : Invocation → List String
extra_caps (untyped_retype _ _ _ _ _ _ _ _) = "root" ∷ []
extra_caps (tcb_set_timeout_endpoint _ _) = "timeout_fault_ep" ∷ []
extra_caps (tcb_set_sched_params _ _ _ _ _ _) = "authority" ∷ "sched_context" ∷ "fault_ep" ∷ []
extra_caps (tcb_set_space _ _ _ _ _ _) = "fault_ep" ∷ "cspace_root" ∷ "vspace_root" ∷ []
extra_caps (tcb_set_cspace _ _ _) = "cspace_root" ∷ []
extra_caps (tcb_set_fault_handler _ _) = "fault_ep" ∷ []
extra_caps (tcb_set_ipc_buffer _ _ _) = "buffer_frame" ∷ []
extra_caps (tcb_resume _) = []
extra_caps (tcb_suspend _) = []
extra_caps (tcb_write_registers _ _ _ _) = []
extra_caps (tcb_bind_notification _ _) = "notification" ∷ []
extra_caps (domain_set _ _ _) = "tcb" ∷ []
extra_caps (asid_pool_assign _ _) = "vspace" ∷ []
extra_caps (irq_control_get _ _ _ _ _) = "dest_root" ∷ []
extra_caps (irq_handler_set_notification _ _) = "notification" ∷ []
extra_caps (page_upper_directory_map _ _ _ _) = "vspace" ∷ []
extra_caps (page_directory_map _ _ _ _) = "vspace" ∷ []
extra_caps (page_table_map _ _ _ _) = "vspace" ∷ []
extra_caps (page_map _ _ _ _ _) = "vspace" ∷ []
extra_caps (cnode_mint _ _ _ _ _ _ _ _) = "src_root" ∷ []
extra_caps (cnode_copy _ _ _ _ _ _ _) = "src_root" ∷ []
extra_caps (cnode_mutate _ _ _ _ _ _ _) = "src_root" ∷ []
extra_caps (sched_control_configure_flags _ _ _ _ _ _ _) = "schedcontext" ∷ []
extra_caps (sched_context_bind _ _) = "tcb" ∷ []

abbrev pub contains : String → List String → Bool
contains nm [] = false
contains nm (x ∷ xs) = nm == x || contains nm xs

-- An invocation with what `repeat` stores in it, `_repeat_count` and `_repeat_incr`.
pub record Repeat : Type 0 where
  pub repeat_count : ℕ
  pub repeat_incr : List (String × ℕ)

pub record Command : Type 0 where
  pub invocation : Invocation
  pub repeated : Option Repeat

abbrev pub once : Invocation → Command
once inv = record { invocation = inv; repeated = none }

abbrev pub is_nonempty : List (String × ℕ) → Bool
is_nonempty [] = false
is_nonempty (x ∷ xs) = true

abbrev pub all_known : List (String × ℕ) → List String → Bool
all_known [] names = true
all_known ((nm, _) ∷ kwargs) names = contains nm names && all_known kwargs names

unfoldable pub field_names : Invocation → List String
unfolding fields other_fields
field_names inv = map (λ f. f.0) (fields inv) ++ other_fields inv

-- `repeat`: a count of 0 or 1 changes nothing, so that the invocation is then made once.
unfoldable pub repeat : ℕ → List (String × ℕ) → Command → Result Command
unfolding field_names
repeat count kwargs cmd =
    if ltb 1 count
    then (do
      guard (is_nonempty kwargs) assertion
      guard (all_known kwargs (field_names cmd.invocation)) assertion
      ok (record cmd { repeated = some (record { repeat_count = count; repeat_incr = kwargs }) }))
    else ok cmd
