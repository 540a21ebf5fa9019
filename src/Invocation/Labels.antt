-- ===== src/Invocation/Labels.antt =====
-- The numbers of the kernel's invocations (`Sel4Label` of tool/sel4coreplat/sel4.py).
use sel4cp.Prelude.{ℕ}

pub data Label : Type 0 where
  untyped_retype tcb_read_registers tcb_write_registers : Label
  tcb_copy_registers tcb_configure tcb_set_priority : Label
  tcb_set_mc_priority tcb_set_sched_params tcb_set_timeout_endpoint : Label
  tcb_set_ipc_buffer tcb_set_vspace tcb_set_cspace : Label
  tcb_set_fault_handler tcb_set_space tcb_suspend : Label
  tcb_resume tcb_bind_notification tcb_unbind_notification : Label
  tcb_set_tls_base cnode_revoke cnode_delete : Label
  cnode_cancel_badged_sends cnode_copy cnode_mint : Label
  cnode_move cnode_mutate cnode_rotate : Label
  irq_issue_irq_handler irq_ack_irq irq_set_irq_handler : Label
  irq_clear_irq_handler domain_set_set sched_control_configure_flags : Label
  sched_context_bind sched_context_unbind sched_context_unbind_object : Label
  sched_context_consume sched_context_yield_to arm_vspace_clean_data : Label
  arm_vspace_invalidate_data arm_vspace_clean_invalidate_data arm_vspace_unify_instruction : Label
  arm_page_upper_directory_map arm_page_upper_directory_unmap arm_page_directory_map : Label
  arm_page_directory_unmap arm_page_table_map arm_page_table_unmap : Label
  arm_page_map arm_page_unmap arm_page_clean_data : Label
  arm_page_invalidate_data arm_page_clean_invalidate_data arm_page_unify_instruction : Label
  arm_page_get_address arm_asid_control_make_pool arm_asid_pool_assign : Label
  arm_irq_issue_irq_handler_trigger : Label

unfoldable pub label_value : Label → ℕ
label_value untyped_retype = 1
label_value tcb_read_registers = 2
label_value tcb_write_registers = 3
label_value tcb_copy_registers = 4
label_value tcb_configure = 5
label_value tcb_set_priority = 6
label_value tcb_set_mc_priority = 7
label_value tcb_set_sched_params = 8
label_value tcb_set_timeout_endpoint = 9
label_value tcb_set_ipc_buffer = 10
label_value tcb_set_vspace = 11
label_value tcb_set_cspace = 12
label_value tcb_set_fault_handler = 13
label_value tcb_set_space = 14
label_value tcb_suspend = 15
label_value tcb_resume = 16
label_value tcb_bind_notification = 17
label_value tcb_unbind_notification = 18
label_value tcb_set_tls_base = 19
label_value cnode_revoke = 20
label_value cnode_delete = 21
label_value cnode_cancel_badged_sends = 22
label_value cnode_copy = 23
label_value cnode_mint = 24
label_value cnode_move = 25
label_value cnode_mutate = 26
label_value cnode_rotate = 27
label_value irq_issue_irq_handler = 28
label_value irq_ack_irq = 29
label_value irq_set_irq_handler = 30
label_value irq_clear_irq_handler = 31
label_value domain_set_set = 32
label_value sched_control_configure_flags = 33
label_value sched_context_bind = 34
label_value sched_context_unbind = 35
label_value sched_context_unbind_object = 36
label_value sched_context_consume = 37
label_value sched_context_yield_to = 38
label_value arm_vspace_clean_data = 39
label_value arm_vspace_invalidate_data = 40
label_value arm_vspace_clean_invalidate_data = 41
label_value arm_vspace_unify_instruction = 42
label_value arm_page_upper_directory_map = 43
label_value arm_page_upper_directory_unmap = 44
label_value arm_page_directory_map = 45
label_value arm_page_directory_unmap = 46
label_value arm_page_table_map = 47
label_value arm_page_table_unmap = 48
label_value arm_page_map = 49
label_value arm_page_unmap = 50
label_value arm_page_clean_data = 51
label_value arm_page_invalidate_data = 52
label_value arm_page_clean_invalidate_data = 53
label_value arm_page_unify_instruction = 54
label_value arm_page_get_address = 55
label_value arm_asid_control_make_pool = 56
label_value arm_asid_pool_assign = 57
label_value arm_irq_issue_irq_handler_trigger = 58
