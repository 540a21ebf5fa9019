-- ===== src/Builder/Layout/Apart.antt =====
-- The parts of a protection domain's address space keep apart.
use mathlib.Core.Path.{subst}
use native.Mathlib.Nat.{div-add-mod, mul-le-mul_left}
use sel4cp.Prelude.{
  zero, suc, ap, ◌∙◌, ◌/◌, if◌then◌else◌, ℕ, ◌+◌, ◌-◌, ◌*◌, ◌%◌, ◌≤◌, ◌<◌, ◌≡◌, arith, ok,
  guard-eq-ok, ok_injective, ltb, leb, ◌==◌,
}
use sel4cp.Bits.{mod_of_parts}
use sel4cp.Words.{round_up}
use sel4cp.Words.Align.{round_lem}
use sel4cp.Builder.Layout.{
  vspace_tls_start, vspace_tls_end, vspace_ipcbuff_low, vspace_stack_size, vspace_stack_high,
  alloc_thread_stack, alloc_vspace_tls, alloc_vspace_ipc_buffer,
}

-- Up to 169 threads, the stacks of two threads are given, with a page between them, and the message
-- buffers of all the threads end below every stack.
pub alloc_thread_stack-Apart :
    (threads i j : ℕ)
    → threads ≤ 169
    → i < j
    → j ≤ threads
    → (a : ℕ) × (b : ℕ) × (alloc_thread_stack i ≡ ok (a, vspace_stack_size))
      × (alloc_thread_stack j ≡ ok (b, vspace_stack_size))
      × (b + vspace_stack_size + 0x1000 ≤ a)
      × (a + vspace_stack_size ≤ vspace_stack_high)
      × ((alloc_vspace_ipc_buffer threads).0 + (alloc_vspace_ipc_buffer threads).1 ≤ b)
unfolding alloc_thread_stack alloc_vspace_ipc_buffer
alloc_thread_stack-Apart threads i j few order last = (
  vspace_stack_high - vspace_stack_size - i * vspace_stack_size * 2,
  vspace_stack_high - vspace_stack_size - j * vspace_stack_size * 2,
  ground arith,
  ground arith,
  omega arith,
  omega arith,
  ground arith,
)

tls_start-align : (align : ℕ) → 0 < align → 4 * 1024 % align ≡ 0 → vspace_tls_start % align ≡ 0
tls_start-align align p h =
    let parts = div-add-mod (4 * 1024) align in
    let whole : vspace_tls_start ≡ align * (4 * 1024 / align * 1024) + 0 = grind arith in
    ap (λ t. t % align) whole ∙ mod_of_parts align (4 * 1024 / align * 1024) 0 p

-- The bytes of all the threads' blocks, before the rounding to pages.
abbrev blocks : ℕ → ℕ → ℕ
blocks threads one = if ltb 0 threads then one * threads else one

blocks_lem : (threads size one : ℕ) → size ≤ one → threads * size ≤ blocks threads one
blocks_lem zero size one h = ground arith
blocks_lem (suc n) size one h = grind (arith, mul-le-mul_left (suc n) h)

-- Where the thread-local storage is given, it starts aligned, has room for a block of each thread,
-- is whole pages, and ends at or below the message buffers.
pub alloc_vspace_tls-Apart :
    (threads size align : ℕ) {start total : ℕ}
    → alloc_vspace_tls threads size align ≡ ok (start, total)
    → (start % align ≡ 0)
      × (threads * size ≤ total)
      × (total % 0x1000 ≡ 0)
      × (start + total ≤ (alloc_vspace_ipc_buffer threads).0)
unfolding alloc_vspace_tls alloc_vspace_ipc_buffer
alloc_vspace_tls-Apart threads size align h =
    let (live, h1) = guard-eq-ok (ltb 0 align) _ _ h in
    let (pages, h2) = guard-eq-ok (4 * 1024 % align == 0) _ _ h1 in
    let total = round_up (blocks threads (round_up size align)) (4 * 1024) in
    let (room, same) = guard-eq-ok (leb (vspace_tls_start + total) vspace_tls_end) _ _ h2 in
    let positive : 0 < align = ground arith in
    let up = round_lem size align positive in
    let page = round_lem (blocks threads (round_up size align)) (4 * 1024) (omega arith) in
    let many = blocks_lem threads size (round_up size align) up.1 in
    subst
      (λ (r : ℕ × ℕ).
        (r.0 % align ≡ 0)
        × (threads * size ≤ r.1)
        × (r.1 % 0x1000 ≡ 0)
        × (r.0 + r.1 ≤ vspace_ipcbuff_low))
      (ok_injective same)
      (
        tls_start-align align positive (ground arith),
        omega (arith, many, page.1),
        page.0,
        ground arith,
      )
