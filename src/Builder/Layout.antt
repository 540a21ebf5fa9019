-- ===== src/Builder/Layout.antt =====
-- Where the threads of a protection domain have their stacks, thread-local storage and message
-- buffers (tool/sel4coreplat/system.py), and which slots and address ranges the builder of
-- tool/sel4coreplat/__main__.py gives them.
pub mod Apart
pub mod Offsets
use Prim.Native.String.{String}
use sel4cp.Prelude.{
  ℕ, ◌+◌, ◌-◌, ◌*◌, ◌/◌, ◌%◌, ◌^◌, Bool, true, false, List, [], ◌∷◌, Result, ok, err, assertion,
  value_error, zero_division, exception, index_error, guard, raise_if, ◌>>=◌, ◌>>◌, ltb, leb, ◌==◌,
  if◌then◌else◌,
}
use sel4cp.Words.{kb, round_up}
use sel4cp.Builder.InitSystem.{KernelObject}

abbrev pub vspace_tls_start : ℕ
vspace_tls_start = 0x400000

abbrev pub vspace_tls_end : ℕ
vspace_tls_end = 0x404000

abbrev pub vspace_ipcbuff_size : ℕ
vspace_ipcbuff_size = 4 * 1024

abbrev pub vspace_ipcbuff_low : ℕ
vspace_ipcbuff_low = vspace_tls_end

abbrev pub vspace_stack_size : ℕ
vspace_stack_size = 4 * 1024

abbrev pub vspace_stack_high : ℕ
vspace_stack_high = 0x600000

-- Thread numbers are below 62, so the address is above 0.
unfoldable pub alloc_thread_stack : ℕ → Result (ℕ × ℕ)
alloc_thread_stack tid = do
  let ret = vspace_stack_high - vspace_stack_size - tid * vspace_stack_size * 2
  guard (ret % 16 == 0) assertion
  ok (ret, vspace_stack_size)

unfoldable pub alloc_vspace_tls : ℕ → ℕ → ℕ → Result (ℕ × ℕ)
unfolding round_up
alloc_vspace_tls threads single_tls_size single_tls_align = do
  guard (ltb 0 single_tls_align) zero_division
  guard (4 * 1024 % single_tls_align == 0) assertion
  let one = round_up single_tls_size single_tls_align
  let all = if ltb 0 threads then one * threads else one
  let aligned_size = round_up all (4 * 1024)
  guard (leb (vspace_tls_start + aligned_size) vspace_tls_end) assertion
  ok (vspace_tls_start, aligned_size)

unfoldable pub alloc_vspace_ipc_buffer : ℕ → ℕ × ℕ
alloc_vspace_ipc_buffer threads = (
  vspace_ipcbuff_low,
  if ltb 0 threads then vspace_ipcbuff_size * threads else vspace_ipcbuff_size,
)

abbrev pub base_tcb_cap : ℕ
base_tcb_cap = 10 + 64 + 64 + 64

abbrev pub pd_cap_size : ℕ
pd_cap_size = 512

abbrev in_cspace : ℕ → Result ℕ
in_cspace ret = do guard (ltb ret pd_cap_size) assertion; ok ret

unfoldable pub get_thread_sc_offset : ℕ → ℕ → Result ℕ
get_thread_sc_offset num_threads thread = in_cspace (base_tcb_cap + num_threads + thread)

unfoldable pub get_thread_cspace_offset : ℕ → ℕ → Result ℕ
get_thread_cspace_offset num_threads thread = in_cspace (base_tcb_cap + num_threads * 2 + thread)

unfoldable pub get_thread_reply_offset : ℕ → ℕ → Result ℕ
get_thread_reply_offset num_threads thread = in_cspace (base_tcb_cap + num_threads * 3 + thread)

unfoldable pub get_pd_vspace_offset : ℕ → ℕ → Result ℕ
get_pd_vspace_offset num_threads pd = in_cspace (base_tcb_cap + num_threads * 4 + pd)

unfoldable pub overlaps : ℕ × ℕ → ℕ × ℕ → Bool
overlaps (base1, size1) (base2, size2) =
    if leb (base2 + size2) base1 then false else if leb (base1 + size1) base2 then false else true

-- `assert_objects_adjacent` behind the first object.
unfoldable pub adjacent_from : ℕ → List KernelObject → Result (Unit {0})
adjacent_from prev_cap_addr [] = ok tt
adjacent_from prev_cap_addr (o ∷ os) = do
  guard (o.cap_addr == prev_cap_addr + 1) assertion
  adjacent_from o.cap_addr os

unfoldable pub assert_objects_adjacent : List KernelObject → Result (Unit {0})
unfolding adjacent_from
assert_objects_adjacent [] = err index_error
assert_objects_adjacent (o ∷ os) = adjacent_from o.cap_addr os

-- The number and the unit that `human_size_strict` prints, over the units that are left.
unfoldable pub size_in_units : List (ℕ × String) → ℕ → Result (ℕ × String)
size_in_units [] size = err exception
size_in_units ((bits, label) ∷ units) size =
    if ltb (2 ^ bits) size
    then (if size % 2 ^ bits == 0 then ok (size / 2 ^ bits, label) else err value_error)
    else size_in_units units size

unfoldable pub human_size_strict : ℕ → Result (ℕ × String)
unfolding size_in_units
human_size_strict size = do
  raise_if (ltb (2 ^ 70) size) value_error
  size_in_units
      ((60, "EiB")
        ∷ (50, "PiB")
        ∷ (40, "TiB")
        ∷ (30, "GiB")
        ∷ (20, "MiB")
        ∷ (10, "KiB")
        ∷ (0, "bytes")
        ∷ [])
      size
