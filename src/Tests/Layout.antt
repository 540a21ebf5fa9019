-- ===== src/Tests/Layout.antt =====
-- Runs of the layout of address spaces and capability spaces.
use sel4cp.Prelude.{◌<◌, ◌≡◌, refl, arith, ok}
use sel4cp.Builder.Layout.{
  pd_cap_size, alloc_vspace_tls, get_thread_sc_offset, get_thread_cspace_offset,
  get_thread_reply_offset, get_pd_vspace_offset, human_size_strict,
}
use sel4cp.Builder.Layout.Offsets.{cspace, slot_of_injective}

human_size_strict_4096 : human_size_strict 4096 ≡ ok (4, "KiB")
unfolding human_size_strict
human_size_strict_4096 = refl

sc_run : get_thread_sc_offset 3 1 ≡ ok 206
unfolding get_thread_sc_offset
sc_run = refl

cspace_run : get_thread_cspace_offset 3 0 ≡ ok 208
unfolding get_thread_cspace_offset
cspace_run = refl

reply_run : get_thread_reply_offset 3 2 ≡ ok 213
unfolding get_thread_reply_offset
reply_run = refl

vspace_run : get_pd_vspace_offset 3 4 ≡ ok 218
unfolding get_pd_vspace_offset
vspace_run = refl

slot_of_injective_example : (cspace 0 ≡ cspace 0) × (0 < 208) × (208 < pd_cap_size)
slot_of_injective_example =
    slot_of_injective 3 208 (cspace 0) (cspace 0) (omega arith) (omega arith) (omega arith)
      cspace_run cspace_run

tls_run : alloc_vspace_tls 2 100 8 ≡ ok (0x400000, 0x1000)
unfolding alloc_vspace_tls
tls_run = refl
