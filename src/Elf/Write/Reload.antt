-- ===== src/Elf/Write/Reload.antt =====
-- What is read back from a written file.
use mathlib.Core.List.{append_assoc, append-nil}
use Prim.Native.String.{String}
use sel4cp.Prelude.{
  ℕ, ◌+◌, ◌-◌, ◌*◌, ◌≡◌, refl, sym, ap, ◌∙◌, true, List, [], ◌∷◌, ◌++◌, arith, Result, ok, err,
  unbound_local, >>=-eq-ok, ok_injective, leb, ◌==◌, length, length-append, take, drop, drop-append,
  All,
}
use sel4cp.Bytes.{size_of, packed, pack, unpack_from}
use sel4cp.Bytes.Laws.{unpack_from-pack, unpack-pack, length-pack, take_prefix}
use sel4cp.Elf.Types.{ElfSegment, ElfFile, elf_magic, mem_size}
use sel4cp.Elf.Formats.{elf_header64, header_fields, elf_program_header64, program_header64_fields}
use sel4cp.Elf.Read.{
  class64, class_of, read_at, same_bytes, read_segment, read_segments, read_image, read_sections,
  from_path,
}
use sel4cp.Elf.Write.{
  ehsize, phentsize, written_header, written_program_header, write_program_headers, all_contents,
  write,
}

-- The memory of a segment is as large as its header says.
abbrev pub IsWhole : ElfSegment → Type 0
IsWhole seg = length seg.contents ≡ mem_size seg

-- The segments of a written file: the same addresses and contents, under new headers.
abbrev pub rewritten : List ElfSegment → ℕ → List ElfSegment
rewritten [] data_offset = []
rewritten (seg ∷ segs) data_offset =
    record { header = written_program_header seg data_offset; contents = seg.contents }
    ∷ rewritten segs (data_offset + length seg.contents)

read_at-prefix :
    (n : ℕ) (front xs back : List ℕ)
    → length xs ≡ n
    → read_at (length front) n (front ++ (xs ++ back)) ≡ xs
read_at-prefix n front xs back h =
    ap (take n) (drop-append front (xs ++ back)) ∙ take_prefix n xs back h

-- One segment, whose program header stands at `at` and whose contents stand where the header says.
read_segment-written :
    (seg : ElfSegment) (file header : List ℕ) (at offset : ℕ)
    → IsWhole seg
    → pack elf_program_header64 (program_header64_fields (written_program_header seg offset))
      ≡ ok header
    → read_at at phentsize file ≡ header
    → read_at offset (mem_size seg) file ≡ seg.contents
    → read_segment class64 file at phentsize
      ≡ ok (record { header = written_program_header seg offset; contents = seg.contents })
unfolding read_segment
read_segment-written seg file header at offset whole packed here there =
    let fields = program_header64_fields (written_program_header seg offset) in
    let back : unpack_from elf_program_header64 header ≡ ok fields =
      ap (unpack_from elf_program_header64) (sym (append-nil header))
      ∙ unpack_from-pack elf_program_header64 fields header [] packed in
    let enough : leb (mem_size seg) (mem_size seg) ≡ true = ground arith in
    let none_left : mem_size seg - mem_size seg ≡ 0 = omega arith in
    let exact : (length seg.contents == mem_size seg) ≡ true = ground arith in
    rw (here, back, enough, there, none_left, append-nil seg.contents, exact) refl

-- The same bytes, bracketed at a part of them.
read_at-part :
    (n at : ℕ) (file front xs back : List ℕ)
    → file ≡ front ++ (xs ++ back)
    → at ≡ length front
    → length xs ≡ n
    → read_at at n file ≡ xs
read_at-part n at file front xs back e p h =
    ap (λ t. read_at t n file) p
    ∙ ap (read_at (length front) n) e
    ∙ read_at-prefix n front xs back h

read_segments-written :
    (segs : List ElfSegment) (file front mid headers : List ℕ) (offset : ℕ)
    → All IsWhole segs
    → write_program_headers segs offset ≡ ok headers
    → file ≡ front ++ (headers ++ (mid ++ all_contents segs))
    → offset ≡ length front + length headers + length mid
    → read_segments class64 file phentsize (length segs) (length front) ≡ ok (rewritten segs offset)
unfolding read_segments write_program_headers
read_segments-written [] file front mid headers offset whole written e o = refl
read_segments-written (seg ∷ segs) file front mid headers offset whole written e o =
    let contents = seg.contents in
    let (h, packed, more) =
      >>=-eq-ok
        (pack elf_program_header64 (program_header64_fields (written_program_header seg offset))) _
        written in
    let (hs, rest, same) =
      >>=-eq-ok (write_program_headers segs (offset + length contents)) _ more in
    let joined : headers ≡ h ++ hs = sym (ok_injective same) in
    let size =
      length-pack elf_program_header64 (program_header64_fields (written_program_header seg offset))
        h packed in
    let long : length headers ≡ length h + length hs = ap length joined ∙ length-append h hs in
    let by_parts : file ≡ front ++ ((h ++ hs) ++ (mid ++ (contents ++ all_contents segs))) =
      e ∙ ap (λ t. front ++ (t ++ (mid ++ (contents ++ all_contents segs)))) joined in
    let at_header : file ≡ front ++ (h ++ (hs ++ (mid ++ (contents ++ all_contents segs)))) =
      by_parts ∙ simp append_assoc in
    let at_contents : file ≡ (front ++ (h ++ (hs ++ mid))) ++ (contents ++ all_contents segs) =
      by_parts ∙ simp append_assoc in
    let next : file ≡ (front ++ h) ++ (hs ++ ((mid ++ contents) ++ all_contents segs)) =
      by_parts ∙ simp append_assoc in
    let front_size = length-append front h in
    let mid_size = length-append mid contents in
    let before_size : length (front ++ (h ++ (hs ++ mid))) ≡ offset = omega (
      arith,
      length-append front (h ++ (hs ++ mid)),
      length-append h (hs ++ mid),
      length-append hs mid,
      long,
      o,
    ) in
    let one : read_segment class64 file (length front) phentsize
        ≡ ok (record { header = written_program_header seg offset; contents = contents }) =
      read_segment-written seg file h (length front) offset whole.0 packed
        (read_at-part phentsize (length front) file front h _ at_header refl size)
        (read_at-part (mem_size seg) offset file (front ++ (h ++ (hs ++ mid))) contents _
          at_contents (sym before_size) whole.0) in
    let others : read_segments class64 file phentsize (length segs) (length front + phentsize)
        ≡ ok (rewritten segs (offset + length contents)) =
      ap (read_segments class64 file phentsize (length segs)) (omega (arith, front_size, size))
      ∙ read_segments-written segs file (front ++ h) (mid ++ contents) hs (offset + length contents)
          whole.1 rest next (omega (arith, front_size, mid_size, long, o)) in
    rw (one, others) refl

length-write_program_headers :
    (segs : List ElfSegment) (offset : ℕ) (headers : List ℕ)
    → write_program_headers segs offset ≡ ok headers
    → length headers ≡ length segs * phentsize
unfolding write_program_headers
length-write_program_headers [] offset headers h = ap length (sym (ok_injective h))
length-write_program_headers (seg ∷ segs) offset headers h =
    let (first, packed, more) =
      >>=-eq-ok
        (pack elf_program_header64 (program_header64_fields (written_program_header seg offset))) _
        h in
    let (others, rest, same) =
      >>=-eq-ok (write_program_headers segs (offset + length seg.contents)) _ more in
    let size =
      length-pack elf_program_header64 (program_header64_fields (written_program_header seg offset))
        first packed in
    let ih = length-write_program_headers segs (offset + length seg.contents) others rest in
    ap length (sym (ok_injective same)) ∙ omega (arith, length-append first others, size, ih)

-- A file that was written, read back as far as its sections: the header says the same entry, and the
-- segments have the same addresses and contents, under headers that say that they are loadable.
pub read_image-write :
    (elf : ElfFile) (file : List ℕ)
    → All IsWhole elf.segments
    → write elf ≡ ok file
    → read_image file
      ≡ ok (
        class64,
        written_header elf,
        rewritten elf.segments (ehsize + length elf.segments * phentsize),
      )
unfolding write read_image
read_image-write elf file whole h =
    let segs = elf.segments in
    let offset = ehsize + length segs * phentsize in
    let (header, packed, more) =
      >>=-eq-ok (pack elf_header64 (header_fields (written_header elf))) _ h in
    let (headers, written, same) = >>=-eq-ok (write_program_headers segs offset) _ more in
    let size = length-pack elf_header64 (header_fields (written_header elf)) header packed in
    let parts : file ≡ (elf_magic ++ 2 ∷ header) ++ (headers ++ all_contents segs) =
      sym (ok_injective same) in
    let read : read_at 5 (size_of elf_header64) file ≡ header =
      ap (read_at 5 (size_of elf_header64)) parts
      ∙ take_prefix (size_of elf_header64) header _ size in
    let back = unpack-pack elf_header64 (header_fields (written_header elf)) header packed in
    let sized = length-write_program_headers segs offset headers written in
    let loop : read_segments class64 file phentsize (length segs) ehsize
        ≡ ok (rewritten segs offset) =
      ap (read_segments class64 file phentsize (length segs)) (omega (arith, size))
      ∙ read_segments-written segs file (elf_magic ++ 2 ∷ header) [] headers offset whole written
          parts (omega (arith, size, sized)) in
    let magic : same_bytes (take 4 file) elf_magic ≡ true =
      ap (λ t. same_bytes (take 4 t) elf_magic) parts in
    let class : class_of (drop 4 file) ≡ ok class64 = ap (λ t. class_of (drop 4 t)) parts in
    rw (magic, class, read, back, loop) refl

-- A file that was written has no sections, so `from_path` refuses to read it: the variable for the
-- string table is never bound.
pub from_path-write :
    (decode : List ℕ → Result String) (elf : ElfFile) (file : List ℕ)
    → All IsWhole elf.segments
    → write elf ≡ ok file
    → from_path decode file ≡ err unbound_local
unfolding from_path read_sections
from_path-write decode elf file whole h = rw (read_image-write elf file whole h) refl
