-- ===== src/Loader/Write/Copied.antt =====
-- The memory after the loader has copied the regions.
use mathlib.Core.List.{append_assoc}
use mathlib.Core.Path.{ap₂}
use sel4cp.Prelude.{
  ℕ, zero, suc, ◌+◌, ◌-◌, ◌%◌, ◌^◌, ◌≤◌, ◌<◌, ◌≡◌, ◌⊎◌, ◌∙◌, inl, inr, refl, sym, ap, subst, true,
  false, none, some, List, [], ◌∷◌, ◌++◌, arith, Result, ok, err, out_of_fuel, ltb, if◌then◌else◌,
  get_elem?, length, length-append, drop, All,
}
use sel4cp.Memory.{MemoryRegion}
use sel4cp.Elf.Types.{ElfSegment, ElfFile}
use sel4cp.Loader.Overlap.{Region, Apart, NonOverlapping}
use sel4cp.Loader.Image.{Loader, finish}
use sel4cp.Loader.Image.Built.{finish-IsBuilt}
use sel4cp.Loader.Write.{write_image}
use sel4cp.Loader.Write.Reload.{num_regions, copy_data, copy_data-write_image}

-- One `memcpy` from bytes that it does not overwrite, on the memory as a function of 64-bit addresses,
-- which wrap.
abbrev pub memcpy : ℕ → List ℕ → (ℕ → ℕ) → ℕ → ℕ
memcpy addr bytes mem a = elim (get_elem? bytes ((a + 2 ^ 64 - addr) % 2 ^ 64)) [
  | none ↦ mem a
  | some b ↦ b
]

-- The bytes of the memory from an address on.
unfoldable pub ram : (ℕ → ℕ) → ℕ → ℕ → List ℕ
ram mem addr zero = []
ram mem addr (suc n) = mem (addr % 2 ^ 64) ∷ ram mem (addr + 1) n

-- One round of `copy_data`: the descriptor of region `i` and its bytes as they stand in the memory
-- from `loader_data` on, of which `len` bytes are looked at.
abbrev pub copy_region : ℕ → ℕ → ℕ → ℕ → (ℕ → ℕ) → ℕ → ℕ
copy_region n loader_data len i mem = elim (get_elem? (copy_data n (ram mem loader_data len)) i) [
  | none ↦ mem
  | some (addr, bytes) ↦ memcpy addr bytes mem
]

-- The loop of `copy_data` from round `i`, a `uint32_t`, which reads `num_regions` again in each round.
unfoldable pub copy_loop : ℕ → ℕ → ℕ → ℕ → ℕ → (ℕ → ℕ) → Result (ℕ → ℕ)
unfolding ram
copy_loop n loader_data len zero i mem = err out_of_fuel
copy_loop n loader_data len (suc fuel) i mem =
    let rest =
      copy_loop n loader_data len fuel ((i + 1) % 2 ^ 32) (copy_region n loader_data len i mem) in
    if ltb i (num_regions n (ram mem loader_data len)) then rest else ok mem

-- The memory holds the bytes of a region.
abbrev pub Holds : (ℕ → ℕ) → Region → Type 0
Holds mem (addr, bytes) = (k b : ℕ) → get_elem? bytes k ≡ some b → mem (addr + k) ≡ b

get_elem?-length : (bytes : List ℕ) (k b : ℕ) → get_elem? bytes k ≡ some b → k < length bytes
get_elem?-length [] k b h = cc
get_elem?-length (x ∷ xs) zero b h = omega arith
get_elem?-length (x ∷ xs) (suc k) b h = omega (arith, get_elem?-length xs k b h)

get_elem?-beyond : (bytes : List ℕ) (k : ℕ) → length bytes ≤ k → get_elem? bytes k ≡ none
get_elem?-beyond [] k h = refl
get_elem?-beyond (x ∷ xs) zero h = absurd (omega arith)
get_elem?-beyond (x ∷ xs) (suc k) h = get_elem?-beyond xs k (omega arith)

-- The region ends inside the 64-bit address space.
abbrev pub IsInside : Region → Type 0
IsInside (addr, bytes) = addr + length bytes ≤ 2 ^ 64

memcpy-Holds : (r : Region) (mem : ℕ → ℕ) → IsInside r → Holds (memcpy r.0 r.1 mem) r
memcpy-Holds (addr, bytes) mem room k b h =
    let inside = get_elem?-length bytes k b h in
    let place : (addr + k + 2 ^ 64 - addr) % 2 ^ 64 ≡ k = omega (arith, inside, room) in
    rw (memcpy, place, h) refl

-- A copy leaves what lies outside of it.
memcpy-outside :
    (s : Region) (mem : ℕ → ℕ) (a : ℕ)
    → IsInside s
    → a < 2 ^ 64
    → (a < s.0) ⊎ (s.0 + length s.1 ≤ a)
    → memcpy s.0 s.1 mem a ≡ mem a
memcpy-outside (other, others) mem a room low out =
    rw
      (
        memcpy,
        get_elem?-beyond others ((a + 2 ^ 64 - other) % 2 ^ 64) (past (length others) room out),
      )
      refl
  where
    past :
        (m : ℕ)
        → other + m ≤ 2 ^ 64
        → (a < other) ⊎ (other + m ≤ a)
        → m ≤ (a + 2 ^ 64 - other) % 2 ^ 64
    past m r (inl p) = omega arith
    past m r (inr p) = omega arith

apart-outside :
    (addr n other m k : ℕ)
    → (addr + n ≤ other) ⊎ (other + m ≤ addr)
    → k < n
    → (addr + k < other) ⊎ (other + m ≤ addr + k)
apart-outside addr n other m k (inl p) q = inl (omega arith)
apart-outside addr n other m k (inr p) q = inr (omega arith)

memcpy-kept :
    (r s : Region) (mem : ℕ → ℕ)
    → IsInside r
    → IsInside s
    → Apart r s
    → Holds mem r
    → Holds (memcpy s.0 s.1 mem) r
memcpy-kept (addr, bytes) (other, others) mem inside room apart held k b h =
    let q = get_elem?-length bytes k b h in
    memcpy-outside (other, others) mem (addr + k) room (omega (arith, inside, q))
      (apart-outside addr (length bytes) other (length others) k apart q)
    ∙ held k b h

-- The copies of regions one after the other.
abbrev memcpy_all : List Region → (ℕ → ℕ) → ℕ → ℕ
memcpy_all [] mem = mem
memcpy_all ((addr, bytes) ∷ rs) mem = memcpy_all rs (memcpy addr bytes mem)

memcpy_all-kept :
    (r : Region) (rs : List Region) (mem : ℕ → ℕ)
    → IsInside r
    → All IsInside rs
    → All (Apart r) rs
    → Holds mem r
    → Holds (memcpy_all rs mem) r
memcpy_all-kept r [] mem inside room apart held = held
memcpy_all-kept r (s ∷ rs) mem inside room apart held =
    memcpy_all-kept r rs (memcpy s.0 s.1 mem) inside room.1 apart.1
      (memcpy-kept r s mem inside room.0 apart.0 held)

memcpy_all-Holds :
    (rs : List Region) (mem : ℕ → ℕ)
    → All IsInside rs
    → NonOverlapping rs
    → All (Holds (memcpy_all rs mem)) rs
memcpy_all-Holds [] mem room apart = tt
memcpy_all-Holds (r ∷ rs) mem room apart = (
  memcpy_all-kept r rs (memcpy r.0 r.1 mem) room.0 room.1 apart.0 (memcpy-Holds r mem room.0),
  memcpy_all-Holds rs (memcpy r.0 r.1 mem) room.1 apart.1,
)

-- A copy apart from a range leaves its bytes.
ram-memcpy :
    (s : Region) (mem : ℕ → ℕ) (addr n : ℕ)
    → IsInside s
    → addr + n ≤ 2 ^ 64
    → (addr + n ≤ s.0) ⊎ (s.0 + length s.1 ≤ addr)
    → ram (memcpy s.0 s.1 mem) addr n ≡ ram mem addr n
unfolding ram
ram-memcpy s mem addr zero room inside apart = refl
ram-memcpy s mem addr (suc n) room inside apart =
    let low : addr % 2 ^ 64 ≡ addr = omega (arith, inside) in
    let out = apart-outside addr (suc n) s.0 (length s.1) 0 apart (omega arith) in
    let e : addr + 0 ≡ addr = omega arith in
    ap₂ {A = ℕ} ◌∷◌
      (ap (memcpy s.0 s.1 mem) low
        ∙ memcpy-outside s mem addr room (omega (arith, inside))
            (subst (λ t. (t < s.0) ⊎ (s.0 + length s.1 ≤ t)) e out)
        ∙ ap mem (sym low))
      (ram-memcpy s mem (addr + 1) n room (omega (arith, inside)) (later apart))
  where
    later :
        (addr + suc n ≤ s.0) ⊎ (s.0 + length s.1 ≤ addr)
        → (addr + 1 + n ≤ s.0) ⊎ (s.0 + length s.1 ≤ addr + 1)
    later (inl p) = inl (omega arith)
    later (inr p) = inr (omega arith)

get_elem?-append :
    (done left : List Region) (r : Region) → get_elem? (done ++ r ∷ left) (length done) ≡ some r
get_elem?-append [] left r = refl
get_elem?-append (x ∷ done) left r = get_elem?-append done left r

-- The region keeps off the bytes from an address on.
abbrev pub KeepsOff : ℕ → ℕ → Region → Type 0
KeepsOff addr len (other, bytes) = (addr + len ≤ other) ⊎ (other + length bytes ≤ addr)

copy_region-memcpy :
    (n loader_data i : ℕ) (table : List ℕ) (r : Region) (mem : ℕ → ℕ)
    → ram mem loader_data (length table) ≡ table
    → get_elem? (copy_data n table) i ≡ some r
    → copy_region n loader_data (length table) i mem ≡ memcpy r.0 r.1 mem
copy_region-memcpy n loader_data i table (addr, bytes) mem held here =
    rw (copy_region, held, here) refl

-- The loop copies the regions one after the other, as long as none overwrites the data.
copy_loop-memcpy_all :
    (n loader_data : ℕ) (table : List ℕ) (done left : List Region) (mem : ℕ → ℕ)
    → copy_data n table ≡ done ++ left
    → num_regions n table ≡ length (done ++ left)
    → length (done ++ left) < 2 ^ 32
    → loader_data + length table ≤ 2 ^ 64
    → All IsInside left
    → All (KeepsOff loader_data (length table)) left
    → ram mem loader_data (length table) ≡ table
    → copy_loop n loader_data (length table) (suc (length left)) (length done) mem
      ≡ ok (memcpy_all left mem)
unfolding copy_loop
copy_loop-memcpy_all n loader_data table done [] mem copied counted few room inside off held =
    let e = length-append done [] in
    let stop : ltb (length done) (num_regions n table) ≡ false = ground (arith, e, counted) in
    rw (held, stop) refl
copy_loop-memcpy_all n loader_data table done (r ∷ left) mem copied counted few room inside off
      held =
    let e = length-append done (r ∷ left) in
    let more : ltb (length done) (num_regions n table) ≡ true = ground (arith, e, counted) in
    let here : get_elem? (copy_data n table) (length done) ≡ some r =
      ap (λ t. get_elem? t (length done)) copied ∙ get_elem?-append done left r in
    let shift = append_assoc done (r ∷ []) left in
    let next : length (done ++ r ∷ []) ≡ (length done + 1) % 2 ^ 32 =
      omega (arith, length-append done (r ∷ []), e, few) in
    let kept : ram (memcpy r.0 r.1 mem) loader_data (length table) ≡ table =
      ram-memcpy r mem loader_data (length table) inside.0 room off.0 ∙ held in
    let later =
      copy_loop-memcpy_all n loader_data table (done ++ r ∷ []) left (memcpy r.0 r.1 mem)
        (copied ∙ sym shift) (counted ∙ ap length (sym shift))
        (subst (λ t. length t < 2 ^ 32) (sym shift) few) room inside.1 off.1 kept in
    let one = copy_region-memcpy n loader_data (length done) table r mem held here in
    rw (held, more)
      (ap₂ (λ k m. copy_loop n loader_data (length table) (suc (length left)) k m) (sym next) one
        ∙ later)

-- Where the end of `Loader.__init__`, for any image and regions, returns a loader and its image is
-- written, and the file behind the loader's own image stands in the memory at `loader_data`, ends
-- inside the 64-bit address space, there are less than 2 ** 32 regions, and none wraps or meets it:
-- the boot loader's `copy_data`,
-- which reads the descriptors and the bytes from the memory that it changes, ends and leaves in
-- memory the bytes of every region of the loader at the region's address.
pub finish-copy_loop :
    (elf kernel_elf task : ElfFile) (t : ElfSegment) (first : ℕ) (reserved : MemoryRegion)
    (image : List ℕ) (all : List Region) (l : Loader) (file : List ℕ) (loader_data : ℕ)
    (mem : ℕ → ℕ)
    → finish elf kernel_elf task t first reserved image all ≡ ok l
    → write_image l ≡ ok file
    → ram mem loader_data (length (drop (length l.image) file)) ≡ drop (length l.image) file
    → length l.regions < 2 ^ 32
    → loader_data + length (drop (length l.image) file) ≤ 2 ^ 64
    → All IsInside l.regions
    → All (KeepsOff loader_data (length (drop (length l.image) file))) l.regions
    → (after : ℕ → ℕ) × (copy_loop l.word_bytes loader_data
          (length (drop (length l.image) file))
          (suc (length l.regions))
          0
          mem
        ≡ ok after)
      × All (Holds after) l.regions
finish-copy_loop elf kernel_elf task t first reserved image all l file loader_data mem built written
      held few room inside off =
    let (counted, apart) = finish-IsBuilt elf kernel_elf task t first reserved image all l built in
    let (_, many, copied) = copy_data-write_image l file counted written in
    (
      memcpy_all l.regions mem,
      copy_loop-memcpy_all l.word_bytes loader_data (drop (length l.image) file) [] l.regions mem
          copied many few room inside off held,
      memcpy_all-Holds l.regions mem inside apart,
    )
