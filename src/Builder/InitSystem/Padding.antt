-- ===== src/Builder/InitSystem/Padding.antt =====
-- Objects at fixed addresses: the padding in front of them, and their order.
use mathlib.Core.Path.{ap₂, subst}
use Prim.Native.String.{String}
use sel4cp.Prelude.{
  ℕ, zero, suc, min, ◌+◌, ◌-◌, ◌%◌, ◌^◌, ◌≤◌, ◌<◌, ◌≡◌, refl, sym, ap, ◌∙◌, true, false, pos,
  negsuc, min_ℤ, some, List, [], ◌∷◌, arith, Result, ok, err, value_error, ◌>>=◌, map, length-map,
  bit_or, ◌++◌, some_injective, if◌then◌else◌, Bool-cases, inl, inr, ltb, leb, ◌==◌, length,
}
use sel4cp.Words.{msb, lsb}
use sel4cp.Invocation.{Command, once, untyped_retype}
use sel4cp.Words.Position.{bit_length_bounds, pow_reflects, msb_bounds, lsb_parts, pow_mono}
use sel4cp.Bits.{pow_pos, pow_double}
use sel4cp.Memory.Split.{odd_multiple}
use sel4cp.Kernel.Types.{fixed_object_size, untyped_object_type}
use sel4cp.Builder.InitSystem.{log2, FixedUntypedAlloc, InitSystem, KernelObject}
use sel4cp.Builder.InitSystem.Fixed.{
  padding_sizes, find_untyped, place_fixed, size_of_fixed, find_or_raise, pad_all, move_watermark,
  in_untyped, allocate_fixed_objects,
}

-- Powers of two from one address to another, told by their exponents, each aligned to its size.
abbrev pub Pads : ℕ → ℕ → List ℕ → Type 0
Pads first last [] = first ≡ last
Pads first last (b ∷ bits) = (first % 2 ^ b ≡ 0) × Pads (first + 2 ^ b) last bits

-- A retype for one object of untyped memory of each size, in the slots from the first on.
abbrev pub paddings : ℕ → ℕ → ℕ → List ℕ → List Command
paddings cap cnode_cap slot [] = []
paddings cap cnode_cap slot (b ∷ bits) =
    once (untyped_retype cap untyped_object_type b cnode_cap 1 1 slot 1)
    ∷ paddings cap cnode_cap (slot + 1) bits

-- What making an object at a fixed address owes: behind the retypes that pad up to the address the
-- retype of the object, the one object made and recorded, the next slot, and the end of the object
-- as the last address and as the watermark of the untyped object that holds it.
pub record FixedMade (phys_address object_type alloc_size : ℕ) (name : String)
    (u : FixedUntypedAlloc) (s : InitSystem) (bits : List ℕ) (made : List KernelObject)
    (after : InitSystem) : Type 0 where
  pub commands :
      after.invocations
      ≡ s.invocations
        ++ paddings u.ut.cap s.cnode_cap s.cap_slot bits
        ++ once (untyped_retype u.ut.cap object_type 0 s.cnode_cap 1 1 (s.cap_slot + length bits) 1)
          ∷ []
  pub object :
      made
      ≡ record {
        object_type = object_type;
        cap_slot = s.cap_slot + length bits;
        cap_addr = bit_or s.cnode_mask (s.cap_slot + length bits);
        phys_addr = phys_address;
        name = name;
      }
        ∷ []
  pub recorded : after.objects ≡ s.objects ++ made
  pub next_slot : after.cap_slot ≡ s.cap_slot + length bits + 1
  pub last : after.last_fixed_address ≡ phys_address + alloc_size
  pub watermark :
      find_untyped phys_address after.device_untyped
      ≡ some (record u { watermark = phys_address + alloc_size })

pad_bits :
    (wm left : ℕ)
    → 0 < wm
    → 0 < left
    → (b : ℕ) × (min_ℤ (lsb wm) (msb left) ≡ pos b) × (2 ^ b ≤ left) × (wm % 2 ^ b ≡ 0)
pad_bits wm left p q =
    let (j, odd, bottom, parts) = lsb_parts wm p in
    let (m, top, low, high) = msb_bounds left q in
    (
      min j m,
      ap₂ min_ℤ bottom top ∙ both j m,
      omega (arith, pow_mono (min j m) m (omega arith)),
      ap (λ t. t % 2 ^ min j m) parts ∙ odd_multiple odd j (min j m) (omega arith),
    )
  where
    both : (a b : ℕ) → min_ℤ (pos a) (pos b) ≡ pos (min a b)
    both a b = ground arith

padding_sizes-Pads :
    (fuel wm left : ℕ)
    → 0 < wm
    → left ≤ fuel
    → (bits : List ℕ) × (padding_sizes fuel wm left ≡ ok (map (λ b. 2 ^ b) bits))
      × Pads wm (wm + left) bits
unfolding padding_sizes
padding_sizes-Pads zero wm left p h =
    let z : left ≡ 0 = omega arith in ([], rw (z, padding_sizes) refl, omega arith)
padding_sizes-Pads (suc fuel) wm left p h = elim (Bool-cases (left == 0)) [
  | inl z ↦ ([], rw (z, padding_sizes) refl, ground arith)
  | inr more ↦
      let (b, picked, fits, aligned) = pad_bits wm left p (ground arith) in
      let some_bytes = pow_pos b in
      let (bits, rest, pads) =
        padding_sizes-Pads fuel (wm + 2 ^ b) (left - 2 ^ b) (omega arith) (omega arith) in
      let to : wm + 2 ^ b + (left - 2 ^ b) ≡ wm + left = omega arith in
      (b ∷ bits, rw (more, picked, padding_sizes, rest) refl, (aligned, rw (sym to) pads))
]

size_of_fixed-some : (t n : ℕ) → fixed_object_size t ≡ some n → size_of_fixed t ≡ ok n
size_of_fixed-some t n h = rw (h, size_of_fixed) refl

find_or_raise-some :
    (a : ℕ) (us : List FixedUntypedAlloc) (u : FixedUntypedAlloc)
    → find_untyped a us ≡ some u
    → find_or_raise a us ≡ ok u
find_or_raise-some a us u h = rw (h, find_or_raise) refl

-- What is left of the operation when all but the padding is known.
fixed_steps :
    (p t n : ℕ) (name : String) (u : FixedUntypedAlloc) (s : InitSystem) (r : Result (List ℕ))
    → leb s.last_fixed_address p ≡ true
    → size_of_fixed t ≡ ok n
    → find_or_raise p s.device_untyped ≡ ok u
    → ltb p u.watermark ≡ false
    → padding_sizes (p - u.watermark) u.watermark (p - u.watermark) ≡ r
    → allocate_fixed_objects p t 1 (name ∷ []) s
      ≡ (r >>= λ sizes. ok (place_fixed p t n name u sizes s))
unfolding allocate_fixed_objects
fixed_steps p t n name u s r order sized found above padded =
    rw (order, sized, found, above, padded) refl

log2-pow : (k : ℕ) → log2 (2 ^ k) ≡ k
unfolding log2
log2-pow k =
    let (j, e, low, high) = bit_length_bounds (2 ^ k) (pow_pos k) in
    let below : k < suc j = pow_reflects k (suc j) high in
    let above : j < suc k = pow_reflects j (suc k) (omega (arith, pow_double k, pow_pos k)) in
    omega (arith, e)

pad_all-paddings :
    (cap cnode_cap slot : ℕ) (bits : List ℕ)
    → pad_all cap cnode_cap slot (map (λ b. 2 ^ b) bits) ≡ paddings cap cnode_cap slot bits
pad_all-paddings cap cnode_cap slot [] = refl
pad_all-paddings cap cnode_cap slot (b ∷ bits) =
    ap₂ (λ k cmds. once (untyped_retype cap untyped_object_type k cnode_cap 1 1 slot 1) ∷ cmds)
      (log2-pow b) (pad_all-paddings cap cnode_cap (slot + 1) bits)

find_untyped-move_watermark :
    (a mark : ℕ) (us : List FixedUntypedAlloc) (u : FixedUntypedAlloc)
    → find_untyped a us ≡ some u
    → find_untyped a (move_watermark a mark us) ≡ some (record u { watermark = mark })
find_untyped-move_watermark a mark [] u h = cc
find_untyped-move_watermark a mark (v ∷ vs) u h = elim (Bool-cases (in_untyped a v)) [
  | inl here ↦
      let same : v ≡ u =
        some_injective (sym (ap (λ b. if b then some v else find_untyped a vs) here) ∙ h) in
      rw (here, here) (ap {A = FixedUntypedAlloc} (λ w. some (record w { watermark = mark })) same)
  | inr later ↦
      let rest = sym (ap (λ b. if b then some v else find_untyped a vs) later) ∙ h in
      rw (later, later) (find_untyped-move_watermark a mark vs u rest)
]

place_fixed-FixedMade :
    (p t n : ℕ) (name : String) (u : FixedUntypedAlloc) (bits : List ℕ) (s : InitSystem)
    → find_untyped p s.device_untyped ≡ some u
    → let r = place_fixed p t n name u (map (λ b. 2 ^ b) bits) s in
      FixedMade p t n name u s bits r.0 r.1
place_fixed-FixedMade p t n name u bits s found =
    let many = length-map bits (λ b. 2 ^ b) in
    record {
      commands =
          ap₂
            (λ pads k.
              s.invocations
              ++ pads
              ++ once (untyped_retype u.ut.cap t 0 s.cnode_cap 1 1 (s.cap_slot + k) 1) ∷ [])
            (pad_all-paddings u.ut.cap s.cnode_cap s.cap_slot bits) many;
      object =
          ap {B = List KernelObject}
            (λ k.
              record {
                object_type = t;
                cap_slot = s.cap_slot + k;
                cap_addr = bit_or s.cnode_mask (s.cap_slot + k);
                phys_addr = p;
                name = name;
              }
              ∷ [])
            many;
      recorded = refl;
      next_slot = ap (λ k. s.cap_slot + k + 1) many;
      last = refl;
      watermark = find_untyped-move_watermark p (p + n) s.device_untyped u found;
    }

-- An object at a fixed address, not below the last one, in a device untyped whose watermark is
-- above 0 and not above the address, is always made. In front of its retype stand retypes of untyped
-- memory that run from the watermark exactly to the address, in powers of two that are each aligned
-- to their size; the one object that is made lies at the address and has the slot behind theirs.
pub allocate_fixed_objects_lem :
    (phys_address object_type alloc_size : ℕ) (name : String) (u : FixedUntypedAlloc)
    (s : InitSystem)
    → s.last_fixed_address ≤ phys_address
    → fixed_object_size object_type ≡ some alloc_size
    → find_untyped phys_address s.device_untyped ≡ some u
    → 0 < u.watermark
    → u.watermark ≤ phys_address
    → (bits : List ℕ) × (made : List KernelObject) × (after : InitSystem) × (allocate_fixed_objects
          phys_address object_type 1
          (name ∷ [])
          s
        ≡ ok (made, after))
      × Pads u.watermark phys_address bits
      × FixedMade phys_address object_type alloc_size name u s bits made after
allocate_fixed_objects_lem phys_address object_type alloc_size name u s order sized found positive
      below =
    let left = phys_address - u.watermark in
    let (bits, padded, pads) = padding_sizes-Pads left u.watermark left positive (omega arith) in
    let to : u.watermark + left ≡ phys_address = omega arith in
    let r = place_fixed phys_address object_type alloc_size name u (map (λ b. 2 ^ b) bits) s in
    (
      bits,
      r.0,
      r.1,
      fixed_steps phys_address object_type alloc_size name u s (ok (map (λ b. 2 ^ b) bits))
          (ground arith) (size_of_fixed-some object_type alloc_size sized)
          (find_or_raise-some phys_address s.device_untyped u found) (ground arith) padded,
      subst (λ t. Pads u.watermark t bits) to pads,
      place_fixed-FixedMade phys_address object_type alloc_size name u bits s found,
    )

lsb_of_zero : lsb 0 ≡ negsuc 0
unfolding lsb
lsb_of_zero = refl

padding_sizes-zero :
    (fuel left : ℕ) → 0 < fuel → 0 < left → padding_sizes fuel 0 left ≡ err value_error
unfolding padding_sizes
padding_sizes-zero zero left h p = absurd (omega arith)
padding_sizes-zero (suc fuel) left h p =
    let (m, top, _, _) = msb_bounds left p in
    let more : (left == 0) ≡ false = ground arith in rw (more, padding_sizes, lsb_of_zero, top) refl

-- Where the watermark is 0, as at the start of an untyped object at address 0, an object at a
-- higher address of it raises ValueError, for the shift by lsb(0).
pub allocate_fixed_objects-zero :
    (phys_address object_type alloc_size : ℕ) (name : String) (u : FixedUntypedAlloc)
    (s : InitSystem)
    → s.last_fixed_address ≤ phys_address
    → fixed_object_size object_type ≡ some alloc_size
    → find_untyped phys_address s.device_untyped ≡ some u
    → u.watermark ≡ 0
    → 0 < phys_address
    → allocate_fixed_objects phys_address object_type 1 (name ∷ []) s ≡ err value_error
allocate_fixed_objects-zero phys_address object_type alloc_size name u s order sized found bottom
      positive =
    fixed_steps phys_address object_type alloc_size name u s (err value_error) (ground arith)
      (size_of_fixed-some object_type alloc_size sized)
      (find_or_raise-some phys_address s.device_untyped u found) (ground arith)
      (ap (λ t. padding_sizes (phys_address - t) t (phys_address - t)) bottom
        ∙ padding_sizes-zero (phys_address - 0) (phys_address - 0) (omega arith) (omega arith))
