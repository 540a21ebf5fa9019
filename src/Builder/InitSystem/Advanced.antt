-- ===== src/Builder/InitSystem/Advanced.antt =====
-- What one operation of `InitSystem`, and a sequence of them, does to the slots.
use mathlib.Core.List.{append_assoc, append-nil}
use mathlib.Core.Path.{subst}
use Prim.Native.String.{String}
use sel4cp.Prelude.{
  ℕ, suc, ◌+◌, ◌-◌, ◌≤◌, ◌<◌, ◌≡◌, refl, sym, ap, ◌∙◌, Option, List, [], ◌∷◌, ◌++◌, arith, ok,
  exception, raise_if, >>=-eq-ok, guard-eq-ok, ok_injective, leb, ltb, ◌==◌, length,
}
use sel4cp.Invocation.{Command}
use sel4cp.Kernel.Types.{UntypedObject}
use sel4cp.Kernel.Allocator.{alloc}
use sel4cp.Builder.InitSystem.{
  FixedUntypedAlloc, KernelObject, InitSystem, retype, reserve_in, reserve,
}
use sel4cp.Builder.InitSystem.Fixed.{
  place_fixed, padding_sizes, pad_all, size_of_fixed, find_or_raise, first_name,
  allocate_fixed_objects,
}
use sel4cp.Builder.InitSystem.Objects.{object_sizes, retype_loop, objects_from, allocate_objects}
use sel4cp.Builder.InitSystem.Batches.{range, slots_in, slots_of, range-append, retype_loop-IsBatch}

-- The slots of recorded objects rise, from one bound and below the other.
abbrev pub Rising : ℕ → ℕ → List KernelObject → Type 0
Rising low high [] = low ≤ high
Rising low high (o ∷ os) = (low ≤ o.cap_slot) × Rising (suc o.cap_slot) high os

-- What some operations have done between two states: the retypes that were added fill every slot
-- between the two next free ones, in order and once, and the objects that were recorded have slots
-- of these, in order.
pub record Advanced (s t : InitSystem) : Type 0 where
  pub calls : List Command
  pub issued : t.invocations ≡ s.invocations ++ calls
  pub count : ℕ
  pub next_slot : t.cap_slot ≡ s.cap_slot + count
  pub filled : slots_of calls ≡ range s.cap_slot count
  pub made : List KernelObject
  pub recorded : t.objects ≡ s.objects ++ made
  pub rising : Rising s.cap_slot t.cap_slot made
  pub same_config : t.kernel_config ≡ s.kernel_config

pub Rising-weaken :
    (low middle high : ℕ) (os : List KernelObject)
    → low ≤ middle
    → Rising middle high os
    → Rising low high os
Rising-weaken low middle high [] h r = omega arith
Rising-weaken low middle high (o ∷ os) h r = (omega arith, r.1)

pub Rising-append :
    (low middle high : ℕ) (os ps : List KernelObject)
    → Rising low middle os
    → Rising middle high ps
    → Rising low high (os ++ ps)
Rising-append low middle high [] ps r q = Rising-weaken low middle high ps r q
Rising-append low middle high (o ∷ os) ps r q =
    (r.0, Rising-append (suc o.cap_slot) middle high os ps r.1 q)

pub slots_of-append : (xs ys : List Command) → slots_of (xs ++ ys) ≡ slots_of xs ++ slots_of ys
slots_of-append [] ys = refl
slots_of-append (x ∷ xs) ys =
    ap (λ t. slots_in x.invocation ++ t) (slots_of-append xs ys)
    ∙ sym (append_assoc (slots_in x.invocation) (slots_of xs) (slots_of ys))

pub Advanced-refl : (s : InitSystem) → Advanced s s
Advanced-refl s = record {
  calls = [];
  issued = sym (append-nil s.invocations);
  count = 0;
  next_slot = omega arith;
  filled = refl;
  made = [];
  recorded = sym (append-nil s.objects);
  rising = omega arith;
  same_config = refl;
}

pub Advanced-trans : (s t u : InitSystem) → Advanced s t → Advanced t u → Advanced s u
Advanced-trans s t u a b = record {
  calls = a.calls ++ b.calls;
  issued = b.issued ∙ ap (λ x. x ++ b.calls) a.issued ∙ append_assoc s.invocations a.calls b.calls;
  count = a.count + b.count;
  next_slot = omega (arith, a.next_slot, b.next_slot);
  filled =
      slots_of-append a.calls b.calls
      ∙ ap (λ x. x ++ slots_of b.calls) a.filled
      ∙ ap (λ x. range s.cap_slot a.count ++ x) (b.filled ∙ ap (λ x. range x b.count) a.next_slot)
      ∙ range-append s.cap_slot a.count b.count;
  made = a.made ++ b.made;
  recorded = b.recorded ∙ ap (λ x. x ++ b.made) a.recorded ∙ append_assoc s.objects a.made b.made;
  rising = Rising-append s.cap_slot t.cap_slot u.cap_slot a.made b.made a.rising b.rising;
  same_config = b.same_config ∙ a.same_config;
}

pub reserve-Advanced :
    (allocations : List (UntypedObject × ℕ)) (s t : InitSystem)
    → reserve allocations s ≡ ok t
    → Advanced s t
unfolding reserve
reserve-Advanced [] s t h = subst (Advanced s) (ok_injective h) (Advanced-refl s)
reserve-Advanced ((ut, phys_addr) ∷ allocations) s t h =
    let (device, _, more) = >>=-eq-ok (reserve_in ut phys_addr s.device_untyped) _ h in
    let a = reserve-Advanced allocations (record s { device_untyped = device }) t more in
    record {
      calls = a.calls;
      issued = a.issued;
      count = a.count;
      next_slot = a.next_slot;
      filled = a.filled;
      made = a.made;
      recorded = a.recorded;
      rising = a.rising;
      same_config = a.same_config;
    }

pub pad_all-slots :
    (ut_cap cnode_cap slot : ℕ) (sizes : List ℕ)
    → slots_of (pad_all ut_cap cnode_cap slot sizes) ≡ range slot (length sizes)
pad_all-slots ut_cap cnode_cap slot [] = refl
pad_all-slots ut_cap cnode_cap slot (sz ∷ sizes) =
    ap (λ t. slot ∷ t) (pad_all-slots ut_cap cnode_cap (slot + 1) sizes)

pub place_fixed-Advanced :
    (p t n : ℕ) (name : String) (u : FixedUntypedAlloc) (sizes : List ℕ) (s : InitSystem)
    → Advanced s (place_fixed p t n name u sizes s).1
place_fixed-Advanced p t n name u sizes s =
    let pads = pad_all u.ut.cap s.cnode_cap s.cap_slot sizes in
    let last = retype u.ut.cap t 0 s.cnode_cap (s.cap_slot + length sizes) 1 in
    record {
      calls = pads ++ last ∷ [];
      issued = append_assoc s.invocations pads (last ∷ []);
      count = length sizes + 1;
      next_slot = omega arith;
      filled =
          slots_of-append pads (last ∷ [])
          ∙ ap (λ x. x ++ range (s.cap_slot + length sizes) 1)
              (pad_all-slots u.ut.cap s.cnode_cap s.cap_slot sizes)
          ∙ range-append s.cap_slot (length sizes) 1;
      made = (place_fixed p t n name u sizes s).0;
      recorded = refl;
      rising = (omega arith, omega arith);
      same_config = refl;
    }

pub allocate_fixed_objects-Advanced :
    (p t n : ℕ) (names : List String) (s after : InitSystem) (made : List KernelObject)
    → allocate_fixed_objects p t n names s ≡ ok (made, after)
    → Advanced s after
unfolding allocate_fixed_objects
allocate_fixed_objects-Advanced p t n names s after made h =
    let (_, h1) = guard-eq-ok (leb s.last_fixed_address p) _ _ h in
    let (size, _, h2) = >>=-eq-ok (size_of_fixed t) _ h1 in
    let (_, h3) = guard-eq-ok (n == length names) _ _ h2 in
    let (u, _, h4) = >>=-eq-ok (find_or_raise p s.device_untyped) _ h3 in
    let (_, _, h5) = >>=-eq-ok (raise_if (ltb p u.watermark) exception) _ h4 in
    let (sizes, _, h6) =
      >>=-eq-ok (padding_sizes (p - u.watermark) u.watermark (p - u.watermark)) _ h5 in
    let (name, _, h7) = >>=-eq-ok (first_name names) _ h6 in
    subst (λ (r : List KernelObject × InitSystem). Advanced s r.1) (ok_injective h7)
      (place_fixed-Advanced p t size name u sizes s)

pub objects_from-Rising :
    (kind mask size slot phys : ℕ) (names : List String)
    → Rising slot (slot + length names) (objects_from kind mask size slot phys names)
unfolding objects_from
objects_from-Rising kind mask size slot phys [] = omega arith
objects_from-Rising kind mask size slot phys (name ∷ names) =
    let next : slot + 1 ≡ suc slot = omega arith in
    let last : slot + 1 + length names ≡ slot + suc (length names) = omega arith in
    let behind = objects_from-Rising kind mask size (slot + 1) (phys + size) names in
    (
      omega arith,
      subst
          (λ x.
            Rising x (slot + suc (length names))
              (objects_from kind mask size (slot + 1) (phys + size) names))
          next
          (subst
            (λ x. Rising (slot + 1) x (objects_from kind mask size (slot + 1) (phys + size) names))
            last behind),
    )

pub allocate_objects-Advanced :
    (kind : ℕ) (names : List String) (size : Option ℕ) (s after : InitSystem)
    (made : List KernelObject)
    → 0 < s.kernel_config.fan_out_limit
    → allocate_objects kind names size s ≡ ok (made, after)
    → Advanced s after
unfolding allocate_objects
allocate_objects-Advanced kind names size s after made live h =
    let count = length names in
    let ((alloc_size, api_size), _, h1) = >>=-eq-ok (object_sizes kind size) _ h in
    let ((granted, koa), _, h2) = >>=-eq-ok (alloc alloc_size count s.koa) _ h1 in
    let (calls, looped, h3) =
      >>=-eq-ok
        (retype_loop granted.untyped_cap_address kind api_size s.cnode_cap
          s.kernel_config.fan_out_limit count s.cap_slot count)
        _ h2 in
    let (calls', looped', filled, _) =
      retype_loop-IsBatch granted.untyped_cap_address kind api_size s.cnode_cap
        s.kernel_config.fan_out_limit live count s.cap_slot count (omega arith) in
    let objects = objects_from kind s.cnode_mask alloc_size s.cap_slot granted.phys_addr names in
    subst (λ (r : List KernelObject × InitSystem). Advanced s r.1) (ok_injective h3)
      (record {
        calls = calls;
        issued = refl;
        count = count;
        next_slot = refl;
        filled = ap slots_of (ok_injective (sym looped ∙ looped')) ∙ filled;
        made = objects;
        recorded = refl;
        rising =
            objects_from-Rising kind s.cnode_mask alloc_size s.cap_slot granted.phys_addr names;
        same_config = refl;
      })
