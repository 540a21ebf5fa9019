-- ===== src/Builder/Bootstrap/Pages.antt =====
-- The pages of the table are made out of the untyped objects for devices.
use sel4cp.Prelude.{
  ℕ, min, ◌+◌, ◌-◌, ◌*◌, ◌/◌, ◌<◌, ◌≤◌, ◌≡◌, refl, sym, ap, subst, ◌∙◌, true, false, List, [], ◌∷◌,
  ◌++◌, Result, ok, ok_injective, assertion, guard, ◌>>=◌, ◌>>◌, leb, ◌==◌, if◌then◌else◌,
  >>=-eq-ok, guard-eq-ok, arith, Bool-cases, inl, inr,
}
use sel4cp.Memory.{size}
use sel4cp.Invocation.{Command, once, untyped_retype}
use sel4cp.Kernel.Types.{KernelConfig, UntypedObject, small_page_object}
use sel4cp.Builder.InitSystem.Batches.{range, range-append, slots_of}
use sel4cp.Builder.Bootstrap.{TablePages, retype_table}

-- The pages in the untyped objects for devices.
abbrev pub device_pages : ℕ → List UntypedObject → ℕ
device_pages page [] = 0
device_pages page (ut ∷ uts) =
    if ut.is_device then size ut.region / page + device_pages page uts else device_pages page uts

abbrev pub devices : List UntypedObject → List UntypedObject
devices [] = []
devices (ut ∷ uts) = if ut.is_device then ut ∷ devices uts else devices uts

-- Retypes into the slots from `slot` on, one for each of the first untyped objects: each makes small
-- pages out of its untyped object, as many as it has whole pages or as are left, and together they
-- make all that are left. Beside each stands its untyped object with the physical address that the
-- pages so far reach, from `phys_addr` on.
abbrev pub FromDevices :
    (page root slot left phys_addr : ℕ)
    → List Command
    → List (UntypedObject × ℕ)
    → List UntypedObject
    → Type 0
FromDevices page root slot left phys_addr [] [] uts = left ≡ 0
FromDevices page root slot left phys_addr [] (entry ∷ entries) uts = ⊥
FromDevices page root slot left phys_addr (cmd ∷ cmds) [] uts = ⊥
FromDevices page root slot left phys_addr (cmd ∷ cmds) (entry ∷ entries) [] = ⊥
FromDevices page root slot left phys_addr (cmd ∷ cmds) (entry ∷ entries) (ut ∷ uts) =
    let n = min ((ut.region.end - ut.region.base) / page) left in
    (cmd ≡ once (untyped_retype ut.cap small_page_object 0 root 1 1 slot n))
    × (entry ≡ (ut, phys_addr + n * page))
    × FromDevices page root (slot + n) (left - n) (phys_addr + n * page) cmds entries uts

module _ (config : KernelConfig) (root : ℕ) where
  abbrev page : ℕ
  page = config.minimum_page_size

  -- The pages that are left fill the next slots, in order and once.
  abbrev pub FillsPages : List UntypedObject → ℕ → ℕ → ℕ → TablePages → Type 0
  FillsPages uts phys_addr slot n t =
      (slots_of t.retypes ≡ range slot n)
      × (t.cap_slot ≡ slot + n)
      × FromDevices page root slot n phys_addr t.retypes t.allocations (devices uts)

  retype_table-normal :
      (ut : UntypedObject) (uts : List UntypedObject) (slot remaining phys_addr : ℕ)
      → ut.is_device ≡ false
      → retype_table config root slot remaining phys_addr (ut ∷ uts)
        ≡ retype_table config root slot remaining phys_addr uts
  unfolding retype_table
  retype_table-normal ut uts slot remaining phys_addr e = rw e refl

  abbrev taken : UntypedObject → ℕ → ℕ
  taken ut remaining = min (size ut.region / page) remaining

  abbrev rest_of : UntypedObject → List UntypedObject → ℕ → ℕ → ℕ → Result TablePages
  rest_of ut uts slot remaining phys_addr =
      if remaining - taken ut remaining == 0
      then ok (record { retypes = []; allocations = []; cap_slot = slot + taken ut remaining })
      else retype_table config root (slot + taken ut remaining) (remaining - taken ut remaining)
          (phys_addr + taken ut remaining * page) uts

  abbrev joined : UntypedObject → ℕ → ℕ → ℕ → TablePages → TablePages
  joined ut slot remaining phys_addr rest = record {
    retypes =
        once (untyped_retype ut.cap small_page_object 0 root 1 1 slot (taken ut remaining))
        ∷ rest.retypes;
    allocations = (ut, phys_addr + taken ut remaining * page) ∷ rest.allocations;
    cap_slot = rest.cap_slot;
  }

  retype_table-device :
      (ut : UntypedObject) (uts : List UntypedObject) (slot remaining phys_addr : ℕ)
      {t : TablePages}
      → ut.is_device ≡ true
      → retype_table config root slot remaining phys_addr (ut ∷ uts) ≡ ok t
      → (rest : TablePages) × (rest_of ut uts slot remaining phys_addr ≡ ok rest)
        × (joined ut slot remaining phys_addr rest ≡ t)
  unfolding retype_table
  retype_table-device ut uts slot remaining phys_addr {t} e h =
      let opened : (guard (leb (taken ut remaining) config.fan_out_limit) assertion
            >> (rest_of ut uts slot remaining phys_addr >>= λ rest.
                ok (joined ut slot remaining phys_addr rest)))
          ≡ ok t =
        sym (
          ap
            (λ b.
              if b
              then (guard (leb (taken ut remaining) config.fan_out_limit) assertion
                  >> (rest_of ut uts slot remaining phys_addr >>= λ rest.
                      ok (joined ut slot remaining phys_addr rest)))
              else retype_table config root slot remaining phys_addr uts)
            e)
        ∙ h in
      let (_, h1) =
        guard-eq-ok (leb (taken ut remaining) config.fan_out_limit) assertion _ opened in
      let (rest, found, same) = >>=-eq-ok (rest_of ut uts slot remaining phys_addr) _ h1 in
      (rest, found, ok_injective same)

  split :
      (ut : UntypedObject) (remaining : ℕ)
      → taken ut remaining + (remaining - taken ut remaining) ≡ remaining
  split ut remaining = omega arith

  rest_of-FillsPages :
      (ut : UntypedObject) (uts : List UntypedObject) (slot remaining phys_addr : ℕ)
      (rest : TablePages)
      → ((first left addr : ℕ) (t : TablePages)
          → 0 < left
          → left ≤ device_pages page uts
          → retype_table config root first left addr uts ≡ ok t
          → FillsPages uts addr first left t)
      → rest_of ut uts slot remaining phys_addr ≡ ok rest
      → remaining ≤ size ut.region / page + device_pages page uts
      → FillsPages uts
          (phys_addr + taken ut remaining * page)
          (slot + taken ut remaining)
          (remaining - taken ut remaining)
          rest
  rest_of-FillsPages ut uts slot remaining phys_addr rest step found enough =
      let n = taken ut remaining in
      let last : TablePages = record { retypes = []; allocations = []; cap_slot = slot + n } in
      let more = retype_table config root (slot + n) (remaining - n) (phys_addr + n * page) uts in
      elim (Bool-cases (remaining - n == 0)) [
        | inl done ↦
            let e : remaining - n ≡ 0 = ground (arith, done) in
            let same = ok_injective (sym (ap (λ b. if b then ok last else more) done) ∙ found) in
            subst (FillsPages uts (phys_addr + n * page) (slot + n) (remaining - n)) same
              (rw e refl, omega (arith, e), e)
        | inr left ↦
            step (slot + n) (remaining - n) (phys_addr + n * page) rest (ground (arith, left))
              (ground (arith, enough, left))
              (sym (ap (λ b. if b then ok last else more) left) ∙ found)
      ]

  pub retype_table-FillsPages :
      (uts : List UntypedObject) (slot remaining phys_addr : ℕ) {t : TablePages}
      → 0 < remaining
      → remaining ≤ device_pages page uts
      → retype_table config root slot remaining phys_addr uts ≡ ok t
      → FillsPages uts phys_addr slot remaining t
  unfolding size
  retype_table-FillsPages [] slot remaining phys_addr some_left enough h =
      absurd (omega (arith, some_left, enough))
  retype_table-FillsPages (ut ∷ uts) slot remaining phys_addr {t} some_left enough h =
      elim (Bool-cases ut.is_device) [
        | inr normal ↦
            let (filled, next, from) =
              retype_table-FillsPages uts slot remaining phys_addr some_left
                (ground (arith, normal, enough))
                (sym (retype_table-normal ut uts slot remaining phys_addr normal) ∙ h) in
            (
              filled,
              next,
              subst (FromDevices page root slot remaining phys_addr t.retypes t.allocations)
                  (sym (ap (λ b. if b then ut ∷ devices uts else devices uts) normal)) from,
            )
        | inl device ↦
            let (rest, found, same) =
              retype_table-device ut uts slot remaining phys_addr device h in
            let n = taken ut remaining in
            let (filled, next, from) =
              rest_of-FillsPages ut uts slot remaining phys_addr rest
                (λ first left addr t. retype_table-FillsPages uts first left addr) found
                (ground (arith, device, enough)) in
            subst (FillsPages (ut ∷ uts) phys_addr slot remaining) same (
              ap (λ l. range slot n ++ l) filled
                  ∙ range-append slot n (remaining - n)
                  ∙ ap (range slot) (split ut remaining),
              (let e = split ut remaining in omega (arith, next, e)),
              subst
                  (FromDevices page root slot remaining phys_addr
                    (joined ut slot remaining phys_addr rest).retypes
                    (joined ut slot remaining phys_addr rest).allocations)
                  (sym (ap (λ b. if b then ut ∷ devices uts else devices uts) device))
                  (refl, refl, from),
            )
      ]
