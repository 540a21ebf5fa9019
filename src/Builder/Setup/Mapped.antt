-- ===== src/Builder/Setup/Mapped.antt =====
-- The pages that are minted for mapping are mapped, each once, where the maps say.
pub mod Pages
use mathlib.Core.List.{append_assoc, append-nil}
use mathlib.Core.Path.{ap₂}
use Prim.Native.String.{String}
use sel4cp.Prelude.{
  ℕ, zero, suc, ◌+◌, ◌*◌, ◌^◌, ◌<◌, ◌≤◌, ◌≡◌, refl, sym, ap, subst, ◌∙◌, Bool, true, false, List,
  [], ◌∷◌, ◌++◌, map, none, some, arith, ok, err, ok_injective, some_injective, assertion, guard,
  ◌>>=◌, ◌>>◌, >>=-eq-ok, guard-eq-ok, ltb, bit_or, length, get_elem?,
}
use sel4cp.Bits.{bit_or-disjoint}
use sel4cp.Invocation.{Invocation, Command, once, repeat, page_map}
use sel4cp.Description.{SysMap}
use sel4cp.Builder.Layout.{assert_objects_adjacent}
use sel4cp.Builder.InitSystem.Batches.{range}
use sel4cp.Builder.CSpace.{Caps, BuiltPd, info, first_of, mint_in_system}
use sel4cp.Builder.CSpace.Rounds.{rounds, spaced, spaced-range, repeat-rounds}
use sel4cp.Builder.CSpace.System.{
  Phase, MrPages, find_pages, PageDescriptor, map_rights, map_attrs, descriptor_of, mint_map,
  mint_maps, mint_pages,
}
use sel4cp.Builder.CSpace.System.Slots.{
  Fills, filled_by, filled_by-append, Fills-mint_map, Fills-mint_maps, Fills-mint_pages,
}
use sel4cp.Builder.Setup.{vspace_at, map_page, map_pages, page_descriptors, maps_of}

-- The page capabilities that a command maps, round by round.
abbrev mapped_page : Command → List ℕ
mapped_page cmd = elim cmd.invocation [
  | page_map page vspace vaddr rights attr ↦ rounds "page" page cmd
  | _ ↦ []
]

-- The address spaces and the addresses that a command maps to, round by round.
abbrev mapped_place : Command → List (ℕ × ℕ)
mapped_place cmd = elim cmd.invocation [
  | page_map page vspace vaddr rights attr ↦ map (λ v. (vspace, v)) (rounds "vaddr" vaddr cmd)
  | _ ↦ []
]

abbrev pub mapped_pages : List Command → List ℕ
mapped_pages [] = []
mapped_pages (cmd ∷ cmds) = mapped_page cmd ++ mapped_pages cmds

abbrev pub mapped_places : List Command → List (ℕ × ℕ)
mapped_places [] = []
mapped_places (cmd ∷ cmds) = mapped_place cmd ++ mapped_places cmds

-- Where the pages of one map, of all maps of a domain and of all domains belong: the region's pages one
-- behind the other from the map's address on.
abbrev place_of_map : List MrPages → BuiltPd → SysMap → List (ℕ × ℕ)
place_of_map mrs p mp = elim (find_pages mp.mr mrs) [
  | ok m ↦ map (λ v. (p.vspace.cap_addr, v)) (spaced mp.vaddr m.mr.page_size (length m.pages))
  | err e ↦ []
]

abbrev place_of_maps : List MrPages → BuiltPd → List SysMap → List (ℕ × ℕ)
place_of_maps mrs p [] = []
place_of_maps mrs p (mp ∷ mps) = place_of_map mrs p mp ++ place_of_maps mrs p mps

abbrev pub places_of : List MrPages → List BuiltPd → List (ℕ × ℕ)
places_of mrs [] = []
places_of mrs (p ∷ ps) = place_of_maps mrs p (maps_of p) ++ places_of mrs ps

masked : (k s : ℕ) → s < 2 ^ k → bit_or (2 ^ k) s ≡ 2 ^ k + s
masked k s l =
    let e : 1 * 2 ^ k ≡ 2 ^ k = omega arith in
    subst (λ t. bit_or t s ≡ t + s) e (bit_or-disjoint k 1 s l)

place_of_map-found :
    (mrs : List MrPages) (p : BuiltPd) (mp : SysMap) (m : MrPages)
    → find_pages mp.mr mrs ≡ ok m
    → place_of_map mrs p mp
      ≡ map (λ v. (p.vspace.cap_addr, v)) (spaced mp.vaddr m.mr.page_size (length m.pages))
place_of_map-found mrs p mp m h = rw (h, place_of_map) refl

-- Addresses of consecutive slots are consecutive, below the bit of the mask.
spaced-mask :
    (k slot n : ℕ)
    → slot + n ≤ 2 ^ k
    → spaced (2 ^ k + slot) 1 n ≡ map (bit_or (2 ^ k)) (range slot n)
spaced-mask k slot zero h = refl
spaced-mask k slot (suc n) h =
    let e : 2 ^ k + slot + 1 ≡ 2 ^ k + (slot + 1) = omega arith in
    rw (e, masked k slot (omega arith))
      (ap (λ t. (2 ^ k + slot) ∷ t) (spaced-mask k (slot + 1) n (omega arith)))

-- What the minting of one map leaves.
mint_map-eq-ok :
    (c : Caps) (mrs : List MrPages) (pd_idx slot : ℕ) (mp : SysMap) {out : Phase PageDescriptor}
    → mint_map c mrs pd_idx slot mp ≡ ok out
    → (m : MrPages) × (find_pages mp.mr mrs ≡ ok m)
      × (0 < length m.pages)
      × (descriptor_of c pd_idx slot mp m ≡ out.computed)
      × (slot + length m.pages ≡ out.cap_slot)
unfolding mint_map
mint_map-eq-ok c mrs pd_idx slot mp h =
    let (m, found, h1) = >>=-eq-ok (find_pages mp.mr mrs) _ h in
    let (some_pages, h2) = guard-eq-ok (ltb 0 (length m.pages)) assertion _ h1 in
    let (_, _, h3) = >>=-eq-ok (assert_objects_adjacent m.pages) _ h2 in
    let (page, _, h4) = >>=-eq-ok (first_of m.pages) _ h3 in
    let (mint, _, same) =
      >>=-eq-ok
        (repeat (length m.pages) (("dest_index", 1) ∷ ("src_obj", 1) ∷ [])
          (once (mint_in_system c slot page.cap_addr (map_rights mp.perms) 0)))
        _ h4 in
    (
      m,
      found,
      ground arith,
      ap (λ r. r.computed) (ok_injective same),
      ap (λ r. r.cap_slot) (ok_injective same),
    )

vspace_at-found :
    (pds : List BuiltPd) (i : ℕ) (p : BuiltPd)
    → get_elem? pds i ≡ some p
    → vspace_at pds i ≡ ok p.vspace.cap_addr
vspace_at-found pds i p h = rw (h, vspace_at) refl

module _ (pds : List BuiltPd) where
  -- The mapping of one descriptor.
  map_page-rounds :
      (d : PageDescriptor) (p : BuiltPd) (cmd : Command)
      → get_elem? pds d.pd_idx ≡ some p
      → 0 < d.count
      → map_page pds d ≡ ok cmd
      → (mapped_page cmd ≡ spaced d.page_cap 1 d.count)
        × (mapped_place cmd
            ≡ map (λ v. (p.vspace.cap_addr, v)) (spaced d.vaddr d.vaddr_incr d.count))
  unfolding map_page
  map_page-rounds d p cmd found some_pages h =
      let (vspace, at, h1) = >>=-eq-ok (vspace_at pds d.pd_idx) _ h in
      let there : ok p.vspace.cap_addr ≡ ok vspace =
        sym (vspace_at-found pds d.pd_idx p found) ∙ at in
      let (kept, fields) =
        repeat-rounds d.count (("page", 1) ∷ ("vaddr", d.vaddr_incr) ∷ [])
          (page_map d.page_cap vspace d.vaddr d.rights d.attrs) cmd some_pages h1 in
      (
        rw (kept, fields "page" d.page_cap) refl,
        rw (kept, fields "vaddr" d.vaddr, ok_injective there) refl,
      )

mapped_pages-append :
    (xs ys : List Command) → mapped_pages (xs ++ ys) ≡ mapped_pages xs ++ mapped_pages ys
mapped_pages-append [] ys = refl
mapped_pages-append (x ∷ xs) ys = rw (mapped_pages-append xs ys) (simp append_assoc)

mapped_places-append :
    (xs ys : List Command) → mapped_places (xs ++ ys) ≡ mapped_places xs ++ mapped_places ys
mapped_places-append [] ys = refl
mapped_places-append (x ∷ xs) ys = rw (mapped_places-append xs ys) (simp append_assoc)

pub map_pages-append :
    (pds : List BuiltPd) (ds es : List PageDescriptor) {cmds : List Command}
    → map_pages pds (ds ++ es) ≡ ok cmds
    → (xs ys : List Command) × (map_pages pds ds ≡ ok xs)
      × (map_pages pds es ≡ ok ys)
      × (xs ++ ys ≡ cmds)
unfolding map_pages
map_pages-append pds [] es {cmds} h = ([], cmds, refl, h, refl)
map_pages-append pds (d ∷ ds) es h =
    let (one, first, h1) = >>=-eq-ok (map_page pds d) _ h in
    let (rest, more, same) = >>=-eq-ok (map_pages pds (ds ++ es)) _ h1 in
    let (xs, ys, hx, hy, both) = map_pages-append pds ds es more in
    (one ∷ xs, ys, rw (first, hx) refl, hy, ap (λ t. one ∷ t) both ∙ ok_injective same)

module _ (c : Caps) (mrs : List MrPages) (pds : List BuiltPd) (k : ℕ)
    (mask : c.system_cap_address_mask ≡ 2 ^ k) where
  -- The commands map the pages that others fill in, to the places.
  abbrev pub MapsAll : List Command → List Command → List (ℕ × ℕ) → Type 0
  MapsAll mints maps places =
      (mapped_pages maps ≡ filled_by c mints) × (mapped_places maps ≡ places)

  pub MapsAll-append :
      (m1 m2 x1 x2 : List Command) (p1 p2 : List (ℕ × ℕ))
      → MapsAll m1 x1 p1
      → MapsAll m2 x2 p2
      → MapsAll (m1 ++ m2) (x1 ++ x2) (p1 ++ p2)
  MapsAll-append m1 m2 x1 x2 p1 p2 h g = (
    mapped_pages-append x1 x2 ∙ ap₂ ◌++◌ h.0 g.0 ∙ sym (filled_by-append c m1 m2),
    mapped_places-append x1 x2 ∙ ap₂ ◌++◌ h.1 g.1,
  )

  mint_map-MapsAll :
      (i slot : ℕ) (p : BuiltPd) (mp : SysMap) (cmd : Command) {out : Phase PageDescriptor}
      → get_elem? pds i ≡ some p
      → out.cap_slot ≤ 2 ^ k
      → mint_map c mrs i slot mp ≡ ok out
      → map_page pds out.computed ≡ ok cmd
      → MapsAll out.commands (cmd ∷ []) (place_of_map mrs p mp)
  mint_map-MapsAll i slot p mp cmd {out} at below h mapped =
      let (m, found, some_pages, computed, next) = mint_map-eq-ok c mrs i slot mp h in
      let d = descriptor_of c i slot mp m in
      let (pages, places) =
        map_page-rounds pds d p cmd at some_pages
          (subst (λ t. map_page pds t ≡ ok cmd) (sym computed) mapped) in
      let fills = Fills-mint_map c mrs i slot mp h in
      let n : fills.count ≡ length m.pages = let e = fills.next_slot in omega (arith, e, next) in
      let low : slot < 2 ^ k = omega (arith, next, some_pages, below) in
      (
        append-nil (mapped_page cmd)
            ∙ pages
            ∙ ap (λ t. spaced t 1 (length m.pages))
                (ap (λ t. bit_or t slot) mask ∙ masked k slot low)
            ∙ spaced-mask k slot (length m.pages) (omega (arith, next, below))
            ∙ ap₂ (λ s t. map (bit_or s) (range slot t)) (sym mask) (sym n)
            ∙ sym fills.filled,
        append-nil (mapped_place cmd) ∙ places ∙ sym (place_of_map-found mrs p mp m found),
      )

  pub mint_maps-MapsAll :
      (i slot : ℕ) (p : BuiltPd) (mps : List SysMap) (cmds : List Command)
      {out : Phase (List PageDescriptor)}
      → get_elem? pds i ≡ some p
      → out.cap_slot ≤ 2 ^ k
      → mint_maps c mrs i slot mps ≡ ok out
      → map_pages pds out.computed ≡ ok cmds
      → MapsAll out.commands cmds (place_of_maps mrs p mps)
  unfolding mint_maps map_pages
  mint_maps-MapsAll i slot p [] cmds {out} at below h mapped =
      let e : map_pages pds [] ≡ ok cmds =
        subst (λ t. map_pages pds t.computed ≡ ok cmds) (sym (ok_injective h)) mapped in
      subst (λ t. MapsAll t.commands cmds []) (ok_injective h)
        (subst (λ t. MapsAll [] t []) (ok_injective e) (refl, refl))
  mint_maps-MapsAll i slot p (mp ∷ mps) cmds {out} at below h mapped =
      let (one, first, h1) = >>=-eq-ok (mint_map c mrs i slot mp) _ h in
      let (rest, more, same) = >>=-eq-ok (mint_maps c mrs i one.cap_slot mps) _ h1 in
      let e : map_pages pds (one.computed ∷ rest.computed) ≡ ok cmds =
        subst (λ t. map_pages pds t.computed ≡ ok cmds) (sym (ok_injective same)) mapped in
      let (cmd, map_one, e1) = >>=-eq-ok (map_page pds one.computed) _ e in
      let (others, map_rest, both) = >>=-eq-ok (map_pages pds rest.computed) _ e1 in
      let last : rest.cap_slot ≡ out.cap_slot = ap (λ t. t.cap_slot) (ok_injective same) in
      let fills = Fills-mint_maps c mrs i one.cap_slot mps more in
      let next = fills.next_slot in
      subst (λ t. MapsAll t.commands cmds (place_of_maps mrs p (mp ∷ mps))) (ok_injective same)
        (subst (λ t. MapsAll (one.commands ++ rest.commands) t (place_of_maps mrs p (mp ∷ mps)))
          (ok_injective both)
          (MapsAll-append one.commands rest.commands (cmd ∷ []) others _ _
            (mint_map-MapsAll i slot p mp cmd at (omega (arith, next, last, below)) first map_one)
            (mint_maps-MapsAll i one.cap_slot p mps others at (omega (arith, last, below)) more
              map_rest)))
