-- ===== src/Builder/Setup/Mapped/Pages.antt =====
-- All pages of all domains are mapped.
use sel4cp.Prelude.{
  ℕ, ◌+◌, ◌^◌, ◌≤◌, ◌≡◌, refl, sym, ap, subst, ◌∙◌, List, [], ◌∷◌, ◌++◌, some, arith, ok,
  ok_injective, >>=-eq-ok, length, get_elem?, length-append,
}
use mathlib.Core.List.{append_assoc}
use sel4cp.Invocation.{Command}
use sel4cp.Builder.CSpace.{Caps, BuiltPd}
use sel4cp.Builder.CSpace.System.{Phase, MrPages, PageDescriptor, mint_maps, mint_pages}
use sel4cp.Builder.CSpace.System.Slots.{filled_by, Fills-mint_pages}
use sel4cp.Builder.Setup.{map_pages, page_descriptors, maps_of}
use sel4cp.Builder.Setup.Mapped.{
  mapped_pages, mapped_places, places_of, MapsAll, MapsAll-append, mint_maps-MapsAll,
  map_pages-append,
}

get_elem?-middle :
    (pre ps : List BuiltPd) (p : BuiltPd) → get_elem? (pre ++ p ∷ ps) (length pre) ≡ some p
get_elem?-middle [] ps p = refl
get_elem?-middle (x ∷ pre) ps p = get_elem?-middle pre ps p

module _ (c : Caps) (mrs : List MrPages) (pds : List BuiltPd) (k : ℕ)
    (mask : c.system_cap_address_mask ≡ 2 ^ k) where
  -- The domains from one of them on.
  mint_pages-MapsAll :
      (pre ps : List BuiltPd) (slot : ℕ) (cmds : List Command)
      {out : Phase (List (List PageDescriptor))}
      → pre ++ ps ≡ pds
      → out.cap_slot ≤ 2 ^ k
      → mint_pages c mrs (length pre) slot ps ≡ ok out
      → map_pages pds (page_descriptors out.computed) ≡ ok cmds
      → MapsAll c mrs pds k mask out.commands cmds (places_of mrs ps)
  unfolding mint_pages map_pages
  mint_pages-MapsAll pre [] slot cmds {out} all below h mapped =
      let e : map_pages pds [] ≡ ok cmds =
        subst (λ t. map_pages pds (page_descriptors t.computed) ≡ ok cmds) (sym (ok_injective h))
          mapped in
      subst (λ t. MapsAll c mrs pds k mask t.commands cmds []) (ok_injective h)
        (subst (λ t. MapsAll c mrs pds k mask [] t []) (ok_injective e) (refl, refl))
  mint_pages-MapsAll pre (p ∷ ps) slot cmds {out} all below h mapped =
      let i = length pre in
      let (one, first, h1) = >>=-eq-ok (mint_maps c mrs i slot (maps_of p)) _ h in
      let (rest, more, same) = >>=-eq-ok (mint_pages c mrs (i + 1) one.cap_slot ps) _ h1 in
      let e : map_pages pds (one.computed ++ page_descriptors rest.computed) ≡ ok cmds =
        subst (λ t. map_pages pds (page_descriptors t.computed) ≡ ok cmds) (sym (ok_injective same))
          mapped in
      let (xs, ys, map_one, map_rest, both) =
        map_pages-append pds one.computed (page_descriptors rest.computed) e in
      let last : rest.cap_slot ≡ out.cap_slot = ap (λ t. t.cap_slot) (ok_injective same) in
      let next = (Fills-mint_pages c mrs (i + 1) one.cap_slot ps more).next_slot in
      let longer : i + 1 ≡ length (pre ++ p ∷ []) = omega (arith, length-append pre (p ∷ [])) in
      subst (λ t. MapsAll c mrs pds k mask t.commands cmds (places_of mrs (p ∷ ps)))
        (ok_injective same)
        (subst
          (λ t. MapsAll c mrs pds k mask (one.commands ++ rest.commands) t (places_of mrs (p ∷ ps)))
          both
          (MapsAll-append c mrs pds k mask one.commands rest.commands xs ys _ _
            (mint_maps-MapsAll c mrs pds k mask i slot p (maps_of p) xs
              (subst (λ t. get_elem? t i ≡ some p) all (get_elem?-middle pre ps p))
              (omega (arith, next, last, below)) first map_one)
            (mint_pages-MapsAll (pre ++ p ∷ []) ps one.cap_slot ys
              (append_assoc pre (p ∷ []) ps ∙ all) (omega (arith, last, below))
              (subst (λ t. mint_pages c mrs t one.cap_slot ps ≡ ok rest) longer more) map_rest)))

-- Where the mask is the bit above all slots, the commands that map the pages map exactly the
-- capabilities that were minted for it, in order and each once, and they map each page of the region of
-- each map of a domain at its place behind the map's address in the domain's address space.
pub map_pages-mint_pages :
    (c : Caps) (mrs : List MrPages) (pds : List BuiltPd) (k slot : ℕ)
    (pages : Phase (List (List PageDescriptor))) (cmds : List Command)
    → c.system_cap_address_mask ≡ 2 ^ k
    → pages.cap_slot ≤ 2 ^ k
    → mint_pages c mrs 0 slot pds ≡ ok pages
    → map_pages pds (page_descriptors pages.computed) ≡ ok cmds
    → (mapped_pages cmds ≡ filled_by c pages.commands) × (mapped_places cmds ≡ places_of mrs pds)
map_pages-mint_pages c mrs pds k slot pages cmds mask below minted mapped =
    mint_pages-MapsAll c mrs pds k mask [] pds slot cmds refl below minted mapped
