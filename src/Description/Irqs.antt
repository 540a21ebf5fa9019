-- ===== src/Description/Irqs.antt =====
-- The interrupts of a description that passes the checks.
use mathlib.Core.Path.{subst}
use sel4cp.Prelude.{
  none, user_error, ok_injective, err, ℕ, ◌≡◌, refl, sym, ap, ◌∙◌, false, List, [], ◌∷◌, ◌++◌, map,
  arith, Result, ok, raise_if, ◌>>=◌, >>=-eq-ok, Bool-cases, inl, inr,
}
use sel4cp.Description.{
  FlatPd, SysMemoryRegion, PdTrees, Channel, Partition, has_number, add_distinct, check_irqs,
  pd_trees_to_list, check_partitions, check_pds, check_mrs, check_channel_names, check_irq_ids,
  check_channel_ids, check_all_maps, system_description,
}

abbrev pub AllDistinct : List ℕ → Type 0
AllDistinct [] = Unit
AllDistinct (n ∷ ns) = (has_number n ns ≡ false) × AllDistinct ns

-- None of the numbers is in the set.
abbrev AllNew : List ℕ → List ℕ → Type 0
AllNew seen [] = Unit
AllNew seen (n ∷ ns) = (has_number n seen ≡ false) × AllNew seen ns

abbrev pub irqs_of : List FlatPd → List ℕ
irqs_of [] = []
irqs_of (p ∷ ps) = map (λ i. i.irq) p.info.irqs ++ irqs_of ps

add_distinct-append :
    (seen ns ms : List ℕ)
    → add_distinct seen (ns ++ ms) ≡ (add_distinct seen ns >>= λ seen'. add_distinct seen' ms)
unfolding add_distinct
add_distinct-append seen [] ms = refl
add_distinct-append seen (n ∷ ns) ms = elim (Bool-cases (has_number n seen)) [
  | inl known ↦ rw known refl
  | inr fresh ↦ rw fresh (add_distinct-append (n ∷ seen) ns ms)
]

check_irqs-add_distinct :
    (seen : List ℕ) (ps : List FlatPd) → check_irqs seen ps ≡ add_distinct seen (irqs_of ps)
unfolding check_irqs add_distinct
check_irqs-add_distinct seen [] = refl
check_irqs-add_distinct seen (p ∷ ps) =
    rest (add_distinct seen (map (λ i. i.irq) p.info.irqs)) (λ t. check_irqs-add_distinct t ps)
    ∙ sym (add_distinct-append seen (map (λ i. i.irq) p.info.irqs) (irqs_of ps))
  where
    rest :
        (r : Result (List ℕ))
        → ((t : List ℕ) → check_irqs t ps ≡ add_distinct t (irqs_of ps))
        → (r >>= λ t. check_irqs t ps) ≡ (r >>= λ t. add_distinct t (irqs_of ps))
    rest (ok t) same = same t
    rest (err e) same = refl

AllNew-split :
    (n : ℕ) (seen ns : List ℕ) → AllNew (n ∷ seen) ns → (has_number n ns ≡ false) × AllNew seen ns
AllNew-split n seen [] h = (refl, tt)
AllNew-split n seen (m ∷ ns) h =
    let (fresh, new) = AllNew-split n seen ns h.1 in (ground arith, (ground arith, new))

add_distinct-AllDistinct :
    (seen ns : List ℕ) {out : List ℕ}
    → add_distinct seen ns ≡ ok out
    → AllDistinct ns × AllNew seen ns
unfolding add_distinct
add_distinct-AllDistinct seen [] h = (tt, tt)
add_distinct-AllDistinct seen (n ∷ ns) h =
    let (_, checked, more) = >>=-eq-ok (raise_if (has_number n seen) user_error) _ h in
    let (distinct, new) = add_distinct-AllDistinct (n ∷ seen) ns more in
    let (fresh, rest) = AllNew-split n seen ns new in ((fresh, distinct), (ground arith, rest))

-- After the checks of a description have returned, no interrupt is given to two protection domains
-- or twice to one.
pub system_description-AllDistinct :
    (mrs : List SysMemoryRegion) (pds : PdTrees) (channels : List Channel)
    (partitions : List Partition) {flat : List FlatPd} {counted : List Partition}
    → system_description mrs pds channels partitions ≡ ok (flat, counted)
    → AllDistinct (irqs_of flat)
unfolding system_description
system_description-AllDistinct mrs pds channels partitions h =
    let (flat', _, h1) = >>=-eq-ok (pd_trees_to_list none pds) _ h in
    let (known, _, h2) = >>=-eq-ok (check_partitions [] partitions) _ h1 in
    let ((names, counts), _, h3) = >>=-eq-ok (check_pds [] known flat') _ h2 in
    let (_, _, h4) = >>=-eq-ok (check_mrs [] mrs) _ h3 in
    let (_, _, h5) = >>=-eq-ok (check_channel_names names channels) _ h4 in
    let (irqs, checked, h6) = >>=-eq-ok (check_irqs [] flat') _ h5 in
    let (ids, _, h7) = >>=-eq-ok (check_irq_ids [] flat') _ h6 in
    let (_, _, h8) = >>=-eq-ok (check_channel_ids ids channels) _ h7 in
    let (_, _, same) = >>=-eq-ok (check_all_maps mrs flat') _ h8 in
    subst (λ t. AllDistinct (irqs_of t)) (ap (λ r. r.0) (ok_injective same))
      (add_distinct-AllDistinct [] (irqs_of flat')
        (sym (check_irqs-add_distinct [] flat') ∙ checked)).0
