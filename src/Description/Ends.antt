-- ===== src/Description/Ends.antt =====
-- The channel ends and the interrupts of a description that passes the checks: no protection domain
-- has two of them under one identifier.
use mathlib.Core.List.{append_assoc, append-nil}
use text.Mathlib.Text.{◌==◌ as str_eq}
use text.Mathlib.TextEquality.{eq_iff}
use Prim.Native.String.{String}
use sel4cp.Prelude.{
  ℕ, ◌≡◌, ◌≢◌, refl, sym, ap, subst, ◌∙◌, true, false, List, [], ◌∷◌, ◌++◌, map, none, arith, ok,
  raise_if, user_error, >>=-eq-ok, Bool-cases, inl, inr, ◌==◌, ok_injective, All, All-append,
  All-imp, Pairwise, Pairwise-last,
}
use sel4cp.Description.{
  FlatPd, SysMemoryRegion, PdTrees, Channel, Partition, has_number, add_distinct, check_irqs,
  ids_of, pd_trees_to_list, check_partitions, check_pds, check_mrs, check_channel_names,
  check_irq_ids, check_channel_ids, check_all_maps, system_description,
}

-- A protection domain by its name, with an identifier.
abbrev pub End : Type 0
End = String × ℕ

abbrev pub irq_ends : List FlatPd → List End
irq_ends [] = []
irq_ends (p ∷ ps) = map (λ i. (p.info.name, i)) (map (λ i. i.id) p.info.irqs) ++ irq_ends ps

abbrev pub channel_ends : List Channel → List End
channel_ends [] = []
channel_ends (cc ∷ ccs) = (cc.pd_a, cc.id_a) ∷ (cc.pd_b, cc.id_b) ∷ channel_ends ccs

-- The two ends of the channel are different.
abbrev pub HasTwoEnds : Channel → Type 0
HasTwoEnds c = ◌≢◌ {A = End} (c.pd_a, c.id_a) (c.pd_b, c.id_b)

-- The known identifiers cover the ends.
abbrev Covers : List (String × List ℕ) → List End → Type 0
Covers known es = All (λ e. has_number e.1 (ids_of e.0 known) ≡ true) es

str_eq_refl : (s : String) → str_eq s s ≡ true
str_eq_refl s = (eq_iff s s).1 refl

-- Covered ends stay covered when the identifiers of one domain grow.
Covers-grow :
    (name : String) (out : List ℕ) (known : List (String × List ℕ)) (es : List End)
    → ((n : ℕ) → has_number n (ids_of name known) ≡ true → has_number n out ≡ true)
    → Covers known es
    → Covers ((name, out) ∷ known) es
Covers-grow name out known es more = All-imp es step
  where
    step :
        (e : End)
        → has_number e.1 (ids_of e.0 known) ≡ true
        → has_number e.1 (ids_of e.0 ((name, out) ∷ known)) ≡ true
    step e h = elim (Bool-cases (str_eq e.0 name)) [
      | inl same ↦ rw same (
          more e.1
            (subst (λ t. has_number e.1 (ids_of t known) ≡ true) ((eq_iff e.0 name).0 same) h))
      | inr other ↦ rw other h
    ]

-- An identifier that is not among the known ones of its domain makes a new end.
Covers-fresh :
    (name : String) (n : ℕ) (known : List (String × List ℕ)) (es : List End)
    → has_number n (ids_of name known) ≡ false
    → Covers known es
    → All (λ e. e ≢ (name, n)) es
Covers-fresh name n known es fresh = All-imp es step
  where
    step : (e : End) → has_number e.1 (ids_of e.0 known) ≡ true → e ≢ (name, n)
    step e h same =
        let known' : has_number n (ids_of name known) ≡ true =
          subst (λ t. has_number t.1 (ids_of t.0 known) ≡ true) same h in
        cc

-- Ends that are different and known.
abbrev Known : List (String × List ℕ) → List End → Type 0
Known known es = Pairwise (λ d e. d ≢ e) es × Covers known es

has_number-cons : (m n : ℕ) (ns : List ℕ) → has_number m ns ≡ true → has_number m (n ∷ ns) ≡ true
has_number-cons m n ns h = ground arith

-- One new end is added.
Known-add :
    (name : String) (n : ℕ) (known : List (String × List ℕ)) (es : List End)
    → has_number n (ids_of name known) ≡ false
    → Known known es
    → Known ((name, n ∷ ids_of name known) ∷ known) (es ++ (name, n) ∷ [])
Known-add name n known es fresh h = (
  Pairwise-last (λ d e. d ≢ e) es (name, n) h.0 (Covers-fresh name n known es fresh h.1),
  All-append _ es ((name, n) ∷ [])
      (Covers-grow name (n ∷ ids_of name known) known es
        (λ m. has_number-cons m n (ids_of name known)) h.1)
      (rw (str_eq_refl name) (ground arith), tt),
)

-- A newer list of identifiers replaces an older one of the same domain.
Covers-replaced :
    (name : String) (new old : List ℕ) (known : List (String × List ℕ)) (es : List End)
    → Covers ((name, new) ∷ (name, old) ∷ known) es
    → Covers ((name, new) ∷ known) es
Covers-replaced name new old known es = All-imp es step
  where
    step :
        (e : End)
        → has_number e.1 (ids_of e.0 ((name, new) ∷ (name, old) ∷ known)) ≡ true
        → has_number e.1 (ids_of e.0 ((name, new) ∷ known)) ≡ true
    step e h = elim (Bool-cases (str_eq e.0 name)) [ inl same ↦ cc | inr other ↦ cc ]

ids_of-first :
    (name : String) (ids : List ℕ) (known : List (String × List ℕ))
    → ids_of name ((name, ids) ∷ known) ≡ ids
ids_of-first name ids known = rw (str_eq_refl name) refl

-- The interrupts of one domain are added.
Known-add_distinct :
    (name : String) (ids : List ℕ) (known : List (String × List ℕ)) (es : List End) {out : List ℕ}
    → add_distinct (ids_of name known) ids ≡ ok out
    → Known known es
    → Known ((name, out) ∷ known) (es ++ map (λ n. (name, n)) ids)
unfolding add_distinct
Known-add_distinct name [] known es {out} h k =
    let same = ok_injective h in
    rw (append-nil es)
      (k.0, Covers-grow name out known es (λ n p. subst (λ t. has_number n t ≡ true) same p) k.1)
Known-add_distinct name (n ∷ ids) known es {out} h k =
    let (_, checked, more) =
      >>=-eq-ok (raise_if (has_number n (ids_of name known)) user_error) _ h in
    let fresh : has_number n (ids_of name known) ≡ false = ground arith in
    let older = (name, n ∷ ids_of name known) ∷ known in
    let rest =
      Known-add_distinct name ids older (es ++ (name, n) ∷ [])
        (subst (λ t. add_distinct t ids ≡ ok out)
          (sym (ids_of-first name (n ∷ ids_of name known) known)) more)
        (Known-add name n known es fresh k) in
    let same = append_assoc es ((name, n) ∷ []) (map (λ m. (name, m)) ids) in
    subst (Known ((name, out) ∷ known)) same
      (rest.0, Covers-replaced name out (n ∷ ids_of name known) known _ rest.1)

Known-check_irq_ids :
    (ps : List FlatPd) (known : List (String × List ℕ)) (es : List End)
    {out : List (String × List ℕ)}
    → check_irq_ids known ps ≡ ok out
    → Known known es
    → Known out (es ++ irq_ends ps)
unfolding check_irq_ids
Known-check_irq_ids [] known es h k =
    rw (append-nil es) (subst (λ t. Known t es) (ok_injective h) k)
Known-check_irq_ids (p ∷ ps) known es h k =
    let name = p.info.name in
    let ids = map (λ i. i.id) p.info.irqs in
    let (out, added, more) = >>=-eq-ok (add_distinct (ids_of name known) ids) _ h in
    let rest =
      Known-check_irq_ids ps ((name, out) ∷ known) _ more
        (Known-add_distinct name ids known es added k) in
    subst (Known _) (append_assoc es (map (λ n. (name, n)) ids) (irq_ends ps)) rest

-- The second end of a channel is new also behind the first.
second_fresh :
    (c : Channel) (known : List (String × List ℕ))
    → HasTwoEnds c
    → has_number c.id_b (ids_of c.pd_b known) ≡ false
    → has_number c.id_b (ids_of c.pd_b ((c.pd_a, c.id_a ∷ ids_of c.pd_a known) ∷ known)) ≡ false
second_fresh c known two fresh = elim (Bool-cases (str_eq c.pd_b c.pd_a)) [
  | inr other ↦ rw other fresh
  | inl same ↦
      let e = (eq_iff c.pd_b c.pd_a).0 same in
      elim (Bool-cases (c.id_b == c.id_a)) [
        | inl equal ↦ let i : c.id_b ≡ c.id_a = ground arith in absurd (two (rw (e, i) refl))
        | inr unequal ↦
            rw (same, unequal) (subst (λ t. has_number c.id_b (ids_of t known) ≡ false) e fresh)
      ]
]

Known-check_channel_ids :
    (ccs : List Channel) (known : List (String × List ℕ)) (es : List End)
    → check_channel_ids known ccs ≡ ok tt
    → All HasTwoEnds ccs
    → Known known es
    → Pairwise (λ d e. d ≢ e) (es ++ channel_ends ccs)
unfolding check_channel_ids
Known-check_channel_ids [] known es h two k = rw (append-nil es) k.0
Known-check_channel_ids (c ∷ ccs) known es h two k =
    let (_, a, h1) =
      >>=-eq-ok (raise_if (has_number c.id_a (ids_of c.pd_a known)) user_error) _ h in
    let (_, b, h2) =
      >>=-eq-ok (raise_if (has_number c.id_b (ids_of c.pd_b known)) user_error) _ h1 in
    let one = Known-add c.pd_a c.id_a known es (ground arith) k in
    let second =
      Known-add c.pd_b c.id_b ((c.pd_a, c.id_a ∷ ids_of c.pd_a known) ∷ known) _
        (second_fresh c known two.0 (ground arith)) one in
    let rest = Known-check_channel_ids ccs _ _ h2 two.1 second in
    subst (Pairwise (λ d e. d ≢ e))
      (append_assoc (es ++ (c.pd_a, c.id_a) ∷ []) ((c.pd_b, c.id_b) ∷ []) (channel_ends ccs)
        ∙ append_assoc es ((c.pd_a, c.id_a) ∷ []) ((c.pd_b, c.id_b) ∷ channel_ends ccs))
      rest

-- After the checks of a description have returned, no protection domain has one identifier for two
-- of its interrupts and channel ends, where no channel leads from an end to that same end.
pub system_description-Pairwise :
    (mrs : List SysMemoryRegion) (pds : PdTrees) (channels : List Channel)
    (partitions : List Partition) {flat : List FlatPd} {counted : List Partition}
    → system_description mrs pds channels partitions ≡ ok (flat, counted)
    → All HasTwoEnds channels
    → Pairwise (λ d e. d ≢ e) (irq_ends flat ++ channel_ends channels)
unfolding system_description
system_description-Pairwise mrs pds channels partitions h two =
    let (flat', _, h1) = >>=-eq-ok (pd_trees_to_list none pds) _ h in
    let (known, _, h2) = >>=-eq-ok (check_partitions [] partitions) _ h1 in
    let ((names, counts), _, h3) = >>=-eq-ok (check_pds [] known flat') _ h2 in
    let (_, _, h4) = >>=-eq-ok (check_mrs [] mrs) _ h3 in
    let (_, _, h5) = >>=-eq-ok (check_channel_names names channels) _ h4 in
    let (irqs, _, h6) = >>=-eq-ok (check_irqs [] flat') _ h5 in
    let (ids, irqs_checked, h7) = >>=-eq-ok (check_irq_ids [] flat') _ h6 in
    let (_, checked, h8) = >>=-eq-ok (check_channel_ids ids channels) _ h7 in
    let (_, _, same) = >>=-eq-ok (check_all_maps mrs flat') _ h8 in
    subst (λ t. Pairwise (λ d e. d ≢ e) (irq_ends t ++ channel_ends channels))
      (ap (λ r. r.0) (ok_injective same))
      (Known-check_channel_ids channels ids (irq_ends flat') checked two
        (Known-check_irq_ids flat' [] [] irqs_checked (tt, tt)))
