-- ===== src/Builder/CSpace/Channels/Ends.antt =====
-- What the mints of the channels are about: the ends of the channels.
use mathlib.Core.List.{append_assoc}
use text.Mathlib.Text.{◌==◌ as str_eq}
use text.Mathlib.TextEquality.{eq_iff}
use Prim.Native.String.{String}
use sel4cp.Prelude.{
  ◌<◌, ◌≡◌, ◌≢◌, refl, subst, if◌then◌else◌, All-and, sym, ap, ◌∙◌, true, false, List, [], ◌∷◌,
  ◌++◌, ok, ok_injective, Bool-cases, inl, inr, ◌⊎◌, All, All-imp, All-append, Pairwise,
  Pairwise-append, >>=-eq-ok,
}
use sel4cp.Invocation.{Command}
use sel4cp.Description.{Channel}
use sel4cp.Description.Ends.{End, channel_ends}
use sel4cp.Builder.CSpace.{Caps, BuiltPd, pd_name, find_pd}
use sel4cp.Builder.CSpace.Channels.{mint_channel, mint_channels}

-- What the function tells of each command, in order.
abbrev pub keys_of : {K : Type 0} → (Command → List K) → List Command → List K
keys_of key [] = []
keys_of key (cmd ∷ cmds) = key cmd ++ keys_of key cmds

pub keys_of-append :
    {K : Type 0} (key : Command → List K) (xs ys : List Command)
    → keys_of key (xs ++ ys) ≡ keys_of key xs ++ keys_of key ys
keys_of-append key [] ys = refl
keys_of-append key (x ∷ xs) ys = rw (keys_of-append key xs ys) (simp append_assoc)

find_pd-first :
    (x p : BuiltPd) (pds : List BuiltPd) (n : String)
    → str_eq n (pd_name x) ≡ true
    → find_pd n (x ∷ pds) ≡ ok p
    → x ≡ p
unfolding find_pd
find_pd-first x p pds n e h = ok_injective (sym (ap (λ b. if b then ok x else find_pd n pds) e) ∙ h)

find_pd-later :
    (x p : BuiltPd) (pds : List BuiltPd) (n : String)
    → str_eq n (pd_name x) ≡ false
    → find_pd n (x ∷ pds) ≡ ok p
    → find_pd n pds ≡ ok p
unfolding find_pd
find_pd-later x p pds n e h = sym (ap (λ b. if b then ok x else find_pd n pds) e) ∙ h

find_pd-nil : (n : String) (p : BuiltPd) → find_pd n [] ≢ ok p
unfolding find_pd
find_pd-nil n p h = cc

-- What holds of all domains holds of the one that is found.
find_pd-All :
    (P : BuiltPd → Type 0) (pds : List BuiltPd) (n : String) (p : BuiltPd)
    → All P pds
    → find_pd n pds ≡ ok p
    → P p
find_pd-All P [] n p h e = absurd (find_pd-nil n p e)
find_pd-All P (x ∷ pds) n p h e = elim (Bool-cases (str_eq n (pd_name x))) [
  | inl same ↦ subst P (find_pd-first x p pds n same e) h.0
  | inr other ↦ find_pd-All P pds n p h.1 (find_pd-later x p pds n other e)
]

-- Domains that are found under different names differ as the domains of the list do.
pub find_pd-apart :
    (R : BuiltPd → BuiltPd → Type 0) (pds : List BuiltPd) (n m : String) (p q : BuiltPd)
    → ((p q : BuiltPd) → R p q → R q p)
    → Pairwise R pds
    → find_pd n pds ≡ ok p
    → find_pd m pds ≡ ok q
    → n ≢ m
    → R p q
find_pd-apart R [] n m p q flip h hp hq ne = find_pd-All (λ p. R p q) [] n p tt hp
find_pd-apart R (x ∷ pds) n m p q flip h hp hq ne = elim (Bool-cases (str_eq n (pd_name x))) [
  | inl en ↦ elim (Bool-cases (str_eq m (pd_name x))) [
    | inl em ↦ absurd (ne ((eq_iff n (pd_name x)).0 en ∙ sym ((eq_iff m (pd_name x)).0 em)))
    | inr om ↦
        subst (λ t. R t q) (find_pd-first x p pds n en hp)
          (find_pd-All (R x) pds m q h.0 (find_pd-later x q pds m om hq))
  ]
  | inr on ↦
      let later = find_pd-later x p pds n on hp in
      elim (Bool-cases (str_eq m (pd_name x))) [
        | inl em ↦
            subst (R p) (find_pd-first x q pds m em hq)
              (flip x p (find_pd-All (R x) pds n p h.0 later))
        | inr om ↦ find_pd-apart R pds n m p q flip h.1 later (find_pd-later x q pds m om hq) ne
      ]
]

-- The items stand for ends that satisfy the predicate.
abbrev pub StandFor : {K : Type 0} → (End → K → Type 0) → (End → Type 0) → List K → Type 0
StandFor At P ks = All (λ k. (e : End) × P e × At e k) ks

module _ {K : Type 0} (At : End → K → Type 0) (key : Command → List K) (c : Caps)
    (pds : List BuiltPd) (apart : (d e : End) (k l : K) → d ≢ e → At d k → At e l → k ≢ l)
    (one : (ch : Channel) (cmds : List Command)
      → ch.id_a < 63
      → ch.id_b < 63
      → mint_channel c pds ch ≡ ok cmds
      → let a : End = (ch.pd_a, ch.id_a) in
        let b : End = (ch.pd_b, ch.id_b) in
        (a ≢ b → Pairwise (λ k l. k ≢ l) (keys_of key cmds))
        × StandFor At (λ e. (e ≡ a) ⊎ (e ≡ b)) (keys_of key cmds)) where
  StandFor-apart :
      (P Q : End → Type 0) (ks ls : List K)
      → ((d e : End) → P d → Q e → d ≢ e)
      → StandFor At P ks
      → StandFor At Q ls
      → All (λ k. All (λ l. k ≢ l) ls) ks
  StandFor-apart P Q ks ls ne hk hl =
      All-imp ks
        (λ k (d, pd, ak). All-imp ls (λ l (e, qe, al). apart d e k l (ne d e pd qe) ak al) hl) hk

  -- The keys of the channels' mints stand for ends of the channels.
  pub mint_channels-StandFor :
      (P : End → Type 0) (chs : List Channel) (cmds : List Command)
      → All (λ ch. (ch.id_a < 63) × (ch.id_b < 63)) chs
      → mint_channels c pds chs ≡ ok cmds
      → All P (channel_ends chs)
      → StandFor At P (keys_of key cmds)
  unfolding mint_channels
  mint_channels-StandFor P [] cmds small h p =
      subst (λ t. StandFor At P (keys_of key t)) (ok_injective h) tt
  mint_channels-StandFor P (ch ∷ chs) cmds small h p =
      let (first, made, h1) = >>=-eq-ok (mint_channel c pds ch) _ h in
      let (rest, more, same) = >>=-eq-ok (mint_channels c pds chs) _ h1 in
      subst (λ t. StandFor At P (keys_of key t)) (ok_injective same)
        (rw (keys_of-append key first rest) (
          All-append _ (keys_of key first) (keys_of key rest)
            (All-imp (keys_of key first)
              (λ k (e, end, at).
                (e, elim end [ inl l ↦ subst P (sym l) p.0 | inr r ↦ subst P (sym r) p.1.0 ], at))
              (one ch first small.0.0 small.0.1 made).1)
            (mint_channels-StandFor P chs rest small.1 more p.1.1)))

  -- The keys of the channels' mints are pairwise different.
  pub mint_channels-Pairwise :
      (chs : List Channel) (cmds : List Command)
      → All (λ ch. (ch.id_a < 63) × (ch.id_b < 63)) chs
      → mint_channels c pds chs ≡ ok cmds
      → Pairwise (λ d e. d ≢ e) (channel_ends chs)
      → Pairwise (λ k l. k ≢ l) (keys_of key cmds)
  unfolding mint_channels
  mint_channels-Pairwise [] cmds small h p =
      subst (λ t. Pairwise (λ k l. k ≢ l) (keys_of key t)) (ok_injective h) tt
  mint_channels-Pairwise (ch ∷ chs) cmds small h p =
      let (first, made, h1) = >>=-eq-ok (mint_channel c pds ch) _ h in
      let (rest, more, same) = >>=-eq-ok (mint_channels c pds chs) _ h1 in
      let a : End = (ch.pd_a, ch.id_a) in
      let b : End = (ch.pd_b, ch.id_b) in
      let here = one ch first small.0.0 small.0.1 made in
      let other : End → Type 0 = λ e. (a ≢ e) × (b ≢ e) in
      subst (λ t. Pairwise (λ k l. k ≢ l) (keys_of key t)) (ok_injective same)
        (rw (keys_of-append key first rest) (
          Pairwise-append _ (keys_of key first) (keys_of key rest) (here.0 p.0.0)
            (mint_channels-Pairwise chs rest small.1 more p.1.1)
            (StandFor-apart (λ e. (e ≡ a) ⊎ (e ≡ b)) other (keys_of key first) (keys_of key rest)
              (λ d e end ne same. elim end [
                | inl l ↦ ne.0 (sym l ∙ same)
                | inr r ↦ ne.1 (sym r ∙ same)
              ])
              here.1
              (mint_channels-StandFor other chs rest small.1 more
                (All-and (channel_ends chs) (λ e x y. (x, y)) p.0.1 p.1.0)))))
