-- ===== src/Sysinit/Replay/Encoded.antt =====
-- What the words of a repeated command are, and what a successful encoding has passed.
use mathlib.Core.Path.{ap₂}
use Prim.Native.String.{String}
use sel4cp.Prelude.{
  ℕ, ◌+◌, ◌-◌, ◌*◌, ◌^◌, ◌≡◌, refl, sym, ◌∙◌, bit_or, true, false, List, ◌∷◌, ◌++◌, some, arith,
  Result, ok, ◌>>=◌, ◌>>◌, guard, struct_error, >>=-eq-ok, guard-eq-ok, ok_injective, ◌==◌, ==_iff,
  length-append, length, length-map,
}
use sel4cp.Invocation.{Invocation, Repeat, label}
use sel4cp.Invocation.Labels.{label_value}
use sel4cp.Invocation.Encode.{
  message_info_new, all_words, increment, values, service, cap_fields, val_fields, params,
  increments, repeat_words, pack_once, pack_repeated, raw_words,
}
use sel4cp.Sysinit.Replay.Rounds.{params-val_fields}

module _ (inv : Invocation) where
  abbrev pub caps : List ℕ
  caps = values (cap_fields inv)

  -- The two continuations of `pack_repeated`.
  abbrev pub join_extra : List ℕ → List ℕ → Result (List ℕ)
  join_extra base extra = do guard (all_words extra) struct_error; ok (base ++ extra)

  abbrev pub pack_extra : Repeat → List ℕ → Result (List ℕ)
  pack_extra r base =
      repeat_words r.repeat_incr inv (length caps + length (params inv)) >>= join_extra base

  raw_repeated :
      (r : Repeat)
      → (r.repeat_count == 0) ≡ false
      → raw_words (record { invocation = inv; repeated = some r }) ≡ (
          message_info_new (label_value (label inv)) 0 (length caps) (length (params inv))
          >>= pack_repeated inv caps (params inv) r)
  unfolding raw_words
  raw_repeated r live = rw (live, raw_words) refl

  -- What a successful encoding of a repeated invocation has passed, and its words.
  module _ (r : Repeat) where
    abbrev pub incr : List (String × ℕ)
    incr = r.repeat_incr

    abbrev pub cap_incrs : List ℕ
    cap_incrs = increments incr (cap_fields inv)

    abbrev pub val_incrs : List ℕ
    val_incrs = increments incr (val_fields inv)

    abbrev pub command_word : ℕ → ℕ
    command_word tag = bit_or tag ((r.repeat_count - 1) * 2 ^ 32)

    abbrev pub encoded : ℕ → List ℕ
    encoded tag =
        (command_word tag ∷ (service inv).1 ∷ caps ++ params inv)
        ++ (increment incr (service inv).0 ∷ cap_incrs ++ val_incrs)

    pub unpack :
        (ws : List ℕ)
        → (r.repeat_count == 0) ≡ false
        → raw_words (record { invocation = inv; repeated = some r }) ≡ ok ws
        → (tag : ℕ) × (message_info_new
              (label_value (label inv))
              0
              (length caps)
              (length (params inv))
            ≡ ok tag)
          × (all_words (command_word tag ∷ (service inv).1 ∷ caps ++ params inv) ≡ true)
          × (length (cap_incrs ++ val_incrs) ≡ length caps + length (params inv))
          × (encoded tag ≡ ws)
    unpack ws live h =
        let (tag, made, packed) =
          >>=-eq-ok
            (message_info_new (label_value (label inv)) 0 (length caps) (length (params inv)))
            (pack_repeated inv caps (params inv) r) (sym (raw_repeated r live) ∙ h) in
        let words = command_word tag ∷ (service inv).1 ∷ caps ++ params inv in
        let (base, based, more) =
          >>=-eq-ok (pack_once inv caps (params inv) (command_word tag)) (pack_extra r) packed in
        let (fit, same_base) = guard-eq-ok (all_words words) _ _ based in
        let places = length caps + length (params inv) in
        let (extra, extended, more') =
          >>=-eq-ok (repeat_words incr inv places) (join_extra base) more in
        let (sized, same_extra) =
          guard-eq-ok (length (cap_incrs ++ val_incrs) == places) _ _ extended in
        let (_, same) = guard-eq-ok (all_words extra) _ _ more' in
        (
          tag,
          made,
          fit,
          (==_iff _ _).0 sized,
          ap₂ (λ s t. s ++ t) (ok_injective same_base) (ok_injective same_extra)
              ∙ ok_injective same,
        )

    pub sizes :
        length (cap_incrs ++ val_incrs) ≡ length caps + length (params inv)
        → (length cap_incrs ≡ length caps)
          × (length val_incrs ≡ length (params inv))
          × (params inv ≡ values (val_fields inv))
    sizes sized =
        let as_caps : length cap_incrs ≡ length caps =
          length-map (cap_fields inv) _ ∙ sym (length-map (cap_fields inv) _) in
        let as_vals : length val_incrs ≡ length (params inv) =
          omega (arith, sized, length-append cap_incrs val_incrs, as_caps) in
        (
          as_caps,
          as_vals,
          params-val_fields inv
              (length-map (val_fields inv) _ ∙ sym (length-map (val_fields inv) _) ∙ as_vals),
        )

    pub length_encoded :
        (tag : ℕ)
        → length (cap_incrs ++ val_incrs) ≡ length caps + length (params inv)
        → length (encoded tag) ≡ 3 + 2 * (length caps + length (params inv))
    length_encoded tag sized = omega (
      arith,
      length-append (command_word tag ∷ (service inv).1 ∷ caps ++ params inv)
          (increment incr (service inv).0 ∷ cap_incrs ++ val_incrs),
      length-append caps (params inv),
      sized,
    )
