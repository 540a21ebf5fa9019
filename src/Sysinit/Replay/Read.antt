-- ===== src/Sysinit/Replay/Read.antt =====
-- The tag that the tool makes, and what the initial task reads back from the words of a command.
use sel4cp.Prelude.{
  ℕ, suc, subst, ◌+◌, ◌*◌, ◌/◌, ◌%◌, ◌^◌, ◌<◌, ◌≡◌, refl, sym, ap, ◌∙◌, bit_or, true, List, [], ◌∷◌,
  ◌++◌, arith, ok, ltb, length,
}
use sel4cp.Bits.{bit_or-disjoint}
use sel4cp.Invocation.Encode.{message_info_new}
use sel4cp.Sysinit.{MessageInfo, add32, invocation_words, read_parts}
use sel4cp.Sysinit.Replay.Standing.{At, At-append, invocation_word-At, invocation_words-At}
use sel4cp.Sysinit.Expected.{tag_of}

pub message_info_new_lem :
    (l extra len t : ℕ)
    → message_info_new l 0 extra len ≡ ok t
    → (t ≡ tag_of l extra len) × (extra < 4) × (len < 128)
unfolding message_info_new
message_info_new_lem l extra len t h =
    let guards : (extra < 4) × (len < 128) = ground arith in
    (ground (arith, joined guards.0 guards.1), guards.0, guards.1)
  where
    joined :
        extra < 4
        → len < 128
        → bit_or (bit_or (bit_or (l * 2 ^ 12) (0 * 2 ^ 9)) (extra * 2 ^ 7)) len ≡ tag_of l extra len
    joined e n =
        let one : bit_or (l * 2 ^ 12) (0 * 2 ^ 9) ≡ l * 8 * 2 ^ 9 =
          bit_or-disjoint 12 l 0 (omega arith) ∙ omega arith in
        let two : bit_or (l * 8 * 2 ^ 9) (extra * 2 ^ 7) ≡ (l * 32 + extra) * 2 ^ 7 =
          bit_or-disjoint 9 (l * 8) (extra * 2 ^ 7) (omega arith) ∙ omega arith in
        let three : bit_or ((l * 32 + extra) * 2 ^ 7) len ≡ tag_of l extra len =
          bit_or-disjoint 7 (l * 32 + extra) len n ∙ omega arith in
        ap (λ t. bit_or (bit_or t (extra * 2 ^ 7)) len) one ∙ ap (λ t. bit_or t len) two ∙ three

module _ (info : MessageInfo) (l : ℕ) (small : l < 2 ^ 20) (caps vals : List ℕ)
    (few : length caps < 4) (short : length vals < 128) where
  abbrev word : ℕ
  word = tag_of l (length caps) (length vals)

  -- The command word of `n + 1` rounds, and what is read from it.
  from_word :
      (n : ℕ) → ((word + n * 2 ^ 32) % 2 ^ 32 ≡ word) × ((word + n * 2 ^ 32) / 2 ^ 32 + 1 ≡ n + 1)
  from_word n = omega arith

  pub read_once :
      (table : List ℕ) (offset svc : ℕ)
      → offset + 2 + length caps + length vals < 2 ^ 32
      → At table offset (word ∷ svc ∷ (caps ++ vals))
      → read_parts info table offset
        ≡ ok (
          record {
            tag = word;
            iterations = 1;
            service = svc;
            caps = caps;
            mrs = vals;
            service_incr = 0;
            cap_incrs = [];
            mr_incrs = [];
          },
          offset + 2 + length caps + length vals,
        )
  unfolding read_parts
  read_once table offset svc room at =
      let fields = info.layout l 0 (length caps) (length vals) (omega arith) few short in
      let low : word % 2 ^ 32 ≡ word = omega arith in
      let high : word / 2 ^ 32 + 1 ≡ 1 = omega arith in
      let (at_caps, at_vals) = At-append table (suc (suc offset)) caps vals at.1.1 in
      let o1 : add32 offset 1 ≡ suc offset = omega (arith, room) in
      let o2 : add32 offset 2 ≡ suc (suc offset) = omega (arith, room) in
      let o3 : add32 (suc (suc offset)) (length caps) ≡ suc (suc offset) + length caps =
        omega (arith, room) in
      let o4 : add32 (suc (suc offset) + length caps) (length vals)
          ≡ offset + 2 + length caps + length vals =
        omega (arith, room) in
      rw
        (
          invocation_word-At table offset word (omega (arith, room)) at.0,
          o1,
          invocation_word-At table (suc offset) svc (omega (arith, room)) at.1.0,
          o2,
          low,
          high,
        )
        (rw
          (
            fields.1,
            fields.2,
            o3,
            invocation_words-At table (suc (suc offset)) caps (omega (arith, room)) at_caps,
            invocation_words-At table (suc (suc offset) + length caps) vals (omega (arith, room))
                at_vals,
            o4,
          )
          refl)

  pub read_repeated :
      (table : List ℕ) (offset n svc svc_incr : ℕ) (cap_incrs val_incrs : List ℕ)
      → 0 < n
      → length cap_incrs ≡ length caps
      → length val_incrs ≡ length vals
      → offset + 3 + 2 * (length caps + length vals) < 2 ^ 32
      → At table offset
          ((word + n * 2 ^ 32) ∷ svc ∷ (caps ++ (vals ++ (svc_incr ∷ (cap_incrs ++ val_incrs)))))
      → read_parts info table offset
        ≡ ok (
          record {
            tag = word;
            iterations = n + 1;
            service = svc;
            caps = caps;
            mrs = vals;
            service_incr = svc_incr;
            cap_incrs = cap_incrs;
            mr_incrs = val_incrs;
          },
          offset + 3 + 2 * (length caps + length vals),
        )
  unfolding read_parts
  read_repeated table offset n svc svc_incr cap_incrs val_incrs pos cl vl room at =
      let fields = info.layout l 0 (length caps) (length vals) (omega arith) few short in
      let (low, high) = from_word n in
      let more : ltb 1 (n + 1) ≡ true = ground arith in
      let (at_caps, at2) = At-append table (suc (suc offset)) caps _ at.1.1 in
      let (at_vals, at3) = At-append table (suc (suc offset) + length caps) vals _ at2 in
      let (at_cap_incrs, at_val_incrs) =
        At-append table (suc (suc (suc offset) + length caps + length vals)) cap_incrs val_incrs
          at3.1 in
      let e1 : add32 offset 1 ≡ suc offset = omega (arith, room) in
      let e2 : add32 offset 2 ≡ suc (suc offset) = omega (arith, room) in
      let e3 : add32 (suc (suc offset)) (length caps) ≡ suc (suc offset) + length caps =
        omega (arith, room) in
      let e4 : add32 (suc (suc offset) + length caps) (length vals)
          ≡ suc (suc offset) + length caps + length vals =
        omega (arith, room) in
      let e5 : add32 (suc (suc offset) + length caps + length vals) 1
          ≡ suc (suc (suc offset) + length caps + length vals) =
        omega (arith, room) in
      let e6 : add32 (suc (suc (suc offset) + length caps + length vals)) (length caps)
          ≡ suc (suc (suc offset) + length caps + length vals) + length caps =
        omega (arith, room) in
      let e7 : add32 (suc (suc (suc offset) + length caps + length vals) + length caps)
            (length vals)
          ≡ offset + 3 + 2 * (length caps + length vals) =
        omega (arith, room) in
      let c : invocation_words table (suc (suc (suc offset) + length caps + length vals))
            (length caps)
          ≡ ok cap_incrs =
        ap (invocation_words table (suc (suc (suc offset) + length caps + length vals))) (sym cl)
        ∙ invocation_words-At table _ cap_incrs (omega (arith, room, cl)) at_cap_incrs in
      let v : invocation_words table
            (suc (suc (suc offset) + length caps + length vals) + length caps) (length vals)
          ≡ ok val_incrs =
        ap
          (invocation_words table
            (suc (suc (suc offset) + length caps + length vals) + length caps))
          (sym vl)
        ∙ invocation_words-At table _ val_incrs (omega (arith, room, vl)) (
            subst (λ t. At table (suc (suc (suc offset) + length caps + length vals) + t) val_incrs)
              cl at_val_incrs) in
      rw
        (
          invocation_word-At table offset (word + n * 2 ^ 32) (omega (arith, room)) at.0,
          e1,
          invocation_word-At table (suc offset) svc (omega (arith, room)) at.1.0,
          e2,
          low,
          high,
          more,
        )
        (rw
          (
            fields.1,
            fields.2,
            e3,
            invocation_words-At table (suc (suc offset)) caps (omega (arith, room)) at_caps,
            invocation_words-At table (suc (suc offset) + length caps) vals (omega (arith, room))
                at_vals,
            e4,
            invocation_word-At table (suc (suc offset) + length caps + length vals) svc_incr
                (omega (arith, room)) at3.0,
            e5,
            c,
            e6,
            v,
            e7,
          )
          refl)
