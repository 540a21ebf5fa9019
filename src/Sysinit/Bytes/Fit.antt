-- ===== src/Sysinit/Bytes/Fit.antt =====
-- What a command is encoded to are 64-bit words.
use sel4cp.Prelude.{
  ℕ, ◌+◌, ◌*◌, ◌^◌, ◌≡◌, ap, sym, true, ◌∙◌, List, [], ◌∷◌, ◌++◌, arith, ok, ◌>>=◌, >>=-eq-ok,
  ok_injective, guard-eq-ok, length, Option, none, some, bit_or, ◌-◌,
}
use sel4cp.Invocation.{Command, Repeat, Invocation, label}
use sel4cp.Invocation.Labels.{label_value}
use sel4cp.Invocation.Encode.{
  raw_words, message_info_new, service, values, cap_fields, params, active, pack_once,
  pack_repeated, repeat_words, all_words,
}

pub all_words-join :
    (xs ys : List ℕ) → all_words xs ≡ true → all_words ys ≡ true → all_words (xs ++ ys) ≡ true
all_words-join [] ys hx hy = hy
all_words-join (x ∷ xs) ys hx hy = ground (arith, all_words-join xs ys)

pack_once-all_words :
    (inv : Invocation) (caps vals ws : List ℕ) (tag : ℕ)
    → pack_once inv caps vals tag ≡ ok ws
    → all_words ws ≡ true
pack_once-all_words inv caps vals ws tag h =
    let (fit, same) = guard-eq-ok (all_words (tag ∷ (service inv).1 ∷ caps ++ vals)) _ _ h in
    sym (ap all_words (ok_injective same)) ∙ fit

pack_repeated-all_words :
    (inv : Invocation) (caps vals ws : List ℕ) (r : Repeat) (tag : ℕ)
    → pack_repeated inv caps vals r tag ≡ ok ws
    → all_words ws ≡ true
pack_repeated-all_words inv caps vals ws r tag h =
    let (base, based, more) =
      >>=-eq-ok (pack_once inv caps vals (bit_or tag ((r.repeat_count - 1) * 2 ^ 32))) _ h in
    let (extra, _, more') =
      >>=-eq-ok (repeat_words r.repeat_incr inv (length caps + length vals)) _ more in
    let (fit, same) = guard-eq-ok (all_words extra) _ _ more' in
    sym (ap all_words (ok_injective same))
    ∙ all_words-join base extra (pack_once-all_words inv caps vals base _ based) fit

pub raw_words-all_words :
    (cmd : Command) (ws : List ℕ) → raw_words cmd ≡ ok ws → all_words ws ≡ true
unfolding raw_words
raw_words-all_words cmd ws h = by_active (active cmd.repeated) h
  where
    by_active :
        (o : Option Repeat)
        → (do
          tag ←
              message_info_new
                (label_value (label cmd.invocation))
                0
                (length (values (cap_fields cmd.invocation)))
                (length (params cmd.invocation))
          elim o [
            | none ↦
                pack_once cmd.invocation
                  (values (cap_fields cmd.invocation))
                  (params cmd.invocation)
                  tag
            | some r ↦
                pack_repeated cmd.invocation
                  (values (cap_fields cmd.invocation))
                  (params cmd.invocation)
                  r
                  tag
          ])
          ≡ ok ws
        → all_words ws ≡ true
    by_active none h =
        let (tag, _, packed) =
          >>=-eq-ok
            (message_info_new (label_value (label cmd.invocation)) 0
              (length (values (cap_fields cmd.invocation))) (length (params cmd.invocation)))
            _ h in
        pack_once-all_words cmd.invocation (values (cap_fields cmd.invocation))
          (params cmd.invocation) ws tag packed
    by_active (some r) h =
        let (tag, _, packed) =
          >>=-eq-ok
            (message_info_new (label_value (label cmd.invocation)) 0
              (length (values (cap_fields cmd.invocation))) (length (params cmd.invocation)))
            _ h in
        pack_repeated-all_words cmd.invocation (values (cap_fields cmd.invocation))
          (params cmd.invocation) ws r tag packed
