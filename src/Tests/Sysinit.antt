-- ===== src/Tests/Sysinit.antt =====
-- Runs of the invocations of tool/sel4coreplat/sel4.py and of their reader in sysinit/src/main.c.
use sel4cp.Sysinit.Repeated.{perform-repeat, perform-endless}
use sel4cp.Prelude.{
  max, ℕ, ◌+◌, ◌/◌, ◌%◌, ◌^◌, ◌≡◌, refl, arith, List, [], ◌∷◌, ◌++◌, none, some, ok, err,
  out_of_fuel, length,
}
use sel4cp.Invocation.{
  once, repeat, cnode_copy, tcb_resume, Command, Repeat, label, fields, extra_caps,
}
use sel4cp.Invocation.Encode.{raw_words, get_raw_invocation, words_bytes, message_info_new}
use sel4cp.Invocation.Labels.{label_value}
use sel4cp.Sysinit.{
  Call, MessageInfo, Parts, calls_from, read_parts, perform_invocation, perform_all,
}
use sel4cp.Sysinit.Expected.{expected}
use sel4cp.Sysinit.Replay.{perform-raw_words}
use sel4cp.Sysinit.Program.{all_expected}
use sel4cp.Sysinit.Bytes.{table_bytes, perform_all-table_bytes}
use sel4cp.Sysinit.Bytes.Words.{words_of}

-- The accessors that read the documented places of the tag.
abbrev kernel_info : MessageInfo
kernel_info = record {
  caps_unwrapped = λ t. t / 2 ^ 9 % 8;
  extra_caps = λ t. t / 2 ^ 7 % 4;
  msg_length = λ t. t % 2 ^ 7;
  layout = λ label caps extra len c e n. (omega arith, omega arith, omega arith);
}

-- Three copies into following slots.
abbrev copy_three : Command
copy_three = record {
  invocation = cnode_copy 10 1 64 11 5 64 3;
  repeated =
      some (record { repeat_count = 3; repeat_incr = ("dest_index", 1) ∷ ("src_obj", 2) ∷ [] });
}

abbrev resume : Command
resume = record { invocation = tcb_resume 12; repeated = none }

abbrev copy_words : List ℕ
copy_words = 0x200017085 ∷ 10 ∷ 11 ∷ 1 ∷ 64 ∷ 5 ∷ 64 ∷ 3 ∷ 0 ∷ 0 ∷ 1 ∷ 0 ∷ 2 ∷ 0 ∷ 0 ∷ []

copy_three_words : raw_words copy_three ≡ ok copy_words
unfolding raw_words message_info_new label_value label fields extra_caps
copy_three_words = refl

resume_words : raw_words resume ≡ ok (0x10000 ∷ 12 ∷ [])
unfolding raw_words message_info_new label_value label fields extra_caps
resume_words = refl

-- The command stands behind another one, and a third one follows.
abbrev three_words : List ℕ
three_words = (0x10000 ∷ 7 ∷ []) ++ (copy_words ++ 0x10000 ∷ 12 ∷ [])

perform-raw_words_example :
    perform_invocation kernel_info three_words 2 ≡ ok (expected copy_three, 2 + 15)
perform-raw_words_example =
    perform-raw_words kernel_info copy_three (0x10000 ∷ 7 ∷ []) copy_words (0x10000 ∷ 12 ∷ [])
      (omega arith, omega arith) copy_three_words (omega arith)

abbrev resume_bytes : List ℕ
resume_bytes = 0 ∷ 0 ∷ 1 ∷ 0 ∷ 0 ∷ 0 ∷ 0 ∷ 0 ∷ 12 ∷ 0 ∷ 0 ∷ 0 ∷ 0 ∷ 0 ∷ 0 ∷ 0 ∷ []

-- The bytes of a word below 256.
abbrev whole : ℕ → List ℕ
whole n = n ∷ 0 ∷ 0 ∷ 0 ∷ 0 ∷ 0 ∷ 0 ∷ 0 ∷ []

abbrev table_of_two : List ℕ
table_of_two =
    133 ∷ 112 ∷ 1 ∷ 0 ∷ 2 ∷ 0 ∷ 0 ∷ 0 ∷ whole 10
    ++ whole 11
    ++ whole 1
    ++ whole 64
    ++ whole 5
    ++ whole 64
    ++ whole 3
    ++ whole 0
    ++ whole 0
    ++ whole 1
    ++ whole 0
    ++ whole 2
    ++ whole 0
    ++ whole 0
    ++ resume_bytes

table_of_two-bytes : table_bytes (copy_three ∷ resume ∷ []) ≡ ok table_of_two
unfolding get_raw_invocation raw_words words_bytes message_info_new label_value label fields
    extra_caps
table_of_two-bytes = refl

perform_all-table_bytes_example :
    (length table_of_two % 8 ≡ 0)
    × (perform_all kernel_info 2 (words_of (length table_of_two / 8) table_of_two) 0
        ≡ ok (all_expected (copy_three ∷ resume ∷ []), length table_of_two / 8))
perform_all-table_bytes_example =
    perform_all-table_bytes kernel_info (copy_three ∷ resume ∷ []) table_of_two
      ((omega arith, omega arith), (tt, tt)) table_of_two-bytes (omega arith)

copy_three_set :
    repeat 3 (("dest_index", 1) ∷ ("src_obj", 2) ∷ []) (once (cnode_copy 10 1 64 11 5 64 3))
    ≡ ok copy_three
unfolding repeat
copy_three_set = refl

perform-repeat_example :
    (calls : List Call) × (perform_invocation kernel_info three_words 2 ≡ ok (calls, 2 + 15))
    × (length calls ≡ max 1 3)
perform-repeat_example =
    perform-repeat kernel_info 3 (("dest_index", 1) ∷ ("src_obj", 2) ∷ [])
      (cnode_copy 10 1 64 11 5 64 3) copy_three (0x10000 ∷ 7 ∷ []) copy_words (0x10000 ∷ 12 ∷ [])
      (omega arith) copy_three_set copy_three_words (omega arith)

abbrev full_count : Repeat
full_count = record { repeat_count = 2 ^ 32; repeat_incr = ("dest_index", 1) ∷ [] }

abbrev full_words : List ℕ
full_words = 0xffff_ffff_0001_7085 ∷ 10 ∷ 11 ∷ 1 ∷ 64 ∷ 5 ∷ 64 ∷ 3 ∷ 0 ∷ 0 ∷ 1 ∷ 0 ∷ 0 ∷ 0 ∷ 0 ∷ []

full_count_words :
    raw_words (record { invocation = cnode_copy 10 1 64 11 5 64 3; repeated = some full_count })
    ≡ ok full_words
unfolding raw_words message_info_new label_value label fields extra_caps
full_count_words = refl

perform-endless_example :
    (p : Parts) × (next : ℕ) × (read_parts kernel_info (full_words ++ []) 0 ≡ ok (p, next))
    × (p.iterations ≡ 2 ^ 32)
    × ((fuel : ℕ) → calls_from fuel 0 p ≡ err out_of_fuel)
perform-endless_example =
    perform-endless kernel_info (cnode_copy 10 1 64 11 5 64 3) full_count [] full_words [] refl
      full_count_words (omega arith)
