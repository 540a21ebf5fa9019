-- ===== src/Sysinit.antt =====
-- How the initial task reads and performs the invocations that the tool wrote: `perform_invocation`
-- and the loop over it in sysinit/src/main.c.
pub mod Expected
pub mod Replay
pub mod Program
pub mod Bytes
pub mod Repeated
use sel4cp.Prelude.{
  ℕ, zero, suc, ◌+◌, ◌*◌, ◌/◌, ◌%◌, ◌^◌, ◌<◌, ◌≡◌, Bool, List, [], ◌∷◌, ◌++◌, Result, ok, err,
  exception, index_error, out_of_fuel, none, some, get_elem?, guard, ◌>>=◌, ◌>>◌, ltb, leb, ◌==◌,
  if◌then◌else◌, length, take, drop,
}
use sel4cp.Words.{word_mod}

-- `+` on `unsigned`.
abbrev pub add32 : ℕ → ℕ → ℕ
add32 a b = (a + b) % 2 ^ 32

-- The accessors of the kernel library for a message tag. What the code relies on is that they read
-- the fields of a tag that is laid out as the kernel's documentation has it.
pub record MessageInfo : Type 0 where
  pub caps_unwrapped : ℕ → ℕ
  pub extra_caps : ℕ → ℕ
  pub msg_length : ℕ → ℕ
  pub layout :
      (label caps extra len : ℕ)
      → caps < 8
      → extra < 4
      → len < 128
      → let tag = label * 2 ^ 12 + caps * 2 ^ 9 + extra * 2 ^ 7 + len in
        (caps_unwrapped tag ≡ caps) × (extra_caps tag ≡ extra) × (msg_length tag ≡ len)

-- One call of the kernel.
pub record Call : Type 0 where
  pub tag : ℕ
  pub service : ℕ
  pub caps : List ℕ
  pub mrs : List ℕ

-- `if (i > 0) x += incr * i;` on 64-bit words.
abbrev pub stepped : ℕ → ℕ → ℕ → ℕ
stepped i x incr = if i == 0 then x else (x + incr * i) % word_mod

abbrev pub stepped_all : ℕ → List ℕ → List ℕ → List ℕ
stepped_all i [] incrs = []
stepped_all i (x ∷ xs) [] = stepped i x 0 ∷ stepped_all i xs []
stepped_all i (x ∷ xs) (incr ∷ incrs) = stepped i x incr ∷ stepped_all i xs incrs

-- The parts of the words of one invocation.
pub record Parts : Type 0 where
  pub tag : ℕ
  pub iterations : ℕ
  pub service : ℕ
  pub caps : List ℕ
  pub mrs : List ℕ
  pub service_incr : ℕ
  pub cap_incrs : List ℕ
  pub mr_incrs : List ℕ

abbrev pub call_at : Parts → ℕ → Call
call_at p i = record {
  tag = p.tag;
  service = stepped i p.service p.service_incr;
  caps = stepped_all i p.caps p.cap_incrs;
  mrs = stepped_all i p.mrs p.mr_incrs;
}

-- `for (unsigned i = 0; i < iterations; i++)` from `i`: the counter has 32 bits and `iterations` has
-- 64. With more rounds to go than the fuel, the model gives up.
unfoldable pub calls_from : ℕ → ℕ → Parts → Result (List Call)
calls_from zero i p = err out_of_fuel
calls_from (suc fuel) i p =
    let rest = calls_from fuel (add32 i 1) p in
    if ltb i p.iterations then (do calls ← rest; ok (call_at p i ∷ calls)) else ok []

-- `invocation_data[i]` for an `unsigned` index. Reading past the end of the words has no meaning in
-- the source.
unfoldable pub invocation_word : List ℕ → ℕ → Result ℕ
invocation_word table i = elim (get_elem? table (i % 2 ^ 32)) [
  | none ↦ err index_error
  | some w ↦ ok w
]

-- The words that a loop over `invocation_data[start + j]` reads.
unfoldable pub invocation_words : List ℕ → ℕ → ℕ → Result (List ℕ)
unfolding invocation_word
invocation_words table start zero = ok []
invocation_words table start (suc n) = do
  w ← invocation_word table start
  ws ← invocation_words table (suc start) n
  ok (w ∷ ws)

module _ (info : MessageInfo) where
  -- The parts of the invocation at `offset`, and `next_offset`.
  unfoldable pub read_parts : List ℕ → ℕ → Result (Parts × ℕ)
  unfolding invocation_word invocation_words
  read_parts table offset = do
    cmd ← invocation_word table offset
    let tag = cmd % 2 ^ 32
    let iterations = cmd / 2 ^ 32 + 1
    service ← invocation_word table (add32 offset 1)
    let cap_count = info.extra_caps tag
    let mr_count = info.msg_length tag
    let cap_offset = add32 offset 2
    let mr_offset = add32 cap_offset cap_count
    let cap_incr_offset = add32 (add32 mr_offset mr_count) 1
    let mr_incr_offset = add32 cap_incr_offset cap_count
    caps ← invocation_words table cap_offset cap_count
    mrs ← invocation_words table mr_offset mr_count
    if ltb 1 iterations
        then (do
          service_incr ← invocation_word table (add32 mr_offset mr_count)
          cap_incrs ← invocation_words table cap_incr_offset cap_count
          mr_incrs ← invocation_words table mr_incr_offset mr_count
          ok (
            record {
              tag = tag;
              iterations = iterations;
              service = service;
              caps = caps;
              mrs = mrs;
              service_incr = service_incr;
              cap_incrs = cap_incrs;
              mr_incrs = mr_incrs;
            },
            add32 mr_incr_offset mr_count,
          ))
        else ok (
          record {
            tag = tag;
            iterations = iterations;
            service = service;
            caps = caps;
            mrs = mrs;
            service_incr = 0;
            cap_incrs = [];
            mr_incrs = [];
          },
          add32 mr_offset mr_count,
        )

  -- `perform_invocation`: the calls that it makes, and `next_offset`. A call that the kernel refuses
  -- ends the program; the calls are those of a run where it refuses none. The fuel is enough for
  -- each number of rounds that the counter can reach.
  unfoldable pub perform_invocation : List ℕ → ℕ → Result (List Call × ℕ)
  unfolding read_parts calls_from
  perform_invocation table offset = do
    (p, next_offset) ← read_parts table offset
    guard (info.caps_unwrapped p.tag == 0) exception
    calls ← calls_from (suc p.iterations) 0 p
    ok (calls, next_offset)

  -- The loop of `main` over the invocations, from `offset`. Its counter has 32 bits, and a table that
  -- the offset reaches has less than 2 ** 32 of them.
  unfoldable pub perform_all : ℕ → List ℕ → ℕ → Result (List Call × ℕ)
  unfolding perform_invocation
  perform_all zero table offset = ok ([], offset)
  perform_all (suc n) table offset = do
    (calls, next_offset) ← perform_invocation table offset
    (others, end) ← perform_all n table next_offset
    ok (calls ++ others, end)
