-- ===== src/Sysinit/Program.antt =====
-- A whole table of invocations.
use mathlib.Core.List.{append-nil}
use sel4cp.Prelude.{
  ℕ, suc, ◌+◌, ◌<◌, ◌^◌, arith, subst, length-append, ◌≡◌, refl, ap, sym, ◌∙◌, List, [], ◌∷◌, ◌++◌,
  Result, ok, ◌>>=◌, >>=-eq-ok, ok_injective, length, All,
}
use sel4cp.Invocation.{Command}
use sel4cp.Invocation.Encode.{raw_words}
use sel4cp.Sysinit.{MessageInfo, Call, perform_invocation, perform_all}
use sel4cp.Sysinit.Replay.{perform-At}
use sel4cp.Sysinit.Replay.Standing.{At, At-append_behind, At-append}
use sel4cp.Sysinit.Expected.{expected, IsRepeatable}

-- The loop of the tool that joins the invocations' data, as words.
abbrev pub table_words : List Command → Result (List ℕ)
table_words [] = ok []
table_words (cmd ∷ cmds) = do ws ← raw_words cmd; more ← table_words cmds; ok (ws ++ more)

-- Its two continuations.
abbrev join : List ℕ → List ℕ → Result (List ℕ)
join ws more = ok (ws ++ more)

abbrev join_more : List Command → List ℕ → Result (List ℕ)
join_more cmds ws = table_words cmds >>= join ws

abbrev pub all_expected : List Command → List Call
all_expected [] = []
all_expected (cmd ∷ cmds) = expected cmd ++ all_expected cmds

perform_all-step :
    (info : MessageInfo) (n : ℕ) (table : List ℕ) (offset next end : ℕ) (calls others : List Call)
    → perform_invocation info table offset ≡ ok (calls, next)
    → perform_all info n table next ≡ ok (others, end)
    → perform_all info (suc n) table offset ≡ ok (calls ++ others, end)
unfolding perform_all
perform_all-step info n table offset next end calls others one more = rw (one, more) refl

perform_all-nil :
    (info : MessageInfo) (table : List ℕ) (offset : ℕ)
    → perform_all info 0 table offset ≡ ok ([], offset)
unfolding perform_all
perform_all-nil info table offset = refl

perform_all-At :
    (info : MessageInfo) (cmds : List Command) (table : List ℕ) (offset : ℕ) (ws : List ℕ)
    → All IsRepeatable cmds
    → table_words cmds ≡ ok ws
    → offset + length ws < 2 ^ 32
    → At table offset ws
    → perform_all info (length cmds) table offset ≡ ok (all_expected cmds, offset + length ws)
perform_all-At info [] table offset ws two h room at =
    perform_all-nil info table offset
    ∙ ap {B = Result (List Call × ℕ)} (λ t. ok ([], t))
        (subst (λ t. offset ≡ offset + length t) (ok_injective h) (omega arith))
perform_all-At info (cmd ∷ cmds) table offset ws two h room at =
    let (first, encoded, h2) = >>=-eq-ok (raw_words cmd) (join_more cmds) h in
    let (more, tabled, same) = >>=-eq-ok (table_words cmds) (join first) h2 in
    let (here, later) =
      At-append table offset first more (subst (At table offset) (sym (ok_injective same)) at) in
    let size : length first + length more ≡ length ws =
      sym (length-append first more) ∙ ap length (ok_injective same) in
    let next : offset + length first + length more ≡ offset + length ws = omega (arith, size) in
    perform_all-step info (length cmds) table offset (offset + length first) _ (expected cmd)
      (all_expected cmds)
      (perform-At info cmd table offset first two.0 encoded (omega (arith, room, size)) here)
      (perform_all-At info cmds table (offset + length first) more two.1 tabled
        (omega (arith, room, next)) later)
    ∙ ap {B = Result (List Call × ℕ)} (λ t. ok (expected cmd ++ all_expected cmds, t)) next

-- The initial task, told the number of commands, performs the whole table from its first word on: it
-- makes all the calls of all the commands in their order, and stops exactly at the end of the table,
-- which has less than 2 ** 32 words. Each command is not repeated or 2 to 2 ** 32 - 1 times.
pub perform_all-table_words :
    (info : MessageInfo) (cmds : List Command) (ws : List ℕ)
    → All IsRepeatable cmds
    → table_words cmds ≡ ok ws
    → length ws < 2 ^ 32
    → perform_all info (length cmds) ws 0 ≡ ok (all_expected cmds, length ws)
perform_all-table_words info cmds ws two h room =
    let start = subst (λ t. At t 0 ws) (append-nil ws) (At-append_behind [] ws []) in
    let e : 0 + length ws ≡ length ws = omega arith in
    perform_all-At info cmds ws 0 ws two h (omega (arith, room)) start
    ∙ ap {B = Result (List Call × ℕ)} (λ t. ok (all_expected cmds, t)) e
