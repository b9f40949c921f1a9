-- ===== src/Tests/Approvals.antt =====
-- Approvals at a terminal that answers and then is left.
use hot_take.Base.{
  if◌then◌else◌, eqb, length, ok, Text, codes, ◌==◌, ℕ, ◌+◌, ◌≡◌, refl, true, none, [], ◌∷◌,
}
use hot_take.Base.Strings.{trim_space, lower_byte}
use hot_take.Permission.{Request}
use hot_take.Approval.{cancelled, line, Terminal, State, approve, approve_all}
use hot_take.Approval.Laws.{IsRetiredLast, IsApproval, approve_all-IsRetiredLast, approve-eq-ok}
use hot_take.Command.Terminal.{terminal_approver}
use hot_take.Tests.Fixture.{lower, clock_name, call_of}

-- A terminal whose first line says yes; the context of the second call is done while it waits.
abbrev terminal : Terminal ℕ Text
terminal = record {
  acquire = λ w. (none, w);
  context_err = λ w. (none, w);
  write = λ text w. (ok tt, w);
  read = λ w. (if eqb w 0 then line (codes " Yes\n") none else cancelled (codes "late"), w + 1);
  to_lower = lower;
}

abbrev request : Request
request = record { agent_name = codes "agent"; skill_name = codes "day"; call = call_of clock_name }

abbrev start : State ℕ Text
start = record { world = 0; stopped = none; trace = [] }

abbrev behind : State ℕ Text
behind = (approve terminal request start).1

approve_test : (approve terminal request start).0 ≡ ok true
unfolding approve hot_take.Base.◌==◌ hot_take.Base.Strings.trim_space
    hot_take.Base.Strings.lower_byte
approve_test = refl

terminal_test :
    terminal_approver terminal (λ e. e) request (record { outer = (0, none); sessions = [] })
    ≡ (ok true, record { outer = (1, none); sessions = [] })
unfolding terminal_approver hot_take.Base.◌==◌ hot_take.Base.Strings.trim_space
    hot_take.Base.Strings.lower_byte
terminal_test = refl

approve_all_test :
    length (approve_all terminal (request ∷ request ∷ request ∷ []) start).1.trace ≡ 4
unfolding approve_all
approve_all_test = refl

pair_test : approve terminal request start ≡ (ok true, behind)
unfolding approve hot_take.Base.◌==◌ hot_take.Base.Strings.trim_space
    hot_take.Base.Strings.lower_byte
pair_test = refl

approve-eq-ok_example : IsApproval terminal request start behind
approve-eq-ok_example = approve-eq-ok terminal request start behind pair_test

approve_all-IsRetiredLast_example :
    IsRetiredLast (approve_all terminal (request ∷ request ∷ request ∷ []) start).1.trace
approve_all-IsRetiredLast_example =
    approve_all-IsRetiredLast terminal (request ∷ request ∷ request ∷ []) start refl refl
