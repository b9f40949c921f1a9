-- ===== src/Tests/Policies.antt =====
-- A policy with a rule for one tool, and an approver that says yes.
use hot_take.Base.{ok, Text, codes, ◌==◌, ℕ, ◌+◌, ◌≡◌, refl, true, Option, some, List, [], ◌∷◌}
use hot_take.Base.Strings.{trim_space}
use hot_take.Base.Dict.{Dict, lookup, put}
use hot_take.Permission.{deny, ask, Request, Rule, Approver, Policy, new_policy, authorize}
use hot_take.Permission.Laws.{
  mode_for, Decides, IsPermittedBy, authorize-new_policy, authorize-eq-ok,
}
use hot_take.Tests.Fixture.{call_of, clock_name}

abbrev rules : List Rule
rules = record { tool = codes " clock_now "; mode = ask } ∷ []

abbrev approver : Option (Approver ℕ Text)
approver = some (λ request w. (ok true, w + 1))

abbrev policy : Policy ℕ Text
policy = record { default_mode = deny; rules = (clock_name, ask) ∷ []; approver = approver }

abbrev request : Request
request = record { agent_name = codes "agent"; skill_name = codes "day"; call = call_of clock_name }

policy_test : new_policy deny rules approver ≡ ok policy
unfolding new_policy hot_take.Base.◌==◌ hot_take.Base.Strings.trim_space hot_take.Base.Dict.lookup
    hot_take.Base.Dict.put
policy_test = refl

authorize_test : authorize policy request 0 ≡ some (ok tt, 1)
unfolding authorize hot_take.Base.Dict.lookup hot_take.Base.◌==◌
authorize_test = refl

authorize-new_policy_example :
    Decides request 0 (mode_for clock_name rules deny) approver (authorize policy request 0)
authorize-new_policy_example = authorize-new_policy deny rules approver policy_test request 0

authorize-eq-ok_example : IsPermittedBy deny rules approver request 0 1
authorize-eq-ok_example = authorize-eq-ok deny rules approver policy_test request 0 1 authorize_test
