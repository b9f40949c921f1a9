-- ===== src/Permission.antt =====
-- permission/permission.go. An approver runs in a world `W`; its errors are of a type `E`.
pub mod Laws
use hot_take.Base.{
  Outcome, ok, err, ◌>>=◌, ◌>>◌, reject_if, Text, ◌==◌, Bool, true, false, not, ◌&&◌, ◌||◌, Option,
  none, some, List, [], ◌∷◌,
}
use hot_take.Base.Strings.{trim_space}
use hot_take.Base.Dict.{Dict, lookup, put}
use hot_take.Tool.{Call}

pub data Mode : Type 0 where
  allow deny ask : Mode
  other : Text → Mode

pub record Request : Type 0 where
  pub agent_name : Text
  pub skill_name : Text
  pub call : Call

pub data Error (E : Type 0) : Type 0 where
  denied : Text → Error E
  denied_all : Error E
  approval_failed : Text → E → Error E
  invalid_mode : Mode → Error E

pub data PolicyError : Type 0 where
  invalid_default : Mode → PolicyError
  missing_tool_name : PolicyError
  invalid_rule_mode : Mode → Text → PolicyError
  duplicate_rule : Text → PolicyError
  approver_required : PolicyError

pub record Rule : Type 0 where
  pub tool : Text
  pub mode : Mode

abbrev pub Approver : Type 0 → Type 0 → Type 0
Approver W E = Request → W → Outcome E Bool × W

abbrev pub Authorizer : Type 0 → Type 0 → Type 0
Authorizer W E = Request → W → Outcome (Error E) (Unit {0}) × W

-- A nil approver is `none`.
pub record Policy (W E : Type 0) : Type 0 where
  pub default_mode : Mode
  pub rules : Dict Mode
  pub approver : Option (Approver W E)

unfoldable pub valid_mode : Mode → Bool
valid_mode allow = true
valid_mode deny = true
valid_mode ask = true
valid_mode (other m) = false

unfoldable pub is_ask : Mode → Bool
is_ask ask = true
is_ask _ = false

unfoldable pub is_nil {ℓ} : {A : Type ℓ} → Option A → Bool
is_nil none = true
is_nil (some a) = false

-- The loop of `NewPolicy` over the rules, with `validated` and `requiresApproval`.
unfoldable pub validate_rules :
    List Rule → Dict Mode → Bool → Outcome PolicyError (Dict Mode × Bool)
unfolding valid_mode is_ask is_nil
validate_rules [] validated requires = ok (validated, requires)
validate_rules (rule ∷ rules) validated requires = do
  let name = trim_space rule.tool
  reject_if (name == []) missing_tool_name
  reject_if (not (valid_mode rule.mode)) (invalid_rule_mode rule.mode name)
  reject_if (not (is_nil (lookup name validated))) (duplicate_rule name)
  validate_rules rules (put name rule.mode validated) (requires || is_ask rule.mode)

module _ {W E : Type 0} where
  unfoldable pub new_policy :
      Mode → List Rule → Option (Approver W E) → Outcome PolicyError (Policy W E)
  unfolding validate_rules valid_mode is_ask is_nil
  new_policy default_mode rules approver = do
    reject_if (not (valid_mode default_mode)) (invalid_default default_mode)
    found ← validate_rules rules [] (is_ask default_mode)
    reject_if (found.1 && is_nil approver) approver_required
    ok (record { default_mode = default_mode; rules = found.0; approver = approver })

  -- The mode of a call: that of the rule for its tool, or the default.
  unfoldable pub mode_of : Policy W E → Text → Mode
  mode_of p name = elim (lookup name p.rules) [ none ↦ p.default_mode | some mode ↦ mode ]

  unfoldable pub judge : Request → Outcome E Bool × W → Outcome (Error E) (Unit {0}) × W
  judge request (err e, w) = (err (approval_failed request.call.name e), w)
  judge request (ok true, w) = (ok tt, w)
  judge request (ok false, w) = (err (denied request.call.name), w)

  -- `Authorize`, by the mode of the call. `none` is the panic of calling a nil approver.
  unfoldable pub authorize_mode :
      Mode → Option (Approver W E) → Request → W → Option (Outcome (Error E) (Unit {0}) × W)
  unfolding judge
  authorize_mode allow approver request w = some (ok tt, w)
  authorize_mode deny approver request w = some (err (denied request.call.name), w)
  authorize_mode ask none request w = none
  authorize_mode ask (some approve) request w = some (judge request (approve request w))
  authorize_mode (other m) approver request w = some (err (invalid_mode (other m)), w)

  unfoldable pub authorize : Policy W E → Request → W → Option (Outcome (Error E) (Unit {0}) × W)
  unfolding mode_of authorize_mode
  authorize p request w = authorize_mode (mode_of p request.call.name) p.approver request w

-- `AllowAll` and `DenyAll`
unfoldable pub allow_all : {W E : Type 0} → Authorizer W E
allow_all request w = (ok tt, w)

unfoldable pub deny_all : {W E : Type 0} → Authorizer W E
deny_all request w = (err denied_all, w)
