-- ===== src/Permission/Laws.antt =====
-- What a policy that permission.NewPolicy returns decides.
use hot_take.Base.{
  if◌then◌else◌, Bool-cases, Outcome, ok, err, reject_if, >>=-eq-ok, Text, ◌==◌, ==_iff, ◌≡◌, refl,
  sym, ap, ◌∙◌, subst, ◌≢◌, ◌⊎◌, inl, inr, Bool, true, false, not, ◌||◌, Option, none, some, List,
  [], ◌∷◌, arith,
}
use hot_take.Base.Strings.{trim_space}
use hot_take.Base.Dict.{Dict, lookup, put, lookup-put}
use hot_take.Permission.{
  authorize_mode, Mode, allow, deny, ask, other, Request, Error, denied, Rule, Approver, Policy,
  valid_mode, is_ask, is_nil, validate_rules, new_policy, mode_of, judge, authorize,
}

-- The mode of the first rule whose trimmed tool name is `name`, or the mode given.
abbrev pub mode_for : Text → List Rule → Mode → Mode
mode_for name [] default_mode = default_mode
mode_for name (rule ∷ rules) default_mode =
    if trim_space rule.tool == name then rule.mode else mode_for name rules default_mode

abbrev from_option : Option Mode → Mode → Mode
from_option none m = m
from_option (some m) _ = m

some_inner : {A : Type 0} {a b : A} → some a ≡ some b → a ≡ b
some_inner h = cc

judge-eq-ok :
    {W E : Type 0} (request : Request) (answer : Outcome E Bool × W) (w' : W)
    → judge request answer ≡ (ok tt, w')
    → answer ≡ (ok true, w')
unfolding judge
judge-eq-ok request (err e, w) w' h = cc
judge-eq-ok request (ok true, w) w' h = cc
judge-eq-ok request (ok false, w) w' h = cc

validate_rules_cons :
    (rule : Rule) (rules : List Rule) (validated : Dict Mode) (requires : Bool)
    {out : Dict Mode × Bool}
    → validate_rules (rule ∷ rules) validated requires ≡ ok out
    → (trim_space rule.tool ≢ [])
      × (valid_mode rule.mode ≡ true)
      × (lookup (trim_space rule.tool) validated ≡ none)
      × (validate_rules rules
            (put (trim_space rule.tool) rule.mode validated)
            (requires || is_ask rule.mode)
          ≡ ok out)
unfolding validate_rules
validate_rules_cons rule rules validated requires h =
    (ground (arith, ==_iff (trim_space rule.tool) []), ground arith, ground arith, ground arith)

validate_rules-lookup :
    (rules : List Rule) (validated : Dict Mode) (requires : Bool) (out : Dict Mode × Bool)
    (name : Text) (m : Mode)
    → validate_rules rules validated requires ≡ ok out
    → from_option (lookup name out.0) m
      ≡ from_option (lookup name validated) (mode_for name rules m)
validate_rules-lookup [] validated requires out name m h = unfold validate_rules in ground arith
validate_rules-lookup (rule ∷ rules) validated requires out name m h =
    let (_, _, fresh, rest) = validate_rules_cons rule rules validated requires h in
    ground (
      arith,
      validate_rules-lookup rules (put (trim_space rule.tool) rule.mode validated)
          (requires || is_ask rule.mode) out name m rest,
      lookup-put (trim_space rule.tool) name rule.mode validated,
      ==_iff (trim_space rule.tool) name,
    )

mode_for-valid :
    (rules : List Rule) (validated : Dict Mode) (requires : Bool) (out : Dict Mode × Bool)
    (name : Text) (m : Mode)
    → validate_rules rules validated requires ≡ ok out
    → valid_mode m ≡ true
    → valid_mode (mode_for name rules m) ≡ true
mode_for-valid [] validated requires out name m h v = v
mode_for-valid (rule ∷ rules) validated requires out name m h v =
    let (_, valid, _, rest) = validate_rules_cons rule rules validated requires h in
    ground (
      arith,
      mode_for-valid rules (put (trim_space rule.tool) rule.mode validated)
          (requires || is_ask rule.mode) out name m rest v,
    )

requires_true :
    (rules : List Rule) (validated : Dict Mode) (out : Dict Mode × Bool)
    → validate_rules rules validated true ≡ ok out
    → out.1 ≡ true
requires_true [] validated out h = unfold validate_rules in ground arith
requires_true (rule ∷ rules) validated out h =
    let (_, _, _, rest) = validate_rules_cons rule rules validated true h in
    requires_true rules (put (trim_space rule.tool) rule.mode validated) out rest

requires_ask :
    (rules : List Rule) (validated : Dict Mode) (requires : Bool) (out : Dict Mode × Bool)
    (name : Text) (m : Mode)
    → validate_rules rules validated requires ≡ ok out
    → (is_ask m ≡ true → requires ≡ true)
    → is_ask (mode_for name rules m) ≡ true
    → out.1 ≡ true
requires_ask [] validated requires out name m h d a = unfold validate_rules in ground (arith, d a)
requires_ask (rule ∷ rules) validated requires out name m h d a =
    let (_, _, _, rest) = validate_rules_cons rule rules validated requires h in
    elim (Bool-cases (is_ask rule.mode)) [
      | inl e ↦ requires_true rules (put (trim_space rule.tool) rule.mode validated) out (
          subst
            (λ b. validate_rules rules (put (trim_space rule.tool) rule.mode validated) b ≡ ok out)
            (ground arith) rest)
      | inr e ↦
          requires_ask rules (put (trim_space rule.tool) rule.mode validated)
            (requires || is_ask rule.mode) out name m rest (λ q. ground (arith, d q)) (ground arith)
    ]

module _ {W E : Type 0} (request : Request) (w : W) where
  -- The three decisions of a valid mode, with what `Authorize` then returns.
  abbrev pub Decides :
      Mode → Option (Approver W E) → Option (Outcome (Error E) (Unit {0}) × W) → Type 0
  Decides mode approver result =
      ((mode ≡ allow) × (result ≡ some (ok tt, w)))
      ⊎ ((mode ≡ deny) × (result ≡ some (err (denied request.call.name), w)))
      ⊎ ((mode ≡ ask)
          × ((approve : Approver W E) × (approver ≡ some approve)
              × (result ≡ some (judge request (approve request w)))))

  authorize_mode-Decides :
      (mode : Mode) (approver : Option (Approver W E))
      → valid_mode mode ≡ true
      → (is_ask mode ≡ true → is_nil approver ≡ false)
      → Decides mode approver (authorize_mode mode approver request w)
  unfolding authorize_mode valid_mode is_ask is_nil
  authorize_mode-Decides allow a v h = inl (refl, refl)
  authorize_mode-Decides deny a v h = inr (inl (refl, refl))
  authorize_mode-Decides ask none v h = absurd (cc (h refl))
  authorize_mode-Decides ask (some f) v h = inr (inr (refl, (f, refl, refl)))
  authorize_mode-Decides (other m) a v h = cc

-- The reasons to permit a call: a rule or a default that allows it, or an approver who was to be asked and
-- said yes.
abbrev pub IsPermittedBy :
    {W E : Type 0} → Mode → List Rule → Option (Approver W E) → Request → W → W → Type 0
IsPermittedBy {W} {E} default_mode rules approver request w w' =
    (mode_for request.call.name rules default_mode ≡ allow)
    ⊎ ((mode_for request.call.name rules default_mode ≡ ask)
        × ((approve : Approver W E) × (approver ≡ some approve)
            × (approve request w ≡ (ok true, w'))))

module _ {W E : Type 0} (default_mode : Mode) (rules : List Rule) (approver : Option (Approver W E))
    {p : Policy W E} (built : new_policy default_mode rules approver ≡ ok p) where
  new_policy-parts :
      (found : Dict Mode × Bool) × (valid_mode default_mode ≡ true)
      × (validate_rules rules [] (is_ask default_mode) ≡ ok found)
      × (found.1 ≡ true → is_nil approver ≡ false)
      × (p ≡ record { default_mode = default_mode; rules = found.0; approver = approver })
  unfolding new_policy
  new_policy-parts =
      let (u, valid, h1) = >>=-eq-ok (reject_if (not (valid_mode default_mode)) _) _ built in
      let (found, checked, h2) = >>=-eq-ok (validate_rules rules [] (is_ask default_mode)) _ h1 in
      (found, ground arith, checked, λ q. ground arith, ground arith)

  mode_of-policy : (name : Text) → mode_of p name ≡ mode_for name rules default_mode
  unfolding mode_of
  mode_of-policy name =
      let (found, _, checked, _, e) = new_policy-parts in
      unfold lookup in
      ground (
        arith,
        validate_rules-lookup rules [] (is_ask default_mode) found name default_mode checked,
      )

  -- `Authorize` of a policy that `NewPolicy` built decides a call by the mode of the rule with its tool
  -- name, or else by the default: it permits, it denies, or it leaves the decision to the approver, which
  -- is there to be asked; no other case arises.
  pub authorize-new_policy :
      (request : Request) (w : W)
      → Decides request w
          (mode_for request.call.name rules default_mode)
          approver
          (authorize p request w)
  unfolding authorize
  authorize-new_policy request w =
      let name = request.call.name in
      let (found, valid, checked, present, e) = new_policy-parts in
      let same_approver : p.approver ≡ approver = ap (λ (q : Policy W E). q.approver) e in
      rw (mode_of-policy name, same_approver)
        (authorize_mode-Decides request w (mode_for name rules default_mode) approver
          (mode_for-valid rules [] (is_ask default_mode) found name default_mode checked valid)
          (λ a. present (
            requires_ask rules [] (is_ask default_mode) found name default_mode checked (λ q. q)
              a)))

  -- A policy that `NewPolicy` built permits a call only if its rule, or else the default, allows it, or if
  -- it asks and the approver was asked and said yes.
  pub authorize-eq-ok :
      (request : Request) (w w' : W)
      → authorize p request w ≡ some (ok tt, w')
      → IsPermittedBy default_mode rules approver request w w'
  authorize-eq-ok request w w' h = go (authorize-new_policy request w)
    where
      go :
          Decides request w
            (mode_for request.call.name rules default_mode)
            approver
            (authorize p request w)
          → IsPermittedBy default_mode rules approver request w w'
      go (inl (m, r)) = inl m
      go (inr (inl (m, r))) = cc
      go (inr (inr (m, (approve, a, r)))) =
          inr (m, (approve, a, judge-eq-ok request (approve request w) w' (some_inner (sym r ∙ h))))
