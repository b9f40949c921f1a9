-- ===== src/Command/Terminal/Laws.antt =====
-- Calls that a project's policy asks about at the terminal.
use hot_take.Base.{
  Outcome, ok, ◌≡◌, sym, ap, ◌∙◌, inl, inr, Bool, true, Option, some, List, map_err-eq-ok,
}
use hot_take.Permission.{
  Request, Mode, allow, ask, deny, Rule, Policy, Approver, new_policy, authorize,
}
use hot_take.Permission.Laws.{mode_for, authorize-eq-ok}
use hot_take.Approval.{Terminal, State, Error, approve}
use hot_take.Approval.Laws.{IsApproval, approve-eq-ok}
use hot_take.Command.Terminal.{Stoppable, state_at, terminal_approver}

module _ {W E F : Type 0} (t : Terminal W E) (wrap : Error E → F) where
  -- The approver says yes only to a prompt for this call, answered with yes, and if it was not stopped.
  pub terminal_approver-eq-ok :
      (request : Request) (w w' : Stoppable W E)
      → terminal_approver t wrap request w ≡ (ok true, w')
      → (s : State W E) × IsApproval t request (state_at t wrap w) s
        × (w'.outer ≡ (s.world, s.stopped))
  unfolding terminal_approver
  terminal_approver-eq-ok request w w' h =
      let r = approve t request (state_at t wrap w) in
      (
        r.1,
        approve-eq-ok t request (state_at t wrap w) (r.1)
            (paired r (map_err-eq-ok wrap (r.0) (ap (λ p. p.0) h))),
        ap (λ p. p.1.outer) (sym h),
      )
    where
      paired : (r : Outcome (Error E) Bool × State W E) {b : Bool} → r.0 ≡ ok b → r ≡ (ok b, r.1)
      paired (x, y) e = ap (λ z. (z, y)) e

  -- A call whose rule asks is permitted only if the terminal's user was asked about this call and said yes.
  pub authorize-terminal :
      (rules : List Rule) (p : Policy (Stoppable W E) F) (request : Request) (w w' : Stoppable W E)
      → new_policy deny rules (some (terminal_approver t wrap)) ≡ ok p
      → mode_for request.call.name rules deny ≡ ask
      → authorize p request w ≡ some (ok tt, w')
      → (s : State W E) × IsApproval t request (state_at t wrap w) s
        × (w'.outer ≡ (s.world, s.stopped))
  authorize-terminal rules p request w w' built asks h =
      elim (authorize-eq-ok deny rules (some (terminal_approver t wrap)) built request w w' h) [
        | inl allowed ↦ absurd (clash (sym allowed ∙ asks))
        | inr (_, (approver, e, said)) ↦
            terminal_approver-eq-ok request w w' (ap (λ a. a request w) (some-injective e) ∙ said)
      ]
    where
      clash : ◌≡◌ {A = Mode} allow ask → ⊥
      clash e = cc

      some-injective :
          {a b : Approver (Stoppable W E) F}
          → ◌≡◌ {A = Option (Approver (Stoppable W E) F)} (some a) (some b)
          → a ≡ b
      some-injective e = cc
