-- ===== src/Approval/Laws.antt =====
-- What the approver at a terminal approves, and that a cancelled wait retires it.
use hot_take.Base.{
  Outcome, ok, err, Text, ◌≡◌, refl, sym, ap, ◌∙◌, subst, ◌≢◌, ◌⊎◌, inl, inr, Bool, true, Option,
  none, List, [], ◌∷◌,
}
use hot_take.Permission.{Request}
use hot_take.Approval.{
  cancelled, line, ReadError, Terminal, Error, Effect, prompted, waited, State, prompt, wait,
  approve, approve_all,
}
use hot_take.Approval.Rules.{
  Assertion, After, Leads, bind-Leads, check-Leads, check_stopped-Leads, write_prompt-Leads,
  judge_line-Leads, IsYes, weaken-Leads, wait-Leads,
}

-- No wait was cancelled.
abbrev pub IsUnbroken : {E : Type 0} → List (Effect E) → Type 0
IsUnbroken [] = Unit
IsUnbroken (waited (cancelled e) ∷ tr) = ⊥
IsUnbroken (waited (line text error) ∷ tr) = IsUnbroken tr
IsUnbroken (prompted text result ∷ tr) = IsUnbroken tr

-- No wait was cancelled but the last thing done.
abbrev pub IsRetiredLast : {E : Type 0} → List (Effect E) → Type 0
IsRetiredLast (waited (cancelled e) ∷ tr) = IsUnbroken tr
IsRetiredLast tr = IsUnbroken tr

module _ {W E : Type 0} (t : Terminal W E) where
  abbrev Open : Assertion E
  Open st tr = (st ≡ none) × IsUnbroken tr

  abbrev Retired : Assertion E
  Retired st tr = (st ≢ none) × IsRetiredLast tr

  -- What holds between approvals: the approver is at work, or retired by its last wait.
  abbrev Orderly : Assertion E
  Orderly st tr = Open st tr ⊎ Retired st tr

  Orderly-Open : (st : Option E) (tr : List (Effect E)) → Orderly st tr × (st ≡ none) → Open st tr
  Orderly-Open st tr (inl h, e) = h
  Orderly-Open st tr (inr h, e) = absurd (h.0 e)

  wait-Orderly : Leads Open (wait t) (λ _. Orderly) Orderly
  wait-Orderly =
      wait-Leads {Q = λ text error. Open} t (λ text error st tr h. h) (λ e st tr h. inr (cc, h.1))
        (λ text error.
          weaken-Leads (λ b st tr h. inl h.0) (judge_line-Leads t text error (λ st tr h. inl h)))

  approve-Orderly : (request : Request) → Leads Orderly (approve t request) (λ _. Orderly) Orderly
  unfolding approve
  approve-Orderly request = bind-Leads (check-Leads t t.acquire (λ st tr h. h)) λ _.
      bind-Leads (check-Leads t t.context_err (λ st tr h. h)) λ _.
        bind-Leads (check_stopped-Leads t (λ st tr h. h)) λ _.
          bind-Leads
            (write_prompt-Leads {Q = Open} t request (λ st tr u h. Orderly-Open st tr h)
              (λ st tr h. inl h))
            λ _. wait-Orderly

  after-either :
      {A : Type 0} (P : Assertion E) (o : Outcome (Error E) A × State W E)
      → After (λ _. P) P o
      → P o.1.stopped o.1.trace
  after-either P (ok a, s) h = h
  after-either P (err e, s) h = h

  approve_all-Orderly :
      (requests : List Request) (s : State W E)
      → Orderly s.stopped s.trace
      → Orderly (approve_all t requests s).1.stopped (approve_all t requests s).1.trace
  unfolding approve_all
  approve_all-Orderly [] s h = h
  approve_all-Orderly (request ∷ requests) s h =
      approve_all-Orderly requests (approve t request s).1
        (after-either Orderly (approve t request s) ((approve-Orderly request).at s h))

  either-IsRetiredLast : (st : Option E) (tr : List (Effect E)) → Orderly st tr → IsRetiredLast tr
  either-IsRetiredLast st tr (inr h) = h.1
  either-IsRetiredLast st [] (inl h) = tt
  either-IsRetiredLast st (waited (cancelled e) ∷ tr) (inl h) = absurd h.1
  either-IsRetiredLast st (waited (line text error) ∷ tr) (inl h) = h.1
  either-IsRetiredLast st (prompted text u ∷ tr) (inl h) = h.1

  -- A new approver that is asked any number of times writes no prompt and reads nothing behind a wait that
  -- was cancelled: such a wait is the last thing that it does at the terminal.
  pub approve_all-IsRetiredLast :
      (requests : List Request) (s : State W E)
      → s.stopped ≡ none
      → s.trace ≡ []
      → IsRetiredLast (approve_all t requests s).1.trace
  approve_all-IsRetiredLast requests s fresh empty =
      either-IsRetiredLast (approve_all t requests s).1.stopped (approve_all t requests s).1.trace
        (approve_all-Orderly requests s (inl (fresh, subst IsUnbroken (sym empty) tt)))

  -- An approval: the approver was at work, the last thing it did was to prompt for the request and to read
  -- a line, and the line says yes.
  abbrev pub IsApproval : Request → State W E → State W E → Type 0
  IsApproval request s s' =
      (s.stopped ≡ none)
      × ((text : Text) × (error : Option (ReadError E)) × (u : Outcome E (Unit {0})) × (s'.trace
            ≡ waited (line text error) ∷ prompted (prompt request) u ∷ s.trace)
          × IsYes t text true)

  approve-Answer :
      (request : Request) (st₀ : Option E) (tr₀ : List (Effect E))
      → Leads
          (λ st tr. (st ≡ st₀) × (tr ≡ tr₀))
          (approve t request)
          (λ b st tr.
            (st₀ ≡ none)
            × ((text : Text) × (error : Option (ReadError E)) × (u : Outcome E (Unit {0})) × (tr
                  ≡ waited (line text error) ∷ prompted (prompt request) u ∷ tr₀)
                × IsYes t text b))
          (λ st tr. Unit)
  unfolding approve
  approve-Answer request st₀ tr₀ = bind-Leads (check-Leads t t.acquire (λ st tr h. tt)) λ _.
      bind-Leads (check-Leads t t.context_err (λ st tr h. tt)) λ _.
        bind-Leads (check_stopped-Leads t (λ st tr h. tt)) λ _.
          bind-Leads
            (write_prompt-Leads
              {Q = λ st tr.
                (st₀ ≡ none)
                × ((u : Outcome E (Unit {0})) × (tr ≡ prompted (prompt request) u ∷ tr₀))}
              t request
              (λ st tr u h. (sym h.0.0 ∙ h.1, (u, ap (λ l. prompted (prompt request) u ∷ l) h.0.1)))
              (λ st tr h. tt))
            λ _.
              wait-Leads
                {Q = λ text error st tr.
                  (st₀ ≡ none)
                  × ((u : Outcome E (Unit {0})) × (tr
                        ≡ waited (line text error) ∷ prompted (prompt request) u ∷ tr₀))}
                t
                (λ text error st tr h. (h.0, (h.1.0, ap (λ l. waited (line text error) ∷ l) h.1.1)))
                (λ e st tr h. tt)
                (λ text error.
                  weaken-Leads (λ b st tr h. (h.0.0, (text, error, h.0.1.0, h.0.1.1, h.1)))
                    (judge_line-Leads t text error (λ st tr h. tt)))

  -- The approver approves a request only if it was not stopped, and behind a prompt for this
  -- request a line was read that, trimmed and in lower case, is `y` or `yes`.
  pub approve-eq-ok :
      (request : Request) (s s' : State W E)
      → approve t request s ≡ (ok true, s')
      → IsApproval request s s'
  approve-eq-ok request s s' h =
      subst {A = Outcome (Error E) Bool × State W E}
        (After
          (λ b st tr.
            (s.stopped ≡ none)
            × ((text : Text) × (error : Option (ReadError E)) × (u : Outcome E (Unit {0})) × (tr
                  ≡ waited (line text error) ∷ prompted (prompt request) u ∷ s.trace)
                × IsYes t text b))
          (λ st tr. Unit))
        h ((approve-Answer request s.stopped s.trace).at s (refl, refl))
