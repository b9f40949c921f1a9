-- ===== src/Command/Terminal.antt =====
-- cmd/hot-take/main.go: the approver at the terminal, which projectTools gives to the policy.
pub mod Laws
use hot_take.Base.{map_err, Option, []}
use hot_take.Permission.{Approver}
use hot_take.Approval.{Terminal, State, Error, approve}
use hot_take.Command.{World}

-- The approver's field `stopped` lies in the world beside the rest.
abbrev pub Stoppable : Type 0 → Type 0 → Type 0
Stoppable W E = World (W × Option E)

module _ {W E F : Type 0} (t : Terminal W E) (wrap : Error E → F) where
  abbrev pub state_at : Stoppable W E → State W E
  state_at w = record { world = w.outer.0; stopped = w.outer.1; trace = [] }

  unfoldable pub terminal_approver : Approver (Stoppable W E) F
  unfolding approve
  terminal_approver request w =
      let (answer, s) = approve t request (state_at w) in
      (map_err wrap answer, record w { outer = (s.world, s.stopped) })
