-- ===== src/Agent/Authority.antt =====
-- Which tool calls a run executes: announced, authorised, and within the selected scope.
use hot_take.Base.{All, ok, Text, ◌≡◌, refl, true, List, [], ◌∷◌}
use hot_take.Base.Dict.{elem}
use hot_take.Tool.{Call}
use hot_take.Event.{Kind}
use hot_take.Agent.Effects.{Trace, published, generated, authorized, executed}
use hot_take.Agent.Loop.{Plan}
use hot_take.Agent.Protocol.{
  Phase, working, asking, permitted, performed, Follows, begin, reply, no_reply, announce_reply,
  answer, accept, announce_call, permit, refuse, execute, crash, announce_result, go_on,
  unpublished,
}

-- The latest entry is an event that announces this call.
abbrev pub IsAnnounced : {E : Type 0} → Call → Trace E → Type 0
IsAnnounced call (published event (ok u) ∷ t) =
    (event.kind ≡ Kind.tool_started) × (event.name ≡ call.name)
IsAnnounced call _ = ⊥

-- The latest entry is a permission for this very call, given behind its announcement.
abbrev pub IsPermitted : {E : Type 0} → Call → Trace E → Type 0
IsPermitted call (authorized request (ok u) ∷ t) = (request.call ≡ call) × IsAnnounced call t
IsPermitted call _ = ⊥

-- Every execution comes right behind a permission for it.
abbrev pub IsAuthorised : {E : Type 0} → Trace E → Type 0
IsAuthorised [] = Unit
IsAuthorised (executed call result ∷ t) = IsPermitted call t × IsAuthorised t
IsAuthorised (published event result ∷ t) = IsAuthorised t
IsAuthorised (generated request result ∷ t) = IsAuthorised t
IsAuthorised (authorized request result ∷ t) = IsAuthorised t

-- Every executed call has one of these names.
abbrev pub StaysWithin : {E : Type 0} → List Text → Trace E → Type 0
StaysWithin names [] = Unit
StaysWithin names (executed call result ∷ t) = (elem call.name names ≡ true) × StaysWithin names t
StaysWithin names (published event result ∷ t) = StaysWithin names t
StaysWithin names (generated request result ∷ t) = StaysWithin names t
StaysWithin names (authorized request result ∷ t) = StaysWithin names t

module _ (x : Plan) where
  abbrev pub InScope : Call → Type 0
  InScope call = elem call.name x.tool_names ≡ true

module _ {E : Type 0} (x : Plan) where
  -- What a phase promises about the calls that are left, and about the latest entries.
  abbrev Authority : Phase → Trace E → Type 0
  Authority (working n c calls) t = All (InScope x) calls
  Authority (asking n c call calls) t = IsAnnounced call t × InScope x call × All (InScope x) calls
  Authority (permitted n c call calls) t =
      IsPermitted call t × InScope x call × All (InScope x) calls
  Authority (performed n c call calls) t = All (InScope x) calls
  Authority _ t = Unit

  pub Follows-IsAuthorised :
      {t : Trace E} {p : Phase}
      → Follows x t p
      → IsAuthorised t × StaysWithin x.tool_names t × Authority p t
  Follows-IsAuthorised (begin t₀ t₁) = (tt, tt, tt)
  Follows-IsAuthorised (reply turn f h) = let (a, w, _) = Follows-IsAuthorised f in (a, w, tt)
  Follows-IsAuthorised (no_reply e f h) = let (a, w, _) = Follows-IsAuthorised f in (a, w, tt)
  Follows-IsAuthorised (announce_reply now f) = let (a, w, _) = Follows-IsAuthorised f in (a, w, tt)
  Follows-IsAuthorised (answer now f h k) = let (a, w, _) = Follows-IsAuthorised f in (a, w, tt)
  Follows-IsAuthorised (accept f h k l) = let (a, w, _) = Follows-IsAuthorised f in (a, w, l)
  Follows-IsAuthorised (announce_call now f h k) =
      let (a, w, s) = Follows-IsAuthorised f in (a, w, ((refl, refl), s.0, s.1))
  Follows-IsAuthorised (permit f) =
      let (a, w, s) = Follows-IsAuthorised f in (a, w, ((refl, s.0), s.1, s.2))
  Follows-IsAuthorised (refuse e f) = let (a, w, _) = Follows-IsAuthorised f in (a, w, tt)
  Follows-IsAuthorised (execute content f) =
      let (a, w, s) = Follows-IsAuthorised f in ((s.0, a), (s.1, w), s.2)
  Follows-IsAuthorised (crash e f) =
      let (a, w, s) = Follows-IsAuthorised f in ((s.0, a), (s.1, w), tt)
  Follows-IsAuthorised (announce_result now f) = Follows-IsAuthorised f
  Follows-IsAuthorised (go_on f) = let (a, w, _) = Follows-IsAuthorised f in (a, w, tt)
  Follows-IsAuthorised (unpublished event e f live) =
      let (a, w, _) = Follows-IsAuthorised f in (a, w, tt)
