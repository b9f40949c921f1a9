-- ===== src/Mcp/Client/Calling/Laws.antt =====
-- Which calls `CallTool` makes, and what it returns.
use hot_take.Base.{
  Option-cases, Outcome, ok, err, >>=-eq-ok, map_err, Text, codes, ◌+◌, ◌≡◌, refl, ap, ◌∙◌, subst,
  ◌⊎◌, inl, inr, none, some, ok-injective, map_err-eq-ok,
}
use hot_take.Base.Dict.{lookup}
use hot_take.Http.{Header}
use hot_take.Mcp.{ToolDefinition}
use hot_take.Mcp.Values.{ValueError, validate_arguments, call_headers}
use hot_take.Mcp.Client
use hot_take.Mcp.Client.{Client, State, Platform, call_tool_params}
use hot_take.Mcp.Client.Request.{metadata, request}
use hot_take.Mcp.Client.Calling.Results.{not_ok, IsComplete, IsReturned, read_result-eq-ok}
use hot_take.Mcp.Client.Calling.{
  Error, not_advertised, malformed_arguments, headers_failed, call_failed, Codec, tool, read_result,
  prepare_call, perform_call, call_tool,
}

both : {A B : Type 0} (r : A × B) {a : A} {b : B} → r.0 ≡ a → r.1 ≡ b → r ≡ (a, b)
both (x, y) e f = rw (e, f) refl

module _ {W E : Type 0} (platform : Platform E) (codec : Codec E) (client : Client W E) where
  -- A call that the client may make: of a tool that was advertised, with arguments that are one JSON object, and
  -- with the headers that the tool's bindings make of them.
  abbrev pub IsPrepared : Text → Text → State W → Text → Header → Type 0
  IsPrepared name given s arguments headers =
      (definition : ToolDefinition) × (lookup name s.tools ≡ some definition)
      × (validate_arguments codec.decode given ≡ ok arguments)
      × (call_headers platform.canonical platform.base64 codec.decode definition arguments
          ≡ ok headers)

  -- The request of a call
  abbrev pub request_call : Text → Text → Header → State W → Outcome (Client.Error E) Text × State W
  request_call name arguments headers s =
      request platform client (codes "tools/call") name
        (call_tool_params (metadata platform client) name arguments) headers s

  -- A call that the client may not make, with its error: the tool was not advertised, the arguments are not one JSON
  -- object, or a header cannot be made of them.
  abbrev pub IsRefused : Text → Text → State W → Error E → Type 0
  IsRefused name given s e =
      ((lookup name s.tools ≡ none) × (e ≡ not_advertised name))
      ⊎ ((definition : ToolDefinition) × (v : ValueError) × (lookup name s.tools ≡ some definition)
          × (validate_arguments codec.decode given ≡ err v)
          × (e ≡ malformed_arguments v))
      ⊎ ((definition : ToolDefinition) × (arguments : Text) × (v : ValueError) × (lookup name
              s.tools
            ≡ some definition)
          × (validate_arguments codec.decode given ≡ ok arguments)
          × (call_headers platform.canonical platform.base64 codec.decode definition arguments
              ≡ err v)
          × (e ≡ headers_failed v))

  -- `CallTool` reports the error of a call that it may not make, and does nothing else; otherwise it makes one request,
  -- and returns what its answer says.
  abbrev pub IsCall : Text → Text → State W → Outcome (Error E) Text × State W → Type 0
  IsCall name given s r =
      ((e : Error E) × IsRefused name given s e × (r ≡ (err e, s)))
      ⊎ ((arguments : Text) × (headers : Header) × IsPrepared name given s arguments headers
          × IsReturned codec (request_call name arguments headers s).0 r.0
          × (r.1 ≡ (request_call name arguments headers s).1)
          × (r.1.request_count ≡ s.request_count + 1))

  tool-eq-ok :
      (name : Text) (s : State W) (definition : ToolDefinition)
      → ◌≡◌ {A = Outcome (Error E) ToolDefinition} (tool name s) (ok definition)
      → lookup name s.tools ≡ some definition
  unfolding tool
  tool-eq-ok name s definition h = elim (Option-cases (lookup name s.tools)) [
    | inl e ↦ absurd (not_ok (rw (e, tool) at h))
    | inr (d, e) ↦ e ∙ ap some (ok-injective (rw (e, tool) at h))
  ]

  prepare_call-eq-ok :
      (name given : Text) (s : State W) (prepared : Text × Header)
      → prepare_call platform codec client name given s ≡ ok prepared
      → IsPrepared name given s prepared.0 prepared.1
  unfolding prepare_call
  prepare_call-eq-ok name given s prepared h =
      let (definition, found, h) = >>=-eq-ok (tool name s) _ h in
      let (arguments, valid, h) =
        >>=-eq-ok (map_err malformed_arguments (validate_arguments codec.decode given)) _ h in
      let (headers, made, h) =
        >>=-eq-ok
          (map_err headers_failed
            (call_headers platform.canonical platform.base64 codec.decode definition arguments))
          _ h in
      subst (λ (p : Text × Header). IsPrepared name given s p.0 p.1) (ok-injective h)
        (
          definition,
          tool-eq-ok name s definition found,
          map_err-eq-ok malformed_arguments _ valid,
          map_err-eq-ok headers_failed _ made,
        )

  perform_call-eq-ok :
      (name given payload : Text) (s s' : State W) (o : Outcome (Error E) (Text × Header))
      → prepare_call platform codec client name given s ≡ o
      → perform_call platform codec client name o s ≡ (ok payload, s')
      → (arguments : Text) × (headers : Header) × IsPrepared name given s arguments headers
        × (request_call name arguments headers s ≡ (ok payload, s'))
        × IsComplete (codec.result_type payload)
  unfolding perform_call
  perform_call-eq-ok name given payload s s' (err e) p h = absurd (not_ok (ap (λ r. r.0) h))
  perform_call-eq-ok name given payload s s' (ok (arguments, headers)) p h =
      let r = request_call name arguments headers s in
      let (answer, answered, read) =
        >>=-eq-ok (map_err call_failed (r.0)) (read_result codec name) (ap (λ r. r.0) h) in
      let (same, complete) = read_result-eq-ok codec name answer payload read in
      (
        arguments,
        headers,
        prepare_call-eq-ok name given s (arguments, headers) p,
        both r (map_err-eq-ok call_failed _ answered ∙ ap ok same) (ap (λ r. r.1) h),
        subst (λ a. IsComplete (codec.result_type a)) same complete,
      )

  -- A result of `CallTool` is the answer to the one request that it made, for a tool that was advertised, with the
  -- arguments given and the headers that the tool's bindings make of them; its type says that it is complete.
  pub call_tool-eq-ok :
      (name given payload : Text) (s s' : State W)
      → call_tool platform codec client name given s ≡ (ok payload, s')
      → (arguments : Text) × (headers : Header) × IsPrepared name given s arguments headers
        × (request_call name arguments headers s ≡ (ok payload, s'))
        × IsComplete (codec.result_type payload)
  unfolding call_tool
  call_tool-eq-ok name given payload s s' h =
      perform_call-eq-ok name given payload s s' (prepare_call platform codec client name given s)
        refl h
