-- ===== src/Mcp/Client/Listing/Laws.antt =====
-- What `ListTools` returns and what it does to the client.
use hot_take.Base.{
  Bool-cases, All, All-append, Outcome, ok, err, reject_if, >>=-eq-ok, map_err, reject_if-eq-ok,
  Text, codes, ◌==◌, ℕ, zero, suc, ◌+◌, ◌≤◌, ◌≡◌, refl, sym, ap, ◌∙◌, subst, inl, inr, not, ◌&&◌,
  List, [], ◌∷◌, ◌++◌, arith, ok-injective, Outcome-cases,
}
use hot_take.Base.Dict.{elem, IsDistinct, IsDistinct-concat}
use hot_take.Mcp.{ToolDefinition}
use hot_take.Mcp.Schema.{DefinitionError, validate_tool_definition, is_header_error}
use hot_take.Mcp.Schema.Laws.{IsOffered, validate_tool_definition-eq-ok}
use hot_take.Mcp.Client.{Client, State, Platform, list_tools_params}
use hot_take.Mcp.Client.Request.{request, metadata}
use hot_take.Mcp.Client.Listing.Index.{names_of, names_of-concat, IsIndex, tools_of-IsIndex}
use hot_take.Mcp.Client.Listing.{
  Error, undecodable, page_error, duplicate_tool, Codec, Listing, opening, is_complete,
  max_tool_pages, add_checked, add_tools, read_page, fetch_page, list_pages, list_tools,
}

module _ {E : Type 0} (codec : Codec E) where
  -- A listing so far: distinct names, and definitions that the client may offer.
  abbrev pub IsListing : Listing → Type 0
  IsListing x =
      (x.names ≡ names_of x.all) × IsDistinct x.names × All (IsOffered codec.json_valid) x.all

  add_checked-IsListing :
      (given : ToolDefinition) (x out : Listing)
      → IsListing x
      → add_checked codec given.name
          (validate_tool_definition codec.json_valid codec.decode given)
          x
        ≡ ok out
      → IsListing out
  unfolding add_checked
  add_checked-IsListing given x out l h =
      checked (validate_tool_definition codec.json_valid codec.decode given) refl h
    where
      checked :
          (o : Outcome DefinitionError ToolDefinition)
          → validate_tool_definition codec.json_valid codec.decode given ≡ o
          → add_checked codec given.name o x ≡ ok out
          → IsListing out
      checked (err e) v h = elim (Bool-cases (is_header_error e)) [
        | inl r ↦ subst IsListing (ok-injective (rw r at h)) l
        | inr r ↦ absurd (ground arith)
      ]
      checked (ok d) v h =
          let (_, new, h) =
            >>=-eq-ok (reject_if (elem d.name x.names) (duplicate_tool d.name)) _ h in
          let (names, distinct, offered) = l in
          let (_, o) = validate_tool_definition-eq-ok codec.json_valid codec.decode given d v in
          subst IsListing (ok-injective h) (
            ap (λ n. n ++ d.name ∷ []) names ∙ sym (names_of-concat x.all d),
            IsDistinct-concat d.name x.names distinct (reject_if-eq-ok _ _ new),
            All-append (IsOffered codec.json_valid) x.all (d ∷ []) offered (o, tt),
          )

  add_tools-IsListing :
      (definitions : List ToolDefinition) (x out : Listing)
      → IsListing x
      → add_tools codec definitions x ≡ ok out
      → IsListing out
  unfolding add_tools
  add_tools-IsListing [] x out l h = subst IsListing (ok-injective h) l
  add_tools-IsListing (d ∷ definitions) x out l h =
      let (added, first, h) =
        >>=-eq-ok
          (add_checked codec d.name (validate_tool_definition codec.json_valid codec.decode d) x) _
          h in
      add_tools-IsListing definitions added out (add_checked-IsListing d x added l first) h

  read_page-IsListing :
      (x out : Listing) (payload : Text)
      → IsListing x
      → read_page codec x payload ≡ ok out
      → IsListing out
  unfolding read_page
  read_page-IsListing x out payload l h =
      let (result, _, h) = >>=-eq-ok (map_err undecodable (codec.list_result payload)) _ h in
      let (_, _, h) = >>=-eq-ok (reject_if (not (is_complete result.result_type)) _) _ h in
      let (added, all_added, h) = >>=-eq-ok (add_tools codec result.tools x) _ h in
      let (_, _, h) =
        >>=-eq-ok
          (reject_if (not (result.next_cursor == []) && elem result.next_cursor added.seen_cursors)
            _)
          _ h in
      let l' = add_tools-IsListing result.tools x added l all_added in
      subst IsListing (ok-injective h) l'

module _ {W E : Type 0} (platform : Platform E) (codec : Codec E) (client : Client W E) where
  -- How a listing ends: with definitions that the client may offer, of distinct names, which are now its tools;
  -- or with an error, and the tools that it had.
  abbrev pub IsEnd : State W → Outcome (Error E) (List ToolDefinition) × State W → Type 0
  IsEnd s (ok out, s') =
      IsDistinct (names_of out) × All (IsOffered codec.json_valid) out × IsIndex s'.tools out
  IsEnd s (err e, s') = s'.tools ≡ s.tools

  fetch_page-counts :
      (x : Listing) (s : State W)
      → (((fetch_page platform codec client x s).1).tools ≡ s.tools)
        × (((fetch_page platform codec client x s).1).request_count ≡ s.request_count + 1)
  unfolding fetch_page request
  fetch_page-counts x s = (refl, refl)

  fetch_page-IsListing :
      (x out : Listing) (s : State W)
      → IsListing codec x
      → (fetch_page platform codec client x s).0 ≡ ok out
      → IsListing codec out
  unfolding fetch_page
  fetch_page-IsListing x out s l h =
      let (payload, _, h) =
        >>=-eq-ok
          (map_err page_error (
            (request platform client (codes "tools/list") []
              (list_tools_params (metadata platform client) x.cursor) [] s).0))
          (read_page codec x) h in
      read_page-IsListing codec x out payload l h

  IsEnd-from :
      (s s' : State W) (r : Outcome (Error E) (List ToolDefinition) × State W)
      → s'.tools ≡ s.tools
      → IsEnd s' r
      → IsEnd s r
  IsEnd-from s s' (ok out, s'') same h = h
  IsEnd-from s s' (err e, s'') same h = h ∙ same

  list_pages-IsEnd :
      (left : ℕ) (x : Listing) (s : State W)
      → IsListing codec x
      → IsEnd s (list_pages platform codec client left x s)
        × (((list_pages platform codec client left x s).1).request_count ≤ s.request_count + left)
  unfolding list_pages
  list_pages-IsEnd zero x s l = (refl, omega arith)
  list_pages-IsEnd (suc left) x s l =
      let (tools, count) = fetch_page-counts x s in
      let s' = (fetch_page platform codec client x s).1 in
      elim (Outcome-cases ((fetch_page platform codec client x s).0)) [
        | inr (e, h) ↦ rw (h, list_pages) (tools, omega arith)
        | inl (x', h) ↦ elim (Bool-cases (x'.cursor == [])) [
          | inl last ↦
              (let (names, distinct, offered) = fetch_page-IsListing x x' s l h in
                let distinct' = subst IsDistinct names distinct in
                rw (h, last, list_pages)
                  ((distinct', offered, tools_of-IsIndex x'.all distinct'), omega arith))
          | inr more ↦
              (let (ends, spent) = list_pages-IsEnd left x' s' (fetch_page-IsListing x x' s l h) in
                rw (h, more, list_pages)
                  (
                    IsEnd-from s s' (list_pages platform codec client left x' s') tools ends,
                    omega arith,
                  ))
        ]
      ]

  -- `ListTools` either returns definitions of distinct names, each with a valid name, a description, a valid schema
  -- and header names that are distinct whatever their case, and then these are the tools that the client knows;
  -- or it fails and the client keeps the tools that it knew. It makes at most a hundred requests.
  pub list_tools-IsEnd :
      (s : State W)
      → IsEnd s (list_tools platform codec client s)
        × (((list_tools platform codec client s).1).request_count
            ≤ s.request_count + max_tool_pages)
  unfolding list_tools elem
  list_tools-IsEnd s = list_pages-IsEnd max_tool_pages opening s (refl, tt, tt)
