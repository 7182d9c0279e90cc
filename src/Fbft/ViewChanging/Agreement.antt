-- ===== src/Fbft/ViewChanging/Agreement.antt =====
-- When a request for a change of view changes the view, and to which master.
use galaxy.Base.{
  ℕ, ◌+◌, ◌≤◌, ◌<◌, ◌≡◌, refl, sym, ap, subst, ◌∙◌, ◌⊎◌, inl, inr, true, List, [], ◌∷◌, Option,
  some, arith, In, length, leb, Bool-cases,
}
use galaxy.Base.Outcome.{returns}
use galaxy.Account.{Account}
use galaxy.Utils.{get_account_with_min_id}
use galaxy.Utils.Choice.{IsLeast}
use galaxy.External.{Env}
use galaxy.Views.{
  ViewChange, ViewRequests, is_end, new_requests, add_view_request, set_current_view_num,
}
use galaxy.Fbft.Replica.{with_master}
use galaxy.Views.Window.{request_at, add_view_request-entry}
use galaxy.Views.Quorum.{IsValid, new_requests-IsValid}
use galaxy.Messages.{ViewChangeReq}
use galaxy.Fbft.State.{Core, Effect, Event, stop_change_view_timer, broadcast, notify, encodes}
use galaxy.Fbft.Leader.{others}
use galaxy.Fbft.ViewChanging.{
  votes_needed, vote, with_requests, switched, send_change_view_req, ballot,
  receive_change_view_req, view_change_for,
}
use galaxy.Fbft.ViewChanging.Outcomes.{
  Voting, vote-IsValid, Kept, Elected, is_end_iff, elected, FromEntry, fresh_empty, fresh_need,
}

module _ {World : Type 0} (env : Env World) where
  ballot_ended :
      (core : Core) (vc : ViewChange) (r : ViewRequests) (req : ViewChangeReq)
      → core.view_change.current_view < req.view_num
      → IsValid r
      → length r.nodes + length req.nodes < 256
      → ((request_at core.view_change req.view_num ≡ some r)
          ⊎ (r ≡ new_requests (votes_needed core)))
      → encodes env (view_change_for env core [] req.view_num) ≡ true
      → is_end (vote r req.nodes).1 ≡ true
      → (out : Core × List Effect) × (ballot env core vc r req ≡ returns out)
        × (Kept core out ⊎ Elected env core req out)
  unfolding ballot switched send_change_view_req with_requests with_master set_current_view_num
  ballot_ended core vc r req later valid small origin sends ended = (
    out,
    rw (ended, sends, master.1) refl,
    inr (record {
      later = later;
      view = refl;
      voters = r'.nodes;
      distinct = voted.0.distinct;
      needed = r.to_change;
      enough = subst (λ (n : ℕ). n ≤ length r'.nodes) voted.3 full.1;
      need_of = need origin;
      named = λ b i. named origin b (voted.2 b i);
      least = master.2;
      sent = refl;
    }),
  )
    where
      r' : ViewRequests
      r' = (vote r req.nodes).0

      voted :
          IsValid r'
          × ((vote r req.nodes).1 ≡ r'.state)
          × ((b : Account) → In b r'.nodes → In b r.nodes ⊎ In b req.nodes)
          × (r'.to_change ≡ r.to_change)
      voted = vote-IsValid r req.nodes valid small

      full : (0 < length r'.nodes) × (r'.to_change ≤ length r'.nodes)
      full = voted.0.ended (is_end_iff r'.state (subst (λ s. is_end s ≡ true) voted.1 ended))

      master : (m : Account) × (get_account_with_min_id r'.nodes ≡ some m) × IsLeast m r'.nodes
      master = elected r'.nodes full.0

      out : Core × List Effect
      out = (
        with_master
            (record (with_requests core vc req.view_num r') {
              view_change =
                  set_current_view_num (with_requests core vc req.view_num r').view_change
                    req.view_num;
            })
            master.0,
        broadcast (others core) (view_change_for env core [] req.view_num)
            ∷ stop_change_view_timer
            ∷ notify Event.master_change
            ∷ [],
      )

      need :
          (request_at core.view_change req.view_num ≡ some r)
            ⊎ (r ≡ new_requests (votes_needed core))
          → (r.to_change ≡ votes_needed core)
            ⊎ ((q : ViewRequests) × (request_at core.view_change req.view_num ≡ some q)
                × (r.to_change ≡ q.to_change))
      need (inl e) = inr (r, e, refl)
      need (inr e) = inl (ap (λ (q : ViewRequests). q.to_change) e ∙ fresh_need (votes_needed core))

      named :
          (request_at core.view_change req.view_num ≡ some r)
            ⊎ (r ≡ new_requests (votes_needed core))
          → (b : Account) → In b r.nodes ⊎ In b req.nodes
          → In b req.nodes
            ⊎ ((q : ViewRequests) × (request_at core.view_change req.view_num ≡ some q)
                × In b q.nodes)
      named o b (inr i) = inl i
      named (inl e) b (inl i) = inr (r, e, i)
      named (inr e) b (inl i) =
          absurd
            (fresh_empty (votes_needed core) b (subst (λ (q : ViewRequests). In b q.nodes) e i))

  ballot_outcome :
      (core : Core) (vc : ViewChange) (r : ViewRequests) (req : ViewChangeReq)
      → core.view_change.current_view < req.view_num
      → vc.current_view ≡ core.view_change.current_view
      → IsValid r
      → length r.nodes + length req.nodes < 256
      → ((request_at core.view_change req.view_num ≡ some r)
          ⊎ (r ≡ new_requests (votes_needed core)))
      → encodes env (view_change_for env core [] req.view_num) ≡ true
      → (out : Core × List Effect) × (ballot env core vc r req ≡ returns out)
        × (Kept core out ⊎ Elected env core req out)
  unfolding ballot switched send_change_view_req with_requests
  ballot_outcome core vc r req later same valid small origin sends =
      elim (Bool-cases (is_end (vote r req.nodes).1)) [
        | inr still_open ↦ (
          (with_requests core vc req.view_num (vote r req.nodes).0, []),
          rw still_open refl,
          inl (record { view = same; nodes = refl; silent = refl }),
        )
        | inl ended ↦ ballot_ended core vc r req later valid small origin sends ended
      ]

  -- A request whose view number is not later, or out of the window, is ignored; one that leaves its
  -- vote short changes neither view nor master and sends nothing. Otherwise the view becomes that of
  -- the request, a later one, and the master an account of least id among the voters: at least as many
  -- distinct accounts as the vote asks for, each named in this request or in earlier ones. The notice
  -- that goes out names no accounts. The call never panics. This is for votes in good order and short
  -- of 256 accounts, where the notice can be encoded.
  pub receive_change_view_req_agrees :
      (core : Core) (req : ViewChangeReq)
      → Voting core (length req.nodes)
      → encodes env (view_change_for env core [] req.view_num) ≡ true
      → (out : Core × List Effect) × (receive_change_view_req env core req ≡ returns out)
        × (Kept core out ⊎ Elected env core req out)
  unfolding receive_change_view_req new_requests
  receive_change_view_req_agrees core req voting sends =
      elim (Bool-cases (leb req.view_num core.view_change.current_view)) [
        | inl old ↦
            ((core, []), rw old refl, inl (record { view = refl; nodes = refl; silent = refl }))
        | inr new ↦
            rw new
              (elim (add_view_request-entry core.view_change req.view_num (votes_needed core)) [
                | inl (failed, same) ↦ (
                  (record core { view_change = added.0 }, []),
                  rw failed refl,
                  inl (record {
                    view = ap (λ (v : ViewChange). v.current_view) same;
                    nodes = refl;
                    silent = refl;
                  }),
                )
                | inr (r, taken, there, origin, others_kept, view, level) ↦ rw taken (
                    ballot_outcome core added.0 r req (ground (arith, new)) view (good r origin).0
                      (good r origin).1 (from r origin) sends)
              ])
      ]
    where
      added : ViewChange × Option ViewRequests
      added = add_view_request core.view_change req.view_num (votes_needed core)

      fresh_short : length (new_requests (votes_needed core)).nodes + length req.nodes < 256
      fresh_short = ground (arith, voting.short)

      good :
          (r : ViewRequests)
          → FromEntry core req r
          → IsValid r × (length r.nodes + length req.nodes < 256)
      good r (inl e) = voting.votes req.view_num r e
      good r (inr (absent, e)) =
          subst (λ (x : ViewRequests). IsValid x × (length x.nodes + length req.nodes < 256))
            (sym e) (new_requests-IsValid (votes_needed core), fresh_short)

      from :
          (r : ViewRequests)
          → FromEntry core req r
          → (request_at core.view_change req.view_num ≡ some r)
            ⊎ (r ≡ new_requests (votes_needed core))
      from r (inl e) = inl e
      from r (inr (absent, e)) = inr e
