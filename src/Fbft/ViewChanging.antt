-- ===== src/Fbft/ViewChanging.antt =====
-- fbft-core.go, the change of view: receiveChangeViewReq, sendChangeViewReq, waitMasterTimeout.
pub mod Outcomes
pub mod Agreement
pub mod Contents
use galaxy.Base.{
  ℕ, Bool, true, false, List, [], ◌∷◌, ◌++◌, Option, none, some, leb, if◌then◌else◌, length, insert,
  ℕ_discrete,
}
use galaxy.Base.Words.{u8, sub8, add64}
use galaxy.Base.Outcome.{Outcome, returns, panics, ◌>>=◌, deref}
use galaxy.Account.{Account}
use galaxy.Utils.{get_account_with_min_id}
use galaxy.External.{Env}
use galaxy.Views.{
  ViewChange, ViewRequests, ViewRequestState, view_end, is_end, add_view_request, receive_all,
  set_current_view_num,
}
use galaxy.Messages.{ViewChangeReq, Message, view_change_req_message}
use galaxy.Fbft.State.{
  Core, NodesInfo, Effect, Event, stop_change_view_timer, broadcast, notify, encodes,
}
use galaxy.Fbft.Leader.{others}
use galaxy.Fbft.Replica.{with_master}

-- The number of votes that a request for a view needs: the uint8 difference wraps.
unfoldable pub votes_needed : Core → ℕ
votes_needed core = sub8 (u8 (length core.nodes.peers)) core.tolerance

-- The votes of one request: none are taken once the vote has ended.
unfoldable pub vote : ViewRequests → List Account → ViewRequests × ViewRequestState
vote r nodes = if is_end r.state then (r, r.state) else receive_all r r.state nodes

-- What is done through the pointer to the entry of a view.
with_requests : Core → ViewChange → ℕ → ViewRequests → Core
with_requests core vc view_num r = record core {
  view_change = record vc { view_requests = insert ℕ_discrete view_num r vc.view_requests };
}

-- The switch to the view that was agreed on.
switched : Core → ℕ → ViewRequests → Outcome Core
unfolding with_master
switched core view_num r = do
  master ← deref (get_account_with_min_id r.nodes)
  returns (
      with_master (record core { view_change = set_current_view_num core.view_change view_num })
        master)

-- waitMasterTimeout until it waits: `none` where another timer runs. It keeps the nodes.
unfoldable pub start_timer : Core → Option (Core × NodesInfo)
start_timer core =
    let timer = core.core_timer in
    if timer.is_running
    then none
    else some (record core { core_timer = record timer { is_running = true } }, core.nodes)

module _ {World : Type 0} (env : Env World) where
  abbrev pub view_change_for : Core → List Account → ℕ → Message
  view_change_for core nodes view_num = record {
    message_type = 7;
    payload = view_change_req_message (
        some (record {
          account = core.nodes.local;
          nodes = nodes;
          timestamp = env.now;
          view_num = view_num;
        }));
  }

  -- sendChangeViewReq
  unfoldable pub send_change_view_req : Core → List Account → ℕ → Outcome (List Effect)
  send_change_view_req core nodes new_view =
      let msg = view_change_for core nodes new_view in
      if encodes env msg then returns (broadcast (others core) msg ∷ []) else panics

  -- receiveChangeViewReq from the entry `r` on; `nodes` is still empty where it is sent.
  ballot : Core → ViewChange → ViewRequests → ViewChangeReq → Outcome (Core × List Effect)
  unfolding vote with_requests switched send_change_view_req
  ballot core vc r req =
      let (r', state) = vote r req.nodes in
      let core' = with_requests core vc req.view_num r' in
      if is_end state
      then (do
        sent ← send_change_view_req core' [] req.view_num
        core'' ← switched core' req.view_num r'
        returns (core'', sent ++ (stop_change_view_timer ∷ notify Event.master_change ∷ [])))
      else returns (core', [])

  -- receiveChangeViewReq
  unfoldable pub receive_change_view_req : Core → ViewChangeReq → Outcome (Core × List Effect)
  unfolding ballot votes_needed
  receive_change_view_req core req =
      if leb req.view_num core.view_change.current_view
      then returns (core, [])
      else let added = add_view_request core.view_change req.view_num (votes_needed core) in
        elim added.1 [
          | none ↦ returns (record core { view_change = added.0 }, [])
          | some r ↦ ballot core added.0 r req
        ]

  -- The rest of waitMasterTimeout, with the nodes of its start: the timer fires or is stopped.
  unfoldable pub end_timer : Core → NodesInfo → Bool → Core × List Effect
  end_timer core nodes fires =
      let timer = core.core_timer in
      let core' = record core { core_timer = record timer { is_running = false } } in
      let local = nodes.local in
      let msg : Message = record {
        message_type = 7;
        payload = view_change_req_message (
            some (record {
              account = local;
              nodes = local ∷ [];
              timestamp = env.now;
              view_num = add64 core.view_change.current_view 1;
            }));
      } in
      if fires
      then (if encodes env msg then (core', broadcast nodes.peers msg ∷ []) else (core', []))
      else (core', [])
