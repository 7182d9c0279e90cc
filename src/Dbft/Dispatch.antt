-- ===== src/Dbft/Dispatch.antt =====
-- dbft-core.go: ProcessEvent and handleClient, which reads one message of a connection. Where the loop of
-- receiveSyncBlockReq does not end within `fuel` turns the result is `none`.
pub mod Online
use galaxy.Base.{ℕ, Bool, true, false, List, [], Option, none, some, ite, leb, ◌==◌, if◌then◌else◌}
use galaxy.Base.Outcome.{Outcome, returns, panics, ◌>>=◌, deref}
use galaxy.Account.{Account-discrete}
use galaxy.External.{Env}
use galaxy.Messages.{
  Request, Proposal, Response, Commit, SyncBlockReq, SyncBlockResp, ViewChangeReq, Message,
  ReadResult, ok, err, request_message, proposal_message, response_message, commit_message,
  sync_block_req_message, sync_block_resp_message, view_change_req_message,
}
use galaxy.Bft.State.{Action, leads}
use galaxy.Dbft.State.{DbftCore, stop_timer}
use galaxy.Dbft.Handlers.{receive_request, receive_proposal, receive_response, receive_commit}
use galaxy.Dbft.Blocks.{receive_sync_block_req, receive_sync_block_resp}
use galaxy.Dbft.ChangingView.{receive_change_view_req}

-- The events that ProcessEvent knows; a request may be a nil pointer.
pub data DbftEvent : Type 0 where
  request : Option Request → DbftEvent
  proposal : Proposal → DbftEvent
  response : Response → DbftEvent
  commit : Commit → DbftEvent
  sync_block_req : SyncBlockReq → DbftEvent
  sync_block_resp : SyncBlockResp → DbftEvent
  view_change_req : ViewChangeReq → DbftEvent

-- What a node has after an event.
pub record DbftTurn (World : Type 0) : Type 0 where
  pub world : World
  pub core : DbftCore
  pub effects : List Action

module _ {World : Type 0} (env : Env World) where
  abbrev pub turned : World → DbftCore × List Action → Option (DbftTurn World)
  turned w out = some (record { world = w; core = out.0; effects = out.1 })

  -- ProcessEvent: only the master reads a request.
  unfoldable pub process_event :
      ℕ → World → DbftCore → DbftEvent → Outcome (Option (DbftTurn World))
  process_event fuel w core (request none) = do
    core' ← stop_timer core
    (if leads core'.base then panics else returns (turned w (core', [])))
  process_event fuel w core (request (some et)) = do
    out ← receive_request env w core et
    returns (turned w out)
  process_event fuel w core (proposal et) = do
    out ← receive_proposal env w core et
    returns (turned w out)
  process_event fuel w core (response et) = returns (turned w (receive_response env core et))
  process_event fuel w core (commit et) =
      let (w', core', effects) = receive_commit env w core et in
      returns (turned w' (core', effects))
  process_event fuel w core (sync_block_req et) = do
    sent ← receive_sync_block_req env fuel w et
    returns (elim sent [ none ↦ none | some effects ↦ turned w (core, effects) ])
  process_event fuel w core (sync_block_resp et) =
      returns (turned (receive_sync_block_resp env w et.blocks) (core, []))
  process_event fuel w core (view_change_req et) = do
    out ← receive_change_view_req env core et
    returns (turned w out)

  -- What handleClient makes of a message: an event, or none where it returns. The nil pointer of any
  -- message but a request is read, for its log line if for nothing else.
  unfoldable pub incoming : DbftCore → Message → Outcome (Option DbftEvent)
  incoming core msg = elim msg.payload [
    | request_message p ↦ returns (some (request p))
    | proposal_message p ↦ do
      et ← deref p
      returns (ite (Account-discrete et.account core.base.master) (some (proposal et)) none)
    | response_message p ↦ do
      et ← deref p
      returns (
          if et.account.extension.id == core.base.master.extension.id
          then none
          else some (response et))
    | commit_message p ↦ do et ← deref p; returns (some (commit et))
    | sync_block_req_message p ↦ do et ← deref p; returns (some (sync_block_req et))
    | sync_block_resp_message p ↦ do et ← deref p; returns (some (sync_block_resp et))
    | view_change_req_message p ↦ do
      et ← deref p
      returns (if leb et.view_num core.views.view_num then none else some (view_change_req et))
    | _ ↦ returns none
  ]

  -- handleClient on what ReadMessage gave.
  unfoldable pub handle_client :
      ℕ → World → DbftCore → ReadResult → Outcome (Option (DbftTurn World))
  handle_client fuel w core (err e) = returns (turned w (core, []))
  handle_client fuel w core (ok msg) = do
    what ← incoming core msg
    elim what [
      | none ↦ returns (turned w (core, []))
      | some event ↦ process_event fuel w core event
    ]
