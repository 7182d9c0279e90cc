-- ===== src/Fbft/Dispatch.antt =====
-- fbft-core.go: ProcessEvent and handleClient, with SendEvent of consensus/utils/events.go. A loop that
-- does not end within `fuel` turns gives `none`.
pub mod Steps
mod Examples
use galaxy.Base.{
  ℕ, zero, suc, Bool, false, List, [], ◌∷◌, ◌++◌, Option, none, some, ◌==◌, if◌then◌else◌,
}
use galaxy.Base.Outcome.{Outcome, returns, panics, ◌>>=◌, deref}
use galaxy.External.{Env}
use galaxy.Messages.{
  Request, Proposal, Response, Commit, SyncBlockReq, SyncBlockResp, ViewChangeReq, OnlineRequest,
  OnlineResponse, Message, ReadResult, ok, err, request_message, proposal_message, response_message,
  commit_message, sync_block_req_message, sync_block_resp_message, view_change_req_message,
  online_request_message, online_response_message,
}
use galaxy.Fbft.State.{Core, Effect}
use galaxy.Fbft.Leader.{receive_request, receive_response}
use galaxy.Fbft.Replica.{receive_proposal, receive_commit}
use galaxy.Fbft.Sync.{receive_sync_block_request, receive_sync_block_response}
use galaxy.Fbft.ViewChanging.{receive_change_view_req}
use galaxy.Fbft.Joining.{receive_online_request, receive_online_response}

-- utils.Event: what a message is about, or anything else, such as an error.
pub data Incoming : Type 0 where
  request : Request → Incoming
  proposal : Proposal → Incoming
  response : Response → Incoming
  commit : Commit → Incoming
  sync_block_req : SyncBlockReq → Incoming
  sync_block_resp : SyncBlockResp → Incoming
  view_change_req : ViewChangeReq → Incoming
  online_request : OnlineRequest → Incoming
  online_response : OnlineResponse → Incoming
  other : Incoming

-- What a node has after an event: the store, its core, and what it did.
pub record Turn (World : Type 0) : Type 0 where
  pub world : World
  pub core : Core
  pub effects : List Effect

module _ {World : Type 0} (env : Env World) where
  abbrev pub turned : World → Core × List Effect → Option (Turn World)
  turned w out = some (record { world = w; core = out.0; effects = out.1 })

  -- ProcessEvent without its result.
  unfoldable pub process_event : ℕ → World → Core → Incoming → Outcome (Option (Turn World))
  process_event fuel w core (request et) = returns (turned w (receive_request env w core et))
  process_event fuel w core (proposal et) = do
    out ← receive_proposal env w core et
    returns (turned w out)
  process_event fuel w core (response et) = returns (turned w (receive_response env core et))
  process_event fuel w core (commit et) = returns (turned w (receive_commit env core et))
  process_event fuel w core (sync_block_req et) = do
    sent ← receive_sync_block_request env fuel w et
    returns (elim sent [ none ↦ none | some effects ↦ turned w (core, effects) ])
  process_event fuel w core (sync_block_resp et) = do
    w' ← receive_sync_block_response env w core et
    returns (turned w' (core, []))
  process_event fuel w core (view_change_req et) = do
    out ← receive_change_view_req env core et
    returns (turned w out)
  process_event fuel w core (online_request et) = do
    out ← receive_online_request env w core et
    returns (turned w out)
  process_event fuel w core (online_response et) = do
    out ← receive_online_response env w core et
    returns (turned w out)
  process_event fuel w core other = returns (turned w (core, []))

  -- The result of ProcessEvent, an event in its turn: an error for an event that it does not know.
  unfoldable pub next_event : Incoming → Option Incoming
  next_event other = some other
  next_event _ = none

  -- SendEvent, in at most `turns` turns of its loop.
  unfoldable pub send_event : ℕ → ℕ → World → Core → Incoming → Outcome (Option (Turn World))
  send_event zero fuel w core event = returns none
  send_event (suc turns) fuel w core event = do
    out ← process_event fuel w core event
    elim out [
      | none ↦ returns none
      | some turn ↦ elim (next_event event) [
        | none ↦ returns (some turn)
        | some next ↦ do
          rest ← send_event turns fuel turn.world turn.core next
          returns (elim rest [
            | none ↦ none
            | some turn' ↦ some (record turn' { effects = turn.effects ++ turn'.effects })
          ])
      ]
    ]

  -- The event in a payload: a nil pointer is read, for its log line if for nothing else.
  unfoldable pub incoming : Message → Outcome Incoming
  incoming msg = elim msg.payload [
    | request_message p ↦ do et ← deref p; returns (request et)
    | proposal_message p ↦ do et ← deref p; returns (proposal et)
    | response_message p ↦ do et ← deref p; returns (response et)
    | commit_message p ↦ do et ← deref p; returns (commit et)
    | sync_block_req_message p ↦ do et ← deref p; returns (sync_block_req et)
    | sync_block_resp_message p ↦ do et ← deref p; returns (sync_block_resp et)
    | view_change_req_message p ↦ do et ← deref p; returns (view_change_req et)
    | online_request_message p ↦ do et ← deref p; returns (online_request et)
    | online_response_message p ↦ do et ← deref p; returns (online_response et)
  ]

  -- The responses that handleClient drops.
  from_master : Core → Incoming → Bool
  from_master core (response et) = et.account.extension.id == core.nodes.master.extension.id
  from_master core _ = false

  -- handleClient, on what ReadMessage gave. ProcessEvent knows every event of a message.
  unfoldable pub handle_client : ℕ → World → Core → ReadResult → Outcome (Option (Turn World))
  unfolding from_master
  handle_client fuel w core (err e) = returns (turned w (core, []))
  handle_client fuel w core (ok msg) = do
    event ← incoming msg
    (if from_master core event
        then returns (turned w (core, []))
        else send_event 1 fuel w core event)
