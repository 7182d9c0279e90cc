-- ===== src/Bft/Dispatch.antt =====
-- bft-core.go: ProcessEvent and handleConnection, which serves one connection after another and ends
-- on the first that it cannot read.
pub mod Serving
use galaxy.Base.{
  ℕ, Bool, true, false, not, List, [], ◌∷◌, ◌++◌, Option, none, some, ite, ◌==◌, if◌then◌else◌,
}
use galaxy.Base.Outcome.{Outcome, returns, panics, ◌>>=◌, deref}
use galaxy.Account.{Account, Account-discrete}
use galaxy.External.{Env}
use galaxy.Messages.{
  Request, Proposal, Response, Commit, Message, ReadResult, ok, err, request_message,
  proposal_message, response_message, commit_message,
}
use galaxy.Bft.State.{BftCore, Action, leads}
use galaxy.Bft.Rounds.{receive_request, receive_response}
use galaxy.Bft.Commits.{receive_proposal, receive_commit}

-- The events that ProcessEvent knows; a request may be a nil pointer.
pub data BftEvent : Type 0 where
  request : Option Request → BftEvent
  proposal : Proposal → BftEvent
  response : Response → BftEvent
  commit : Commit → BftEvent

-- What a node has after an event.
pub record BftTurn (World : Type 0) : Type 0 where
  pub world : World
  pub core : BftCore
  pub effects : List Action

-- What handleConnection makes of a message: an event, no event, or its end.
pub data Reading : Type 0 where
  event : BftEvent → Reading
  skipped stopped : Reading

module _ {World : Type 0} (env : Env World) where
  abbrev pub turned : World → BftCore × List Action → BftTurn World
  turned w out = record { world = w; core = out.0; effects = out.1 }

  -- ProcessEvent: a nil request is read by the master only.
  unfoldable pub process_event : World → BftCore → BftEvent → Outcome (BftTurn World)
  process_event w core (request none) = if leads core then panics else returns (turned w (core, []))
  process_event w core (request (some et)) = returns (turned w (receive_request env w core et))
  process_event w core (proposal et) = returns (turned w (receive_proposal env w core et))
  process_event w core (response et) = returns (turned w (receive_response env core et))
  process_event w core (commit et) =
      let (w', core', effects) = receive_commit env w core et in
      returns (record { world = w'; core = core'; effects = effects })

  -- One turn of the loop of handleConnection, up to SendEvent.
  unfoldable pub reading : BftCore → ReadResult → Outcome Reading
  reading core (err e) = returns stopped
  reading core (ok msg) = elim msg.payload [
    | request_message p ↦ returns (event (request p))
    | proposal_message p ↦ do
      et ← deref p
      returns (ite (Account-discrete et.account core.master) (event (proposal et)) skipped)
    | response_message p ↦ do
      et ← deref p
      returns (
          if et.account.extension.id == core.master.extension.id
          then skipped
          else event (response et))
    | commit_message p ↦ do et ← deref p; returns (event (commit et))
    | _ ↦ returns stopped
  ]

  -- The rest of a turn of that loop, before those that follow.
  unfoldable pub serve :
      World
      → BftCore
      → Reading
      → (World → BftCore → Outcome (BftTurn World × Bool))
      → Outcome (BftTurn World × Bool)
  serve w core stopped next = returns (turned w (core, []), true)
  serve w core skipped next = next w core
  serve w core (event e) next = do
    turn ← process_event w core e
    out ← next turn.world turn.core
    let later = out.0
    returns (record later { effects = turn.effects ++ later.effects }, out.1)

  -- handleConnection on what its connections bring: where it is left, and whether it has ended.
  unfoldable pub handle_connection :
      World → BftCore → List ReadResult → Outcome (BftTurn World × Bool)
  handle_connection w core [] = returns (turned w (core, []), false)
  handle_connection w core (r ∷ rest) = do
    what ← reading core r
    serve w core what (λ w' core'. handle_connection w' core' rest)
