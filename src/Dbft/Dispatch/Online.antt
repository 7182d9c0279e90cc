-- ===== src/Dbft/Dispatch/Online.antt =====
-- A node that comes online: Initialization leaves its timer nil.
use galaxy.Base.{◌≡◌, refl, arith, true, ℕ, List, Option, none, some}
use galaxy.Base.Outcome.{returns, panics}
use galaxy.Account.{Account}
use galaxy.External.{Env}
use galaxy.Messages.{Request, Proposal, ViewChangeReq}
use galaxy.Dbft.State.{DbftCore, new_dbft_core, initialization, stop_timer}
use galaxy.Dbft.Handlers.{receive_request, receive_proposal, receive_response, receive_commit}
use galaxy.Dbft.ChangingView.{receive_change_view_req}
use galaxy.Dbft.Dispatch.{
  DbftEvent, DbftTurn, process_event, request, proposal, response, commit, sync_block_req,
  sync_block_resp, view_change_req,
}

module _ {World : Type 0} (env : Env World) where
  -- What a core comes to by events that ProcessEvent gets through, on any store.
  pub data Served : DbftCore → DbftCore → Type 0 where
    begun : (core : DbftCore) → Served core core
    served :
        {first core : DbftCore} (fuel : ℕ) (w : World) (e : DbftEvent) (turn : DbftTurn World)
        → Served first core
        → process_event env fuel w core e ≡ returns (some turn)
        → Served first turn.core

  timer_stays_nil :
      (fuel : ℕ) (w : World) (core : DbftCore) (e : DbftEvent) (turn : DbftTurn World)
      → core.master_timeout ≡ none
      → process_event env fuel w core e ≡ returns (some turn)
      → turn.core.master_timeout ≡ none
  unfolding process_event stop_timer receive_request receive_proposal receive_change_view_req
      receive_response receive_commit
  timer_stays_nil fuel w core (request none) turn nil h = ground arith
  timer_stays_nil fuel w core (request (some et)) turn nil h = ground arith
  timer_stays_nil fuel w core (proposal et) turn nil h = ground arith
  timer_stays_nil fuel w core (response et) turn nil h = ground arith
  timer_stays_nil fuel w core (commit et) turn nil h = ground arith
  timer_stays_nil fuel w core (sync_block_req et) turn nil h = ground arith
  timer_stays_nil fuel w core (sync_block_resp et) turn nil h = ground arith
  timer_stays_nil fuel w core (view_change_req et) turn nil h = ground arith

  Served-nil :
      (first core : DbftCore)
      → Served first core
      → first.master_timeout ≡ none
      → core.master_timeout ≡ none
  Served-nil first core (begun c) nil = nil
  Served-nil first core (served {core = before} fuel w e turn s h) nil =
      timer_stays_nil fuel w before e turn (Served-nil first before s nil) h

  panics_on :
      (fuel : ℕ) (w : World) (core : DbftCore) (r : Option Request) (p : Proposal)
      (v : ViewChangeReq)
      → core.master_timeout ≡ none
      → (process_event env fuel w core (request r) ≡ panics)
        × (process_event env fuel w core (proposal p) ≡ panics)
        × (process_event env fuel w core (view_change_req v) ≡ panics)
  unfolding process_event stop_timer receive_request receive_proposal receive_change_view_req
  panics_on fuel w core none p v nil = ground arith
  panics_on fuel w core (some r) p v nil = ground arith

  -- A new node that Initialization brings online panics on the first request, proposal or change of
  -- view, whatever they say and whatever other events the node has got through before: each of the three
  -- stops the timer, which Initialization leaves nil and no event sets.
  pub on_line_panics :
      (fuel : ℕ) (w : World) (local master : Account) (peers : List Account) (core : DbftCore)
      (r : Option Request) (p : Proposal) (v : ViewChangeReq)
      → Served (initialization new_dbft_core local master peers true).0 core
      → (process_event env fuel w core (request r) ≡ panics)
        × (process_event env fuel w core (proposal p) ≡ panics)
        × (process_event env fuel w core (view_change_req v) ≡ panics)
  unfolding initialization new_dbft_core
  on_line_panics fuel w local master peers core r p v s =
      panics_on fuel w core r p v (Served-nil _ core s refl)
