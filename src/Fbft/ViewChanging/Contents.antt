-- ===== src/Fbft/ViewChanging/Contents.antt =====
-- A request for a change of view leaves the contents alone.
use galaxy.Base.{arith}
use galaxy.Base.Outcome.{OnReturn}
use galaxy.External.{Env}
use galaxy.Fbft.State.{Core}
use galaxy.Fbft.Genuine.{SamePlugin}
use galaxy.Messages.{ViewChangeReq}
use galaxy.Fbft.Replica.{with_master}
use galaxy.Fbft.ViewChanging.{receive_change_view_req, ballot, switched, with_requests}

module _ {World : Type 0} (env : Env World) where
  pub receive_change_view_req-plugin :
      (core : Core) (req : ViewChangeReq)
      → OnReturn (SamePlugin core) (receive_change_view_req env core req)
  unfolding receive_change_view_req ballot switched with_requests with_master
  receive_change_view_req-plugin core req = ground arith
