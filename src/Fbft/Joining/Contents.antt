-- ===== src/Fbft/Joining/Contents.antt =====
-- Coming online leaves the contents alone.
use galaxy.Base.{arith}
use galaxy.Base.Outcome.{OnReturn}
use galaxy.External.{Env}
use galaxy.Fbft.State.{Core}
use galaxy.Fbft.Genuine.{SamePlugin}
use galaxy.Messages.{OnlineRequest, OnlineResponse}
use galaxy.Fbft.Replica.{with_master}
use galaxy.Fbft.Joining.{
  send_online_request, receive_online_request, receive_online_response, serve, answer_first, count,
  first_online, come_online, ask_blocks,
}

module _ {World : Type 0} (env : Env World) where
  pub send_online_request-plugin :
      (w : World) (core : Core) → OnReturn (SamePlugin core) (send_online_request env w core)
  unfolding send_online_request first_online
  send_online_request-plugin w core = ground arith

  pub receive_online_request-plugin :
      (w : World) (core : Core) (req : OnlineRequest)
      → OnReturn (SamePlugin core) (receive_online_request env w core req)
  unfolding receive_online_request serve answer_first ask_blocks
  receive_online_request-plugin w core req = ground arith

  pub receive_online_response-plugin :
      (w : World) (core : Core) (resp : OnlineResponse)
      → OnReturn (SamePlugin core) (receive_online_response env w core resp)
  unfolding receive_online_response count come_online ask_blocks with_master
  receive_online_response-plugin w core resp = ground arith
