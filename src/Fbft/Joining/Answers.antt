-- ===== src/Fbft/Joining/Answers.antt =====
-- What answers from other nodes do.
use galaxy.Base.{ℕ, ◌+◌, ◌^◌, In, ◌≤◌, ◌<◌, ◌≡◌, refl, ◌⊎◌, true, List, [], Option, some, arith}
use galaxy.Base.Words.{add64}
use galaxy.Base.Outcome.{returns, OnReturn}
use galaxy.Account.{Block}
use galaxy.External.{Env}
use galaxy.Views.{set_current_view_num}
use galaxy.Messages.{OnlineResponse}
use galaxy.Fbft.State.{Core, BlockSyncRequest, Effect, Event, notify}
use galaxy.Fbft.Replica.{with_master}
use galaxy.Fbft.Sync.{push_or_replace, do_sync_block}
use galaxy.Fbft.Sync.Ranges.{do_sync_block_reached}
use galaxy.Fbft.Joining.{receive_online_response, count, come_online, ask_blocks}

module _ {World : Type 0} (env : Env World) where
  -- An answer from a node that is behind queues a request for blocks to that node whose range ends
  -- before it starts; taken up by a node that is no lower than it was, the request asks for
  -- nothing. This is for heights whose successor is a uint64.
  receive_online_response_futile :
      (w : World) (chain : ℕ) (core : Core) (response : OnlineResponse)
      → env.latest_state_repository w ≡ some chain
      → response.block_height < env.current_block_height w chain
      → env.current_block_height w chain + 1 < 2 ^ 64
      → (req : BlockSyncRequest) × (receive_online_response env w core response
          ≡ returns
              (record core { block_sync_chan = push_or_replace core.block_sync_chan req }, []))
        × (req.last < req.start)
        × (req.target ≡ response.account)
        × ((v : World) (handle : ℕ) (block : Block) (rounds : List (Option World))
            → env.current_block v handle ≡ some block
            → env.current_block_height w chain ≤ block.header.height
            → do_sync_block env v core handle req rounds ≡ some ([], true))
  unfolding receive_online_response ask_blocks
  receive_online_response_futile w chain core response found low small = (
    record {
      start = add64 (env.current_block_height w chain) 1;
      last = response.block_height;
      target = response.account;
    },
    rw (found, add64) (ground arith),
    ground arith,
    refl,
    (λ v handle block rounds e h.
        do_sync_block_reached env v core handle _ block rounds e (omega arith)),
  )

  -- What an answer leaves of the view and the nodes: either both are as they were, or the node has come
  -- online and says so, and has the view and the master of the answer, whatever its view was before.
  abbrev pub AnswerTaken : Core → OnlineResponse → Core × List Effect → Type 0
  AnswerTaken core response out =
      ((out.0.view_change ≡ core.view_change) × (out.0.nodes ≡ core.nodes))
      ⊎ ((out.0.view_change.current_view ≡ response.view_num)
          × (out.0.nodes.master ≡ response.master)
          × (out.0.nodes.local ≡ core.nodes.local)
          × (out.0.nodes.peers ≡ core.nodes.peers)
          × In (notify Event.online) out.1)

  -- An answer is taken in one of the two ways, unless the call panics.
  pub receive_online_response-AnswerTaken :
      (w : World) (core : Core) (response : OnlineResponse)
      → OnReturn (AnswerTaken core response) (receive_online_response env w core response)
  unfolding receive_online_response count come_online with_master set_current_view_num ask_blocks
  receive_online_response-AnswerTaken w core response = ground arith
