-- ===== src/Fbft/Joining.antt =====
-- fbft-core.go, how a node comes online: sendOnlineRequest, receiveOnlineRequest and
-- receiveOnlineResponse.
pub mod Answers
pub mod Contents
use galaxy.Base.{
  ℕ, ◌+◌, ◌-◌, Bool, true, false, not, ◌&&◌, List, [], ◌∷◌, ◌++◌, Option, none, some, ltb, ◌==◌,
  if◌then◌else◌, length,
}
use galaxy.Base.Words.{add64}
use galaxy.Base.Outcome.{Outcome, returns, panics, ◌>>=◌, deref}
use galaxy.Account.{Account}
use galaxy.External.{Env}
use galaxy.Online.{
  OnlineWizard, OnlineState, unset, go_online, online, add_online_response, get_current_state,
  get_current_state_by_height,
}
use galaxy.Views.{set_current_view_num}
use galaxy.Messages.{
  OnlineRequest, OnlineResponse, Message, online_request_message, online_response_message,
}
use galaxy.Fbft.State.{Core, Effect, Event, unicast, broadcast, notify, encodes}
use galaxy.Fbft.Leader.{others}
use galaxy.Fbft.Replica.{with_master}
use galaxy.Fbft.Sync.{push_or_replace}

abbrev pub is_online : OnlineState → Bool
is_online online = true
is_online _ = false

-- The number of answers that make a node online, the int `walterLevel`.
unfoldable pub walter_level : Core → ℕ
walter_level core = length core.nodes.peers - core.tolerance

-- The event of a node that has come online.
abbrev pub if_online : OnlineState → List Effect
if_online state = if is_online state then notify Event.online ∷ [] else []

-- A request for the blocks from `current + 1` to `last`, queued.
ask_blocks : Core → ℕ → ℕ → Account → Core
ask_blocks core current last target = record core {
  block_sync_chan =
      push_or_replace core.block_sync_chan
        (record { start = add64 current 1; last = last; target = target });
}

-- The state that sendOnlineRequest tests: that of the greatest height where that is above.
state_seen : OnlineWizard → ℕ → ℕ → OnlineState → Outcome OnlineState
state_seen wizard current_height current state =
    if ltb current current_height then get_current_state wizard else returns state

module _ {World : Type 0} (env : Env World) where
  abbrev pub online_request_for : Core → ℕ → Message
  online_request_for core height = record {
    message_type = 8;
    payload =
        online_request_message (
          some (record { account = core.nodes.local; timestamp = env.now; block_height = height }));
  }

  abbrev pub online_response_for : Core → ℕ → ℕ → List Account → Account → Message
  online_response_for core height view_num nodes master = record {
    message_type = 9;
    payload = online_response_message (
        some (record {
          account = core.nodes.local;
          timestamp = env.now;
          block_height = height;
          view_num = view_num;
          nodes = nodes;
          master = master;
        }));
  }

  -- The branch of sendOnlineRequest for a node at the first height.
  first_online : Core → ℕ → Outcome (Core × List Effect)
  unfolding state_seen
  first_online core current = do
    out ←
        add_online_response core.online_wizard current (core.nodes.local ∷ []) (walter_level core)
          core.nodes.master core.view_change.current_view
    state ← state_seen out.0 core.online_wizard.block_height current out.2
    returns (record core { online_wizard = out.0 }, if_online state)

  -- sendOnlineRequest
  unfoldable pub send_online_request : World → Core → Outcome (Core × List Effect)
  unfolding first_online
  send_online_request w core = do
    chain ← deref (env.latest_state_repository w)
    let current = env.current_block_height w chain
    let msg = online_request_for core current
    (if not (encodes env msg)
        then returns (core, [])
        else if current == 0
        then (do
          out ← first_online core current
          returns (out.0, out.1 ++ broadcast (others core) msg ∷ []))
        else returns (core, broadcast (others core) msg ∷ []))

  -- The end of receiveOnlineRequest: the answer goes to the one who asked.
  answer : Core → ℕ → OnlineRequest → List Effect
  answer core current request =
      let msg =
        online_response_for core current core.view_change.current_view (core.nodes.local ∷ [])
          core.nodes.master in
      if encodes env msg then unicast request.account msg ∷ [] else []

  -- The branch of receiveOnlineRequest for a node that comes online at the first height itself: its
  -- answer goes to all the others.
  answer_first : Core → ℕ → OnlineRequest → Outcome (Core × List Effect)
  answer_first core current request = do
    let local = core.nodes.local
    let accounts =
        if current == request.block_height then local ∷ request.account ∷ [] else local ∷ []
    out ←
        add_online_response core.online_wizard current accounts (walter_level core)
          core.nodes.master core.view_change.current_view
    let core' = record core { online_wizard = out.0 }
    let msg = online_response_for core current core.view_change.current_view out.1 core.nodes.master
    (if encodes env msg
        then returns (core', if_online out.2 ++ broadcast (others core) msg ∷ [])
        else panics)

  -- receiveOnlineRequest, at the height `current`.
  serve : Core → ℕ → OnlineRequest → Outcome (Core × List Effect)
  unfolding ask_blocks answer answer_first
  serve core current request =
      let behind =
        ltb current request.block_height
        && not (core.nodes.local.address == request.account.address) in
      let core' =
        if behind then ask_blocks core current request.block_height request.account else core in
      if (current == 0) && not (is_online (get_current_state_by_height core.online_wizard current))
      then answer_first core' current request
      else returns (core', answer core' current request)

  -- receiveOnlineRequest
  unfoldable pub receive_online_request :
      World → Core → OnlineRequest → Outcome (Core × List Effect)
  unfolding serve
  receive_online_request w core request = do
    chain ← deref (env.latest_state_repository w)
    serve core (env.current_block_height w chain) request

  -- The end of receiveOnlineResponse: at the first height the agreement goes on to the others, without
  -- a view number.
  pass_on : Core → OnlineResponse → List Account → List Effect
  pass_on core response nodes =
      let msg = online_response_for core response.block_height 0 nodes response.master in
      if not (response.block_height == 0)
      then []
      else if encodes env msg
      then broadcast (others core) msg ∷ []
      else []

  -- What an agreement changes.
  come_online : Core → OnlineResponse → OnlineState → Core
  unfolding with_master
  come_online core response state =
      if is_online state
      then with_master
          (record core { view_change = set_current_view_num core.view_change response.view_num })
          response.master
      else core

  -- receiveOnlineResponse from AddOnlineResponse on.
  count : Core → OnlineResponse → Outcome (Core × List Effect)
  unfolding pass_on come_online
  count core response = do
    out ←
        add_online_response core.online_wizard response.block_height response.nodes
          (walter_level core) response.master response.view_num
    let core' = come_online (record core { online_wizard = out.0 }) response out.2
    returns (core', if_online out.2 ++ pass_on core response out.1)

  -- receiveOnlineResponse
  unfoldable pub receive_online_response :
      World → Core → OnlineResponse → Outcome (Core × List Effect)
  unfolding ask_blocks count
  receive_online_response w core response = do
    chain ← deref (env.latest_state_repository w)
    let current = env.current_block_height w chain
    (if ltb response.block_height current
        then returns (ask_blocks core current response.block_height response.account, [])
        else if is_online (get_current_state_by_height core.online_wizard response.block_height)
        then returns (core, [])
        else count core response)
