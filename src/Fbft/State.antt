-- ===== src/Fbft/State.antt =====
-- consensus/policy/fbft/fbft-core.go: the state of the core, what its handlers do to their
-- surroundings, and how it starts.
use galaxy.Base.{
  ℕ, ◌+◌, ◌-◌, ◌*◌, ◌/◌, Bool, true, false, ◌||◌, List, [], ◌∷◌, none, some, ite, length, ◌==◌,
  if◌then◌else◌,
}
use galaxy.Base.Words.{u8}
use galaxy.Account.{Account, Account-discrete, Block, Signature}
use galaxy.External.{Env}
use galaxy.Plugin.{ConsensusPlugin, new_consensus_plugin}
use galaxy.Views.{ViewChange, new_view_change}
use galaxy.Online.{OnlineWizard, new_online_wizard}
use galaxy.Messages.{Message, encode_message}

-- nodesInfo
pub record NodesInfo : Type 0 where
  pub local : Account
  pub master : Account
  pub peers : List Account

-- blockSyncRequest
pub record BlockSyncRequest : Type 0 where
  pub start : ℕ  -- uint64
  pub last : ℕ  -- uint64, the field `end`
  pub target : Account

-- coreTimeout, without its channel: the durations, and whether a change-view timer runs.
pub record CoreTimeout : Type 0 where
  pub time_to_collect_response_msg : ℕ
  pub time_to_wait_commit_msg : ℕ
  pub time_to_change_view_time : ℕ
  pub is_running : Bool

-- fbftCore. The buffered channel of sync requests is a list, oldest first; what is sent on the other
-- channels is an effect.
pub record Core : Type 0 where
  pub nodes : NodesInfo
  pub tolerance : ℕ  -- uint8
  pub core_timer : CoreTimeout
  pub online_wizard : OnlineWizard
  pub consensus_plugin : ConsensusPlugin
  pub view_change : ViewChange
  pub enable_empty_block : Bool
  pub enable_sync_verify_signature : Bool
  pub enable_local_verify_signature : Bool
  pub block_sync_chan : List BlockSyncRequest

-- types.EventCenter: the events that the code notifies.
pub data Event : Type 0 where
  consensus_failed block_without_txs master_change online : Event

-- messages.ConsensusResult; `ok` is a nil error.
pub record ConsensusResult : Type 0 where
  pub signatures : List Signature
  pub ok : Bool

pub data Effect : Type 0 where
  -- A signal on the stop channel, lost where no timer waits.
  stop_change_view_timer : Effect
  -- `go instance.waitMasterTimeout(d)`, the duration in milliseconds.
  wait_master_timeout : ℕ → Effect
  -- `go instance.waitResponse(digest)`.
  wait_response : ℕ → Effect
  -- `instance.signal <-`, which blocks until a waitResponse takes it.
  signal : Effect
  -- `instance.result <-`.
  result : ConsensusResult → Effect
  -- Messages, each for its encoding, to one account or to several in order.
  unicast : Account → Message → Effect
  broadcast : List Account → Message → Effect
  notify : Event → Effect
  -- `instance.blockSwitch <- block`.
  block_switch : Block → Effect

-- `nodes.local == nodes.master`
unfoldable pub is_master : NodesInfo → Bool
is_master nodes = ite (Account-discrete nodes.local nodes.master) true false

-- Whether EncodeMessage succeeds.
unfoldable pub encodes : {World : Type 0} → Env World → Message → Bool
encodes env msg = elim (encode_message env.marshal msg) [ none ↦ false | some _ ↦ true ]

-- NewFBFTCore, whose nodes Initialization stores.
unfoldable pub new_fbft_core : NodesInfo → CoreTimeout → Bool → Bool → Bool → Core
unfolding new_view_change new_online_wizard new_consensus_plugin
new_fbft_core nodes timer empty_block sync_verify local_verify = record {
  nodes = nodes;
  tolerance = 0;
  core_timer = record timer { is_running = false };
  online_wizard = new_online_wizard;
  consensus_plugin = new_consensus_plugin;
  view_change = new_view_change;
  enable_empty_block = empty_block;
  enable_sync_verify_signature = sync_verify;
  enable_local_verify_signature = local_verify;
  block_sync_chan = [];
}

-- The tolerance that Initialization stores: a third of the peers but one, as a uint8.
unfoldable pub tolerance_of : List Account → ℕ
tolerance_of peers = u8 ((length peers - 1) / 3)

-- Initialization of FBFTPolicy, on the core. A node that is not the master and does not come online
-- for the first time waits for the master; `random` is rand.Int63n(5).
unfoldable pub initialization :
    Core → Account → Account → List Account → Bool → ℕ → Core × List Effect
unfolding tolerance_of
initialization core local master peers on_line random = (
  record core {
    nodes = record { local = local; master = master; peers = peers };
    tolerance = tolerance_of peers;
  },
  if on_line || local.address == master.address
      then []
      else wait_master_timeout (core.core_timer.time_to_change_view_time + random * 1000) ∷ [],
)
