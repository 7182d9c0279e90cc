-- ===== src/Dbft/State.antt =====
-- dbft-core.go: the state of the core, and Initialization of dbft.go.
use galaxy.Base.{ℕ, Bool, true, false, List, [], Option, none, some, if◌then◌else◌}
use galaxy.Base.Outcome.{Outcome, returns, panics}
use galaxy.Account.{Account}
use galaxy.Views.{ViewRequestState}
use galaxy.Bft.State.{BftCore, Action, new_bft_core}
use galaxy.Bft.State as Bft

-- common.ViewStatus
pub data ViewStatus : Type 0 where
  view_changing view_normal : ViewStatus

-- viewNumStatus
pub record ViewNumStatus : Type 0 where
  pub status : ViewRequestState
  pub notify : Bool
  pub request_nodes : List Account

-- viewChange
pub record ViewSets : Type 0 where
  pub status : ViewStatus
  pub view_num : ℕ  -- uint64
  pub view_sets : List (ℕ × ViewNumStatus)

-- dbftCore: the fields of bftCore, the views, and the timer, which is nil or may still fire.
pub record DbftCore : Type 0 where
  pub base : BftCore
  pub views : ViewSets
  pub master_timeout : Option Bool

-- NewDBFTCore
unfoldable pub new_dbft_core : DbftCore
new_dbft_core = record {
  base = new_bft_core;
  views = record { status = view_normal; view_num = 0; view_sets = [] };
  master_timeout = none;
}

-- Initialization of DBFTPolicy, on the core: a node that comes online gets no timer. The second result
-- tells whether waitMasterTimeOut starts.
unfoldable pub initialization : DbftCore → Account → Account → List Account → Bool → DbftCore × Bool
initialization core local master peers on_line =
    let core' = record core { base = Bft.initialization core.base local master peers } in
    if on_line then (core', false) else (record core' { master_timeout = some true }, true)

-- `instance.masterTimeout.Stop()`, which reads the pointer.
unfoldable pub stop_timer : DbftCore → Outcome DbftCore
stop_timer core = elim core.master_timeout [
  | none ↦ panics
  | some _ ↦ returns (record core { master_timeout = some false })
]

-- A step of the common part.
abbrev pub with_base : DbftCore → BftCore × List Action → DbftCore × List Action
with_base core out = (record core { base = out.0 }, out.1)
