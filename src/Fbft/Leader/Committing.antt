-- ===== src/Fbft/Leader/Committing.antt =====
-- What the end of a round sends and switches.
use galaxy.Base.{◌≡◌, Bool, true, arith, In}
use galaxy.Account.{Block}
use galaxy.External.{Env}
use galaxy.Fbft.State.{Core, block_switch}
use galaxy.Fbft.Leader.{commit_block, send_commit, try_to_commit}

module _ {World : Type 0} (env : Env World) where
  pub try_to_commit_switches :
      (core : Core) (block switched : Block) (outcome : Bool)
      → In (block_switch switched) (try_to_commit env core block outcome).1
      → (outcome ≡ true) × (switched ≡ block)
  unfolding try_to_commit send_commit commit_block
  try_to_commit_switches core block switched outcome i = ground arith
