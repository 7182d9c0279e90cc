-- ===== src/Fbft/Quorum.antt =====
-- fbft-core.go, maybeCommit: how many signatures a commit takes.
use galaxy.Base.{
  ℕ, ◌+◌, ◌-◌, ◌/◌, ◌≤◌, ◌<◌, ◌≡◌, ◌↔◌, Bool, true, false, not, List, [], none, some, arith, ltb,
  length,
}
use galaxy.Base.Words.{u8, sub8}
use galaxy.Account.{Signature}
use galaxy.Plugin.{get_content_by_hash}
use galaxy.Fbft.State.{Core, tolerance_of}

-- `uint8(len(nodes.peers))-instance.tolerance`
unfoldable pub threshold : Core → ℕ
threshold core = sub8 (u8 (length core.nodes.peers)) core.tolerance

-- maybeCommit: the signatures, and whether the error is nil.
unfoldable pub maybe_commit : Core → ℕ → List Signature × Bool
unfolding threshold
maybe_commit core digest = elim (get_content_by_hash core.consensus_plugin digest) [
  | none ↦ ([], false)
  | some r ↦
      let signatures = (core.consensus_plugin.heap r).signatures in
      (signatures, not (ltb (u8 (length signatures)) (threshold core)))
]

-- The faulty nodes that `n` nodes tolerate.
abbrev pub faulty : ℕ → ℕ
faulty n = (n - 1) / 3

threshold_lem :
    (core : Core)
    → 1 ≤ length core.nodes.peers
    → length core.nodes.peers ≤ 382
    → core.tolerance ≡ tolerance_of core.nodes.peers
    → threshold core ≡ length core.nodes.peers - faulty (length core.nodes.peers)
unfolding threshold tolerance_of
threshold_lem core h k e = omega arith

-- With 1 to 382 peers, the tolerance of Initialization and fewer than 256 signatures, a known
-- digest is found committed exactly if its content has as many signatures as there are peers less the
-- tolerated faulty ones, which is one in three of the others, rounded down; and twice that number is
-- more than the peers and the faulty ones together.
pub maybe_commit_quorum :
    (core : Core) (digest r : ℕ)
    → 1 ≤ length core.nodes.peers
    → length core.nodes.peers ≤ 382
    → core.tolerance ≡ tolerance_of core.nodes.peers
    → get_content_by_hash core.consensus_plugin digest ≡ some r
    → length (core.consensus_plugin.heap r).signatures < 256
    → let n = length core.nodes.peers in
      (((maybe_commit core digest).1 ≡ true)
        ↔ (n - faulty n ≤ length (core.consensus_plugin.heap r).signatures))
      × (n + faulty n < (n - faulty n) + (n - faulty n))
unfolding maybe_commit
maybe_commit_quorum core digest r h k e c small = (
  (
    (λ q. ground (arith, threshold_lem core h k e)),
    (λ q. ground (arith, threshold_lem core h k e)),
  ),
  omega arith,
)

-- With 383 peers and the tolerance of Initialization the uint8 threshold wraps to 0: any known
-- digest is found committed, with no signature at all.
maybe_commit_wraps :
    (core : Core) (digest r : ℕ)
    → length core.nodes.peers ≡ 383
    → core.tolerance ≡ tolerance_of core.nodes.peers
    → get_content_by_hash core.consensus_plugin digest ≡ some r
    → (maybe_commit core digest).1 ≡ true
unfolding maybe_commit tolerance_of
maybe_commit_wraps core digest r n e c = ground arith
