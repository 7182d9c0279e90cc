-- ===== src/Bft/Commits.antt =====
-- bft-core.go: receiveProposal, and the end of a round: getCommitOrder, commitFilter, SendCommit,
-- commitBlock and receiveCommit.
pub mod Receivers
pub mod Writing
use galaxy.Base.{
  ℕ, zero, suc, ◌+◌, ◌-◌, ◌%◌, ◌^◌, Bool, true, false, not, ◌||◌, ◌&&◌, List, [], ◌∷◌, ◌++◌, Option,
  none, some, ite, ltb, ◌==◌, if◌then◌else◌, length, lookup, insert, ℕ_discrete,
}
use galaxy.Base.Words.{add64}
use galaxy.Base.Outcome.{Outcome, returns, panics, ◌>>=◌, deref}
use galaxy.Account.{Account, Account-discrete, Block, Signature}
use galaxy.External.{Env}
use galaxy.Payloads.{header_hash}
use galaxy.Messages.{Proposal, Response, Commit, Message, response_message}
use galaxy.Fbft.State.{Event, encodes}
use galaxy.Fbft.Leader.{commit_of}
use galaxy.Bft.State.{
  BftCore, PayloadSets, Action, send_all, send, notify, leads, record_payload, verify_payload,
  sign_payload, sign_data_verify,
}

-- `peers[i]`, where none is the panic.
unfoldable pub at : List Account → ℕ → Option Account
at [] i = none
at (a ∷ rest) zero = some a
at (a ∷ rest) (suc i) = at rest i

-- The accounts of a list whose index passes a test, the list starting at an index.
unfoldable pub indexed : (ℕ → Bool) → ℕ → List Account → List Account
indexed p i [] = []
indexed p i (a ∷ rest) = let others = indexed p (suc i) rest in if p i then a ∷ others else others

-- getCommitOrder; an index past the end panics.
unfoldable pub get_commit_order : BftCore → Bool → ℕ → Outcome (List Account)
get_commit_order core true current_master = do
  current ← deref (at core.peers current_master)
  let next = (1 + current_master) % length core.peers
  last ← deref (at core.peers next)
  returns (
      current ∷ indexed (λ i. not (i == current_master) && not (i == next)) 0 core.peers
      ++ last ∷ [])
get_commit_order core false current_master = do
  current ← deref (at core.peers current_master)
  returns (indexed (λ i. not (i == current_master)) 0 core.peers ++ current ∷ [])

-- commitFilter: the id of an account is taken for its index among the peers.
unfoldable pub commit_filter : BftCore → Account → List Account
commit_filter core blacklist = indexed (λ i. not (i == blacklist.extension.id)) 0 core.peers

-- `int(id+1) % n` as an index: a negative remainder is none.
abbrev pub next_index : ℕ → ℕ → Option ℕ
next_index id n =
    let next = add64 id 1 in
    if ltb next (2 ^ 63) then some (next % n) else if (2 ^ 64 - next) % n == 0 then some 0 else none

-- The receivers of a good commit: the next master comes last. A remainder by 0 and an index that is
-- negative panic.
unfoldable pub commit_receivers : BftCore → Outcome (List Account)
commit_receivers core = if length core.peers == 0 then panics else do
  next ← deref (next_index core.local.extension.id (length core.peers))
  last ← deref (at core.peers next)
  returns (
      indexed (λ i. not (i == next) && not (i == core.local.extension.id)) 0 core.peers
      ++ last ∷ [])

abbrev pub with_signatures : Block → List Signature → Block
with_signatures block signatures =
    let header = block.header in record block { header = record header { sig_data = signatures } }

module _ {World : Type 0} (env : Env World) where
  -- What follows the check of a proposal, as receiveProposal of bft and of dbft have it.
  unfoldable pub answer : World → BftCore → Proposal → BftCore × List Action
  answer w core proposal = elim (verify_payload env w proposal.payload) [
    | none ↦ (core, [])
    | some receipts ↦ elim (sign_payload env core proposal.payload.header.mix_digest) [
      | none ↦ (core, [])
      | some sign ↦
          let response : Message = record {
            message_type = 3;
            payload = response_message (
                some (record {
                  account = core.local;
                  timestamp = proposal.timestamp;
                  digest = proposal.payload.header.mix_digest;
                  signature = sign;
                  block_height = 0;
                }));
          } in
          let core' = record_payload core proposal.payload receipts in
          (core', if encodes env response then send core.master response ∷ [] else [])
    ]
  ]

  -- The proposals that receiveProposal takes further.
  unfoldable pub acceptable : BftCore → Proposal → Bool
  acceptable core proposal =
      not (leads core)
      && ite (Account-discrete core.master proposal.account) true false
      && sign_data_verify env core.master proposal.signature proposal.payload.header.mix_digest

  -- receiveProposal
  unfoldable pub receive_proposal : World → BftCore → Proposal → BftCore × List Action
  receive_proposal w core proposal =
      if acceptable core proposal then answer w core proposal else (core, [])

  -- commitBlock: what is stored, and the block as it is left. A block that was never verified here
  -- has no receipts to read.
  unfoldable pub commit_block : World → BftCore → Block → Outcome (World × Block)
  commit_block w core block = elim (env.repository_by_block_hash w block.header.prev_block_hash) [
    | none ↦ returns (w, with_signatures block [])
    | some chain ↦ do
      entry ← deref (lookup ℕ_discrete block.header.mix_digest core.validator)
      let hashed : Block = record block { header_hash = header_hash env block }
      returns (elim (env.write_block_with_receipts w chain hashed entry.receipts) [
        | none ↦ (w, with_signatures hashed [])
        | some w' ↦ (w', hashed)
      ])
  ]

  -- SendCommit
  unfoldable pub send_commit :
      World → BftCore → Commit → Block → Outcome (World × Block × List Action)
  send_commit w core commit block =
      if not (encodes env (commit_of commit))
      then returns (w, block, [])
      else if not commit.result
      then returns (
        w,
        block,
        send_all (commit_filter core core.local) (commit_of commit)
            ∷ notify Event.consensus_failed
            ∷ [],
      )
      else do
        receivers ← commit_receivers core
        out ← commit_block w core block
        returns (out.0, out.1, send_all receivers (commit_of commit) ∷ [])

  -- receiveCommit on the entry of its digest: what is stored, and the block as it is left.
  unfoldable pub finish : World → PayloadSets → Commit → World × Block
  finish w entry commit =
      let signed = with_signatures entry.block commit.signatures in
      if not (header_hash env signed == commit.block_hash)
      then (w, with_signatures entry.block [])
      else elim (env.repository_by_block_hash w entry.block.header.prev_block_hash) [
        | none ↦ (w, with_signatures entry.block [])
        | some chain ↦
            let hashed : Block = record signed { header_hash = header_hash env signed } in
            elim (env.write_block_with_receipts w chain hashed entry.receipts) [
              | none ↦ (w, with_signatures hashed [])
              | some w' ↦ (w', hashed)
            ]
      ]

  -- receiveCommit
  unfoldable pub receive_commit : World → BftCore → Commit → World × BftCore × List Action
  unfolding finish
  receive_commit w core commit =
      if not commit.result
      then (w, core, notify Event.consensus_failed ∷ [])
      else elim (lookup ℕ_discrete commit.digest core.validator) [
        | none ↦ (w, core, [])
        | some entry ↦
            let (w', block) = finish w entry commit in
            (
              w',
              record core {
                validator =
                    insert ℕ_discrete commit.digest (record entry { block = block }) core.validator;
              },
              [],
            )
      ]
