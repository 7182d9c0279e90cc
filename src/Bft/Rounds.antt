-- ===== src/Bft/Rounds.antt =====
-- bft-core.go, the round of the master: receiveRequest, receiveResponse, maybeCommit and
-- waitResponse.
mod Examples
pub mod Order
pub mod Strangers
pub mod Completing
use galaxy.Base.{
  ℕ, Bool, true, false, not, List, [], ◌∷◌, Option, none, some, ltb, ◌==◌, if◌then◌else◌, length,
  lookup,
}
use galaxy.Base.Words.{u8, sub8}
use galaxy.Account.{Account, Account-discrete, Signature}
use galaxy.External.{Env}
use galaxy.Messages.{Request, Response, Message, proposal_message}
use galaxy.Utils.{get_account_by_id}
use galaxy.Fbft.State.{encodes}
use galaxy.Bft.State.{
  BftCore, Action, send_all, start_waiting, tunnel, give_result, add_signature, leads,
  record_payload, verify_payload, sign_payload, sign_data_verify,
}

-- `uint8(len(instance.peers))-instance.tolerance`
unfoldable pub needed : BftCore → ℕ
needed core = sub8 (u8 (length core.peers)) core.tolerance

module _ {World : Type 0} (env : Env World) where
  -- The loop of maybeCommit over the entries of the map, in the order that `range` takes.
  unfoldable pub verified : ℕ → List (Account × Signature) → List Signature
  verified digest [] = []
  verified digest ((account, sign) ∷ rest) =
      let others = verified digest rest in
      if sign_data_verify env account sign digest then sign ∷ others else others

  -- maybeCommit, for an order of the map's entries: the signatures, and whether the error is nil.
  unfoldable pub maybe_commit : BftCore → List (Account × Signature) → List Signature × Bool
  maybe_commit core order =
      if not (length core.signature.signatures == length core.signature.sign_map)
      then ([], false)
      else let really = verified core.digest order in
        (really, not (ltb (u8 (length really)) (needed core)))

  -- One round of waitResponse: on the timeout it always ends with a result, on a signal only with as
  -- many signatures as peers. The last result tells whether it has ended.
  unfoldable pub wait_response :
      BftCore → List (Account × Signature) → Bool → BftCore × List Action × Bool
  wait_response core order timeout =
      let (signatures, enough) = maybe_commit core order in
      if timeout
      then (
        record core { commit = true },
        give_result (record { signatures = signatures; ok = enough }) ∷ [],
        true,
      )
      else if length signatures == length core.peers
      then (
        record core { commit = true },
        give_result (record { signatures = signatures; ok = enough }) ∷ [],
        true,
      )
      else (core, [], false)

  -- The proposal that receiveRequest sends.
  abbrev pub proposal_of : BftCore → Request → Signature → Message
  proposal_of core request sign = record {
    message_type = 2;
    payload = proposal_message (
        some (record {
          account = core.local;
          timestamp = request.timestamp;
          payload = request.payload;
          signature = sign;
        }));
  }

  -- receiveRequest from the verified and signed block on.
  unfoldable pub propose : BftCore → Request → ℕ → Signature → BftCore × List Action
  propose core request receipts sign =
      let core' = record_payload core request.payload receipts in
      if encodes env (proposal_of core request sign)
      then (
        record core' {
          digest = request.payload.header.mix_digest;
          signature = add_signature core'.signature core'.local sign;
        },
        send_all core.peers (proposal_of core request sign) ∷ start_waiting ∷ [],
      )
      else (core', [])

  -- receiveRequest
  unfoldable pub receive_request : World → BftCore → Request → BftCore × List Action
  unfolding propose
  receive_request w core request =
      if not (leads core)
      then (core, [])
      else if not (length request.payload.header.sig_data == 1)
      then (core, [])
      else elim (verify_payload env w request.payload) [
        | none ↦ (core, [])
        | some receipts ↦ elim (sign_payload env core request.payload.header.mix_digest) [
          | none ↦ (core, [])
          | some sign ↦ propose core request receipts sign
        ]
      ]

  -- receiveResponse from the peer on that the response names.
  unfoldable pub collect : BftCore → Account → Signature → BftCore × List Action
  collect core peer sign =
      if not (sign_data_verify env peer sign core.digest)
      then (core, [])
      else elim (lookup Account-discrete peer core.signature.sign_map) [
        | none ↦ (record core { signature = add_signature core.signature peer sign }, tunnel ∷ [])
        | some _ ↦ (core, [])
      ]

  -- receiveResponse
  unfoldable pub receive_response : BftCore → Response → BftCore × List Action
  unfolding collect
  receive_response core response =
      if core.commit
      then (core, [])
      else if not (leads core)
      then (core, [])
      else if not (core.digest == response.digest)
      then (core, [])
      else collect core (get_account_by_id core.peers response.account.extension.id)
          response.signature
