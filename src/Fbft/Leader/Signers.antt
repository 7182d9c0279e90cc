-- ===== src/Fbft/Leader/Signers.antt =====
-- What counts as one signer.
use galaxy.Base.{
  ℕ, ◌<◌, ◌≡◌, ◌≢◌, Bool, true, List, [], ◌∷◌, ◌++◌, none, some, arith, append_assoc, ap, ◌∙◌,
  if◌then◌else◌,
}
use galaxy.Account.{Account, Signature}
use galaxy.External.{Env}
use galaxy.Payloads.{signature_verify}
use galaxy.Content.{Content, in_consensus, add_signature, get_sign_by_account}
use galaxy.Content.Signing.{add_signature_once}
use galaxy.Plugin.{get_content_by_hash}
use galaxy.Messages.{Response}
use galaxy.Fbft.State.{Core, signal, is_master}
use galaxy.Fbft.Leader.{receive_response, collect, with_content}

module _ {World : Type 0} (env : Env World) where
  -- Where a response counts, whoever sent it.
  pub record Counts (core : Core) (r : ℕ) (x : Response) : Type 0 where
    pub found : get_content_by_hash core.consensus_plugin x.digest ≡ some r
    pub under_way : (core.consensus_plugin.heap r).state ≡ in_consensus
    pub late : core.consensus_plugin.latest_block_height < x.block_height
    pub master : is_master core.nodes ≡ true
    pub verified : signature_verify env x.account x.signature x.digest ≡ true

  pub counted :
      (core : Core) (r : ℕ) (x : Response)
      → Counts core r x
      → receive_response env core x ≡ (
        with_content core r (add_signature (core.consensus_plugin.heap r) x.account x.signature).0,
        signal ∷ [],
      )
  unfolding receive_response collect
  counted core r x c = ground arith

  both_added :
      (c : Content) (a b : Account) (s : Signature)
      → a ≢ b
      → get_sign_by_account c a ≡ none
      → get_sign_by_account c b ≡ none
      → (add_signature (add_signature c a s).0 b s).0.signatures ≡ c.signatures ++ s ∷ s ∷ []
  both_added c a b s differ fresh_a fresh_b =
      let first = add_signature_once c a b s in
      let second = add_signature_once (add_signature c a s).0 b b s in
      let added : (add_signature c a s).1 ≡ true = first.0.1 fresh_a in
      let kept : get_sign_by_account (add_signature c a s).0 b ≡ none =
        first.1 ∙ ground (arith, added) in
      let added' : (add_signature (add_signature c a s).0 b s).1 ≡ true = second.0.1 kept in
      let once : (add_signature c a s).0.signatures ≡ c.signatures ++ s ∷ [] =
        first.2 ∙ ap (λ (t : Bool). if t then c.signatures ++ s ∷ [] else c.signatures) added in
      second.2
      ∙ ap
          (λ (t : Bool).
            if t
            then (add_signature c a s).0.signatures ++ s ∷ []
            else (add_signature c a s).0.signatures)
          added'
      ∙ ap (λ (l : List Signature). l ++ s ∷ []) once
      ∙ append_assoc c.signatures (s ∷ []) (s ∷ [])

  -- Two responses that differ only in their accounts, which share an address, both add their one
  -- signature to those of a content under consensus. This is for a master that the responses reach
  -- in time, for a signature that verifies, and for accounts that have not signed before.
  pub one_signer_twice :
      (core : Core) (r : ℕ) (x : Response) (b : Account)
      → get_content_by_hash core.consensus_plugin x.digest ≡ some r
      → (core.consensus_plugin.heap r).state ≡ in_consensus
      → core.consensus_plugin.latest_block_height < x.block_height
      → is_master core.nodes ≡ true
      → signature_verify env x.account x.signature x.digest ≡ true
      → x.account ≢ b
      → x.account.address ≡ b.address
      → get_sign_by_account (core.consensus_plugin.heap r) x.account ≡ none
      → get_sign_by_account (core.consensus_plugin.heap r) b ≡ none
      → let first = receive_response env core x in
        let second = receive_response env first.0 (record x { account = b }) in
        (second.0.consensus_plugin.heap r).signatures
        ≡ (core.consensus_plugin.heap r).signatures ++ x.signature ∷ x.signature ∷ []
  unfolding signature_verify get_content_by_hash
  one_signer_twice core r x b found under_way late master verified differ same fresh_x fresh_b =
      rw (counted core r x c) (
        rw (counted core' r (record x { account = b }) c') (
          ground (
            arith,
            both_added (core.consensus_plugin.heap r) x.account b x.signature differ fresh_x
                fresh_b,
          )))
    where
      c : Counts core r x
      c = record {
        found = found;
        under_way = under_way;
        late = late;
        master = master;
        verified = verified;
      }

      core' : Core
      core' =
          with_content core r (add_signature (core.consensus_plugin.heap r) x.account x.signature).0

      c' : Counts core' r (record x { account = b })
      c' = record {
        found = found;
        under_way =
            ground
              (arith, add_signature_once (core.consensus_plugin.heap r) x.account b x.signature);
        late = late;
        master = master;
        verified = ground arith;
      }
