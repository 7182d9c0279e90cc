-- ===== src/Bft/Rounds/Strangers.antt =====
-- What one response does: that of a peer, and that of an account that is no peer.
use galaxy.Base.{
  ℕ, ◌≡◌, ◌≢◌, sym, ap, ◌∙◌, true, false, List, [], ◌∷◌, none, arith, In, lookup, insert, ==_iff,
}
use galaxy.Account.{Account, Account-discrete, no_account, Signature}
use galaxy.External.{Env}
use galaxy.Messages.{Response}
use galaxy.Utils.{get_account_by_id}
use galaxy.Utils.Choice.{get_account_by_id-unknown}
use galaxy.Bft.State.{BftCore, tunnel, add_signature, leads, sign_data_verify}
use galaxy.Bft.Rounds.{verified, receive_response, collect}

module _ {World : Type 0} (env : Env World) where
  verified_entry :
      (digest : ℕ) (a : Account) (s : Signature) (m : List (Account × Signature))
      → sign_data_verify env a s digest ≡ true
      → In s (verified env digest (insert Account-discrete a s m))
  unfolding verified insert
  verified_entry digest a s [] v = ground (arith, v)
  verified_entry digest a s ((b, t) ∷ m) v = ground (arith, v, verified_entry digest a s m v)

  pub reached :
      (core : BftCore) (x : Response)
      → core.commit ≡ false
      → leads core ≡ true
      → core.digest ≡ x.digest
      → receive_response env core x
        ≡ collect env core (get_account_by_id core.peers x.account.extension.id) x.signature
  unfolding receive_response
  reached core x undone leading same = ground arith

  pub added :
      (core : BftCore) (a : Account) (s : Signature)
      → sign_data_verify env a s core.digest ≡ true
      → lookup Account-discrete a core.signature.sign_map ≡ none
      → collect env core a s
        ≡ (record core { signature = add_signature core.signature a s }, tunnel ∷ [])
  unfolding collect
  added core a s good fresh = ground arith

  -- A response with an id that is none of the peers' is checked against the empty account, whose
  -- address is 0. Where the validator gives that address for its signature, as for one that it cannot
  -- read, the master of a round that is not committed adds the signature, signals, and maybeCommit
  -- counts it from then on.
  unknown_id_counts :
      (core : BftCore) (x : Response)
      → core.commit ≡ false
      → leads core ≡ true
      → core.digest ≡ x.digest
      → ((p : Account) → In p core.peers → p.extension.id ≢ x.account.extension.id)
      → env.verify core.digest x.signature ≡ 0
      → lookup Account-discrete no_account core.signature.sign_map ≡ none
      → let out = receive_response env core x in
        (out ≡ (
          record core { signature = add_signature core.signature no_account x.signature },
          tunnel ∷ [],
        ))
        × In x.signature (verified env core.digest out.0.signature.sign_map)
  unfolding sign_data_verify add_signature
  unknown_id_counts core x undone leading same unknown zero fresh =
      let good : sign_data_verify env no_account x.signature core.digest ≡ true =
        (==_iff 0 (env.verify core.digest x.signature)).1 (sym zero) in
      let out =
        reached core x undone leading same
        ∙ ap (λ (a : Account). collect env core a x.signature)
            (get_account_by_id-unknown core.peers x.account.extension.id unknown)
        ∙ added core no_account x.signature good fresh in
      (out, rw out (verified_entry core.digest no_account x.signature core.signature.sign_map good))
