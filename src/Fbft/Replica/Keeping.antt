-- ===== src/Fbft/Replica/Keeping.antt =====
-- The contents of a replica: what a proposal and a commit leave of their signatures.
use galaxy.Base.{ℕ, refl, inl, inr, arith, Option-cases}
use galaxy.Base.Outcome.{deref, OnReturn, OnReturn-bind}
use galaxy.Account.{Block}
use galaxy.External.{Env}
use galaxy.Content.{Content, get_sign_by_account}
use galaxy.Plugin.{get_content_by_hash, update}
use galaxy.Messages.{Proposal, Commit}
use galaxy.Fbft.State.{Core}
use galaxy.Fbft.Genuine.{GenuineContent, update-Genuine, add-Genuine, remove-Genuine}
use galaxy.Fbft.Leader.{commit_block}
use galaxy.Fbft.Leader.Signatures.{AllGenuine}
use galaxy.Fbft.Replica.{
  with_master, fall_behind, follow, consider, receive_proposal, sealed, finish, receive_commit,
}

module _ {World : Type 0} (env : Env World) where
  follow-Genuine :
      (w : World) (core : Core) (proposal : Proposal)
      → AllGenuine env core
      → AllGenuine env (follow env w core proposal).0
  unfolding follow
  follow-Genuine w core proposal g = ground (
    arith,
    add-Genuine env core.consensus_plugin proposal.payload.header.mix_digest proposal.payload,
  )

  consider-Genuine :
      (w : World) (current : ℕ) (core : Core) (proposal : Proposal)
      → AllGenuine env core
      → AllGenuine env (consider env w current core proposal).0
  unfolding consider fall_behind with_master
  consider-Genuine w current core proposal g = ground (arith, follow-Genuine w core proposal g)

  -- A proposal leaves all signatures genuine.
  pub receive_proposal-Genuine :
      (w : World) (core : Core) (proposal : Proposal)
      → AllGenuine env core
      → OnReturn (λ out. AllGenuine env out.0) (receive_proposal env w core proposal)
  unfolding receive_proposal
  receive_proposal-Genuine w core proposal g =
      OnReturn-bind (λ out. AllGenuine env out.0) (deref (env.latest_state_repository w)) _
        (λ chain e. consider-Genuine w (env.current_block_height w chain) core proposal g)

  resealed-Genuine :
      (c : Content) (b : Block)
      → GenuineContent env c
      → GenuineContent env (record c { payload = b })
  unfolding get_sign_by_account
  resealed-Genuine c b g = record {
    signed = record { listed = g.signed.listed; once = g.signed.once };
    genuine = g.genuine;
  }

  finish-Genuine :
      (core : Core) (r : ℕ) (commit : Commit)
      → AllGenuine env core
      → AllGenuine env (finish env core r commit).0
  unfolding finish commit_block
  finish-Genuine core r commit g =
      let p = core.consensus_plugin in
      let c = p.heap r in
      let b = sealed env c commit in
      let kept = update-Genuine env p r (record c { payload = b }) refl (resealed-Genuine c b) g in
      ground (
        arith,
        kept,
        remove-Genuine env (update p r (record c { payload = b })) b.header.mix_digest kept,
      )

  -- So does a commit.
  pub receive_commit-Genuine :
      (core : Core) (commit : Commit)
      → AllGenuine env core
      → AllGenuine env (receive_commit env core commit).0
  unfolding receive_commit with_master
  receive_commit-Genuine core commit g =
      elim (Option-cases (get_content_by_hash core.consensus_plugin commit.digest)) [
        | inl e ↦ ground (arith, e)
        | inr (r, e) ↦ rw e (ground (arith, finish-Genuine core r commit g))
      ]
