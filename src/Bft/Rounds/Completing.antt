-- ===== src/Bft/Rounds/Completing.antt =====
-- How a round of the master comes to a good result.
use galaxy.Base.{
  ℕ, suc, ◌+◌, ◌≤◌, ◌<◌, ◌≡◌, ◌≢◌, refl, sym, ap, subst, ◌∙◌, inl, inr, true, false, List, [], ◌∷◌,
  none, arith, In, Distinct, lookup, lookup-insert_ne, insert, length, length-append, map,
}
use galaxy.Base.Perms.{length-perm}
use mathlib.Core.List.{Permᴰ}
use galaxy.Account.{Account, Account-discrete, Signature}
use galaxy.External.{Env}
use galaxy.Messages.{Response}
use galaxy.Utils.{get_account_by_id}
use galaxy.Bft.State.{BftCore, Action, give_result, add_signature, leads, sign_data_verify}
use galaxy.Bft.Rounds.{verified, needed, maybe_commit, wait_response, receive_response}
use galaxy.Bft.Rounds.Order.{verified-perm}
use galaxy.Bft.Rounds.Strangers.{reached, added}

module _ {World : Type 0} (env : Env World) where
  -- Responses that come in one after another.
  abbrev pub receive_all : BftCore → List Response → BftCore
  receive_all core [] = core
  receive_all core (x ∷ xs) = receive_all (receive_response env core x).0 xs

  -- The peer that a response names.
  abbrev pub peer_of : BftCore → Response → Account
  peer_of core x = get_account_by_id core.peers x.account.extension.id

  -- A response to the proposal of the round, with a signature of the peer that it names.
  abbrev pub IsGood : BftCore → Response → Type 0
  IsGood core x =
      (core.digest ≡ x.digest)
      × (sign_data_verify env (peer_of core x) x.signature core.digest ≡ true)

  -- A round of the master that is not over, with one signature in the list for each in the map.
  abbrev pub IsOpen : BftCore → Type 0
  IsOpen core =
      (core.commit ≡ false)
      × (leads core ≡ true)
      × (length core.signature.signatures ≡ length core.signature.sign_map)

  length-insert_new :
      (a : Account) (s : Signature) (m : List (Account × Signature))
      → lookup Account-discrete a m ≡ none
      → length (insert Account-discrete a s m) ≡ length m + 1
  unfolding insert lookup
  length-insert_new a s [] h = refl
  length-insert_new a s ((b, t) ∷ m) h = ground (arith, length-insert_new a s m)

  length-verified :
      (digest : ℕ) (a : Account) (s : Signature) (m : List (Account × Signature))
      → lookup Account-discrete a m ≡ none
      → sign_data_verify env a s digest ≡ true
      → length (verified env digest (insert Account-discrete a s m))
        ≡ length (verified env digest m) + 1
  unfolding insert lookup verified
  length-verified digest a s [] h v = ground (arith, v)
  length-verified digest a s ((b, t) ∷ m) h v = ground (arith, v, length-verified digest a s m)

  counted :
      (core : BftCore) (x : Response)
      → IsOpen core
      → IsGood core x
      → lookup Account-discrete (peer_of core x) core.signature.sign_map ≡ none
      → (receive_response env core x).0
        ≡ record core { signature = add_signature core.signature (peer_of core x) x.signature }
  counted core x running good fresh =
      ap (λ (out : BftCore × List Action). out.0)
        (reached env core x running.0 running.1 good.0
          ∙ added env core (peer_of core x) x.signature good.1 fresh)

  -- The state of the round after a response that counts.
  abbrev counting : BftCore → Response → BftCore
  counting core x = record core {
    signature = add_signature core.signature (peer_of core x) x.signature;
  }

  counting-IsOpen :
      (core : BftCore) (x : Response)
      → IsOpen core
      → lookup Account-discrete (peer_of core x) core.signature.sign_map ≡ none
      → IsOpen (counting core x)
  unfolding leads add_signature
  counting-IsOpen core x running fresh = (
    running.0,
    running.1,
    omega (
      arith,
      running.2,
      length-insert_new (peer_of core x) x.signature core.signature.sign_map fresh,
      length-append core.signature.signatures (x.signature ∷ []),
    ),
  )

  counting-verified :
      (core : BftCore) (x : Response)
      → IsGood core x
      → lookup Account-discrete (peer_of core x) core.signature.sign_map ≡ none
      → length (verified env core.digest (counting core x).signature.sign_map)
        ≡ length (verified env core.digest core.signature.sign_map) + 1
  unfolding add_signature
  counting-verified core x good fresh =
      length-verified core.digest (peer_of core x) x.signature core.signature.sign_map fresh good.1

  counting-fresh :
      (core : BftCore) (x : Response) (a : Account)
      → a ≢ peer_of core x
      → lookup Account-discrete a core.signature.sign_map ≡ none
      → lookup Account-discrete a (counting core x).signature.sign_map ≡ none
  unfolding add_signature
  counting-fresh core x a other fresh =
      lookup-insert_ne Account-discrete (peer_of core x) a x.signature core.signature.sign_map other
      ∙ fresh

  -- What the responses leave.
  abbrev Filled : BftCore → ℕ → BftCore → Type 0
  Filled core n end =
      (length end.signature.signatures ≡ length end.signature.sign_map)
      × (length (verified env end.digest end.signature.sign_map)
          ≡ length (verified env core.digest core.signature.sign_map) + n)
      × (needed end ≡ needed core)

  all_counted :
      (core : BftCore) (xs : List Response)
      → IsOpen core
      → ((x : Response) → In x xs → IsGood core x)
      → Distinct (map (peer_of core) xs)
      → ((a : Account)
          → In a (map (peer_of core) xs)
          → lookup Account-discrete a core.signature.sign_map ≡ none)
      → Filled core (length xs) (receive_all core xs)
  unfolding needed
  all_counted core [] running good d fresh = (running.2, omega arith, refl)
  all_counted core (x ∷ xs) running good d fresh =
      let new = fresh (peer_of core x) (inl refl) in
      let rest =
        all_counted (counting core x) xs (counting-IsOpen core x running new)
          (λ y i. good y (inr i)) d.1
          (λ a i.
            counting-fresh core x a
              (λ (e : a ≡ peer_of core x).
                d.0 (subst (λ (b : Account). In b (map (peer_of core) xs)) e i))
              (fresh a (inr i))) in
      subst (λ (c : BftCore). Filled core (suc (length xs)) (receive_all c xs))
        (sym (counted core x running (good x (inl refl)) new))
        (rest.0, omega (arith, rest.1, counting-verified core x (good x (inl refl)) new), rest.2)

  enough_commit :
      (core : BftCore) (order : List (Account × Signature)) (n : ℕ)
      → length core.signature.signatures ≡ length core.signature.sign_map
      → length (verified env core.digest order) ≡ n
      → n < 256
      → needed core ≤ n
      → maybe_commit env core order ≡ (verified env core.digest order, true)
  unfolding maybe_commit
  enough_commit core order n filled count small enough = ground arith

  timed_out :
      (core : BftCore) (order : List (Account × Signature)) (signatures : List Signature)
      → maybe_commit env core order ≡ (signatures, true)
      → wait_response env core order true ≡ (
        record core { commit = true },
        give_result (record { signatures = signatures; ok = true }) ∷ [],
        true,
      )
  unfolding wait_response
  timed_out core order signatures e = rw e refl

  -- A round comes to a good result. If the master runs a round that is not over, and gets responses from
  -- different peers that have not signed, each with a signature on the digest of the round that verifies
  -- as that peer's, and these are with the signatures that it has as many as maybeCommit asks for, and
  -- fewer than 256, then maybeCommit gives all of them and no error, in whatever order it takes the map,
  -- and waitResponse gives them as its result when its timer ends, and is done.
  pub responses_commit :
      (core : BftCore) (xs : List Response) (order : List (Account × Signature))
      → IsOpen core
      → ((x : Response) → In x xs → IsGood core x)
      → Distinct (map (peer_of core) xs)
      → ((a : Account)
          → In a (map (peer_of core) xs)
          → lookup Account-discrete a core.signature.sign_map ≡ none)
      → Permᴰ (receive_all core xs).signature.sign_map order
      → let n = length (verified env core.digest core.signature.sign_map) + length xs in
        let end = receive_all core xs in
        n < 256
        → needed core ≤ n
        → (signatures : List Signature) × (length signatures ≡ n)
          × (maybe_commit env end order ≡ (signatures, true))
          × (wait_response env end order true ≡ (
            record end { commit = true },
            give_result (record { signatures = signatures; ok = true }) ∷ [],
            true,
          ))
  responses_commit core xs order running good d fresh p small enough =
      let end = receive_all core xs in
      let filled = all_counted core xs running good d fresh in
      let n = length (verified env core.digest core.signature.sign_map) + length xs in
      let count : length (verified env end.digest order) ≡ n =
        sym (length-perm (verified-perm env end.digest p)) ∙ filled.1 in
      let result =
        enough_commit end order n filled.0 count small
          (subst (λ (k : ℕ). k ≤ n) (sym filled.2) enough) in
      (
        verified env end.digest order,
        count,
        result,
        timed_out end order (verified env end.digest order) result,
      )
