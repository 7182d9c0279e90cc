-- ===== src/Bft/Rounds/Examples.antt =====
-- Node 1 of four, the master, which has signed and gets the signatures of nodes 2 and 3.
use galaxy.Base.{
  ℕ, ◌+◌, ◌≤◌, ◌<◌, ◌≡◌, refl, sym, subst, inl, inr, true, false, List, [], ◌∷◌, none, arith, In,
  Distinct, lookup, length, map,
}
use mathlib.Core.List.Permᴰ
use galaxy.Account.{Account, Account-discrete, Signature}
use galaxy.Messages.{Response}
use galaxy.Utils.{get_account_by_id}
use galaxy.Fbft.Fixture.{node, three_env}
use galaxy.Bft.State.{BftCore, give_result, leads, sign_data_verify}
use galaxy.Bft.Rounds.{verified, needed, maybe_commit, wait_response}
use galaxy.Bft.Rounds.Completing.{receive_all, peer_of, IsGood, IsOpen, responses_commit}

abbrev signed_core : BftCore
signed_core = record {
  local = node 1;
  master = node 1;
  peers = node 0 ∷ node 1 ∷ node 2 ∷ node 3 ∷ [];
  signature = record { signatures = (1 ∷ []) ∷ []; sign_map = (node 1, 1 ∷ []) ∷ [] };
  tolerance = 1;
  commit = false;
  digest = 12;
  validator = [];
}

abbrev answer_of : ℕ → Response
answer_of n = record {
  account = node n;
  timestamp = 0;
  digest = 12;
  signature = n ∷ [];
  block_height = 12;
}

abbrev answers : List Response
answers = answer_of 2 ∷ answer_of 3 ∷ []

is_running : IsOpen three_env signed_core
unfolding leads Account-discrete
is_running = (refl, refl, refl)

answers-IsGood : (x : Response) → In x answers → IsGood three_env signed_core x
unfolding get_account_by_id sign_data_verify
answers-IsGood x (inl q) = subst (IsGood three_env signed_core) (sym q) (refl, refl)
answers-IsGood x (inr (inl q)) = subst (IsGood three_env signed_core) (sym q) (refl, refl)
answers-IsGood x (inr (inr n)) = absurd n

answers-Distinct : Distinct (map (peer_of three_env signed_core) answers)
unfolding get_account_by_id
answers-Distinct = ((λ i. ground arith), ((λ n. n), tt))

are_new :
    (a : Account)
    → In a (map (peer_of three_env signed_core) answers)
    → lookup Account-discrete a signed_core.signature.sign_map ≡ none
unfolding get_account_by_id lookup Account-discrete
are_new a (inl q) =
    subst (λ (b : Account). lookup Account-discrete b signed_core.signature.sign_map ≡ none) (sym q)
      refl
are_new a (inr (inl q)) =
    subst (λ (b : Account). lookup Account-discrete b signed_core.signature.sign_map ≡ none) (sym q)
      refl
are_new a (inr (inr n)) = absurd n

enough_peers :
    needed signed_core ≤ length (verified three_env 12 signed_core.signature.sign_map) + 2
unfolding needed verified sign_data_verify
enough_peers = omega arith

few_peers : length (verified three_env 12 signed_core.signature.sign_map) + 2 < 256
unfolding verified sign_data_verify
few_peers = omega arith

responses_commit_example :
    let end = receive_all three_env signed_core answers in
    (signatures : List Signature) × (length signatures
      ≡ length (verified three_env 12 signed_core.signature.sign_map) + 2)
    × (maybe_commit three_env end end.signature.sign_map ≡ (signatures, true))
    × (wait_response three_env end end.signature.sign_map true ≡ (
      record end { commit = true },
      give_result (record { signatures = signatures; ok = true }) ∷ [],
      true,
    ))
responses_commit_example =
    responses_commit three_env signed_core answers
      (receive_all three_env signed_core answers).signature.sign_map is_running answers-IsGood
      answers-Distinct are_new (Permᴰ.refl _) few_peers enough_peers
