-- ===== src/Online/Examples.antt =====
-- The first answers at height 0, for a level of two.
use galaxy.Base.{ℕ, ◌≡◌, refl, ◌≢◌, [], ◌∷◌, some, max, lookup, insert, ℕ_discrete}
use galaxy.Base.Outcome.{returns}
use galaxy.Account.{Account, Account-discrete}
use galaxy.Online.{
  OnlineWizard, ResponseNodes, online, go_online, new_online_wizard, add_response_nodes, add_all,
  add_online_response,
}
use galaxy.Online.Panics.{response_at}
use galaxy.Online.Master.{
  AllValid, Answered, add_online_response-Answered, add_online_response-AllValid,
}

abbrev node : ℕ → Account
node n = record { address = n; extension = record { id = n; url = [] } }

-- Node 1 has answered, with itself as the master.
abbrev one_answer : OnlineWizard
one_answer = record {
  block_height = 0;
  block_height_list = 0 ∷ [];
  response =
      (
        0,
        record {
          nodes = node 1 ∷ [];
          node = (1, node 1) ∷ [];
          state = go_online;
          master = node 1;
          view_num = 0;
          walter_level = 2;
        },
      )
      ∷ [];
}

abbrev two_answers : OnlineWizard
two_answers = record {
  block_height = 0;
  block_height_list = 0 ∷ [];
  response =
      (
        0,
        record {
          nodes = node 1 ∷ node 2 ∷ [];
          node = (1, node 1) ∷ (2, node 2) ∷ [];
          state = online;
          master = node 1;
          view_num = 0;
          walter_level = 2;
        },
      )
      ∷ [];
}

first_answer :
    add_online_response new_online_wizard 0 (node 1 ∷ []) 2 (node 1) 0
    ≡ returns (one_answer, node 1 ∷ [], go_online)
unfolding add_online_response new_online_wizard add_all add_response_nodes lookup insert
    Account-discrete ℕ_discrete
first_answer = refl

second_answer :
    add_online_response one_answer 0 (node 2 ∷ []) 2 (node 1) 0
    ≡ returns (two_answers, node 1 ∷ node 2 ∷ [], online)
unfolding add_online_response add_all add_response_nodes lookup insert Account-discrete ℕ_discrete
second_answer = refl

empty-AllValid : AllValid new_online_wizard
unfolding new_online_wizard lookup
empty-AllValid h r e = cc

one_answer-AllValid : AllValid one_answer
one_answer-AllValid =
    add_online_response-AllValid new_online_wizard 0 2 (node 1) 0 (node 1 ∷ [])
      (one_answer, node 1 ∷ [], go_online) empty-AllValid first_answer

add_online_response-Answered_example :
    ((r : ResponseNodes) × (response_at two_answers 0 ≡ some r)
      × Answered one_answer 0 (node 2 ∷ []) (node 1) 0 r)
    × ((j : ℕ) → j ≢ 0 → response_at two_answers j ≡ response_at one_answer j)
    × (two_answers.block_height ≡ max one_answer.block_height 0)
add_online_response-Answered_example =
    add_online_response-Answered one_answer 0 2 (node 1) 0 (node 2 ∷ [])
      (two_answers, node 1 ∷ node 2 ∷ [], online) one_answer-AllValid second_answer
