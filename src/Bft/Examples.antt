-- ===== src/Bft/Examples.antt =====
-- Three nodes of the bft policy, on which the theorems of the rounds, the commits and the server apply.
use galaxy.Base.{
  ℕ, suc, ◌-◌, ◌≡◌, ◌≢◌, refl, ◌↔◌, ◌≤◌, Distinct, inl, inr, true, false, List, [], ◌∷◌, ◌++◌, some,
  In, arith, lookup, insert, length, ℕ_discrete,
}
use galaxy.Base.Words.{u8, sub8}
use galaxy.Base.Outcome.{returns}
use mathlib.Core.List.{Permᴰ}
use mathlib.Core.List.Permᴰ
use galaxy.Account.{Account, Account-discrete, Block, Signature}
use galaxy.Payloads.{header_hash}
use galaxy.External.{Env}
use galaxy.Messages.{Request, Response, Commit, ReadError, err, encode_message}
use galaxy.Utils.{get_account_by_id}
use galaxy.Fbft.State.{encodes}
use galaxy.Fbft.Quorum.{faulty}
use galaxy.Fbft.Fixture.{node, three, three_env, block_at}
use galaxy.Bft.State.{
  BftCore, start_waiting, new_bft_core, initialization, add_signature, leads, record_payload,
  verify_payload, sign_payload, sign_data_verify,
}
use galaxy.Bft.Rounds.{
  verified, needed, maybe_commit, receive_request, receive_response, propose, collect,
}
use galaxy.Bft.Rounds.Order.{Splits, maybe_commit-perm}
use galaxy.Bft.Steps.{Later, now, after, requested, responded}
use galaxy.Bft.Steps.Signers.{HasSigned, maybe_commit_backed_by_peers}
use galaxy.Bft.Steps.Surplus.{second_request_fails}
use galaxy.Bft.Steps.Vouching.{begun}
use galaxy.Bft.Locking as Locking
use galaxy.Bft.Locking.{Act, Locks, Happens, round_start, locking, sending}
use galaxy.Bft.Locking.Progress.{Deadlocked, round_stops}
use galaxy.Bft.Commits.{at, commit_filter, commit_receivers, receive_commit, finish}
use galaxy.Bft.Commits.Receivers.{commit_receivers-perm}
use galaxy.Bft.Dispatch.{handle_connection}
use galaxy.Bft.Dispatch.Serving.{Ended, handle_connection_ends}

-- A signature is one less than its signer's address, so that none is of the address 0.
abbrev strict_env : Env ℕ
strict_env = record three_env {
  sign = λ a d. some ((a.address - 1) ∷ []);
  verify = λ d s. elim s [ [] ↦ 9 | x ∷ rest ↦ suc x ];
}

abbrev request : Request
request = record { timestamp = 0; account = node 1; payload = block_at 12 }

abbrev response_of : ℕ → Response
response_of n = record {
  account = node (suc n);
  timestamp = 0;
  digest = 12;
  signature = n ∷ [];
  block_height = 12;
}

-- The states of a round in which node 1 proposes and the other two answer.
abbrev proposed_core : BftCore
proposed_core =
    (receive_request strict_env 0 (initialization new_bft_core (node 1) (node 1) three) request).0

abbrev agreed_core : BftCore
agreed_core =
    (receive_response strict_env (receive_response strict_env proposed_core (response_of 1)).0
      (response_of 2)).0

run : Later strict_env (initialization new_bft_core (node 1) (node 1) three) agreed_core
run =
    after (after (after (now _) (requested 0 _ request)) (responded _ (response_of 1)))
      (responded _ (response_of 2))

agreed_commits : (maybe_commit strict_env agreed_core agreed_core.signature.sign_map).1 ≡ true
unfolding initialization new_bft_core receive_request verify_payload sign_payload propose
    record_payload encodes encode_message lookup insert leads add_signature receive_response collect
    sign_data_verify maybe_commit verified needed Account-discrete ℕ_discrete get_account_by_id
agreed_commits = refl

no_zero : (s : Signature) → strict_env.verify agreed_core.digest s ≢ 0
no_zero [] e = cc
no_zero (x ∷ s) e = omega (arith, e)

maybe_commit_backed_by_peers_example :
    (signers : List Account) × Distinct signers
    × ((a : Account)
        → In a signers
        → In a three
          × HasSigned strict_env agreed_core.digest a
              (maybe_commit strict_env agreed_core agreed_core.signature.sign_map).0)
    × (length three - faulty (length three) ≤ length signers)
maybe_commit_backed_by_peers_example =
    maybe_commit_backed_by_peers strict_env new_bft_core agreed_core (node 1) (node 1) three
      agreed_core.signature.sign_map (inl refl) (omega arith) (omega arith) run (Permᴰ.refl _)
      no_zero agreed_commits

-- The map of two signers, in both orders.
abbrev one_two : List (Account × Signature)
one_two = (node 1, 0 ∷ []) ∷ (node 2, 1 ∷ []) ∷ []

abbrev two_one : List (Account × Signature)
two_one = (node 2, 1 ∷ []) ∷ (node 1, 0 ∷ []) ∷ []

maybe_commit-perm_example :
    ((maybe_commit strict_env agreed_core one_two).1
      ≡ (maybe_commit strict_env agreed_core two_one).1)
    × Permᴰ
        (maybe_commit strict_env agreed_core one_two).0
        (maybe_commit strict_env agreed_core two_one).0
    × (length agreed_core.signature.signatures ≡ length agreed_core.signature.sign_map
        → Splits strict_env agreed_core.digest one_two
            (maybe_commit strict_env agreed_core one_two).0
          × (((maybe_commit strict_env agreed_core one_two).1 ≡ true) ↔ (
              sub8 (u8 (length agreed_core.peers)) agreed_core.tolerance
              ≤ u8 (length (maybe_commit strict_env agreed_core one_two).0))))
    × (¬ (length agreed_core.signature.signatures ≡ length agreed_core.signature.sign_map)
        → maybe_commit strict_env agreed_core one_two ≡ ([], false))
maybe_commit-perm_example =
    maybe_commit-perm strict_env agreed_core one_two two_one (Permᴰ.swap refl refl)

proposed_signed :
    lookup Account-discrete proposed_core.local proposed_core.signature.sign_map ≡ some (0 ∷ [])
unfolding initialization new_bft_core receive_request verify_payload sign_payload propose
    record_payload encodes encode_message lookup insert leads add_signature Account-discrete
    ℕ_discrete
proposed_signed = refl

again_waits : In start_waiting (receive_request strict_env 0 proposed_core request).1
unfolding initialization new_bft_core receive_request verify_payload sign_payload propose
    record_payload encodes encode_message lookup insert leads add_signature Account-discrete
    ℕ_discrete
again_waits = inr (inl refl)

second_request_fails_example :
    maybe_commit strict_env
      (receive_response strict_env
        (receive_request strict_env 0 proposed_core request).0
        (response_of 1)).0
      one_two
    ≡ ([], false)
second_request_fails_example =
    second_request_fails strict_env new_bft_core proposed_core
      (receive_response strict_env (receive_request strict_env 0 proposed_core request).0
        (response_of 1)).0
      (node 1) (node 1) three 0 request (0 ∷ []) one_two (after (now _) (requested 0 _ request))
      proposed_signed again_waits (after (now _) (responded _ (response_of 1)))

round_stops_example :
    (((m : Locks) → ¬ Act round_start m) ↔ Deadlocked round_start)
    × Happens (record { waiter = locking; responder = sending; committed = false })
    × (false ≡ true → round_start.responder ≢ sending)
round_stops_example = round_stops round_start Locking.Happens.begun

-- Node 1 of four that are numbered from 0.
abbrev four : BftCore
four = record {
  local = node 1;
  master = node 1;
  peers = node 0 ∷ node 1 ∷ node 2 ∷ node 3 ∷ [];
  signature = record { signatures = []; sign_map = [] };
  tolerance = 1;
  commit = false;
  digest = 12;
  validator = (12, record { block = block_at 12; receipts = 7 }) ∷ [];
}

found_local : at four.peers 1 ≡ some (node 1)
unfolding at
found_local = refl

commit_receivers-perm_example :
    (others : List Account) × (last : Account) × (at four.peers 2 ≡ some last)
    × (commit_receivers four ≡ returns (others ++ last ∷ []))
    × Permᴰ four.peers (node 1 ∷ others ++ last ∷ [])
    × Permᴰ four.peers (node 1 ∷ commit_filter four (node 1))
commit_receivers-perm_example =
    commit_receivers-perm four (omega arith) (omega arith) (omega arith) found_local

-- The hash of the block of height 12 is 112, whatever signatures it has.
abbrev commit_naming : ℕ → Commit
commit_naming hash = record {
  account = node 1;
  timestamp = 0;
  block_hash = hash;
  digest = 12;
  signatures = [];
  result = true;
}

-- Node 1 has proposed block 12, and takes the commit of it.
abbrev handled : List (ℕ × Account × Block)
handled = (0, node 1, request.payload) ∷ []

-- It does store block 12.
stores_twelve : (receive_commit strict_env 11 proposed_core (commit_naming 112)).0 ≡ 12
unfolding initialization new_bft_core receive_request verify_payload sign_payload propose
    record_payload encodes encode_message lookup insert leads add_signature Account-discrete
    ℕ_discrete receive_commit finish header_hash
stores_twelve = refl

handle_connection_ends_example :
    (handle_connection three_env 11 four (err ReadError.bad_json ∷ err ReadError.short_body ∷ [])
      ≡ handle_connection three_env 11 four (err ReadError.bad_json ∷ []))
    × Ended three_env (
        handle_connection three_env 11 four
          (err ReadError.bad_json ∷ err ReadError.short_body ∷ []))
handle_connection_ends_example =
    handle_connection_ends three_env 11 four [] (err ReadError.short_body ∷ []) ReadError.bad_json
