-- ===== src/Fbft/Dispatch/Steps.antt =====
-- The life of a node as steps of its core, and what holds in every state that it reaches.
use galaxy.Base.{
  lookup, ℕ, zero, suc, ◌≤◌, ◌<◌, ◌≡◌, refl, sym, subst, Bool, true, List, Option, none, some,
  arith, In, Distinct, length,
}
use galaxy.Base.Outcome.{
  Outcome, returns, panics, ◌>>=◌, OnReturn, OnReturn-bind, OnReturn-holds, OnReturn-map,
}
use galaxy.Account.{Account, Block, Signature}
use galaxy.External.{Env}
use galaxy.Content.{get_sign_by_account}
use galaxy.Plugin.{new_consensus_plugin, get_content_by_hash}
use galaxy.Plugin.Heap.{new_consensus_plugin-IsValid}
use galaxy.Fbft.State.{Core, CoreTimeout, NodesInfo, Effect, new_fbft_core, initialization}
use galaxy.Fbft.Quorum.{maybe_commit, threshold}
use galaxy.Fbft.Genuine.{Genuine, SamePlugin}
use galaxy.Fbft.Leader.{wait_response_round, try_to_commit}
use galaxy.Fbft.Leader.Signatures.{
  AllGenuine, SignVerifies, receive_request-Genuine, receive_response-Genuine,
  wait_response_round-Genuine, try_to_commit-Genuine, maybe_commit_backed,
}
use galaxy.Fbft.Replica.Keeping.{receive_proposal-Genuine, receive_commit-Genuine}
use galaxy.Fbft.ViewChanging.{start_timer, end_timer}
use galaxy.Fbft.ViewChanging.Contents.{receive_change_view_req-plugin}
use galaxy.Fbft.Joining.{send_online_request}
use galaxy.Fbft.Joining.Contents.{
  send_online_request-plugin, receive_online_request-plugin, receive_online_response-plugin,
}
use galaxy.Fbft.Sync.{receive_sync_block_request, receive_sync_block_response}
use galaxy.Fbft.Dispatch.{
  Incoming, Turn, process_event, send_event, turned, next_event, request, proposal, response,
  commit, sync_block_req, sync_block_resp, view_change_req, online_request, online_response, other,
}

module _ {World : Type 0} (env : Env World) where
  new_fbft_core-Genuine :
      (nodes : NodesInfo) (timer : CoreTimeout) (empty sync local : Bool)
      → AllGenuine env (new_fbft_core nodes timer empty sync local)
  unfolding new_fbft_core new_consensus_plugin get_content_by_hash lookup
  new_fbft_core-Genuine nodes timer empty sync local = record {
    valid = new_consensus_plugin-IsValid;
    contents = λ k r e. cc;
  }

  -- What a handler that keeps the contents leaves genuine.
  same-Genuine :
      (core : Core) (m : Outcome (Core × List Effect))
      → AllGenuine env core
      → OnReturn (SamePlugin core) m
      → OnReturn (λ out. AllGenuine env out.0) m
  same-Genuine core m g =
      OnReturn-map (SamePlugin core) (λ out. AllGenuine env out.0) m
        (λ out same. subst (Genuine env) (sym same) g)

  -- Of a turn that ends.
  abbrev pub GenuineTurn : Option (Turn World) → Type 0
  GenuineTurn none = Unit
  GenuineTurn (some turn) = AllGenuine env turn.core

  from_handler :
      (w : World) (m : Outcome (Core × List Effect))
      → OnReturn (λ out. AllGenuine env out.0) m
      → OnReturn GenuineTurn (m >>= λ out. returns (turned env w out))
  from_handler w (returns out) g = g
  from_handler w panics g = tt

  -- Every event leaves all signatures genuine.
  pub process_event-Genuine :
      (fuel : ℕ) (w : World) (core : Core) (event : Incoming)
      → SignVerifies env
      → AllGenuine env core
      → OnReturn GenuineTurn (process_event env fuel w core event)
  unfolding process_event
  process_event-Genuine fuel w core (request et) law g = receive_request-Genuine env w core et law g
  process_event-Genuine fuel w core (proposal et) law g =
      from_handler w _ (receive_proposal-Genuine env w core et g)
  process_event-Genuine fuel w core (response et) law g = receive_response-Genuine env core et g
  process_event-Genuine fuel w core (commit et) law g = receive_commit-Genuine env core et g
  process_event-Genuine fuel w core (sync_block_req et) law g =
      OnReturn-bind GenuineTurn (receive_sync_block_request env fuel w et) _
        (λ sent e. answered sent)
    where
      answered :
          (sent : Option (List Effect))
          → GenuineTurn (elim sent [ none ↦ none | some effects ↦ turned env w (core, effects) ])
      answered none = tt
      answered (some effects) = g
  process_event-Genuine fuel w core (sync_block_resp et) law g =
      OnReturn-bind GenuineTurn (receive_sync_block_response env w core et) _ (λ w' e. g)
  process_event-Genuine fuel w core (view_change_req et) law g =
      from_handler w _ (same-Genuine core _ g (receive_change_view_req-plugin env core et))
  process_event-Genuine fuel w core (online_request et) law g =
      from_handler w _ (same-Genuine core _ g (receive_online_request-plugin env w core et))
  process_event-Genuine fuel w core (online_response et) law g =
      from_handler w _ (same-Genuine core _ g (receive_online_response-plugin env w core et))
  process_event-Genuine fuel w core other law g = g

  -- One step of a node: an event, a round of waitResponse, the end of ToConsensus, the call that brings
  -- it online, or one end of the change-view timer. Between its steps the store may change.
  pub data Step : Core → Core → Type 0 where
    event :
        (fuel : ℕ) (w : World) {core : Core} (e : Incoming) (turn : Turn World)
        → process_event env fuel w core e ≡ returns (some turn)
        → Step core turn.core
    round :
        {core : Core} (digest r : ℕ) (timeout : Bool)
        → Step core (wait_response_round core digest r timeout).0
    finished :
        {core : Core} (block : Block) (outcome : Bool)
        → Step core (try_to_commit env core block outcome).0
    coming_online :
        (w : World) {core : Core} (out : Core × List Effect)
        → send_online_request env w core ≡ returns out
        → Step core out.0
    timer_on :
        {core core' : Core} (nodes : NodesInfo)
        → start_timer core ≡ some (core', nodes)
        → Step core core'
    timer_off :
        {core : Core} (nodes : NodesInfo) (fires : Bool)
        → Step core (end_timer env core nodes fires).0

  -- What a node reaches from the core that NewFBFTCore makes and Initialization fills.
  pub data Reached : Core → Type 0 where
    start :
        (timer : CoreTimeout) (nodes : NodesInfo) (empty sync local_verify : Bool)
        (local master : Account) (peers : List Account) (on_line : Bool) (random : ℕ)
        → Reached
            (initialization
              (new_fbft_core nodes timer empty sync local_verify)
              local
              master
              peers
              on_line
              random).0
    next : {core core' : Core} → Reached core → Step core core' → Reached core'

  start_timer-plugin :
      (core core' : Core) (nodes : NodesInfo)
      → start_timer core ≡ some (core', nodes)
      → core'.consensus_plugin ≡ core.consensus_plugin
  unfolding start_timer
  start_timer-plugin core core' nodes e = ground arith

  end_timer-plugin :
      (core : Core) (nodes : NodesInfo) (fires : Bool)
      → (end_timer env core nodes fires).0.consensus_plugin ≡ core.consensus_plugin
  unfolding end_timer
  end_timer-plugin core nodes fires = ground arith

  Step-Genuine :
      (core core' : Core)
      → SignVerifies env
      → AllGenuine env core
      → Step core core'
      → AllGenuine env core'
  Step-Genuine core core' law g (event fuel w e turn done) =
      OnReturn-holds GenuineTurn (process_event env fuel w core e) (some turn)
        (process_event-Genuine fuel w core e law g) done
  Step-Genuine core core' law g (round digest r timeout) =
      wait_response_round-Genuine env core digest r timeout g
  Step-Genuine core core' law g (finished block outcome) =
      try_to_commit-Genuine env core block outcome g
  Step-Genuine core core' law g (coming_online w out done) =
      OnReturn-holds (λ o. AllGenuine env o.0) (send_online_request env w core) out
        (same-Genuine core _ g (send_online_request-plugin env w core)) done
  Step-Genuine core core' law g (timer_on nodes done) =
      subst (Genuine env) (sym (start_timer-plugin core core' nodes done)) g
  Step-Genuine core core' law g (timer_off nodes fires) =
      subst (Genuine env) (sym (end_timer-plugin core nodes fires)) g

  initialization-plugin :
      (core : Core) (local master : Account) (peers : List Account) (on_line : Bool) (random : ℕ)
      → (initialization core local master peers on_line random).0.consensus_plugin
        ≡ core.consensus_plugin
  unfolding initialization
  initialization-plugin core local master peers on_line random = refl

  Reached-Genuine : (core : Core) → SignVerifies env → Reached core → AllGenuine env core
  Reached-Genuine core law (start timer nodes empty sync lv l m p o n) =
      subst (Genuine env)
        (sym (initialization-plugin (new_fbft_core nodes timer empty sync lv) l m p o n))
        (new_fbft_core-Genuine nodes timer empty sync lv)
  Reached-Genuine core law (next {core = before} r step) =
      Step-Genuine before core law (Reached-Genuine before law r) step

  -- In every state that a node reaches, by any steps in any order, a digest that it finds committed
  -- has behind it as many distinct accounts as the threshold asks for, one for each signature that
  -- maybeCommit gives: the signature that the content keeps for the account is among those, and
  -- verifies, for that digest, as the account's own. This is for fewer than 256 signatures, if what
  -- an account signs verifies as its own.
  pub Reached-backed :
      (core : Core) (digest r : ℕ)
      → SignVerifies env
      → Reached core
      → get_content_by_hash core.consensus_plugin digest ≡ some r
      → length (core.consensus_plugin.heap r).signatures < 256
      → (maybe_commit core digest).1 ≡ true
      → (signers : List Account) × Distinct signers
        × (threshold core ≤ length signers)
        × (length signers ≡ length (maybe_commit core digest).0)
        × ((a : Account)
            → In a signers
            → (s : Signature) × (get_sign_by_account (core.consensus_plugin.heap r) a ≡ some s)
              × In s (maybe_commit core digest).0
              × (env.verify digest s ≡ a.address))
  Reached-backed core digest r law reached found small done =
      maybe_commit_backed env core digest r (Reached-Genuine core law reached) found small done

  -- SendEvent never ends on an event that ProcessEvent does not know: any number of turns is too
  -- few.
  send_event_endless :
      (turns fuel : ℕ) (w : World) (core : Core)
      → send_event env turns fuel w core other ≡ returns none
  unfolding send_event process_event next_event
  send_event_endless zero fuel w core = refl
  send_event_endless (suc turns) fuel w core = rw (send_event_endless turns fuel w core) refl
