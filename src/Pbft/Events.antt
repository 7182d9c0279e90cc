-- ===== src/Pbft/Events.antt =====
-- consensus/policy/pbft/tools/events.go: SendEvent and the manager. The receiver is a parameter: its
-- ProcessEvent gives its next state and, if it is not nil, the next event. SendEvent gives `none` where
-- its fuel ends first.
use galaxy.Base.{ℕ, zero, suc, Bool, true, false, List, [], ◌∷◌, Option, none, some}

-- managerImpl: whether it has a receiver, and whether `exit` is closed.
pub record Manager (S : Type 0) : Type 0 where
  pub receiver : Option S
  pub exited : Bool

module _ {S : Type 0} where
  -- NewManagerImpl, SetReceiver and Halt, of which a second call only warns.
  unfoldable pub new_manager_impl : Manager S
  new_manager_impl = record { receiver = none; exited = false }

  unfoldable pub set_receiver : Manager S → S → Manager S
  set_receiver m receiver = record m { receiver = some receiver }

  unfoldable pub halt : Manager S → Manager S
  halt m = record m { exited = true }

module _ {S E : Type 0} (process_event : S → E → S × Option E) where
  -- SendEvent
  unfoldable pub send_event : ℕ → S → E → Option S
  send_event zero s event = none
  send_event (suc fuel) s event =
      let (s', next) = process_event s event in
      elim next [ none ↦ some s' | some e ↦ send_event fuel s' e ]

  -- Inject: without a receiver the event is lost.
  unfoldable pub inject : ℕ → Manager S → E → Option (Manager S)
  inject fuel m event = elim m.receiver [
    | none ↦ some m
    | some s ↦ elim (send_event fuel s event) [
      | none ↦ none
      | some s' ↦ some (record m { receiver = some s' })
    ]
  ]

  -- eventLoop on the events that it takes from the queue.
  unfoldable pub event_loop : ℕ → Manager S → List E → Option (Manager S)
  event_loop fuel m [] = some m
  event_loop fuel m (event ∷ events) = elim (inject fuel m event) [
    | none ↦ none
    | some m' ↦ event_loop fuel m' events
  ]
