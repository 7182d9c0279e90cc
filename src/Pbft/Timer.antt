-- ===== src/Pbft/Timer.antt =====
-- consensus/policy/pbft/tools/timer.go: the loop of the timer as a step on its state.
pub mod Contract
use galaxy.Base.{ℕ, Bool, true, false, not, List, [], ◌∷◌, ◌++◌, Option, none, some, if◌then◌else◌}

-- timerImpl with the variables of its loop: whether timerChan is not nil, whether eventDestChan is
-- not nil, the event, and whether `exit` has been taken.
pub record EventTimer (E : Type 0) : Type 0 where
  pub counting : Bool
  pub fired : Bool
  pub event : Option E
  pub halted : Bool

-- timerStart, with its duration in nanoseconds.
pub record TimerStart (E : Type 0) : Type 0 where
  pub hard : Bool
  pub event : E
  pub duration : ℕ

-- The cases of the select: a start or a stop of the owner, the end of the countdown, the manager that
-- takes the event, and the exit.
pub data Choice (E : Type 0) : Type 0 where
  start : TimerStart E → Choice E
  stop expire deliver exit : Choice E

module _ {E : Type 0} where
  -- NewTimerImpl
  unfoldable pub new_timer_impl : EventTimer E
  new_timer_impl = record { counting = false; fired = false; event = none; halted = false }

  -- SoftReset and Reset, the sends to the loop.
  unfoldable pub soft_reset : ℕ → E → Choice E
  soft_reset timeout e = start (record { hard = false; event = e; duration = timeout })

  unfoldable pub reset : ℕ → E → Choice E
  reset timeout e = start (record { hard = true; event = e; duration = timeout })

  -- The case of a start.
  unfoldable pub started : EventTimer E → TimerStart E → EventTimer E
  started t s =
      if t.counting
      then if s.hard then record t { counting = true; fired = false; event = some s.event } else t
      else record t { counting = true; fired = false; event = some s.event }

  -- One turn of the loop: the state, and what is delivered, if anything. A case on a nil channel is
  -- never chosen, and after its exit the loop takes none: then there is no turn.
  unfoldable pub turn : EventTimer E → Choice E → Option (EventTimer E × List (Option E))
  turn t choice = if t.halted then none else elim choice [
    | start s ↦ some (started t s, [])
    | stop ↦ some (record t { counting = false; fired = false; event = none }, [])
    | expire ↦ if t.counting then some (record t { counting = false; fired = true }, []) else none
    | deliver ↦ if t.fired then some (record t { fired = false }, t.event ∷ []) else none
    | exit ↦ some (record t { halted = true }, [])
  ]

  -- loop, over the cases that it chooses: the state and all that is delivered.
  unfoldable pub loop : EventTimer E → List (Choice E) → Option (EventTimer E × List (Option E))
  loop t [] = some (t, [])
  loop t (choice ∷ choices) = elim (turn t choice) [
    | none ↦ none
    | some out ↦ elim (loop out.0 choices) [
      | none ↦ none
      | some later ↦ some (later.0, out.1 ++ later.1)
    ]
  ]
