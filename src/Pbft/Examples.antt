-- ===== src/Pbft/Examples.antt =====
-- A timer whose event has fired and waits for the manager.
use galaxy.Base.{ℕ, ◌≡◌, refl, ◌⊎◌, inl, true, false, List, [], ◌∷◌, Option, some, In}
use galaxy.Pbft.Timer.{EventTimer, Choice, stop, expire, deliver, loop, reset}
use galaxy.Pbft.Timer.Contract.{starts, timer_contract}

abbrev fired_timer : EventTimer ℕ
fired_timer = record { counting = false; fired = true; event = some 1; halted = false }

-- What follows: the countdown ends and the manager takes the event.
abbrev taken : List (Choice ℕ)
taken = reset 5 2 ∷ expire ∷ deliver ∷ []

abbrev own : Option ℕ
own = some 2

abbrev end : EventTimer ℕ × List (Option ℕ)
end = (record { counting = false; fired = false; event = some 2; halted = false }, some 2 ∷ [])

timer_contract_example :
    (loop fired_timer (stop ∷ taken) ≡ some end → In (some 2) (starts taken))
    × (loop fired_timer (reset 5 3 ∷ taken) ≡ some end
        → (own ≡ some 3) ⊎ In (some 2) (starts taken))
timer_contract_example = timer_contract fired_timer 5 3 taken end (some 2) (inl refl)
