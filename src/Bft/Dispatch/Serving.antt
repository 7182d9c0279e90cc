-- ===== src/Bft/Dispatch/Serving.antt =====
-- How long handleConnection serves.
use galaxy.Base.{◌≡◌, refl, ap, Bool, true, List, [], ◌∷◌, ◌++◌}
use galaxy.Base.Outcome.{Outcome, returns, panics, ◌>>=◌, OnReturn}
use galaxy.External.{Env}
use galaxy.Messages.{ReadResult, ReadError, err}
use galaxy.Bft.State.{BftCore}
use galaxy.Bft.Dispatch.{
  BftTurn, Reading, event, skipped, stopped, process_event, reading, serve, handle_connection,
}

module _ {World : Type 0} (env : Env World) where
  -- The end of the server, if it has not panicked.
  abbrev pub Ended : Outcome (BftTurn World × Bool) → Type 0
  Ended m = OnReturn (λ out. out.1 ≡ true) m

  abbrev joined : BftTurn World → BftTurn World × Bool → Outcome (BftTurn World × Bool)
  joined turn out =
      let later = out.0 in returns (record later { effects = turn.effects ++ later.effects }, out.1)

  -- Two futures that agree and both end, after what comes first.
  bind-ends :
      {A : Type 0} (m : Outcome A) (f g : A → Outcome (BftTurn World × Bool))
      → ((a : A) → (f a ≡ g a) × Ended (f a))
      → ((m >>= f) ≡ (m >>= g)) × Ended (m >>= f)
  bind-ends panics f g h = (refl, tt)
  bind-ends (returns a) f g h = h a

  after_turn :
      (turn : BftTurn World) (m n : Outcome (BftTurn World × Bool))
      → (m ≡ n) × Ended m
      → ((m >>= joined turn) ≡ (n >>= joined turn)) × Ended (m >>= joined turn)
  after_turn turn (returns out) n (same, ended) = (ap (λ x. x >>= joined turn) same, ended)
  after_turn turn panics n (same, ended) = (ap (λ x. x >>= joined turn) same, tt)

  -- A turn of the loop before two futures that agree and both end.
  serve-ends :
      (w : World) (core : BftCore) (what : Reading)
      (next other : World → BftCore → Outcome (BftTurn World × Bool))
      → ((w' : World) (core' : BftCore) → (next w' core' ≡ other w' core') × Ended (next w' core'))
      → (serve env w core what next ≡ serve env w core what other)
        × Ended (serve env w core what next)
  unfolding serve
  serve-ends w core stopped next other h = (refl, refl)
  serve-ends w core skipped next other h = h w core
  serve-ends w core (event e) next other h =
      bind-ends (process_event env w core e) (λ turn. next turn.world turn.core >>= joined turn)
        (λ turn. other turn.world turn.core >>= joined turn)
        (λ turn.
          after_turn turn (next turn.world turn.core) (other turn.world turn.core)
            (h turn.world turn.core))

  -- One connection that cannot be read ends the server: whatever comes first and whatever comes after it,
  -- what comes after it is not served, and the server has ended unless it has panicked before.
  pub handle_connection_ends :
      (w : World) (core : BftCore) (before after : List ReadResult) (e : ReadError)
      → (handle_connection env w core (before ++ err e ∷ after)
          ≡ handle_connection env w core (before ++ err e ∷ []))
        × Ended (handle_connection env w core (before ++ err e ∷ after))
  unfolding handle_connection reading serve
  handle_connection_ends w core [] after e = (refl, refl)
  handle_connection_ends w core (r ∷ before) after e = bind-ends (reading env core r) _ _ (λ what.
      serve-ends w core what (λ w' core'. handle_connection env w' core' (before ++ err e ∷ after))
        (λ w' core'. handle_connection env w' core' (before ++ err e ∷ []))
        (λ w' core'. handle_connection_ends w' core' before after e))
