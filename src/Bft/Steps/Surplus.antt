-- ===== src/Bft/Steps/Surplus.antt =====
-- A second request in one round: addSignature appends a signature for an account that has signed, so
-- that maybeCommit finds the list and the map of different lengths from then on.
use galaxy.Base.{
  ℕ, ◌+◌, ◌≤◌, ◌<◌, ◌≡◌, refl, sym, subst, ◌⊎◌, inl, inr, false, Bool-cases, Option-cases, List, [],
  ◌∷◌, some, In, arith, lookup, insert, length, length-append,
}
use galaxy.Account.{Account, Account-discrete, Signature}
use galaxy.External.{Env}
use galaxy.Messages.{Request}
use galaxy.Fbft.State.{encodes}
use galaxy.Bft.State.{
  BftCore, SignData, Action, start_waiting, add_signature, verify_payload, sign_payload,
  record_payload, initialization,
}
use galaxy.Bft.Rounds.{receive_request, maybe_commit, propose, proposal_of}
use galaxy.Bft.Steps.{Later, Moves, Step-Moves, now, after}

-- More signatures in the list than accounts in the map.
abbrev pub Surplus : SignData → Type 0
Surplus s = length s.sign_map < length s.signatures

module _ {K V : Type 0} (eq : Discrete K) where
  length-insert_le : (k : K) (v : V) (m : List (K × V)) → length (insert eq k v m) ≤ length m + 1
  unfolding insert
  length-insert_le k v [] = omega arith
  length-insert_le k v ((j, w) ∷ m) = ground (arith, length-insert_le k v m)

  length-insert_known :
      (k : K) (v w : V) (m : List (K × V))
      → lookup eq k m ≡ some w
      → length (insert eq k v m) ≡ length m
  unfolding insert lookup
  length-insert_known k v w [] h = cc
  length-insert_known k v w ((j, u) ∷ m) h = ground (arith, length-insert_known k v w m)

add_signature-Surplus :
    (s : SignData) (a : Account) (x : Signature) → Surplus s → Surplus (add_signature s a x)
unfolding add_signature
add_signature-Surplus s a x h =
    omega
      (arith, length-insert_le Account-discrete a x s.sign_map, length-append s.signatures (x ∷ []))

-- No fewer signatures than accounts, as every round starts.
abbrev IsFilled : SignData → Type 0
IsFilled s = length s.sign_map ≤ length s.signatures

add_signature-IsFilled :
    (s : SignData) (a : Account) (x : Signature) → IsFilled s → IsFilled (add_signature s a x)
unfolding add_signature
add_signature-IsFilled s a x h =
    omega
      (arith, length-insert_le Account-discrete a x s.sign_map, length-append s.signatures (x ∷ []))

add_signature_again :
    (s : SignData) (a : Account) (x mine : Signature)
    → lookup Account-discrete a s.sign_map ≡ some mine
    → IsFilled s
    → Surplus (add_signature s a x)
unfolding add_signature
add_signature_again s a x mine signed h = omega (
  arith,
  length-insert_known Account-discrete a x mine s.sign_map signed,
  length-append s.signatures (x ∷ []),
)

-- What a request does to the signatures where its proposal goes out.
abbrev Signed : BftCore → BftCore × List Action → Type 0
Signed core out =
    (¬ In start_waiting out.1)
    ⊎ ((s : Signature) × (out.0.signature ≡ add_signature core.signature core.local s))

Moves-IsFilled :
    (core core' : BftCore) → Moves core core' → IsFilled core.signature → IsFilled core'.signature
Moves-IsFilled core core' m h = elim m.3 [
  | inl e ↦ subst IsFilled (sym e) h
  | inr (a, s, may, e) ↦ subst IsFilled (sym e) (add_signature-IsFilled core.signature a s h)
]

Moves-Surplus :
    (core core' : BftCore) → Moves core core' → Surplus core.signature → Surplus core'.signature
Moves-Surplus core core' m h = elim m.3 [
  | inl e ↦ subst Surplus (sym e) h
  | inr (a, s, may, e) ↦ subst Surplus (sym e) (add_signature-Surplus core.signature a s h)
]

begins :
    (before : BftCore) (local master : Account) (peers : List Account)
    → let core = initialization before local master peers in
      length core.signature.sign_map ≤ length core.signature.signatures
unfolding initialization
begins before local master peers = omega arith

module _ {World : Type 0} (env : Env World) where
  Later-Surplus :
      {core core' : BftCore}
      → Later env core core'
      → Surplus core.signature
      → Surplus core'.signature
  Later-Surplus (now core) h = h
  Later-Surplus (after {c} {d} {e} l s) h = Moves-Surplus d e (Step-Moves env s) (Later-Surplus l h)

  -- A proposal that goes out is signed.
  propose-Signed :
      (core : BftCore) (x : Request) (receipts : ℕ) (s : Signature)
      → Signed core (propose env core x receipts s)
  unfolding propose record_payload
  propose-Signed core x receipts s = elim (Bool-cases (encodes env (proposal_of env core x s))) [
    | inl e ↦ rw e (inr (s, refl))
    | inr e ↦ rw e (inl (λ i. i))
  ]

  receive_request-Signed :
      (w : World) (core : BftCore) (x : Request) → Signed core (receive_request env w core x)
  unfolding receive_request
  receive_request-Signed w core x = elim (Option-cases (verify_payload env w x.payload)) [
    | inl e ↦ ground arith
    | inr (r, e) ↦ elim (Option-cases (sign_payload env core x.payload.header.mix_digest)) [
      | inl f ↦ ground arith
      | inr (s, f) ↦ ground (arith, propose-Signed core x r s)
    ]
  ]

  Surplus-stuck :
      (core : BftCore) (order : List (Account × Signature))
      → Surplus core.signature
      → maybe_commit env core order ≡ ([], false)
  unfolding maybe_commit
  Surplus-stuck core order h = ground arith

  request-Surplus :
      (w : World) (core : BftCore) (x : Request) (mine : Signature)
      → lookup Account-discrete core.local core.signature.sign_map ≡ some mine
      → length core.signature.sign_map ≤ length core.signature.signatures
      → In start_waiting (receive_request env w core x).1
      → Surplus (receive_request env w core x).0.signature
  request-Surplus w core x mine signed filled i = elim (receive_request-Signed w core x) [
    | inl n ↦ absurd (n i)
    | inr (s, e) ↦
        subst Surplus (sym e) (add_signature_again core.signature core.local s mine signed filled)
  ]

  Later-IsFilled :
      {core core' : BftCore}
      → Later env core core'
      → IsFilled core.signature
      → IsFilled core'.signature
  Later-IsFilled (now core) h = h
  Later-IsFilled (after {c} {d} {e} l s) h =
      Moves-IsFilled d e (Step-Moves env s) (Later-IsFilled l h)

  -- Two requests in one round leave it without a result: if the master, whose round has begun with
  -- Initialization, has signed, and another request is proposed, then maybeCommit gives an error and no
  -- signature in every state that follows, whatever responses come, until the next Initialization.
  pub second_request_fails :
      (before core later : BftCore) (local master : Account) (peers : List Account) (w : World)
      (x : Request) (mine : Signature) (order : List (Account × Signature))
      → Later env (initialization before local master peers) core
      → lookup Account-discrete core.local core.signature.sign_map ≡ some mine
      → In start_waiting (receive_request env w core x).1
      → Later env (receive_request env w core x).0 later
      → maybe_commit env later order ≡ ([], false)
  second_request_fails before core later local master peers w x mine order run signed i rest =
      Surplus-stuck later order (
        Later-Surplus rest (
          request-Surplus w core x mine signed
            (Later-IsFilled run (begins before local master peers)) i))
