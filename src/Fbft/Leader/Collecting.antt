-- ===== src/Fbft/Leader/Collecting.antt =====
-- How the responses of enough accounts add up to a commit.
use galaxy.Base.{
  ℕ, ◌+◌, ◌≤◌, ◌<◌, ◌≡◌, ◌≢◌, refl, sym, ap, subst, ◌∙◌, inl, inr, true, List, [], ◌∷◌, ◌++◌, map,
  none, some, arith, In, Distinct, length, length-append, append_assoc, append-nil,
}
use galaxy.Account.{Account, Signature}
use galaxy.External.{Env}
use galaxy.Payloads.{signature_verify}
use galaxy.Content.{in_consensus, add_signature, get_sign_by_account}
use galaxy.Content.Signing.{add_signature_once}
use galaxy.Plugin.{get_content_by_hash}
use galaxy.Messages.{Response}
use galaxy.Fbft.State.{Core, is_master}
use galaxy.Fbft.Quorum.{maybe_commit, threshold}
use galaxy.Fbft.Leader.{receive_response, with_content}
use galaxy.Fbft.Leader.Signers.{counted}

module _ {World : Type 0} (env : Env World) where
  -- Responses one after the other.
  unfoldable pub receive_responses : Core → List Response → Core
  receive_responses core [] = core
  receive_responses core (x ∷ xs) = receive_responses (receive_response env core x).0 xs

  -- A master that collects the signatures of a content.
  pub record Collecting (core : Core) (digest r : ℕ) : Type 0 where
    pub found : get_content_by_hash core.consensus_plugin digest ≡ some r
    pub under_way : (core.consensus_plugin.heap r).state ≡ in_consensus
    pub master : is_master core.nodes ≡ true

  -- Responses that it may count: in time, for the digest, with a signature that verifies, of accounts
  -- that have not signed, each once.
  pub record Countable (core : Core) (digest r : ℕ) (xs : List Response) : Type 0 where
    pub good :
        (x : Response)
        → In x xs
        → (x.digest ≡ digest)
          × (core.consensus_plugin.latest_block_height < x.block_height)
          × (signature_verify env x.account x.signature x.digest ≡ true)
          × (get_sign_by_account (core.consensus_plugin.heap r) x.account ≡ none)
    pub once : Distinct (map (λ (x : Response). x.account) xs)

  -- The core after the first of them.
  abbrev after : Core → ℕ → Response → Core
  after core r x =
      with_content core r (add_signature (core.consensus_plugin.heap r) x.account x.signature).0

  after-Collecting :
      (core : Core) (digest r : ℕ) (x : Response)
      → Collecting core digest r
      → Collecting (after core r x) digest r
  unfolding get_content_by_hash
  after-Collecting core digest r x c = record {
    found = c.found;
    under_way = ground (
      arith,
      c.under_way,
      add_signature_once (core.consensus_plugin.heap r) x.account x.account x.signature,
    );
    master = c.master;
  }

  In-account :
      (x : Response) (xs : List Response)
      → In x xs
      → In x.account (map (λ (y : Response). y.account) xs)
  In-account x (y ∷ xs) (inl e) = inl (ap (λ (z : Response). z.account) e)
  In-account x (y ∷ xs) (inr i) = inr (In-account x xs i)
  In-account x [] i = absurd i

  after-Countable :
      (core : Core) (digest r : ℕ) (x : Response) (xs : List Response)
      → Countable core digest r (x ∷ xs)
      → Countable (after core r x) digest r xs
  after-Countable core digest r x xs c = record {
    good = λ y i.
        let (d, late, ok, fresh) = c.good y (inr i) in
        let other : x.account ≢ y.account = λ e. c.once.0 (
          subst (λ (a : Account). In a (map (λ (z : Response). z.account) xs)) (sym e)
            (In-account y xs i)) in
        (
          d,
          late,
          ok,
          ground (
            arith,
            add_signature_once (core.consensus_plugin.heap r) x.account y.account x.signature,
            fresh,
            other,
          ),
        );
    once = c.once.1;
  }

  counted_first :
      (core : Core) (digest r : ℕ) (x : Response) (xs : List Response)
      → Collecting core digest r
      → Countable core digest r (x ∷ xs)
      → ((receive_response env core x).0 ≡ after core r x)
        × (((after core r x).consensus_plugin.heap r).signatures
            ≡ (core.consensus_plugin.heap r).signatures ++ x.signature ∷ [])
  counted_first core digest r x xs c k =
      let (d, late, ok, fresh) = k.good x (inl refl) in
      (
        ap (λ out. out.0)
            (counted env core r x (record {
              found = ap (get_content_by_hash core.consensus_plugin) d ∙ c.found;
              under_way = c.under_way;
              late = late;
              master = c.master;
              verified = ok;
            })),
        ground (
          arith,
          add_signature_once (core.consensus_plugin.heap r) x.account x.account x.signature,
          fresh,
        ),
      )

  -- What responses leave: the signatures of the core before, and theirs in order.
  abbrev Added : Core → ℕ → ℕ → List Response → Core → Type 0
  Added core digest r xs core' =
      Collecting core' digest r
      × (core'.nodes ≡ core.nodes)
      × (core'.tolerance ≡ core.tolerance)
      × ((core'.consensus_plugin.heap r).signatures
          ≡ (core.consensus_plugin.heap r).signatures ++ map (λ (x : Response). x.signature) xs)

  receive_responses-Added :
      (xs : List Response) (core : Core) (digest r : ℕ)
      → Collecting core digest r
      → Countable core digest r xs
      → Added core digest r xs (receive_responses core xs)
  unfolding receive_responses
  receive_responses-Added [] core digest r c k = (c, refl, refl, sym (append-nil _))
  receive_responses-Added (x ∷ xs) core digest r c k =
      let (same, one) = counted_first core digest r x xs c k in
      let (c', nodes, tolerance, rest) =
        receive_responses-Added xs (after core r x) digest r (after-Collecting core digest r x c)
          (after-Countable core digest r x xs k) in
      subst (λ (q : Core). Added core digest r (x ∷ xs) (receive_responses q xs)) (sym same)
        (
          c',
          nodes,
          tolerance,
          rest
              ∙ ap (λ (l : List Signature). l ++ map (λ (y : Response). y.signature) xs) one
              ∙ append_assoc (core.consensus_plugin.heap r).signatures (x.signature ∷ [])
                  (map (λ (y : Response). y.signature) xs),
        )

  length-map : (xs : List Response) → length (map (λ (x : Response). x.signature) xs) ≡ length xs
  length-map [] = refl
  length-map (x ∷ xs) = omega (arith, length-map xs)

  -- A master that collects the signatures of a content, and gets responses in time, each under a
  -- signature that verifies, of accounts that have not signed before, each once, finds the digest
  -- committed as soon as the signatures it had and the responses are as many as the threshold asks for.
  -- This is for fewer than 256 of both.
  pub receive_responses_commit :
      (xs : List Response) (core : Core) (digest r : ℕ)
      → Collecting core digest r
      → Countable core digest r xs
      → length (core.consensus_plugin.heap r).signatures + length xs < 256
      → threshold core ≤ length (core.consensus_plugin.heap r).signatures + length xs
      → (maybe_commit (receive_responses core xs) digest).1 ≡ true
  unfolding maybe_commit threshold
  receive_responses_commit xs core digest r c k small enough =
      let (c', nodes, tolerance, signatures) = receive_responses-Added xs core digest r c k in
      let old = (core.consensus_plugin.heap r).signatures in
      let count : length ((receive_responses core xs).consensus_plugin.heap r).signatures
          ≡ length old + length xs =
        ap (length {A = Signature}) signatures
        ∙ length-append old (map (λ (x : Response). x.signature) xs)
        ∙ ap (λ (n : ℕ). length old + n) (length-map xs) in
      ground (arith, c'.found, nodes, tolerance, count)
