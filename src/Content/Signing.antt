-- ===== src/Content/Signing.antt =====
-- The state of a content only moves on, and each account signs it at most once.
use galaxy.Base.{
  ℕ, ◌+◌, ◌≡◌, refl, sym, ap, ◌∙◌, ◌⊎◌, ◌↔◌, ◌≢◌, inl, inr, Bool, true, false, List, [], ◌∷◌, ◌++◌,
  none, some, ite, if◌then◌else◌, arith, Distinct, Distinct-snoc, subst, keys, vals, keys-insert,
  vals-insert, lookup, lookup-insert, lookup-absent, Option-cases,
}
use galaxy.Account.{Account, Account-discrete, Block, Signature}
use galaxy.Content.{
  Content, ContentState, state_code, new_content, signed, set_state, add_signature,
  get_sign_by_account,
}

-- A move succeeds exactly to the state that comes next, and then changes nothing but the state; a
-- move that fails changes nothing.
pub set_state_next :
    (c : Content) (s : ContentState)
    → (((set_state c s).1 ≡ true)
        × (state_code s ≡ state_code c.state + 1)
        × ((set_state c s).0 ≡ record c { state = s }))
      ⊎ (((set_state c s).1 ≡ false)
          × (state_code s ≢ state_code c.state + 1)
          × ((set_state c s).0 ≡ c))
unfolding set_state
set_state_next c s = ground arith

-- `signatures` lists what the accounts of the map signed, each account once.
pub record IsSigned (c : Content) : Type 0 where
  pub listed : vals c.sign_map ≡ c.signatures
  pub once : Distinct (keys c.sign_map)

pub new_content-IsSigned : (digest : ℕ) (block : Block) → IsSigned (new_content digest block)
unfolding new_content
new_content-IsSigned digest block = record { listed = refl; once = tt }

module _ (c : Content) (a : Account) (sign : Signature) where
  signature_added :
      lookup Account-discrete a c.sign_map ≡ none → add_signature c a sign ≡ (signed c a sign, true)
  unfolding add_signature
  signature_added absent = ground arith

  signature_refused :
      (old : Signature)
      → lookup Account-discrete a c.sign_map ≡ some old
      → add_signature c a sign ≡ (c, false)
  unfolding add_signature
  signature_refused old e = ground arith

  signed-IsSigned :
      lookup Account-discrete a c.sign_map ≡ none → IsSigned c → IsSigned (signed c a sign)
  unfolding signed
  signed-IsSigned absent v = record {
    listed =
        vals-insert Account-discrete a sign c.sign_map absent
        ∙ ap (λ (l : List Signature). l ++ sign ∷ []) v.listed;
    once =
        subst (Distinct {A = Account}) (sym (keys-insert Account-discrete a sign c.sign_map absent))
          (Distinct-snoc (keys c.sign_map) a (lookup-absent Account-discrete a c.sign_map absent)
            v.once);
  }

  -- A signature that is added or refused leaves the content in good order: `signatures` lists the
  -- signatures of distinct accounts, as many as have signed.
  pub add_signature-IsSigned : IsSigned c → IsSigned (add_signature c a sign).0
  add_signature-IsSigned v = elim (Option-cases (lookup Account-discrete a c.sign_map)) [
    | inl absent ↦
        subst IsSigned (sym (ap (λ (r : Content × Bool). r.0) (signature_added absent)))
          (signed-IsSigned absent v)
    | inr (old, e) ↦
        subst IsSigned (sym (ap (λ (r : Content × Bool). r.0) (signature_refused old e))) v
  ]

-- AddSignature answers true exactly for an account that has not signed yet. It then records the
-- signature for that account and lists it last, and otherwise it replaces nothing: whoever has
-- signed keeps the first signature. The state and the payload stay.
pub add_signature_once :
    (c : Content) (a b : Account) (sign : Signature)
    → let out = add_signature c a sign in
      ((out.1 ≡ true) ↔ (get_sign_by_account c a ≡ none))
      × (get_sign_by_account out.0 b ≡ (
          if out.1
          then ite (Account-discrete a b) (some sign) (get_sign_by_account c b)
          else get_sign_by_account c b))
      × (out.0.signatures ≡ (if out.1 then c.signatures ++ sign ∷ [] else c.signatures))
      × (out.0.state ≡ c.state)
      × (out.0.payload ≡ c.payload)
unfolding get_sign_by_account add_signature
add_signature_once c a b sign = elim (Option-cases (lookup Account-discrete a c.sign_map)) [
  | inl absent ↦
      rw (absent, add_signature)
        (
          ((λ h. refl), (λ h. refl)),
          lookup-insert Account-discrete a b sign c.sign_map,
          refl,
          refl,
          refl,
        )
  | inr (old, e) ↦ rw (e, add_signature) (((λ h. cc), (λ h. cc)), refl, refl, refl, refl)
]
