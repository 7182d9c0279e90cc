-- ===== src/Fbft/Genuine.antt =====
-- Whose signatures the contents hold: the invariant of the contents that every handler keeps.
use galaxy.Base.{
  ℕ, ◌≡◌, sym, subst, ◌∙◌, inl, inr, List, some, arith, lookup, ◌==◌, ℕ_discrete, false, true,
}
use galaxy.Account.{Account, Block, Signature}
use galaxy.External.{Env}
use galaxy.Content.{
  Content, ContentState, new_content, set_state, add_signature, get_sign_by_account,
}
use galaxy.Content.Signing.{
  IsSigned, new_content-IsSigned, add_signature-IsSigned, add_signature_once, set_state_next,
}
use galaxy.Plugin.{
  ConsensusPlugin, add, remove, get_content_by_hash, set_latest_block_height, update,
}
use galaxy.Fbft.State.{Core, Effect}
use galaxy.Plugin.Heap.{
  IsValid, add-IsValid, remove-IsValid, update-IsValid, add-Origin, remove-origin,
}

-- A result whose contents are those of the core before.
abbrev pub SamePlugin : Core → Core × List Effect → Type 0
SamePlugin core out = out.0.consensus_plugin ≡ core.consensus_plugin

==-refl : (n : ℕ) → (n == n) ≡ true
==-refl n = ground arith

==-ne : (m n : ℕ) → ¬ (m ≡ n) → (m == n) ≡ false
==-ne m n h = ground arith

add_signature-digest :
    (c : Content) (a : Account) (s : Signature) → (add_signature c a s).0.digest ≡ c.digest
unfolding add_signature
add_signature-digest c a s = ground arith

set_state-digest : (c : Content) (s : ContentState) → (set_state c s).0.digest ≡ c.digest
unfolding set_state
set_state-digest c s = ground arith

module _ {World : Type 0} (env : Env World) where
  -- A content in good order whose every signature verifies, for its digest, as that of its account.
  pub record GenuineContent (c : Content) : Type 0 where
    pub signed : IsSigned c
    pub genuine :
        (a : Account) (s : Signature)
        → get_sign_by_account c a ≡ some s
        → env.verify c.digest s ≡ a.address

  pub record Genuine (p : ConsensusPlugin) : Type 0 where
    pub valid : IsValid p
    pub contents : (k r : ℕ) → get_content_by_hash p k ≡ some r → GenuineContent (p.heap r)

  pub new_content-Genuine : (digest : ℕ) (block : Block) → GenuineContent (new_content digest block)
  unfolding get_sign_by_account new_content lookup
  new_content-Genuine digest block = record {
    signed = new_content-IsSigned digest block;
    genuine = λ a s e. cc;
  }

  pub set_state-Genuine :
      (c : Content) (s : ContentState) → GenuineContent c → GenuineContent (set_state c s).0
  unfolding get_sign_by_account
  set_state-Genuine c s g = elim (set_state_next c s) [
    | inl moved ↦ subst GenuineContent (sym moved.2) (record {
      signed = record { listed = g.signed.listed; once = g.signed.once };
      genuine = g.genuine;
    })
    | inr stuck ↦ subst GenuineContent (sym stuck.2) g
  ]

  -- A signature that verifies may be added.
  pub add_signature-Genuine :
      (c : Content) (a : Account) (s : Signature)
      → env.verify c.digest s ≡ a.address
      → GenuineContent c
      → GenuineContent (add_signature c a s).0
  add_signature-Genuine c a s v g = record {
    signed = add_signature-IsSigned c a s g.signed;
    genuine = λ b t e.
        ground (arith, add_signature_once c a b s, g.genuine b t, add_signature-digest c a s);
  }

  -- A write through a pointer, of a content for the same digest.
  pub update-Genuine :
      (p : ConsensusPlugin) (r : ℕ) (c : Content)
      → c.digest ≡ (p.heap r).digest
      → (GenuineContent (p.heap r) → GenuineContent c)
      → Genuine p
      → Genuine (update p r c)
  unfolding get_content_by_hash
  update-Genuine p r c same keep g = record {
    valid = update-IsValid p r c same g.valid;
    contents = λ k q e. elim (ℕ_discrete q r) [
      | yes eq ↦
          rw (eq, ==-refl r)
            (keep (subst (λ (x : ℕ). GenuineContent (p.heap x)) eq (g.contents k q e)))
      | no n ↦ rw (==-ne q r n) (g.contents k q e)
    ];
  }

  -- Add makes an empty content at most.
  pub add-Genuine :
      (p : ConsensusPlugin) (digest : ℕ) (block : Block)
      → Genuine p
      → Genuine (add p digest block).0
  unfolding get_content_by_hash
  add-Genuine p digest block g = record {
    valid = add-IsValid p digest block g.valid;
    contents = λ k r e. elim (add-Origin p digest block g.valid k r e) [
      | inl (old, same) ↦ subst GenuineContent (sym same) (g.contents k r old)
      | inr new ↦ subst GenuineContent (sym new) (new_content-Genuine digest block)
    ];
  }

  -- Remove makes none.
  pub remove-Genuine : (p : ConsensusPlugin) (digest : ℕ) → Genuine p → Genuine (remove p digest)
  remove-Genuine p digest g = record {
    valid = remove-IsValid p digest g.valid;
    contents = λ k r e.
        let (old, same) = remove-origin p digest g.valid k r e in
        subst GenuineContent (sym same) (g.contents k r old);
  }

  -- The two writes that the handlers make: a signature that verifies, and a move of the state.
  pub update_signed-Genuine :
      (p : ConsensusPlugin) (r : ℕ) (a : Account) (s : Signature)
      → env.verify (p.heap r).digest s ≡ a.address
      → Genuine p
      → Genuine (update p r (add_signature (p.heap r) a s).0)
  update_signed-Genuine p r a s v =
      update-Genuine p r (add_signature (p.heap r) a s).0 (add_signature-digest (p.heap r) a s)
        (add_signature-Genuine (p.heap r) a s v)

  pub update_moved-Genuine :
      (p : ConsensusPlugin) (r : ℕ) (s : ContentState)
      → Genuine p
      → Genuine (update p r (set_state (p.heap r) s).0)
  update_moved-Genuine p r s =
      update-Genuine p r (set_state (p.heap r) s).0 (set_state-digest (p.heap r) s)
        (set_state-Genuine (p.heap r) s)

  -- Both at once, as receiveRequest makes them.
  pub update_signed_moved-Genuine :
      (p : ConsensusPlugin) (r : ℕ) (a : Account) (s : Signature) (t : ContentState)
      → env.verify (p.heap r).digest s ≡ a.address
      → Genuine p
      → Genuine (update p r (set_state (add_signature (p.heap r) a s).0 t).0)
  update_signed_moved-Genuine p r a s t v =
      update-Genuine p r (set_state (add_signature (p.heap r) a s).0 t).0
        (set_state-digest (add_signature (p.heap r) a s).0 t ∙ add_signature-digest (p.heap r) a s)
        (λ g.
          set_state-Genuine (add_signature (p.heap r) a s).0 t
            (add_signature-Genuine (p.heap r) a s v g))

  -- The content under a digest is for that digest.
  pub Genuine-digest :
      (p : ConsensusPlugin) (k r : ℕ)
      → Genuine p
      → get_content_by_hash p k ≡ some r
      → (p.heap r).digest ≡ k
  unfolding get_content_by_hash
  Genuine-digest p k r g e = (g.valid.sound k r e).1

  -- The height of the latest block is no part of the contents.
  pub height-Genuine :
      (p : ConsensusPlugin) (h : ℕ) → Genuine p → Genuine (set_latest_block_height p h)
  unfolding get_content_by_hash set_latest_block_height
  height-Genuine p h g = record {
    valid = record { distinct = g.valid.distinct; sound = g.valid.sound };
    contents = g.contents;
  }
