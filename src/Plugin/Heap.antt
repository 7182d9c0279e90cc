-- ===== src/Plugin/Heap.antt =====
-- The map and the heap fit together: every pointer of the map is one that was handed out, and what
-- it points to bears the digest under which it stands; so no two digests share a content.
use galaxy.Base.{
  ◌⊎◌, refl, ℕ, suc, ◌<◌, ◌≡◌, ap, sym, subst, ◌∙◌, ◌≢◌, inl, inr, List, none, some, arith,
  Distinct, keys, filter, Bool, lookup, insert, lookup-insert, lookup-insert_self, lookup-filter,
  Distinct-filter, lookup-absent, keys-insert, Distinct-snoc, Option-cases, ℕ_discrete,
}
use galaxy.Account.{Block}
use galaxy.Content.{Content, new_content}
use galaxy.Plugin.{
  ConsensusPlugin, new_consensus_plugin, write, unexpired, add, remove, get_content_by_hash, update,
}

abbrev pub Sound : List (ℕ × ℕ) → (ℕ → Content) → ℕ → Type 0
Sound m heap fresh =
    (k r : ℕ) → lookup ℕ_discrete k m ≡ some r → (r < fresh) × ((heap r).digest ≡ k)

pub record IsValid (p : ConsensusPlugin) : Type 0 where
  pub distinct : Distinct (keys p.content)
  pub sound : Sound p.content p.heap p.fresh

pub new_consensus_plugin-IsValid : IsValid new_consensus_plugin
unfolding new_consensus_plugin lookup
new_consensus_plugin-IsValid = record { distinct = tt; sound = λ k r h. cc }

-- Deleting entries keeps a sound map sound.
filter-Sound :
    (q : ℕ × ℕ → Bool) (m : List (ℕ × ℕ)) (heap : ℕ → Content) (fresh : ℕ)
    → Distinct (keys m)
    → Sound m heap fresh
    → Sound (filter q m) heap fresh
filter-Sound q m heap fresh d s k r h =
    ground (arith, lookup-filter ℕ_discrete q k m d, s k r, Option-cases (lookup ℕ_discrete k m))

filter-IsValid :
    (q : ℕ × ℕ → Bool) (p : ConsensusPlugin)
    → IsValid p
    → IsValid (record p { content = filter q p.content })
filter-IsValid q p v = record {
  distinct = Distinct-filter ℕ_discrete q p.content v.distinct;
  sound = filter-Sound q p.content p.heap p.fresh v.distinct v.sound;
}

-- The two outcomes of Add, after the clean-up.
abbrev pub left_of : ConsensusPlugin → Block → List (ℕ × ℕ)
left_of p payload = filter (unexpired p.heap payload) p.content

module _ (p : ConsensusPlugin) (digest : ℕ) (payload : Block) where
  abbrev pub added : ConsensusPlugin
  added = record p {
    content = insert ℕ_discrete digest p.fresh (left_of p payload);
    heap = write p.heap p.fresh (new_content digest payload);
    fresh = suc p.fresh;
  }

  pub add_absent :
      lookup ℕ_discrete digest (left_of p payload) ≡ none → add p digest payload ≡ (added, p.fresh)
  unfolding add
  add_absent absent = rw (absent, add)

  pub add_present :
      (r : ℕ)
      → lookup ℕ_discrete digest (left_of p payload) ≡ some r
      → add p digest payload ≡ (record p { content = left_of p payload }, r)
  unfolding add
  add_present r e = rw (e, add)

  added-Sound :
      lookup ℕ_discrete digest (left_of p payload) ≡ none
      → Sound (left_of p payload) p.heap p.fresh
      → Sound added.content added.heap added.fresh
  unfolding new_content
  added-Sound absent s k r h =
      ground (arith, lookup-insert ℕ_discrete digest k p.fresh (left_of p payload), s k r)

  -- Add keeps the map and the heap in good order.
  pub add-IsValid : IsValid p → IsValid (add p digest payload).0
  add-IsValid v =
      let left = filter-IsValid (unexpired p.heap payload) p v in
      elim (Option-cases (lookup ℕ_discrete digest (left_of p payload))) [
        | inl absent ↦ rw (add_absent absent) (record {
          distinct =
              subst (Distinct {A = ℕ})
                (sym (keys-insert ℕ_discrete digest p.fresh (left_of p payload) absent))
                (Distinct-snoc (keys (left_of p payload)) digest
                  (lookup-absent ℕ_discrete digest (left_of p payload) absent) left.distinct);
          sound = added-Sound absent left.sound;
        })
        | inr (r, e) ↦ rw (add_present r e) left
      ]

-- So does Remove.
pub remove-IsValid : (p : ConsensusPlugin) (digest : ℕ) → IsValid p → IsValid (remove p digest)
unfolding remove
remove-IsValid p digest v = elim (Option-cases (lookup ℕ_discrete digest p.content)) [
  | inl absent ↦ rw (absent, remove) v
  | inr (r, e) ↦ rw (e, remove) (filter-IsValid _ p v)
]

-- So does a method of Content, which never changes the digest.
pub update-IsValid :
    (p : ConsensusPlugin) (r : ℕ) (c : Content)
    → c.digest ≡ (p.heap r).digest
    → IsValid p
    → IsValid (update p r c)
update-IsValid p r c same v = record {
  distinct = v.distinct;
  sound = λ k q h. ground (arith, v.sound k q h);
}

-- Different digests lead to different contents: what is done to one proposal leaves the others.
pub IsValid-separate :
    (p : ConsensusPlugin) (j k r q : ℕ)
    → IsValid p
    → get_content_by_hash p j ≡ some r
    → get_content_by_hash p k ≡ some q
    → j ≢ k
    → r ≢ q
unfolding get_content_by_hash
IsValid-separate p j k r q v hj hk n e =
    n (sym (v.sound j r hj).1 ∙ ap (λ (x : ℕ). (p.heap x).digest) e ∙ (v.sound k q hk).1)

-- Where the entries after Add come from: each was there before, with its content untouched, or points
-- to the new content.
filter-origin :
    (q : ℕ × ℕ → Bool) (m : List (ℕ × ℕ)) (k r : ℕ)
    → Distinct (keys m)
    → lookup ℕ_discrete k (filter q m) ≡ some r
    → lookup ℕ_discrete k m ≡ some r
filter-origin q m k r d e =
    ground (arith, lookup-filter ℕ_discrete q k m d, Option-cases (lookup ℕ_discrete k m))

module _ (p : ConsensusPlugin) (digest : ℕ) (payload : Block) (v : IsValid p) (k r : ℕ) where
  abbrev Origin : ConsensusPlugin → Type 0
  Origin p' =
      ((get_content_by_hash p k ≡ some r) × (p'.heap r ≡ p.heap r))
      ⊎ (p'.heap r ≡ new_content digest payload)

  added-Origin :
      get_content_by_hash (added p digest payload) k ≡ some r → Origin (added p digest payload)
  unfolding get_content_by_hash
  added-Origin e = ground (
    arith,
    lookup-insert ℕ_discrete digest k p.fresh (left_of p payload),
    filter-origin (unexpired p.heap payload) p.content k r v.distinct,
    v.sound k r,
  )

  pub add-Origin :
      get_content_by_hash (add p digest payload).0 k ≡ some r → Origin (add p digest payload).0
  unfolding get_content_by_hash
  add-Origin e = elim (Option-cases (lookup ℕ_discrete digest (left_of p payload))) [
    | inl absent ↦
        let same : add p digest payload ≡ (added p digest payload, p.fresh) =
          add_absent p digest payload absent in
        rw same (added-Origin (rw same at e))
    | inr (q, found) ↦
        let same : add p digest payload ≡ (record p { content = left_of p payload }, q) =
          add_present p digest payload q found in
        rw same (
          inl (
            filter-origin (unexpired p.heap payload) p.content k r v.distinct (rw same at e),
            refl,
          ))
  ]

-- The pointer that Add returns stands under the digest.
pub add-pointer :
    (p : ConsensusPlugin) (digest : ℕ) (payload : Block)
    → get_content_by_hash (add p digest payload).0 digest ≡ some (add p digest payload).1
unfolding get_content_by_hash
add-pointer p digest payload = elim (Option-cases (lookup ℕ_discrete digest (left_of p payload))) [
  | inl absent ↦
      rw (add_absent p digest payload absent)
        (lookup-insert_self ℕ_discrete digest p.fresh (left_of p payload))
  | inr (q, found) ↦ rw (add_present p digest payload q found) found
]

module _ (p : ConsensusPlugin) (digest : ℕ) (v : IsValid p) (k r : ℕ) where
  -- Those after Remove were all there before, and no content is touched.
  pub remove-origin :
      get_content_by_hash (remove p digest) k ≡ some r
      → (get_content_by_hash p k ≡ some r) × ((remove p digest).heap r ≡ p.heap r)
  unfolding get_content_by_hash remove
  remove-origin e = elim (Option-cases (lookup ℕ_discrete digest p.content)) [
    | inl absent ↦ (rw (absent, remove) at e, rw (absent, remove))
    | inr (q, found) ↦
        (filter-origin _ p.content k r v.distinct (rw (found, remove) at e), rw (found, remove))
  ]
