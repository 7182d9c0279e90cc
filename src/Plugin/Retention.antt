-- ===== src/Plugin/Retention.antt =====
-- Which contents the cache keeps.
use galaxy.Base.{
  ℕ, ◌+◌, ◌-◌, ◌^◌, ◌≤◌, ◌<◌, ◌≡◌, refl, ◌≢◌, ◌⊎◌, ◌↔◌, inl, inr, List, [], ◌∷◌, none, some, arith,
  In, filter, lookup, insert, lookup-insert_self, lookup-insert_ne, lookup-filter, Option-cases,
  ℕ_discrete, leb, not,
}
use galaxy.Account.{Block}
use galaxy.Content.{new_content}
use galaxy.Plugin.{ConsensusPlugin, unexpired, entry_height, add, remove, get_content_by_hash}
use galaxy.Plugin.Heap.{IsValid, left_of, add_absent, add_present}

abbrev pub height_at : ConsensusPlugin → ℕ → ℕ
height_at p r = (p.heap r).payload.header.height

-- After the clean-up from block ten on, an entry is left exactly within ten blocks.
left-entry :
    (p : ConsensusPlugin) (payload : Block) (j r : ℕ)
    → IsValid p
    → 10 ≤ payload.header.height
    → payload.header.height < 2 ^ 64
    → (lookup ℕ_discrete j (left_of p payload) ≡ some r)
      ↔ ((lookup ℕ_discrete j p.content ≡ some r) × (payload.header.height ≤ height_at p r + 10))
left-entry p payload j r v h b =
    let eq = lookup-filter ℕ_discrete (unexpired p.heap payload) j p.content v.distinct in
    ((λ e. ground (arith, eq)), (λ e. ground (arith, eq)))

-- From block ten on, Add keeps exactly the other contents that are at most ten blocks lower.
add-window :
    (p : ConsensusPlugin) (digest : ℕ) (payload : Block) (j r : ℕ)
    → IsValid p
    → 10 ≤ payload.header.height
    → payload.header.height < 2 ^ 64
    → j ≢ digest
    → (get_content_by_hash (add p digest payload).0 j ≡ some r)
      ↔ ((get_content_by_hash p j ≡ some r) × (payload.header.height ≤ height_at p r + 10))
unfolding get_content_by_hash
add-window p digest payload j r v h b n =
    elim (Option-cases (lookup ℕ_discrete digest (left_of p payload))) [
      | inl absent ↦
          rw
            (
              add_absent p digest payload absent,
              lookup-insert_ne ℕ_discrete digest j p.fresh (left_of p payload) n,
            )
            (left-entry p payload j r v h b)
      | inr (q, e) ↦ rw (add_present p digest payload q e) (left-entry p payload j r v h b)
    ]

-- The pointer that Add returns stands under the digest. It is that of an earlier content for the
-- digest, untouched, if there is one that is at most ten blocks lower; otherwise there was none, or
-- only an older one, and the content is new.
add-digest :
    (p : ConsensusPlugin) (digest : ℕ) (payload : Block)
    → IsValid p
    → 10 ≤ payload.header.height
    → payload.header.height < 2 ^ 64
    → let out = add p digest payload in
      (get_content_by_hash out.0 digest ≡ some out.1)
      × (((get_content_by_hash p digest ≡ some out.1)
            × (payload.header.height ≤ height_at p out.1 + 10)
            × (out.0.heap out.1 ≡ p.heap out.1))
          ⊎ (((r : ℕ)
                → get_content_by_hash p digest ≡ some r
                → height_at p r + 10 < payload.header.height)
              × (out.1 ≡ p.fresh)
              × (out.0.heap out.1 ≡ new_content digest payload)))
unfolding get_content_by_hash
add-digest p digest payload v h b =
    elim (Option-cases (lookup ℕ_discrete digest (left_of p payload))) [
      | inl absent ↦ rw (add_absent p digest payload absent) (
        lookup-insert_self ℕ_discrete digest p.fresh (left_of p payload),
        inr (expired absent, refl, ground arith),
      )
      | inr (q, e) ↦ rw (add_present p digest payload q e) (
        e,
        inl (
          ((left-entry p payload digest q v h b).0 e).0,
          ((left-entry p payload digest q v h b).0 e).1,
          refl,
        ),
      )
    ]
  where
    expired :
        lookup ℕ_discrete digest (left_of p payload) ≡ none
        → (r : ℕ) → lookup ℕ_discrete digest p.content ≡ some r
        → height_at p r + 10 < payload.header.height
    expired absent r e = ground (arith, (left-entry p payload digest r v h b).1)

none_left :
    (p : ConsensusPlugin) (payload : Block) (m : List (ℕ × ℕ))
    → payload.header.height < 10
    → ((e : ℕ × ℕ) → In e m → entry_height p.heap e < 2 ^ 64 - 10)
    → filter (unexpired p.heap payload) m ≡ []
none_left p payload [] h below = refl
none_left p payload (e ∷ m) h below =
    ground (arith, none_left p payload m h (λ d i. below d (inr i)), below e (inl refl))

-- Below block ten the difference wraps, and Add deletes every content in the cache, one for the same
-- digest included: whatever was signed is lost, and a new initial content takes its place.
pub add_low_clears :
    (p : ConsensusPlugin) (digest : ℕ) (payload : Block)
    → payload.header.height < 10
    → ((e : ℕ × ℕ) → In e p.content → entry_height p.heap e < 2 ^ 64 - 10)
    → let out = add p digest payload in
      (out.0.content ≡ (digest, p.fresh) ∷ [])
      × (out.1 ≡ p.fresh)
      × (out.0.heap out.1 ≡ new_content digest payload)
unfolding lookup insert
add_low_clears p digest payload h below =
    let gone = none_left p payload p.content h below in
    rw (add_absent p digest payload (rw gone refl)) (rw gone refl, refl, ground arith)

-- Where the digest is known, Remove takes out its content with all contents whose blocks are no
-- higher, and leaves exactly the higher ones.
remove-entry :
    (p : ConsensusPlugin) (digest r j q : ℕ)
    → IsValid p
    → get_content_by_hash p digest ≡ some r
    → (get_content_by_hash (remove p digest) j ≡ some q)
      ↔ ((get_content_by_hash p j ≡ some q) × (height_at p r < height_at p q))
unfolding get_content_by_hash remove
remove-entry p digest r j q v e =
    let eq =
      lookup-filter ℕ_discrete (λ (d : ℕ × ℕ). not (leb (entry_height p.heap d) (height_at p r))) j
        p.content v.distinct in
    rw (e, remove) ((λ h. ground (arith, eq)), (λ h. ground (arith, eq)))
