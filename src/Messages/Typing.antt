-- ===== src/Messages/Typing.antt =====
-- The type assertions on the payload of a message that ReadMessage gives.
use galaxy.Base.{
  ℕ, ◌≡◌, sym, ap, ◌∙◌, inl, inr, Bool-cases, Option-cases, List, [], ◌∷◌, Option, some, arith, ltb,
  length, take,
}
use galaxy.Messages.{
  Payload, Kind, MessageHeader, ReadResult, ok, err, type_of, kind_of, make_empty_message,
  decode_message, read_body, get_u32, read_message,
}

make_empty_message-fits : (t : ℕ) (k : Kind) → make_empty_message t ≡ some k → t ≡ type_of k
unfolding make_empty_message
make_empty_message-fits t k e = ground arith

module _ (unmarshal : Kind → List ℕ → Option Payload) where
  -- That the type of a message is the one of its payload.
  abbrev pub Fits : ReadResult → Type 0
  Fits (ok msg) = msg.message_type ≡ type_of (kind_of msg.payload)
  Fits (err e) = Unit

  decode_message-Fits :
      (t : ℕ) (body : List ℕ)
      → ((k : Kind) (b : List ℕ) (p : Payload) → unmarshal k b ≡ some p → kind_of p ≡ k)
      → Fits (decode_message unmarshal t body)
  unfolding decode_message
  decode_message-Fits t body typed = elim (Option-cases (make_empty_message t)) [
    | inl e ↦ rw (e, decode_message) tt
    | inr (k, e) ↦ elim (Option-cases (unmarshal k body)) [
      | inl f ↦ rw (e, decode_message, f) tt
      | inr (p, f) ↦
          rw (e, decode_message, f)
            (make_empty_message-fits t k e ∙ ap type_of (sym (typed k body p f)))
    ]
  ]

  read_body-Fits :
      (header : MessageHeader) (stream : List ℕ)
      → ((k : Kind) (b : List ℕ) (p : Payload) → unmarshal k b ≡ some p → kind_of p ≡ k)
      → Fits (read_body unmarshal header stream)
  unfolding read_body
  read_body-Fits header stream typed = elim (Bool-cases (ltb (length stream) header.len)) [
    | inl e ↦ rw e tt
    | inr e ↦ rw e (decode_message-Fits header.message_type (take header.len stream) typed)
  ]

  -- A message that ReadMessage gives, on any stream, has the type of its payload, if json.Unmarshal fills
  -- the struct that it is given and no other: no type assertion on the payload that follows a test of
  -- the type can fail.
  pub read_message-Fits :
      (stream : List ℕ)
      → ((k : Kind) (b : List ℕ) (p : Payload) → unmarshal k b ≡ some p → kind_of p ≡ k)
      → Fits (read_message unmarshal stream)
  unfolding read_message
  read_message-Fits [] typed = tt
  read_message-Fits (m0 ∷ []) typed = tt
  read_message-Fits (m0 ∷ m1 ∷ []) typed = tt
  read_message-Fits (m0 ∷ m1 ∷ m2 ∷ []) typed = tt
  read_message-Fits (m0 ∷ m1 ∷ m2 ∷ m3 ∷ []) typed = tt
  read_message-Fits (m0 ∷ m1 ∷ m2 ∷ m3 ∷ t0 ∷ []) typed = tt
  read_message-Fits (m0 ∷ m1 ∷ m2 ∷ m3 ∷ t0 ∷ t1 ∷ []) typed = tt
  read_message-Fits (m0 ∷ m1 ∷ m2 ∷ m3 ∷ t0 ∷ t1 ∷ t2 ∷ []) typed = tt
  read_message-Fits (m0 ∷ m1 ∷ m2 ∷ m3 ∷ t0 ∷ t1 ∷ t2 ∷ t3 ∷ []) typed = tt
  read_message-Fits (m0 ∷ m1 ∷ m2 ∷ m3 ∷ t0 ∷ t1 ∷ t2 ∷ t3 ∷ l0 ∷ []) typed = tt
  read_message-Fits (m0 ∷ m1 ∷ m2 ∷ m3 ∷ t0 ∷ t1 ∷ t2 ∷ t3 ∷ l0 ∷ l1 ∷ []) typed = tt
  read_message-Fits (m0 ∷ m1 ∷ m2 ∷ m3 ∷ t0 ∷ t1 ∷ t2 ∷ t3 ∷ l0 ∷ l1 ∷ l2 ∷ []) typed = tt
  read_message-Fits (m0 ∷ m1 ∷ m2 ∷ m3 ∷ t0 ∷ t1 ∷ t2 ∷ t3 ∷ l0 ∷ l1 ∷ l2 ∷ l3 ∷ stream) typed =
      read_body-Fits
        (record {
          magic = get_u32 m0 m1 m2 m3;
          message_type = get_u32 t0 t1 t2 t3;
          len = get_u32 l0 l1 l2 l3;
        })
        stream typed
