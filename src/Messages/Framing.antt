-- ===== src/Messages/Framing.antt =====
-- What is written to a stream is read back, and a stream that breaks off is an error.
use galaxy.Base.{
  ℕ, zero, suc, ◌-◌, ◌/◌, ◌%◌, ◌^◌, ◌≤◌, ◌<◌, ◌≡◌, refl, ap, ◌∙◌, ◌⊎◌, inl, inr, List, [], ◌∷◌,
  ◌++◌, Option, some, arith, length, length-append, take, append_assoc, Option-cases, Bool-cases,
  ltb, ltb→lt,
}
use galaxy.Messages.{
  Message, Payload, Kind, type_of, kind_of, put_u32, get_u32, encode_message_header,
  build_message_header, encode_message, make_empty_message, decode_message, read_body, read_message,
  ok, err, short_header, short_body,
}

get_u32-put_u32 :
    (n : ℕ)
    → n < 2 ^ 32
    → get_u32 (n % 256) (n / 256 % 256) (n / 65536 % 256) (n / 16777216 % 256) ≡ n
unfolding get_u32
get_u32-put_u32 n h = omega arith

make_empty_message-type_of : (k : Kind) → make_empty_message (type_of k) ≡ some k
unfolding make_empty_message
make_empty_message-type_of k = ground arith

type_of-lt : (k : Kind) → type_of k < 2 ^ 32
type_of-lt k = ground arith

take-append : (xs ys : List ℕ) → take (length xs) (xs ++ ys) ≡ xs
take-append [] ys = refl
take-append (x ∷ xs) ys = ap (λ (l : List ℕ). x ∷ l) (take-append xs ys)

length-take-le : (k : ℕ) (xs : List ℕ) → length (take k xs) ≤ k
length-take-le zero xs = omega arith
length-take-le (suc k) [] = omega arith
length-take-le (suc k) (x ∷ xs) = omega (arith, length-take-le k xs)

-- A header that was written is read as it was, whatever follows.
read_message-header :
    (unmarshal : Kind → List ℕ → Option Payload) (t n : ℕ) (stream : List ℕ)
    → t < 2 ^ 32
    → n < 2 ^ 32
    → read_message unmarshal
        (encode_message_header (record { magic = 0; message_type = t; len = n }) ++ stream)
      ≡ read_body unmarshal (record { magic = 0; message_type = t; len = n }) stream
unfolding read_message encode_message_header put_u32
read_message-header unmarshal t n stream ht hn =
    rw (get_u32-put_u32 t ht, get_u32-put_u32 n hn) refl

module _ (marshal : Payload → Option (List ℕ)) (unmarshal : Kind → List ℕ → Option Payload) where
  encode_message-body :
      (msg : Message) (bytes : List ℕ)
      → encode_message marshal msg ≡ some bytes
      → (body : List ℕ) × (marshal msg.payload ≡ some body)
        × (bytes ≡ encode_message_header (build_message_header msg (length body)) ++ body)
  unfolding encode_message
  encode_message-body msg bytes e = elim (Option-cases (marshal msg.payload)) [
    | inl none_lem ↦ absurd (cc (rw (none_lem, encode_message) at e))
    | inr (body, m) ↦ (body, m, cc (rw (m, encode_message) at e))
  ]

  decode_message-ok :
      (p : Payload) (body : List ℕ)
      → unmarshal (kind_of p) body ≡ some p
      → decode_message unmarshal (type_of (kind_of p)) body
        ≡ ok (record { message_type = type_of (kind_of p); payload = p })
  unfolding decode_message
  decode_message-ok p body e = rw (make_empty_message-type_of (kind_of p), decode_message) (rw e)

  -- The body is read off the front of the stream.
  read_body-whole :
      (p : Payload) (body rest : List ℕ)
      → unmarshal (kind_of p) body ≡ some p
      → read_body unmarshal
          (record { magic = 0; message_type = type_of (kind_of p); len = length body })
          (body ++ rest)
        ≡ ok (record { message_type = type_of (kind_of p); payload = p })
  unfolding read_body
  read_body-whole p body rest e = elim (Bool-cases (ltb (length (body ++ rest)) (length body))) [
    | inl short ↦ absurd (omega (arith, length-append body rest, ltb→lt _ _ short))
    | inr enough ↦ rw (enough, take-append body rest) (decode_message-ok p body e)
  ]

  -- The header of a written message, with the length of its body whole.
  encode_message-parts :
      (p : Payload) (bytes : List ℕ)
      → encode_message marshal (record { message_type = type_of (kind_of p); payload = p })
        ≡ some bytes
      → length bytes < 2 ^ 32
      → (body : List ℕ) × (marshal p ≡ some body)
        × (length body < 2 ^ 32)
        × (bytes
            ≡ encode_message_header
                (record { magic = 0; message_type = type_of (kind_of p); len = length body })
              ++ body)
  unfolding build_message_header
  encode_message-parts p bytes e small =
      let (body, m, eq) =
        encode_message-body (record { message_type = type_of (kind_of p); payload = p }) bytes e in
      let short : length body < 2 ^ 32 =
        omega (arith, ap length eq, length-append (header (length body % 2 ^ 32)) body) in
      let whole : length body % 2 ^ 32 ≡ length body = omega arith in
      (body, m, short, eq ∙ ap (λ (n : ℕ). header n ++ body) whole)
    where
      header : ℕ → List ℕ
      header n =
          encode_message_header (record { magic = 0; message_type = type_of (kind_of p); len = n })

  -- Only the payload at hand has to be undone.
  pub read_back :
      (p : Payload) (bytes rest : List ℕ)
      → ((body : List ℕ) → marshal p ≡ some body → unmarshal (kind_of p) body ≡ some p)
      → encode_message marshal (record { message_type = type_of (kind_of p); payload = p })
        ≡ some bytes
      → length bytes < 2 ^ 32
      → read_message unmarshal (bytes ++ rest)
        ≡ ok (record { message_type = type_of (kind_of p); payload = p })
  read_back p bytes rest law e small =
      let (body, m, short, eq) = encode_message-parts p bytes e small in
      let t : type_of (kind_of p) < 2 ^ 32 = type_of-lt (kind_of p) in
      rw (eq, append_assoc)
        (read_message-header unmarshal (type_of (kind_of p)) (length body) (body ++ rest) t short
          ∙ read_body-whole p body rest (law body m))

  -- A message whose type fits its payload, and that is shorter than 2 ^ 32 bytes, is read back as it
  -- was from what was written, whatever follows on the stream, if json undoes its own writing.
  pub read_message-encode_message :
      (p : Payload) (bytes rest : List ℕ)
      → ((q : Payload) (body : List ℕ)
          → marshal q ≡ some body
          → unmarshal (kind_of q) body ≡ some q)
      → encode_message marshal (record { message_type = type_of (kind_of p); payload = p })
        ≡ some bytes
      → length bytes < 2 ^ 32
      → read_message unmarshal (bytes ++ rest)
        ≡ ok (record { message_type = type_of (kind_of p); payload = p })
  read_message-encode_message p bytes rest law e small = read_back p bytes rest (law p) e small

-- Fewer than twelve bytes hold no header.
read_message_short :
    (unmarshal : Kind → List ℕ → Option Payload) (s : List ℕ)
    → length s < 12
    → read_message unmarshal s ≡ err short_header
unfolding read_message
read_message_short u [] h = refl
read_message_short u (a ∷ []) h = refl
read_message_short u (a ∷ b ∷ []) h = refl
read_message_short u (a ∷ b ∷ c ∷ []) h = refl
read_message_short u (a ∷ b ∷ c ∷ d ∷ []) h = refl
read_message_short u (a ∷ b ∷ c ∷ d ∷ e ∷ []) h = refl
read_message_short u (a ∷ b ∷ c ∷ d ∷ e ∷ f ∷ []) h = refl
read_message_short u (a ∷ b ∷ c ∷ d ∷ e ∷ f ∷ g ∷ []) h = refl
read_message_short u (a ∷ b ∷ c ∷ d ∷ e ∷ f ∷ g ∷ i ∷ []) h = refl
read_message_short u (a ∷ b ∷ c ∷ d ∷ e ∷ f ∷ g ∷ i ∷ j ∷ []) h = refl
read_message_short u (a ∷ b ∷ c ∷ d ∷ e ∷ f ∷ g ∷ i ∷ j ∷ k ∷ []) h = refl
read_message_short u (a ∷ b ∷ c ∷ d ∷ e ∷ f ∷ g ∷ i ∷ j ∷ k ∷ l ∷ []) h = refl
read_message_short u (a ∷ b ∷ c ∷ d ∷ e ∷ f ∷ g ∷ i ∷ j ∷ k ∷ l ∷ m ∷ s) h = absurd (omega arith)

-- Twelve bytes of a header and then `k` bytes of the body, fewer than it announces.
read_body_short :
    (unmarshal : Kind → List ℕ → Option Payload) (t k : ℕ) (body : List ℕ)
    → k < length body
    → read_body unmarshal (record { magic = 0; message_type = t; len = length body }) (take k body)
      ≡ err short_body
unfolding read_body
read_body_short u t k body h = ground (arith, length-take-le k body)

length-header :
    (t n : ℕ)
    → length (encode_message_header (record { magic = 0; message_type = t; len = n })) ≡ 12
unfolding encode_message_header put_u32
length-header t n = refl

-- A header of twelve bytes stays whole where more than twelve bytes are taken.
take_header :
    (t n k : ℕ) (body : List ℕ)
    → 12 ≤ k
    → take k (encode_message_header (record { magic = 0; message_type = t; len = n }) ++ body)
      ≡ encode_message_header (record { magic = 0; message_type = t; len = n })
        ++ take (k - 12) body
unfolding encode_message_header put_u32
take_header t n k body h =
    let e : k ≡ suc (suc (suc (suc (suc (suc (suc (suc (suc (suc (suc (suc (k - 12)))))))))))) =
      omega arith in
    ap
      (λ (j : ℕ).
        take j (encode_message_header (record { magic = 0; message_type = t; len = n }) ++ body))
      e

-- A stream that breaks off anywhere inside a message is an error: that of the header within its
-- twelve bytes, and that of the body after them.
read_message_truncated :
    (marshal : Payload → Option (List ℕ)) (unmarshal : Kind → List ℕ → Option Payload) (p : Payload)
    (bytes : List ℕ) (k : ℕ)
    → encode_message marshal (record { message_type = type_of (kind_of p); payload = p })
      ≡ some bytes
    → length bytes < 2 ^ 32
    → k < length bytes
    → ((k < 12) × (read_message unmarshal (take k bytes) ≡ err short_header))
      ⊎ ((12 ≤ k) × (read_message unmarshal (take k bytes) ≡ err short_body))
read_message_truncated marshal unmarshal p bytes k e small h = elim (Bool-cases (ltb k 12)) [
  | inl few ↦ inl (
    ltb→lt k 12 few,
    read_message_short unmarshal (take k bytes)
        (omega (arith, length-take-le k bytes, ltb→lt k 12 few)),
  )
  | inr more ↦
      let (body, m, short, eq) = encode_message-parts marshal unmarshal p bytes e small in
      let t = type_of (kind_of p) in
      let k' : 12 ≤ k = ground arith in
      let left : k - 12 < length body = omega (
        arith,
        ap length eq,
        length-header t (length body),
        length-append
            (encode_message_header (record { magic = 0; message_type = t; len = length body }))
            body,
      ) in
      inr (
        k',
        rw (eq, take_header t (length body) k body k')
            (read_message-header unmarshal t (length body) (take (k - 12) body)
                (type_of-lt (kind_of p)) short
              ∙ read_body_short unmarshal t (k - 12) body left),
      )
]
