-- ===== src/Messages/Examples.antt =====
-- A commit on the wire, under a json that knows this one message.
use galaxy.Base.{ℕ, ◌≡◌, refl, List, [], ◌∷◌, ◌++◌, Option, none, some, arith}
use galaxy.Messages.{
  Payload, Kind, commit_message, commit, kind_of, encode_message, read_message, ok,
}
use galaxy.Messages.Framing.{read_message-encode_message}
use galaxy.Messages.Typing.{Fits, read_message-Fits}

-- Only empty commits are written, as `{}`, and read back.
abbrev toy_marshal : Payload → Option (List ℕ)
toy_marshal (commit_message none) = some (0x7b ∷ 0x7d ∷ [])
toy_marshal _ = none

abbrev toy_unmarshal : Kind → List ℕ → Option Payload
toy_unmarshal commit _ = some (commit_message none)
toy_unmarshal _ _ = none

toy_law :
    (q : Payload) (body : List ℕ)
    → toy_marshal q ≡ some body
    → toy_unmarshal (kind_of q) body ≡ some q
toy_law q body e = ground arith

abbrev wire : List ℕ
wire = 0 ∷ 0 ∷ 0 ∷ 0 ∷ 4 ∷ 0 ∷ 0 ∷ 0 ∷ 2 ∷ 0 ∷ 0 ∷ 0 ∷ 0x7b ∷ 0x7d ∷ []

encoded :
    encode_message toy_marshal (record { message_type = 4; payload = commit_message none })
    ≡ some wire
unfolding encode_message
encoded = refl

read_message-encode_message_example :
    read_message toy_unmarshal (wire ++ 9 ∷ [])
    ≡ ok (record { message_type = 4; payload = commit_message none })
read_message-encode_message_example =
    read_message-encode_message toy_marshal toy_unmarshal (commit_message none) wire (9 ∷ [])
      toy_law encoded (omega arith)

toy_typed : (k : Kind) (b : List ℕ) (p : Payload) → toy_unmarshal k b ≡ some p → kind_of p ≡ k
toy_typed k b p e = ground arith

read_message-Fits_example : Fits toy_unmarshal (read_message toy_unmarshal wire)
read_message-Fits_example = read_message-Fits toy_unmarshal wire toy_typed
