-- ===== src/Messages.antt =====
-- consensus/messages/message.go: the messages, their framing on a stream, and who a broadcast goes
-- to. encoding/json is a parameter: `marshal` and `unmarshal` stand for json.Marshal of a payload
-- and json.Unmarshal into an empty message of a kind. Writing to a socket is not modelled.
pub mod Framing
pub mod Typing
mod Examples
use galaxy.Base.{
  ℕ, zero, suc, ◌+◌, ◌*◌, ◌/◌, ◌%◌, ◌^◌, ◌≡◌, Bool, List, [], ◌∷◌, ◌++◌, Option, none, some, ite,
  ltb, ◌==◌, if◌then◌else◌, length, take, drop,
}
use galaxy.Base.Words.{u32}
use galaxy.Account.{Account, Account-discrete, Block, Signature}

pub record Request : Type 0 where
  pub timestamp : ℕ
  pub account : Account
  pub payload : Block

pub record Proposal : Type 0 where
  pub account : Account
  pub timestamp : ℕ
  pub payload : Block
  pub signature : Signature

pub record Response : Type 0 where
  pub account : Account
  pub timestamp : ℕ
  pub digest : ℕ
  pub signature : Signature
  pub block_height : ℕ  -- uint64

pub record Commit : Type 0 where
  pub account : Account
  pub timestamp : ℕ
  pub block_hash : ℕ
  pub digest : ℕ
  pub signatures : List Signature
  pub result : Bool

pub record SyncBlockReq : Type 0 where
  pub account : Account
  pub timestamp : ℕ
  pub block_start : ℕ  -- uint64
  pub block_end : ℕ  -- uint64

pub record SyncBlockResp : Type 0 where
  pub blocks : List Block

pub record ViewChangeReq : Type 0 where
  pub account : Account
  pub nodes : List Account
  pub timestamp : ℕ
  pub view_num : ℕ  -- uint64

pub record OnlineRequest : Type 0 where
  pub account : Account
  pub timestamp : ℕ
  pub block_height : ℕ  -- uint64

pub record OnlineResponse : Type 0 where
  pub account : Account
  pub timestamp : ℕ
  pub block_height : ℕ  -- uint64
  pub view_num : ℕ  -- uint64
  pub nodes : List Account
  pub master : Account

-- The message structs, each with a pointer that is nil where the JSON object lacks the field.
pub data Payload : Type 0 where
  request_message : Option Request → Payload
  proposal_message : Option Proposal → Payload
  response_message : Option Response → Payload
  commit_message : Option Commit → Payload
  sync_block_req_message : Option SyncBlockReq → Payload
  sync_block_resp_message : Option SyncBlockResp → Payload
  view_change_req_message : Option ViewChangeReq → Payload
  online_request_message : Option OnlineRequest → Payload
  online_response_message : Option OnlineResponse → Payload

-- The struct that an empty message is of.
pub data Kind : Type 0 where
  request proposal response commit sync_block_req sync_block_resp view_change_req : Kind
  online_request online_response : Kind

-- MessageType, the uint32 on the wire; `Message` keeps it beside the payload.
abbrev pub type_of : Kind → ℕ
type_of request = 1
type_of proposal = 2
type_of response = 3
type_of commit = 4
type_of sync_block_req = 5
type_of sync_block_resp = 6
type_of view_change_req = 7
type_of online_request = 8
type_of online_response = 9

abbrev pub kind_of : Payload → Kind
kind_of (request_message _) = request
kind_of (proposal_message _) = proposal
kind_of (response_message _) = response
kind_of (commit_message _) = commit
kind_of (sync_block_req_message _) = sync_block_req
kind_of (sync_block_resp_message _) = sync_block_resp
kind_of (view_change_req_message _) = view_change_req
kind_of (online_request_message _) = online_request
kind_of (online_response_message _) = online_response

pub record Message : Type 0 where
  pub message_type : ℕ
  pub payload : Payload

pub record MessageHeader : Type 0 where
  pub magic : ℕ
  pub message_type : ℕ
  pub len : ℕ

-- binary.LittleEndian.PutUint32, and the reading of such a field by binary.Read.
pub put_u32 : ℕ → List ℕ
put_u32 n = n % 256 ∷ n / 256 % 256 ∷ n / 65536 % 256 ∷ n / 16777216 % 256 ∷ []

-- buildMessageHeader
build_message_header : Message → ℕ → MessageHeader
build_message_header msg n = record { magic = 0; message_type = msg.message_type; len = u32 n }

-- encodeMessageHeader
encode_message_header : MessageHeader → List ℕ
unfolding put_u32
encode_message_header h = put_u32 h.magic ++ (put_u32 h.message_type ++ put_u32 h.len)

-- EncodeMessage; `none` is its error.
unfoldable pub encode_message : (Payload → Option (List ℕ)) → Message → Option (List ℕ)
unfolding build_message_header encode_message_header
encode_message marshal msg = elim (marshal msg.payload) [
  | none ↦ none
  | some body ↦ some (encode_message_header (build_message_header msg (length body)) ++ body)
]

-- makeEmptyMessage; `none` is its error.
pub make_empty_message : ℕ → Option Kind
make_empty_message t =
    if t == 1
    then some request
    else if t == 2
    then some proposal
    else if t == 3
    then some response
    else if t == 4
    then some commit
    else if t == 5
    then some sync_block_req
    else if t == 6
    then some sync_block_resp
    else if t == 7
    then some view_change_req
    else if t == 8
    then some online_request
    else if t == 9
    then some online_response
    else none

pub data ReadError : Type 0 where
  short_header short_body unknown_type bad_json : ReadError

pub data ReadResult : Type 0 where
  ok : Message → ReadResult
  err : ReadError → ReadResult

-- DecodeMessage
pub decode_message : (Kind → List ℕ → Option Payload) → ℕ → List ℕ → ReadResult
decode_message unmarshal t raw_msg = elim (make_empty_message t) [
  | none ↦ err unknown_type
  | some kind ↦ elim (unmarshal kind raw_msg) [
    | none ↦ err bad_json
    | some payload ↦ ok (record { message_type = t; payload = payload })
  ]
]

get_u32 : ℕ → ℕ → ℕ → ℕ → ℕ
get_u32 b0 b1 b2 b3 = b0 + b1 * 256 + b2 * 65536 + b3 * 16777216

-- The body after a header of twelve bytes: io.ReadFull fails on a short stream.
read_body : (Kind → List ℕ → Option Payload) → MessageHeader → List ℕ → ReadResult
read_body unmarshal header stream =
    if ltb (length stream) header.len
    then err short_body
    else decode_message unmarshal header.message_type (take header.len stream)

-- ReadMessage, with readMessageHeader: the twelve bytes of the header, then the body.
unfoldable pub read_message : (Kind → List ℕ → Option Payload) → List ℕ → ReadResult
unfolding read_body get_u32
read_message unmarshal (m0 ∷ m1 ∷ m2 ∷ m3 ∷ t0 ∷ t1 ∷ t2 ∷ t3 ∷ l0 ∷ l1 ∷ l2 ∷ l3 ∷ stream) =
    read_body unmarshal
      (record {
        magic = get_u32 m0 m1 m2 m3;
        message_type = get_u32 t0 t1 t2 t3;
        len = get_u32 l0 l1 l2 l3;
      })
      stream
read_message unmarshal _ = err short_header

-- BroadcastPeersFilter: the peers that are sent to, in order.
unfoldable pub broadcast_peers_filter : List Account → Account → List Account
broadcast_peers_filter [] black = []
broadcast_peers_filter (peer ∷ peers) black =
    let sent = broadcast_peers_filter peers black in
    ite (Account-discrete peer black) sent (peer ∷ sent)
