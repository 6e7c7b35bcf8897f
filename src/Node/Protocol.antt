-- ===== src/Node/Protocol.antt =====
-- crates/taron-node/src/protocol.rs: the messages between peers, and their frames on a stream: the
-- length of the payload in four bytes, the highest first, and the payload. `serde_json` is a
-- parameter. A stream that ends too early makes `read_exact` fail.
use taron.Prelude.{
  ℕ, zero, suc, ◌+◌, ◌*◌, ◌/◌, ◌%◌, ◌≡◌, Bool, Option, none, some, List, [], ◌∷◌, ◌++◌, length, ltb,
  if◌then◌else◌,
}
use taron.Prelude.Words.{Bytes, u32_mod}
use taron.Error.{Result, ok, err}
use taron.Transaction.{Transaction}
use taron.Finality.{TxAck}
use taron.Block.{Block}
use taron.Node.Peers.{SocketAddr}
pub mod Frames

abbrev pub max_message_size : ℕ
max_message_size = 1_048_576

pub data Message : Type 0 where
  hello : (version listen_port : ℕ) (user_agent : Bytes) → Message
  get_peers : Message
  peers : (addrs : List SocketAddr) → Message
  tx : (t : Transaction) → Message
  get_tx_hashes : Message
  tx_hashes get_txs : (hashes : List Bytes) → Message
  ping pong : (nonce : ℕ) → Message
  get_chain_height : Message
  chain_height : (h : ℕ) → Message
  get_blocks : (from to : ℕ) → Message
  blocks : (bs : List Block) → Message
  new_block : (b : Block) → Message
  tx_ack : (ack : TxAck) → Message
  get_tx_status : (tx_hash : Bytes) → Message
  tx_status : (tx_hash : Bytes) (acks : ℕ) (is_final : Bool) → Message

-- `serde_json::to_vec` and `serde_json::from_slice` on messages
pub record Json : Type 0 where
  pub to_vec : Message → Option Bytes
  pub from_slice : Bytes → Option Message

-- What was written can be read again.
pub record IsLossless (json : Json) : Type 0 where
  pub reads_back :
      (m : Message) (payload : Bytes)
      → json.to_vec m ≡ some payload
      → json.from_slice payload ≡ some m

-- The errors of the stream, by the kind or the reason.
pub data IoError : Type 0 where
  invalid_data too_large unexpected_eof : IoError

-- `u32::to_be_bytes`
unfoldable pub to_be_bytes : ℕ → Bytes
to_be_bytes x = x / 0x100_0000 % 256 ∷ x / 0x1_0000 % 256 ∷ x / 256 % 256 ∷ x % 256 ∷ []

-- `u32::from_be_bytes`
unfoldable pub from_be_bytes : Bytes → ℕ
from_be_bytes (a ∷ b ∷ c ∷ d ∷ _) = ((a * 256 + b) * 256 + c) * 256 + d
from_be_bytes _ = 0

-- `read_exact`: the bytes that are read, and the rest of the stream
unfoldable pub read_exact : ℕ → Bytes → Option (Bytes × Bytes)
read_exact zero stream = some ([], stream)
read_exact (suc n) [] = none
read_exact (suc n) (b ∷ stream) = elim (read_exact n stream) [
  | none ↦ none
  | some (bs, rest) ↦ some (b ∷ bs, rest)
]

module _ (json : Json) where
  -- The bytes that are written to the stream.
  unfoldable pub send_message : Message → Result Bytes IoError
  send_message m = elim (json.to_vec m) [
    | none ↦ err invalid_data
    | some payload ↦
        if ltb max_message_size (length payload)
        then err too_large
        else ok (to_be_bytes (length payload % u32_mod) ++ payload)
  ]

  -- The message and the rest of the stream.
  unfoldable pub recv_message : Bytes → Result (Message × Bytes) IoError
  recv_message stream = elim (read_exact 4 stream) [
    | none ↦ err unexpected_eof
    | some (len_buf, stream') ↦
        let len = from_be_bytes len_buf in
        if ltb max_message_size len then err too_large else elim (read_exact len stream') [
          | none ↦ err unexpected_eof
          | some (payload, rest) ↦ elim (json.from_slice payload) [
            | none ↦ err invalid_data
            | some m ↦ ok (m, rest)
          ]
        ]
  ]

  -- The task that writes to a peer: it ends at the first message that is not sent.
  unfoldable pub write_frames : List Message → Bytes
  write_frames [] = []
  write_frames (m ∷ ms) =
      let later = write_frames ms in
      elim (send_message m) [ err _ ↦ [] | ok frame ↦ frame ++ later ]

  -- The loop that reads from a peer: it ends at the first error.
  unfoldable pub read_frames : ℕ → Bytes → List Message
  read_frames zero stream = []
  read_frames (suc fuel) stream = elim (recv_message stream) [
    | err _ ↦ []
    | ok (m, rest) ↦ m ∷ read_frames fuel rest
  ]
