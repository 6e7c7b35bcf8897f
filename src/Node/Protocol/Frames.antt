-- ===== src/Node/Protocol/Frames.antt =====
-- The frames of crates/taron-node/src/protocol.rs: what `send_message` writes, `recv_message` reads,
-- one message after the other, and a frame that is too long is refused by its first four bytes.
use taron.Prelude.{
  ℕ, zero, suc, ◌%◌, ◌<◌, ◌≡◌, refl, ap, ◌∙◌, true, some, List, [], ◌∷◌, ◌++◌, length, arith, ltb,
  inl, inr, Bool-cases, Option-cases,
}
use taron.Prelude.Words.{Bytes, u32_mod}
use taron.Error.{ok, err, Result-cases}
use taron.Node.Protocol.{
  Message, Json, IsLossless, too_large, to_be_bytes, from_be_bytes, read_exact, send_message,
  recv_message, write_frames, read_frames, max_message_size,
}

read_exact-append : (bs rest : Bytes) → read_exact (length bs) (bs ++ rest) ≡ some (bs, rest)
unfolding read_exact
read_exact-append [] rest = refl
read_exact-append (b ∷ bs) rest = ground (arith, read_exact-append bs rest)

read_exact-header :
    (x : ℕ) (payload rest : Bytes)
    → read_exact 4 ((to_be_bytes x ++ payload) ++ rest) ≡ some (to_be_bytes x, payload ++ rest)
unfolding read_exact to_be_bytes
read_exact-header x payload rest = refl

read_exact-length :
    (x : ℕ) (rest : Bytes) → read_exact 4 (to_be_bytes x ++ rest) ≡ some (to_be_bytes x, rest)
unfolding read_exact to_be_bytes
read_exact-length x rest = refl

from_be_bytes-to_be_bytes : (x : ℕ) → x < u32_mod → from_be_bytes (to_be_bytes x) ≡ x
unfolding from_be_bytes to_be_bytes
from_be_bytes-to_be_bytes x h = omega arith

module _ (json : Json) where
  -- A frame whose header asks for more than the limit is refused, whatever follows the header.
  pub recv_message_too_large :
      (x : ℕ) (stream : Bytes)
      → x < u32_mod
      → max_message_size < x
      → recv_message json (to_be_bytes x ++ stream) ≡ err too_large
  unfolding recv_message
  recv_message_too_large x stream word large =
      let over : ltb max_message_size x ≡ true = ground arith in
      rw (recv_message, read_exact-length x stream, from_be_bytes-to_be_bytes x word, over) refl

  -- The messages before the first that cannot be sent.
  unfoldable pub sendable : List Message → List Message
  sendable [] = []
  sendable (m ∷ ms) =
      let later = sendable ms in elim (send_message json m) [ err _ ↦ [] | ok _ ↦ m ∷ later ]

  module _ (lossless : IsLossless json) where
    -- A message that is sent is received, and nothing of what follows it is read.
    recv_message-send_message :
        (m : Message) (frame rest : Bytes)
        → send_message json m ≡ ok frame
        → recv_message json (frame ++ rest) ≡ ok (m, rest)
    unfolding send_message recv_message
    recv_message-send_message m frame rest h = elim (Option-cases (json.to_vec m)) [
      | inl e ↦ absurd (ground arith)
      | inr (payload, e) ↦ elim (Bool-cases (ltb max_message_size (length payload))) [
        | inl large ↦ absurd (ground arith)
        | inr fits ↦
            let n = length payload % u32_mod in
            let written : frame ≡ to_be_bytes n ++ payload = ground arith in
            let len : from_be_bytes (to_be_bytes n) ≡ length payload =
              from_be_bytes-to_be_bytes n (omega arith) ∙ ground arith in
            rw
              (
                written,
                recv_message,
                read_exact-header n payload rest,
                len,
                fits,
                read_exact-append payload rest,
                lossless.reads_back m payload e,
              )
              refl
      ]
    ]

    -- From what the writing task of a peer puts on the stream, the other side reads exactly the
    -- messages before the first that cannot be serialised or is too large, in their order, if
    -- `serde_json` reads back what it wrote.
    pub read_frames-write_frames :
        (ms : List Message) (fuel : ℕ)
        → length ms < fuel
        → read_frames json fuel (write_frames json ms) ≡ sendable ms
    unfolding read_frames write_frames sendable
    read_frames-write_frames ms zero enough = absurd (omega arith)
    read_frames-write_frames [] (suc fuel) enough = unfold recv_message read_exact in refl
    read_frames-write_frames (m ∷ ms) (suc fuel) enough =
        elim (Result-cases (send_message json m)) [
          | inr (e, refused) ↦
              rw (read_frames, write_frames, sendable, refused)
                (unfold recv_message read_exact in refl)
          | inl (frame, sent) ↦
              rw
                (
                  write_frames,
                  sendable,
                  sent,
                  read_frames,
                  recv_message-send_message m frame (write_frames json ms) sent,
                )
                (ap (λ l. m ∷ l) (read_frames-write_frames ms fuel (omega arith)))
        ]
