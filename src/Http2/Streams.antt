-- ===== src/Http2/Streams.antt =====
-- src/lib/tunnel/http2/compat.rs: streams of HTTP/2 as byte streams. What the connection gives at each
-- poll is a list of the model; it is empty when the stream is at its end.
pub mod Read
pub mod ReadAll
pub mod Write
pub mod WriteAll
mod Examples
use plug2proxy.Prelude.{
  ℕ, zero, suc, ◌+◌, ◌-◌, ◌<◌, ◌≡◌, Bool, true, false, Option, none, some, List, [], ◌∷◌, ◌++◌,
  if◌then◌else◌, length, take, drop, ltb, leb, is_empty,
}

-- What `poll_data` gives.
pub data DataPoll : Type 0 where
  data_pending : DataPoll
  data_chunk : List ℕ → DataPoll
  data_error : DataPoll

-- `ResponseFutureOrRecvStream`: a response comes after a number of polls, and is the stream or an error.
pub data Inner : Type 0 where
  response_future : ℕ → Option (List DataPoll) → Inner
  recv_stream : List DataPoll → Inner

-- `H2RecvStreamAsyncRead`, and the bytes that flow control was told are released.
pub record ReadStream : Type 0 where
  pub inner : Inner
  pub pending : List ℕ
  pub released : ℕ

-- `H2RecvStreamAsyncRead::new`.
abbrev pub new_reader : Inner → ReadStream
new_reader inner = record { inner = inner; pending = []; released = 0 }

-- `Poll<Result<_>>` of reading: what was put into the buffer.
pub data ReadPoll : Type 0 where
  read_ready : List ℕ → ReadPoll
  read_pending : ReadPoll
  read_error : ReadPoll

abbrev pub min : ℕ → ℕ → ℕ
min m n = if ltb n m then n else m

-- The arm of `RecvStream`, with `remaining` bytes of room.
unfoldable pub read_data : ReadStream → ℕ → List DataPoll → ReadStream × ReadPoll
read_data self remaining [] = (record self { inner = recv_stream [] }, read_ready [])
read_data self remaining (data_pending ∷ polls) =
    (record self { inner = recv_stream polls }, read_pending)
read_data self remaining (data_error ∷ polls) =
    (record self { inner = recv_stream polls }, read_error)
read_data self remaining (data_chunk bytes ∷ polls) =
    let released = self.released + length bytes in
    if ltb (length bytes) remaining
    then (record self { inner = recv_stream polls; released = released }, read_ready bytes)
    else (
      record {
        inner = recv_stream polls;
        pending = self.pending ++ drop remaining bytes;
        released = released;
      },
      read_ready (take remaining bytes),
    )

-- The loop.
unfoldable pub read_inner : ReadStream → ℕ → Inner → ReadStream × ReadPoll
read_inner self remaining (response_future (suc delay) response) =
    (record self { inner = response_future delay response }, read_pending)
read_inner self remaining (response_future zero none) =
    (record self { inner = response_future zero none }, read_error)
read_inner self remaining (response_future zero (some polls)) = read_data self remaining polls
read_inner self remaining (recv_stream polls) = read_data self remaining polls

unfoldable pub poll_read : ReadStream → ℕ → ReadStream × ReadPoll
poll_read self remaining =
    if is_empty self.pending
    then read_inner self remaining self.inner
    else (let count = min (length self.pending) remaining in
        (record self { pending = drop count self.pending }, read_ready (take count self.pending)))

-- What `poll_capacity` gives: nothing yet, an error, or capacity out of the window that the connection then
-- has for the stream. An empty list is `None`, of a stream that is closed.
pub data CapacityPoll : Type 0 where
  capacity_pending : CapacityPoll
  capacity_granted : ℕ → CapacityPoll
  capacity_error : CapacityPoll

-- As `h2` documents it, a stream is assigned no more of the window than it has reserved.
abbrev pub assigned : ℕ → ℕ → ℕ
assigned requested window = min window requested

-- `H2SendStreamAsyncWrite`: the capacity, what is reserved, the polls to come, whether `send_data` takes data, the
-- frames that were sent, and whether the last of them ended the stream.
pub record WriteStream : Type 0 where
  pub capacity : ℕ
  pub requested : ℕ
  pub polls : List CapacityPoll
  pub takes_data : Bool
  pub sent : List (List ℕ)
  pub ended : Bool

pub data WritePoll : Type 0 where
  write_ready : ℕ → WritePoll
  write_pending : WritePoll
  write_error : WritePoll

-- `send_data`, of the bytes that the capacity allows.
unfoldable pub send_data : WriteStream → List ℕ → WriteStream × WritePoll
send_data self buffer =
    let count = min self.capacity (length buffer) in
    if self.takes_data
    then (
      record self { capacity = self.capacity - count; sent = self.sent ++ take count buffer ∷ [] },
      write_ready count,
    )
    else (self, write_error)

unfoldable pub reserve_capacity : ℕ → WriteStream → WriteStream
reserve_capacity count self = record self { requested = count }

-- The loop that reserves capacity for the buffer and waits for it.
unfoldable pub write_loop : WriteStream → List ℕ → ℕ → List CapacityPoll → WriteStream × WritePoll
write_loop self buffer (suc c) polls =
    send_data (record self { capacity = suc c; polls = polls }) buffer
write_loop self buffer zero [] =
    (record (reserve_capacity (length buffer) self) { capacity = 0; polls = [] }, write_ready 0)
write_loop self buffer zero (capacity_pending ∷ polls) =
    (record (reserve_capacity (length buffer) self) { capacity = 0; polls = polls }, write_pending)
write_loop self buffer zero (capacity_error ∷ polls) =
    (record (reserve_capacity (length buffer) self) { capacity = 0; polls = polls }, write_error)
write_loop self buffer zero (capacity_granted window ∷ polls) =
    let reserved = reserve_capacity (length buffer) self in
    write_loop reserved buffer (assigned reserved.requested window) polls

unfoldable pub poll_write : WriteStream → List ℕ → WriteStream × WritePoll
poll_write self [] = (self, write_ready 0)
poll_write self (b ∷ buffer) = write_loop self (b ∷ buffer) self.capacity self.polls

-- An empty frame that ends the stream.
unfoldable pub poll_shutdown : WriteStream → WriteStream × WritePoll
poll_shutdown self =
    if self.takes_data
    then (record self { sent = self.sent ++ [] ∷ []; ended = true }, write_ready 0)
    else (self, write_error)
