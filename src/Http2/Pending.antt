-- ===== src/Http2/Pending.antt =====
-- src/lib/tunnel/http2/plug_http2_tunnel_provider.rs: the one place where a stream that has come in waits
-- for the tunnel that it is for. A step holds the lock of the place.
pub mod Account
mod Examples
use mathlib.Core.Option
use plug2proxy.Prelude.{
  ℕ, nat_beq, ◌≡◌, ◌%◌, ◌^◌, Bool, Option, none, some, List, [], ◌∷◌, ◌++◌, if◌then◌else◌,
}
use plug2proxy.Tunnel.Bytes.{from_be_bytes}

-- The id that a stream begins with; `None` of the model is an error or no id within the time.
pub data IdRead : Type 0 where
  id_bytes : List ℕ → IdRead
  id_failed : IdRead
  id_timed_out : IdRead

module _ (Stream : Type 0) where
  -- What is in the place: the tunnel's id and the stream.
  abbrev pub Pending : Type 0
  Pending = Option (ℕ × Stream)

  -- What becomes of streams: one is put into the place; `wait_for_pending_stream` for a tunnel has returned one;
  -- one, that was for a tunnel, is dropped.
  pub data Event : Type 0 where
    arrived : ℕ → Stream → Event
    delivered : ℕ → Stream → Event
    dropped : ℕ → Stream → Event

  abbrev pub drop_event : Pending → List Event
  drop_event none = []
  drop_event (some (tunnel_id, stream)) = dropped tunnel_id stream ∷ []

  -- The accepting task, when a stream's id has been read or not: `replace` drops what is in the place.
  unfoldable pub stream_accepted : Pending → IdRead → Stream → Pending × List Event
  stream_accepted pending (id_bytes bytes) stream =
      let tunnel_id = from_be_bytes bytes in
      (some (tunnel_id, stream), drop_event pending ++ arrived tunnel_id stream ∷ [])
  stream_accepted pending id_failed stream = (pending, [])
  stream_accepted pending id_timed_out stream = (pending, [])

  -- One turn of `wait_for_pending_stream`: `take`, and the comparison.
  unfoldable pub wait_turn : Pending → ℕ → Pending × List Event
  wait_turn none tunnel_id = (none, [])
  wait_turn (some (pending_tunnel_id, stream)) tunnel_id = (
    none,
    (if nat_beq pending_tunnel_id tunnel_id
          then delivered tunnel_id stream
          else dropped pending_tunnel_id stream)
        ∷ [],
  )

  -- The accepting task and any number of waits, in any order, with the events in theirs.
  pub data Run : Pending → List Event → Pending → Type 0 where
    stay : (pending : Pending) → Run pending [] pending
    accept :
        (pending last : Pending) (read : IdRead) (stream : Stream) (events : List Event)
        → Run (stream_accepted pending read stream).0 events last
        → Run pending ((stream_accepted pending read stream).1 ++ events) last
    wait :
        (pending last : Pending) (tunnel_id : ℕ) (events : List Event)
        → Run (wait_turn pending tunnel_id).0 events last
        → Run pending ((wait_turn pending tunnel_id).1 ++ events) last
