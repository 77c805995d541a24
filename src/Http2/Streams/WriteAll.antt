-- ===== src/Http2/Streams/WriteAll.antt =====
-- Writing a whole buffer to a stream of HTTP/2, and reading it at the other end
-- (src/lib/tunnel/http2/compat.rs).
use mathlib.Core.List.{append-nil}
use plug2proxy.Prelude.{
  ℕ, zero, suc, ◌+◌, ◌-◌, ◌≤◌, ◌<◌, ◌≡◌, refl, sym, ap, ◌∙◌, subst, true, List, [], ◌∷◌, ◌++◌,
  length, take, drop, length-drop, if_true, All, arith,
}
use plug2proxy.Http2.Streams.{
  Inner, new_reader, CapacityPoll, capacity_pending, capacity_granted, capacity_error, WriteStream,
  WritePoll, write_ready, write_pending, write_error, min, assigned, send_data, reserve_capacity,
  write_loop, poll_write,
}
use plug2proxy.Http2.Streams.Read.{inner_bytes, poll_reads}
use plug2proxy.Http2.Streams.ReadAll.{reads_left, poll_reads-All}
use plug2proxy.Http2.Streams.Write.{concat, after_poll, write_on, write_on-IsSent}

abbrev pub granted : List CapacityPoll → ℕ
granted [] = 0
granted (capacity_granted c ∷ polls) = c + granted polls
granted (capacity_pending ∷ polls) = granted polls
granted (capacity_error ∷ polls) = granted polls

abbrev pub NoError : List CapacityPoll → Type 0
NoError [] = Unit
NoError (capacity_granted c ∷ polls) = NoError polls
NoError (capacity_pending ∷ polls) = NoError polls
NoError (capacity_error ∷ polls) = ⊥

-- The stream is open, no error is to come, and the capacity and the windows to come are enough for the
-- buffer.
abbrev pub IsReady : WriteStream → List ℕ → Type 0
IsReady self buffer =
    (self.takes_data ≡ true)
    × NoError self.polls
    × (length buffer ≤ self.capacity + granted self.polls)

-- How many polls are enough.
abbrev pub writes_left : WriteStream → List ℕ → ℕ
writes_left self buffer = length self.polls + length buffer

-- A poll that leaves less to do.
abbrev IsGoing : WriteStream → List ℕ → WriteStream × WritePoll → Type 0
IsGoing self buffer (self', write_ready count) =
    IsReady self' (drop count buffer)
    × (writes_left self' (drop count buffer) < writes_left self buffer)
IsGoing self buffer (self', write_pending) =
    IsReady self' buffer × (writes_left self' buffer < writes_left self buffer)
IsGoing self buffer (self', write_error) = ⊥

send_data-IsGoing :
    (self : WriteStream) (buffer : List ℕ)
    → IsReady self buffer
    → 0 < self.capacity
    → 0 < length buffer
    → IsGoing self buffer (send_data self buffer)
unfolding send_data
send_data-IsGoing self buffer (open_, no_error, enough) positive some_bytes =
    let count = min self.capacity (length buffer) in
    let self' : WriteStream = record self {
      capacity = self.capacity - count;
      sent = self.sent ++ take count buffer ∷ [];
    } in
    subst (IsGoing self buffer) (sym (if_true (self', write_ready count) (self, write_error) open_))
      (
        (open_, no_error, ground (arith, length-drop count buffer)),
        ground (arith, length-drop count buffer),
      )

-- A stream with at least as many polls left has more to do.
IsGoing-mono :
    (self self' : WriteStream) (buffer : List ℕ) (r : WriteStream × WritePoll)
    → length self.polls ≤ length self'.polls
    → IsGoing self buffer r
    → IsGoing self' buffer r
IsGoing-mono self self' buffer (after, write_ready count) h (ready, less) = (ready, omega arith)
IsGoing-mono self self' buffer (after, write_pending) h (ready, less) = (ready, omega arith)
IsGoing-mono self self' buffer (after, write_error) h going = going

write_loop-IsGoing :
    (self : WriteStream) (b : ℕ) (buffer : List ℕ) (c : ℕ) (polls : List CapacityPoll)
    → self.takes_data ≡ true
    → NoError polls
    → suc (length buffer) ≤ c + granted polls
    → length polls ≤ length self.polls
    → IsGoing self (b ∷ buffer) (write_loop self (b ∷ buffer) c polls)
unfolding write_loop reserve_capacity
write_loop-IsGoing self b buffer (suc c) polls o e h l =
    let started : WriteStream = record self { capacity = suc c; polls = polls } in
    IsGoing-mono started self (b ∷ buffer) (send_data started (b ∷ buffer)) l
      (send_data-IsGoing started (b ∷ buffer) (o, e, h) (omega arith) (omega arith))
write_loop-IsGoing self b buffer zero [] o e h l = absurd (omega arith)
write_loop-IsGoing self b buffer zero (capacity_pending ∷ polls) o e h l = ((o, e, h), omega arith)
write_loop-IsGoing self b buffer zero (capacity_error ∷ polls) o e h l = absurd e
write_loop-IsGoing self b buffer zero (capacity_granted c ∷ polls) o e h l =
    write_loop-IsGoing (reserve_capacity (suc (length buffer)) self) b buffer
      (assigned (suc (length buffer)) c) polls o e (ground arith) (omega arith)

poll_write-IsGoing :
    (self : WriteStream) (b : ℕ) (buffer : List ℕ)
    → IsReady self (b ∷ buffer)
    → IsGoing self (b ∷ buffer) (poll_write self (b ∷ buffer))
unfolding poll_write
poll_write-IsGoing self b buffer (open_, no_error, enough) =
    write_loop-IsGoing self b buffer self.capacity self.polls open_ no_error enough (omega arith)

write_on-nil : (n : ℕ) (self : WriteStream) → (write_on n self []).1 ≡ []
unfolding write_on poll_write drop
write_on-nil zero self = refl
write_on-nil (suc n) self = write_on-nil n self

after_poll-nil :
    (n : ℕ) (self : WriteStream) (buffer : List ℕ)
    → writes_left self buffer ≤ suc n
    → ((self' : WriteStream) (rest : List ℕ)
        → IsReady self' rest
        → writes_left self' rest ≤ n
        → (write_on n self' rest).1 ≡ [])
    → (r : WriteStream × WritePoll) → IsGoing self buffer r
    → (after_poll (write_on n) buffer r).1 ≡ []
after_poll-nil n self buffer h go (self', write_ready count) (ready, less) =
    go self' (drop count buffer) ready (omega arith)
after_poll-nil n self buffer h go (self', write_pending) (ready, less) =
    go self' buffer ready (omega arith)
after_poll-nil n self buffer h go (self', write_error) going = absurd going

write_on_all :
    (n : ℕ) (self : WriteStream) (buffer : List ℕ)
    → IsReady self buffer
    → writes_left self buffer ≤ n
    → (write_on n self buffer).1 ≡ []
unfolding write_on
write_on_all zero self [] ready h = refl
write_on_all zero self (b ∷ buffer) ready h = absurd (omega arith)
write_on_all (suc n) self [] ready h = write_on-nil (suc n) self
write_on_all (suc n) self (b ∷ buffer) ready h =
    after_poll-nil n self (b ∷ buffer) h (λ self' rest. write_on_all n self' rest)
      (poll_write self (b ∷ buffer)) (poll_write-IsGoing self b buffer ready)

-- What HTTP/2 promises: the other end of a stream gets the bytes of its frames in their order, in whatever
-- chunks and after whatever polls of nothing.
abbrev pub IsDelivered : List (List ℕ) → Inner → Type 0
IsDelivered frames inner = inner_bytes inner ≡ concat frames

-- A buffer that is written to a new stream is written whole, and the reads at the other end, to which the
-- stream's bytes are delivered in whatever chunks and after whatever polls of nothing, give exactly its
-- bytes. Conditions: the stream takes data, no error is to come and the windows to come are enough for the
-- buffer; there are as many polls of writing as `writes_left` and reads with room as `reads_left` say.
pub poll_reads-write_on :
    (n : ℕ) (self : WriteStream) (buffer : List ℕ) (inner : Inner) (buffers : List ℕ)
    → self.sent ≡ []
    → IsReady self buffer
    → writes_left self buffer ≤ n
    → IsDelivered (write_on n self buffer).0.sent inner
    → All (λ remaining. 0 < remaining) buffers
    → reads_left (new_reader inner) ≤ length buffers
    → ((write_on n self buffer).1 ≡ []) × ((poll_reads (new_reader inner) buffers).1 ≡ buffer)
poll_reads-write_on n self buffer inner buffers new ready h delivered positive enough =
    let sent = (write_on n self buffer).0 in
    let rest = (write_on n self buffer).1 in
    let all : rest ≡ [] = write_on_all n self buffer ready h in
    (
      all,
      poll_reads-All (new_reader inner) buffers positive enough
          ∙ delivered
          ∙ sym (append-nil (concat sent.sent))
          ∙ ap (λ z. concat sent.sent ++ z) (sym all)
          ∙ write_on-IsSent n self buffer
          ∙ ap (λ z. concat z ++ buffer) new,
    )
