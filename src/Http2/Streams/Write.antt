-- ===== src/Http2/Streams/Write.antt =====
-- Writing to a stream of HTTP/2 (src/lib/tunnel/http2/compat.rs), and reading what was written.
use mathlib.Core.List.{append_assoc, append-nil}
use plug2proxy.Prelude.{
  ℕ, zero, suc, ◌-◌, ◌≡◌, refl, sym, ap, ◌∙◌, subst, inl, inr, Bool-cases, List, [], ◌∷◌, ◌++◌,
  length, take, drop, take-drop, if_true, if_false,
}
use plug2proxy.Http2.Streams.{
  CapacityPoll, capacity_pending, capacity_granted, capacity_error, WriteStream, WritePoll,
  write_ready, write_pending, write_error, min, assigned, send_data, reserve_capacity, write_loop,
  poll_write,
}

abbrev pub concat : List (List ℕ) → List ℕ
concat [] = []
concat (frame ∷ frames) = frame ++ concat frames

abbrev pub Writer : Type 0
Writer = WriteStream → List ℕ → WriteStream × List ℕ

-- What a caller does after a poll, with what it does next.
abbrev pub after_poll : Writer → List ℕ → WriteStream × WritePoll → WriteStream × List ℕ
after_poll next buffer (self, write_ready count) = next self (drop count buffer)
after_poll next buffer (self, write_pending) = next self buffer
after_poll next buffer (self, write_error) = (self, buffer)

-- A caller that goes on with the rest of its buffer until it has been written, as `write_all` is documented
-- to do, for a number of polls: the stream after, and the rest.
unfoldable pub write_on : ℕ → WriteStream → List ℕ → WriteStream × List ℕ
write_on zero self buffer = (self, buffer)
write_on (suc n) self buffer = after_poll (write_on n) buffer (poll_write self buffer)

concat-snoc :
    (frames : List (List ℕ)) (frame : List ℕ)
    → concat (frames ++ frame ∷ []) ≡ concat frames ++ frame
concat-snoc [] frame = append-nil frame
concat-snoc (f ∷ frames) frame =
    ap (λ z. f ++ z) (concat-snoc frames frame) ∙ sym (append_assoc f (concat frames) frame)

-- What one poll has sent of a buffer.
abbrev IsSent : WriteStream → List ℕ → WriteStream × WritePoll → Type 0
IsSent self buffer (self', write_ready count) =
    concat self'.sent ≡ concat self.sent ++ take count buffer
IsSent self buffer (self', write_pending) = self'.sent ≡ self.sent
IsSent self buffer (self', write_error) = self'.sent ≡ self.sent

send_data-IsSent :
    (self : WriteStream) (buffer : List ℕ) → IsSent self buffer (send_data self buffer)
unfolding send_data
send_data-IsSent self buffer =
    let count = min self.capacity (length buffer) in
    let sent : WriteStream × WritePoll = (
      record self { capacity = self.capacity - count; sent = self.sent ++ take count buffer ∷ [] },
      write_ready count,
    ) in
    elim (Bool-cases self.takes_data) [
      | inl b ↦
          subst (IsSent self buffer) (sym (if_true sent (self, write_error) b))
            (concat-snoc self.sent (take count buffer))
      | inr b ↦ subst (IsSent self buffer) (sym (if_false sent (self, write_error) b)) refl
    ]

write_loop-IsSent :
    (self : WriteStream) (buffer : List ℕ) (c : ℕ) (polls : List CapacityPoll)
    → IsSent self buffer (write_loop self buffer c polls)
unfolding write_loop reserve_capacity take
write_loop-IsSent self buffer (suc c) polls =
    send_data-IsSent (record self { capacity = suc c; polls = polls }) buffer
write_loop-IsSent self buffer zero [] = sym (append-nil (concat self.sent))
write_loop-IsSent self buffer zero (capacity_pending ∷ polls) = refl
write_loop-IsSent self buffer zero (capacity_error ∷ polls) = refl
write_loop-IsSent self buffer zero (capacity_granted c ∷ polls) =
    write_loop-IsSent (reserve_capacity (length buffer) self) buffer (assigned (length buffer) c)
      polls

poll_write-IsSent :
    (self : WriteStream) (buffer : List ℕ) → IsSent self buffer (poll_write self buffer)
unfolding poll_write take
poll_write-IsSent self [] = sym (append-nil (concat self.sent))
poll_write-IsSent self (b ∷ buffer) = write_loop-IsSent self (b ∷ buffer) self.capacity self.polls

abbrev pub IsSentWith : WriteStream → List ℕ → WriteStream × List ℕ → Type 0
IsSentWith self buffer (self', rest) = concat self'.sent ++ rest ≡ concat self.sent ++ buffer

after_poll-IsSent :
    (next : Writer)
    → ((self : WriteStream) (buffer : List ℕ) → IsSentWith self buffer (next self buffer))
    → (self : WriteStream) (buffer : List ℕ) (r : WriteStream × WritePoll) → IsSent self buffer r
    → IsSentWith self buffer (after_poll next buffer r)
after_poll-IsSent next go self buffer (self', write_ready count) h =
    go self' (drop count buffer)
    ∙ ap (λ z. z ++ drop count buffer) h
    ∙ append_assoc (concat self.sent) (take count buffer) (drop count buffer)
    ∙ ap (λ z. concat self.sent ++ z) (take-drop count buffer)
after_poll-IsSent next go self buffer (self', write_pending) h =
    go self' buffer ∙ ap (λ z. concat z ++ buffer) h
after_poll-IsSent next go self buffer (self', write_error) h = ap (λ z. concat z ++ buffer) h

-- Whatever capacity is granted and whenever, and where the writing ends with an error too: the frames that
-- are sent, followed by the rest of the buffer, are those sent before followed by the buffer.
pub write_on-IsSent :
    (n : ℕ) (self : WriteStream) (buffer : List ℕ) → IsSentWith self buffer (write_on n self buffer)
unfolding write_on
write_on-IsSent zero self buffer = refl
write_on-IsSent (suc n) self buffer =
    after_poll-IsSent (write_on n) (write_on-IsSent n) self buffer (poll_write self buffer)
      (poll_write-IsSent self buffer)
