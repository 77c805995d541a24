-- ===== src/Http2/Streams/Read.antt =====
-- Reading from a stream of HTTP/2 (src/lib/tunnel/http2/compat.rs).
use mathlib.Core.List.{append_assoc}
use plug2proxy.Prelude.{
  ℕ, zero, suc, ◌+◌, ◌≡◌, refl, sym, ap, ◌∙◌, subst, inl, inr, true, Bool-cases, none, some, List,
  [], ◌∷◌, ◌++◌, length, take, drop, take-drop, length-append, ltb, is_empty, if_true, if_false,
  arith,
}
use plug2proxy.Http2.Streams.{
  DataPoll, data_pending, data_chunk, data_error, Inner, response_future, recv_stream, ReadStream,
  ReadPoll, read_ready, read_pending, read_error, min, read_data, read_inner, poll_read,
}

abbrev pub chunks : List DataPoll → List ℕ
chunks [] = []
chunks (data_pending ∷ polls) = chunks polls
chunks (data_error ∷ polls) = chunks polls
chunks (data_chunk bytes ∷ polls) = bytes ++ chunks polls

abbrev pub inner_bytes : Inner → List ℕ
inner_bytes (response_future delay none) = []
inner_bytes (response_future delay (some polls)) = chunks polls
inner_bytes (recv_stream polls) = chunks polls

-- All that is still to be read.
abbrev pub coming : ReadStream → List ℕ
coming self = self.pending ++ inner_bytes self.inner

-- What a poll has put into the buffer.
abbrev pub bytes_of : ReadPoll → List ℕ
bytes_of (read_ready bytes) = bytes
bytes_of read_pending = []
bytes_of read_error = []

-- One read after the other, with the room that each has.
unfoldable pub poll_reads : ReadStream → List ℕ → ReadStream × List ℕ
poll_reads self [] = (self, [])
poll_reads self (remaining ∷ buffers) =
    let (self', poll) = poll_read self remaining in
    let (last, bytes) = poll_reads self' buffers in (last, bytes_of poll ++ bytes)

-- Nothing is lost, and what has come is released.
abbrev pub IsLossless : ReadStream → ReadStream → List ℕ → Type 0
IsLossless self self' bytes =
    (coming self ≡ bytes ++ coming self')
    × (self'.released + length (inner_bytes self'.inner)
        ≡ self.released + length (inner_bytes self.inner))

abbrev IsLosslessPoll : ReadStream → ReadStream × ReadPoll → Type 0
IsLosslessPoll self (self', poll) = IsLossless self self' (bytes_of poll)

released_once :
    (self : ReadStream) (bytes : List ℕ) (polls : List DataPoll)
    → inner_bytes self.inner ≡ bytes ++ chunks polls
    → self.released + length bytes + length (chunks polls)
      ≡ self.released + length (inner_bytes self.inner)
released_once self bytes polls f = omega (arith, length-append bytes (chunks polls), ap length f)

split_bytes : (n : ℕ) (bytes rest : List ℕ) → bytes ++ rest ≡ take n bytes ++ (drop n bytes ++ rest)
split_bytes n bytes rest =
    ap (λ z. z ++ rest) (sym (take-drop n bytes)) ∙ append_assoc (take n bytes) (drop n bytes) rest

read_data-IsLossless :
    (self : ReadStream) (remaining : ℕ) (polls : List DataPoll)
    → self.pending ≡ []
    → inner_bytes self.inner ≡ chunks polls
    → IsLosslessPoll self (read_data self remaining polls)
unfolding read_data
read_data-IsLossless self remaining [] e f = rw (e, f) (refl, refl)
read_data-IsLossless self remaining (data_pending ∷ polls) e f = rw (e, f) (refl, refl)
read_data-IsLossless self remaining (data_error ∷ polls) e f = rw (e, f) (refl, refl)
read_data-IsLossless self remaining (data_chunk bytes ∷ polls) e f =
    let released = self.released + length bytes in
    let whole : ReadStream × ReadPoll =
      (record self { inner = recv_stream polls; released = released }, read_ready bytes) in
    let part : ReadStream × ReadPoll = (
      record {
        inner = recv_stream polls;
        pending = self.pending ++ drop remaining bytes;
        released = released;
      },
      read_ready (take remaining bytes),
    ) in
    elim (Bool-cases (ltb (length bytes) remaining)) [
      | inl b ↦
          subst (IsLosslessPoll self) (sym (if_true whole part b))
            (rw (e, f) refl, released_once self bytes polls f)
      | inr b ↦
          subst (IsLosslessPoll self) (sym (if_false whole part b)) (
            rw (e, f) (split_bytes remaining bytes (chunks polls)),
            released_once self bytes polls f,
          )
    ]

read_inner-IsLossless :
    (self : ReadStream) (remaining : ℕ) (inner : Inner)
    → self.pending ≡ []
    → self.inner ≡ inner
    → IsLosslessPoll self (read_inner self remaining inner)
unfolding read_inner
read_inner-IsLossless self remaining (response_future (suc delay) none) e f = rw (e, f) (refl, refl)
read_inner-IsLossless self remaining (response_future (suc delay) (some polls)) e f =
    rw (e, f) (refl, refl)
read_inner-IsLossless self remaining (response_future zero none) e f = rw (e, f) (refl, refl)
read_inner-IsLossless self remaining (response_future zero (some polls)) e f =
    read_data-IsLossless self remaining polls e (ap inner_bytes f)
read_inner-IsLossless self remaining (recv_stream polls) e f =
    read_data-IsLossless self remaining polls e (ap inner_bytes f)

pub is_empty-nil : (xs : List ℕ) → is_empty xs ≡ true → xs ≡ []
is_empty-nil [] h = refl
is_empty-nil (x ∷ xs) h = cc

poll_read-IsLossless :
    (self : ReadStream) (remaining : ℕ) → IsLosslessPoll self (poll_read self remaining)
unfolding poll_read
poll_read-IsLossless self remaining =
    let count = min (length self.pending) remaining in
    let kept : ReadStream × ReadPoll =
      (record self { pending = drop count self.pending }, read_ready (take count self.pending)) in
    let inner = read_inner self remaining self.inner in
    elim (Bool-cases (is_empty self.pending)) [
      | inl b ↦
          subst (IsLosslessPoll self) (sym (if_true inner kept b))
            (read_inner-IsLossless self remaining self.inner (is_empty-nil self.pending b) refl)
      | inr b ↦
          subst (IsLosslessPoll self) (sym (if_false inner kept b))
            (split_bytes count self.pending (inner_bytes self.inner), refl)
    ]

-- Whatever the stream gives and whatever room each read has, the bytes that the reads give are the first of
-- those that were kept or are to come, in their order, and the rest is still kept or to come: none is
-- lost, repeated or reordered; and flow control is told of each byte exactly when its chunk comes.
pub poll_reads-IsLossless :
    (self : ReadStream) (buffers : List ℕ)
    → IsLossless self (poll_reads self buffers).0 (poll_reads self buffers).1
unfolding poll_reads
poll_reads-IsLossless self [] = (refl, refl)
poll_reads-IsLossless self (remaining ∷ buffers) =
    let self' = (poll_read self remaining).0 in
    let bytes = bytes_of (poll_read self remaining).1 in
    let (kept, released) = poll_read-IsLossless self remaining in
    let (kept', released') = poll_reads-IsLossless self' buffers in
    (
      kept
          ∙ ap (λ z. bytes ++ z) kept'
          ∙ sym (
              append_assoc bytes (poll_reads self' buffers).1
                (coming (poll_reads self' buffers).0)),
      released' ∙ released,
    )
