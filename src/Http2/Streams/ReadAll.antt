-- ===== src/Http2/Streams/ReadAll.antt =====
-- Reading a stream of HTTP/2 to its end (src/lib/tunnel/http2/compat.rs).
use mathlib.Core.List.{append-nil}
use plug2proxy.Prelude.{
  ℕ, zero, suc, ◌+◌, ◌-◌, ◌≤◌, ◌<◌, ◌≡◌, refl, sym, ap, ◌∙◌, subst, inl, inr, false, Bool-cases,
  none, some, List, [], ◌∷◌, ◌++◌, length, take, drop, length-drop, length-append, ltb, is_empty,
  if_true, if_false, All, arith,
}
use plug2proxy.Http2.Streams.{
  DataPoll, data_pending, data_chunk, data_error, Inner, response_future, recv_stream, ReadStream,
  ReadPoll, read_ready, min, read_data, read_inner, poll_read,
}
use plug2proxy.Http2.Streams.Read.{
  chunks, inner_bytes, coming, poll_reads, is_empty-nil, poll_reads-IsLossless,
}

abbrev pub polls_left : List DataPoll → ℕ
polls_left [] = 0
polls_left (data_pending ∷ polls) = suc (polls_left polls)
polls_left (data_error ∷ polls) = suc (polls_left polls)
polls_left (data_chunk bytes ∷ polls) = suc (length bytes + polls_left polls)

abbrev pub inner_left : Inner → ℕ
inner_left (response_future delay none) = delay
inner_left (response_future delay (some polls)) = delay + polls_left polls
inner_left (recv_stream polls) = polls_left polls

-- How many reads are enough.
abbrev pub reads_left : ReadStream → ℕ
reads_left self = length self.pending + inner_left self.inner

-- A poll of nothing, or one that leaves less to do.
abbrev IsProgress : ReadStream → ReadStream × ReadPoll → Type 0
IsProgress self (self', poll) = reads_left self' ≤ reads_left self - 1

read_data-IsProgress :
    (self : ReadStream) (r : ℕ) (polls : List DataPoll)
    → self.pending ≡ []
    → polls_left polls ≤ inner_left self.inner
    → IsProgress self (read_data self (suc r) polls)
unfolding read_data
read_data-IsProgress self r [] e h = rw e (omega arith)
read_data-IsProgress self r (data_pending ∷ polls) e h = rw e (omega arith)
read_data-IsProgress self r (data_error ∷ polls) e h = rw e (omega arith)
read_data-IsProgress self r (data_chunk bytes ∷ polls) e h =
    let released = self.released + length bytes in
    let whole : ReadStream × ReadPoll =
      (record self { inner = recv_stream polls; released = released }, read_ready bytes) in
    let part : ReadStream × ReadPoll = (
      record {
        inner = recv_stream polls;
        pending = self.pending ++ drop (suc r) bytes;
        released = released;
      },
      read_ready (take (suc r) bytes),
    ) in
    elim (Bool-cases (ltb (length bytes) (suc r))) [
      | inl b ↦ subst (IsProgress self) (sym (if_true whole part b)) (rw e (omega arith))
      | inr b ↦
          subst (IsProgress self) (sym (if_false whole part b))
            (rw e (omega (arith, length-drop (suc r) bytes)))
    ]

read_inner-IsProgress :
    (self : ReadStream) (r : ℕ) (inner : Inner)
    → self.pending ≡ []
    → self.inner ≡ inner
    → IsProgress self (read_inner self (suc r) inner)
unfolding read_inner
read_inner-IsProgress self r (response_future (suc delay) none) e f = rw (e, f) (omega arith)
read_inner-IsProgress self r (response_future (suc delay) (some polls)) e f =
    rw (e, f) (omega arith)
read_inner-IsProgress self r (response_future zero none) e f = rw (e, f) (omega arith)
read_inner-IsProgress self r (response_future zero (some polls)) e f =
    read_data-IsProgress self r polls e (omega (arith, ap inner_left f))
read_inner-IsProgress self r (recv_stream polls) e f =
    read_data-IsProgress self r polls e (omega (arith, ap inner_left f))

nonempty_length : (xs : List ℕ) → is_empty xs ≡ false → 1 ≤ length xs
nonempty_length [] h = cc
nonempty_length (x ∷ xs) h = omega arith

poll_read-IsProgress : (self : ReadStream) (r : ℕ) → IsProgress self (poll_read self (suc r))
unfolding poll_read
poll_read-IsProgress self r =
    let count = min (length self.pending) (suc r) in
    let kept : ReadStream × ReadPoll =
      (record self { pending = drop count self.pending }, read_ready (take count self.pending)) in
    let inner = read_inner self (suc r) self.inner in
    elim (Bool-cases (is_empty self.pending)) [
      | inl b ↦
          subst (IsProgress self) (sym (if_true inner kept b))
            (read_inner-IsProgress self r self.inner (is_empty-nil self.pending b) refl)
      | inr b ↦
          subst (IsProgress self) (sym (if_false inner kept b))
            (ground (arith, length-drop count self.pending, nonempty_length self.pending b))
    ]

poll_reads_left :
    (self : ReadStream) (buffers : List ℕ)
    → All (λ remaining. 0 < remaining) buffers
    → reads_left self ≤ length buffers
    → reads_left (poll_reads self buffers).0 ≡ 0
unfolding poll_reads
poll_reads_left self [] positive h = omega arith
poll_reads_left self (zero ∷ buffers) positive h = omega (arith, positive.0)
poll_reads_left self (suc r ∷ buffers) positive h =
    poll_reads_left (poll_read self (suc r)).0 buffers positive.1
      (omega (arith, poll_read-IsProgress self r))

nothing_left : (xs : List ℕ) → length xs ≡ 0 → xs ≡ []
nothing_left [] h = refl
nothing_left (x ∷ xs) h = absurd (omega arith)

length-chunks : (polls : List DataPoll) → length (chunks polls) ≤ polls_left polls
length-chunks [] = omega arith
length-chunks (data_pending ∷ polls) = omega (arith, length-chunks polls)
length-chunks (data_error ∷ polls) = omega (arith, length-chunks polls)
length-chunks (data_chunk bytes ∷ polls) =
    omega (arith, length-append bytes (chunks polls), length-chunks polls)

length-inner_bytes : (inner : Inner) → length (inner_bytes inner) ≤ inner_left inner
length-inner_bytes (response_future delay none) = omega arith
length-inner_bytes (response_future delay (some polls)) = omega (arith, length-chunks polls)
length-inner_bytes (recv_stream polls) = length-chunks polls

-- Enough reads that each have room give all that was kept and is to come, in its order: as many as there
-- are polls and bytes to come.
pub poll_reads-All :
    (self : ReadStream) (buffers : List ℕ)
    → All (λ remaining. 0 < remaining) buffers
    → reads_left self ≤ length buffers
    → (poll_reads self buffers).1 ≡ coming self
poll_reads-All self buffers positive h =
    let last = (poll_reads self buffers).0 in
    let bytes = (poll_reads self buffers).1 in
    let empty : coming last ≡ [] = nothing_left (coming last) (
      omega (
        arith,
        poll_reads_left self buffers positive h,
        length-append last.pending (inner_bytes last.inner),
        length-inner_bytes last.inner,
      )) in
    sym ((poll_reads-IsLossless self buffers).0 ∙ ap (λ z. bytes ++ z) empty ∙ append-nil bytes)
