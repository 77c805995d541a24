-- ===== src/Http2/Streams/Examples.antt =====
-- A buffer of five bytes over a stream that takes three and then more, and a stream that was polled early.
use plug2proxy.Prelude.{ℕ, ◌<◌, ◌≡◌, refl, true, false, some, List, [], ◌∷◌, All, take, drop, arith}
use plug2proxy.Http2.Streams.{
  data_pending, data_chunk, response_future, Inner, ReadStream, new_reader, capacity_pending,
  capacity_granted, WriteStream, send_data, reserve_capacity, write_loop, poll_write,
}
use plug2proxy.Http2.Streams.Read.{poll_reads, IsLossless, poll_reads-IsLossless}
use plug2proxy.Http2.Streams.Write.{write_on}
use plug2proxy.Http2.Streams.WriteAll.{IsDelivered, poll_reads-write_on}

abbrev writer : WriteStream
writer = record {
  capacity = 0;
  requested = 0;
  polls = capacity_pending ∷ capacity_granted 3 ∷ capacity_granted 4 ∷ [];
  takes_data = true;
  sent = [];
  ended = false;
}

abbrev bytes : List ℕ
bytes = 1 ∷ 2 ∷ 3 ∷ 4 ∷ 5 ∷ []

abbrev rooms : List ℕ
rooms = 2 ∷ 2 ∷ 2 ∷ 2 ∷ 2 ∷ 2 ∷ 2 ∷ 2 ∷ 2 ∷ 2 ∷ []

rooms_positive : All (λ remaining. 0 < remaining) rooms
rooms_positive = (
  omega arith,
  (
    omega arith,
    (
      omega arith,
      (
        omega arith,
        (
          omega arith,
          (omega arith, (omega arith, (omega arith, (omega arith, (omega arith, tt))))),
        ),
      ),
    ),
  ),
)

-- The bytes come in other chunks than those that were sent.
abbrev delivery : Inner
delivery =
    response_future 1
      (some (data_chunk (1 ∷ []) ∷ data_pending ∷ data_chunk (2 ∷ 3 ∷ 4 ∷ 5 ∷ []) ∷ []))

delivered : IsDelivered (write_on 8 writer bytes).0.sent delivery
unfolding write_on poll_write write_loop reserve_capacity send_data take drop
delivered = refl

poll_reads-write_on_example :
    ((write_on 8 writer bytes).1 ≡ []) × ((poll_reads (new_reader delivery) rooms).1 ≡ bytes)
poll_reads-write_on_example =
    poll_reads-write_on 8 writer bytes delivery rooms refl (refl, tt, omega arith) (omega arith)
      delivered rooms_positive (omega arith)

abbrev reader : ReadStream
reader = record {
  inner = response_future 1 (some (data_chunk (1 ∷ 2 ∷ 3 ∷ []) ∷ data_pending ∷ []));
  pending = [];
  released = 0;
}

poll_reads-IsLossless_example :
    IsLossless reader (poll_reads reader (2 ∷ [])).0 (poll_reads reader (2 ∷ [])).1
poll_reads-IsLossless_example = poll_reads-IsLossless reader (2 ∷ [])
