-- ===== src/Http2/Lifetime.antt =====
-- src/lib/tunnel/http2/http2_tunnel.rs: the life of an `Http2InTunnel`, its counts, its permit and the
-- sender of requests. A step is one access of a shared field; what the threads are doing between two
-- accesses is counted for each point of the code.
pub mod Permit
pub mod Drain
pub mod Close
mod Examples
use plug2proxy.Prelude.{
  ℕ, suc, ◌+◌, ◌-◌, ◌%◌, ◌^◌, ◌≡◌, Bool, true, false, not, if◌then◌else◌, nat_beq,
}

-- The tunnel's fields that change: `active_permit` and `request_sender` are whether they are there.
pub record Http2InTunnel : Type 0 where
  pub lifetime_streams : ℕ
  pub active_streams : ℕ
  pub active_permit : Bool
  pub request_sender : Bool
  pub closed : Bool

abbrev pub lifetime_streams_limit : ℕ
lifetime_streams_limit = 4096

-- As `new` makes it, without a permit.
abbrev pub new_tunnel : Http2InTunnel
new_tunnel = record {
  lifetime_streams = 0;
  active_streams = 0;
  active_permit = false;
  request_sender = true;
  closed = false;
}

-- `fetch_add(1)` and `fetch_sub(1)` on a `usize`, and the value after.
abbrev pub wrapping_suc : ℕ → ℕ
wrapping_suc n = (n + 1) % 2 ^ 64

abbrev pub wrapping_pred : ℕ → ℕ
wrapping_pred n = (n + (2 ^ 64 - 1)) % 2 ^ 64

unfoldable pub count_stream : Http2InTunnel → Http2InTunnel
count_stream self = record self { lifetime_streams = wrapping_suc self.lifetime_streams }

-- `set_active_permit`.
unfoldable pub give_permit : Http2InTunnel → Http2InTunnel
give_permit self = record self { active_permit = true }

unfoldable pub take_permit : Http2InTunnel → Http2InTunnel
take_permit self = record self { active_permit = false }

unfoldable pub add_active : Http2InTunnel → Http2InTunnel
add_active self = record self { active_streams = wrapping_suc self.active_streams }

unfoldable pub remove_active : Http2InTunnel → Http2InTunnel
remove_active self = record self { active_streams = wrapping_pred self.active_streams }

-- What a closed stream that was the last does.
unfoldable pub take_sender_when_inactive : Http2InTunnel → Http2InTunnel
take_sender_when_inactive self = record self {
  request_sender = if self.active_permit then self.request_sender else false;
}

unfoldable pub store_closed : Http2InTunnel → Http2InTunnel
store_closed self = record self { closed = true }

-- Where the task of the connection is: it polls the connection, which has ended from `permit_taken` on.
pub data Task : Type 0 where
  polling permit_taken closed_stored notified : Task

-- Whether the tunnel has got its permit and is given to others; how many calls of `connect` have reached the limit, are to send their request, and are to write what
-- was sniffed; how many streams are open; how many have closed as the last one and have not
-- looked at the permit yet; whether `closed()` has begun to wait, and whether it has returned.
pub record State : Type 0 where
  pub tunnel : Http2InTunnel
  pub shared : Bool
  pub limited : ℕ
  pub sending : ℕ
  pub writing : ℕ
  pub streams : ℕ
  pub finishing : ℕ
  pub task : Task
  pub waiting : Bool
  pub woken : Bool

abbrev pub new_state : State
new_state = record {
  tunnel = new_tunnel;
  shared = false;
  limited = 0;
  sending = 0;
  writing = 0;
  streams = 0;
  finishing = 0;
  task = polling;
  waiting = false;
  woken = false;
}

-- `handle_out` gives the tunnel its permit, and then to others.
unfoldable pub permit_set : State → State
permit_set s = record s { tunnel = give_permit s.tunnel; shared = true }

-- `connect` begins: `lifetime_streams` is counted and compared with the limit.
unfoldable pub connect_begins : State → State
connect_begins s =
    let tunnel = count_stream s.tunnel in
    if nat_beq tunnel.lifetime_streams lifetime_streams_limit
    then record s { tunnel = tunnel; limited = s.limited + 1 }
    else record s { tunnel = tunnel; sending = s.sending + 1 }

unfoldable pub limit_reached : ℕ → State → State
limit_reached n s = record s { tunnel = take_permit s.tunnel; limited = n; sending = s.sending + 1 }

unfoldable pub request_sent : ℕ → State → State
request_sent n s = record s { sending = n; writing = s.writing + 1 }

unfoldable pub request_failed : ℕ → State → State
request_failed n s = record s { sending = n }

unfoldable pub stream_opened : ℕ → State → State
stream_opened n s = record s { tunnel = add_active s.tunnel; writing = n; streams = s.streams + 1 }

unfoldable pub write_failed : ℕ → State → State
write_failed n s = record s { writing = n }

-- The task of a stream whose `stream_closed_sender` is used or dropped.
unfoldable pub stream_closed : ℕ → State → State
stream_closed n s =
    let tunnel = remove_active s.tunnel in
    if nat_beq tunnel.active_streams 0
    then record s { tunnel = tunnel; streams = n; finishing = s.finishing + 1 }
    else record s { tunnel = tunnel; streams = n }

unfoldable pub stream_finished : ℕ → State → State
stream_finished n s = record s { tunnel = take_sender_when_inactive s.tunnel; finishing = n }

-- The task of the connection, after the connection has ended.
unfoldable pub connection_ended : State → State
connection_ended s = record s { tunnel = take_permit s.tunnel; task = permit_taken }

unfoldable pub closed_set : State → State
closed_set s = record s { tunnel = store_closed s.tunnel; task = closed_stored }

-- `notify_waiters` wakes who waits, and nobody who comes later.
unfoldable pub waiters_notified : State → State
waiters_notified s = record s { task = notified; woken = s.waiting }

unfoldable pub wait_begins : State → State
wait_begins s = record s { waiting = true }

pub data Step : State → State → Type 0 where
  share : (s : State) → s.shared ≡ false → Step s (permit_set s)
  begin : (s : State) → s.shared ≡ true → Step s (connect_begins s)
  limit : (s : State) (n : ℕ) → s.limited ≡ suc n → Step s (limit_reached n s)
  send :
      (s : State) (n : ℕ)
      → s.sending ≡ suc n
      → s.tunnel.request_sender ≡ true
      → Step s (request_sent n s)
  fail : (s : State) (n : ℕ) → s.sending ≡ suc n → Step s (request_failed n s)
  write : (s : State) (n : ℕ) → s.writing ≡ suc n → Step s (stream_opened n s)
  break : (s : State) (n : ℕ) → s.writing ≡ suc n → Step s (write_failed n s)
  close : (s : State) (n : ℕ) → s.streams ≡ suc n → Step s (stream_closed n s)
  finish : (s : State) (n : ℕ) → s.finishing ≡ suc n → Step s (stream_finished n s)
  end : (s : State) → s.task ≡ polling → Step s (connection_ended s)
  store : (s : State) → s.task ≡ permit_taken → Step s (closed_set s)
  notify : (s : State) → s.task ≡ closed_stored → Step s (waiters_notified s)
  wait : (s : State) → s.shared ≡ true → s.waiting ≡ false → Step s (wait_begins s)

-- Any number of steps, the last one outermost.
pub data Steps (s : State) : State → Type 0 where
  stay : Steps s s
  then_step : {t u : State} → Steps s t → Step t u → Steps s u
