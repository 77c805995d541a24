-- ===== src/Http2/Lifetime/Drain.antt =====
-- An HTTP/2 tunnel that has lost its permit lets its connection go with its last stream.
use plug2proxy.Prelude.{◌≤◌, ◌≡◌, refl, ◌⊎◌, inl, inr, false, arith}
use plug2proxy.Http2.Lifetime.{
  State, Step, share, begin, limit, send, fail, write, break, close, finish, end, store, notify,
  wait, Steps, stay, then_step, new_state, count_stream, give_permit, take_permit, add_active,
  remove_active, take_sender_when_inactive, store_closed, permit_set, connect_begins, limit_reached,
  request_sent, request_failed, stream_opened, write_failed, stream_closed, stream_finished,
  connection_ended, closed_set, waiters_notified, wait_begins,
}
use plug2proxy.Http2.Lifetime.Permit.{IsCounted, new_state-IsCounted, Steps-IsCounted}

-- No permit, and either the sender is gone or there is someone left to take it.
abbrev IsDraining : State → Type 0
IsDraining s =
    (s.tunnel.active_permit ≡ false)
    × ((s.tunnel.request_sender ≡ false) ⊎ ((1 ≤ s.streams) ⊎ (1 ≤ s.finishing)))

step-IsDraining : {s t : State} → Step s t → IsCounted s → IsDraining s → IsDraining t
unfolding permit_set connect_begins limit_reached request_sent request_failed stream_opened
    write_failed stream_closed stream_finished connection_ended closed_set waiters_notified
    wait_begins count_stream give_permit take_permit add_active remove_active
    take_sender_when_inactive store_closed
step-IsDraining (share s e) c h = ground arith
step-IsDraining (begin s e) c h = ground arith
step-IsDraining (limit s n e) c h = (refl, h.1)
step-IsDraining (send s n e f) c h = h
step-IsDraining (fail s n e) c h = h
step-IsDraining (write s n e) c h = ground arith
step-IsDraining (break s n e) c h = h
step-IsDraining (close s n e) c h = ground arith
step-IsDraining (finish s n e) c h = ground arith
step-IsDraining (end s e) c h = (refl, h.1)
step-IsDraining (store s e) c h = h
step-IsDraining (notify s e) c h = h
step-IsDraining (wait s e f) c h = h

Steps-IsDraining : {s t : State} → Steps s t → IsCounted s → IsDraining s → IsDraining t
Steps-IsDraining stay c h = h
Steps-IsDraining (then_step steps step) c h =
    step-IsDraining step (Steps-IsCounted steps c) (Steps-IsDraining steps c h)

-- Whatever a tunnel without permit does, from a state of it with an open stream on: where
-- no stream is open and none is finishing, its sender of requests has been taken.
pub request_sender-IsTaken :
    (s t : State)
    → Steps new_state s
    → s.tunnel.active_permit ≡ false
    → 1 ≤ s.streams
    → Steps s t
    → t.streams ≡ 0
    → t.finishing ≡ 0
    → t.tunnel.request_sender ≡ false
request_sender-IsTaken s t reached permit some_open steps none_open none_finishing =
    let h : IsDraining t =
      Steps-IsDraining steps (Steps-IsCounted reached new_state-IsCounted)
        (permit, inr (inl some_open)) in
    ground arith
