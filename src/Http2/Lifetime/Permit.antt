-- ===== src/Http2/Lifetime/Permit.antt =====
-- The permit of an HTTP/2 tunnel and its counts, in every state that the steps reach.
use plug2proxy.Prelude.{◌%◌, ◌^◌, ◌<◌, ◌≤◌, ◌≡◌, refl, ◌⊎◌, inl, inr, true, false, arith}
use plug2proxy.Http2.Lifetime.{
  State, Step, share, begin, limit, send, fail, write, break, close, finish, end, store, notify,
  wait, Steps, stay, then_step, new_state, lifetime_streams_limit, count_stream, give_permit,
  take_permit, add_active, remove_active, take_sender_when_inactive, store_closed, permit_set,
  connect_begins, limit_reached, request_sent, request_failed, stream_opened, write_failed,
  stream_closed, stream_finished, connection_ended, closed_set, waiters_notified, wait_begins,
}

-- Given to others, or as new.
abbrev IsOpened : State → Type 0
IsOpened s =
    (s.shared ≡ true)
    ⊎ ((s.tunnel.lifetime_streams ≡ 0)
        × (s.tunnel.request_sender ≡ true)
        × (s.limited ≡ 0)
        × (s.sending ≡ 0)
        × (s.writing ≡ 0)
        × (s.streams ≡ 0)
        × (s.finishing ≡ 0))

-- What a tunnel keeps.
abbrev pub IsCounted : State → Type 0
IsCounted s =
    ((s.tunnel.lifetime_streams < lifetime_streams_limit)
      ⊎ ((s.tunnel.active_permit ≡ false) ⊎ (1 ≤ s.limited)))
    × (s.tunnel.active_streams ≡ s.streams % 2 ^ 64)
    × ((s.tunnel.request_sender ≡ true) ⊎ (s.tunnel.active_permit ≡ false))
    × IsOpened s

pub step-IsCounted : {s t : State} → Step s t → IsCounted s → IsCounted t
unfolding permit_set connect_begins limit_reached request_sent request_failed stream_opened
    write_failed stream_closed stream_finished connection_ended closed_set waiters_notified
    wait_begins count_stream give_permit take_permit add_active remove_active
    take_sender_when_inactive store_closed
step-IsCounted (share s e) h = ground arith
step-IsCounted (begin s e) h = ground arith
step-IsCounted (limit s n e) h = (inr (inl refl), h.1, inr refl, ground arith)
step-IsCounted (send s n e f) h = (h.0, h.1, h.2, ground arith)
step-IsCounted (fail s n e) h = (h.0, h.1, h.2, ground arith)
step-IsCounted (write s n e) h = (h.0, ground arith, h.2, ground arith)
step-IsCounted (break s n e) h = (h.0, h.1, h.2, ground arith)
step-IsCounted (close s n e) h = ground arith
step-IsCounted (finish s n e) h = ground arith
step-IsCounted (end s e) h = (inr (inl refl), h.1, inr refl, h.3)
step-IsCounted (store s e) h = h
step-IsCounted (notify s e) h = h
step-IsCounted (wait s e f) h = h

pub Steps-IsCounted : {s t : State} → Steps s t → IsCounted s → IsCounted t
Steps-IsCounted stay h = h
Steps-IsCounted (then_step steps step) h = step-IsCounted step (Steps-IsCounted steps h)

pub new_state-IsCounted : IsCounted new_state
new_state-IsCounted =
    (inl (omega arith), refl, inl refl, inr (refl, refl, refl, refl, refl, refl, refl))

-- In every state that a tunnel reaches: `active_streams` is the number of open streams, as a `usize`; and it
-- holds no permit, or its counted streams are fewer than the limit, unless a call that has reached the
-- limit is about to give the permit up, and it has its sender of requests.
pub active_permit-IsBounded :
    (s : State)
    → Steps new_state s
    → (s.tunnel.active_streams ≡ s.streams % 2 ^ 64)
      × ((s.tunnel.active_permit ≡ false)
          ⊎ (((s.tunnel.lifetime_streams < lifetime_streams_limit) ⊎ (1 ≤ s.limited))
              × (s.tunnel.request_sender ≡ true)))
active_permit-IsBounded s steps =
    let h : IsCounted s = Steps-IsCounted steps new_state-IsCounted in ground arith
