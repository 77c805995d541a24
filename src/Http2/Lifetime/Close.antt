-- ===== src/Http2/Lifetime/Close.antt =====
-- Who waits for the end of an HTTP/2 tunnel's connection.
use plug2proxy.Prelude.{◌≡◌, ◌≢◌, refl, ◌⊎◌, inl, inr, true, false, arith}
use plug2proxy.Http2.Lifetime.{
  closed_stored, notified, State, Step, share, begin, limit, send, fail, write, break, close,
  finish, end, store, notify, wait, Steps, stay, then_step, permit_set, connect_begins,
  limit_reached, request_sent, request_failed, stream_opened, write_failed, stream_closed,
  stream_finished, connection_ended, closed_set, waiters_notified, wait_begins,
}

-- Nobody has been woken, and nobody will be.
abbrev IsLost : State → Type 0
IsLost s = (s.task ≡ notified) × (s.woken ≡ false)

-- Who waits is woken when the task has notified.
abbrev IsWaited : State → Type 0
IsWaited s = (s.waiting ≡ true) × ((s.task ≢ notified) ⊎ (s.woken ≡ true))

step-IsLost : {s t : State} → Step s t → IsLost s → IsLost t
unfolding permit_set connect_begins limit_reached request_sent request_failed stream_opened
    write_failed stream_closed stream_finished connection_ended closed_set waiters_notified
    wait_begins
step-IsLost (share s e) h = h
step-IsLost (begin s e) h = ground arith
step-IsLost (limit s n e) h = h
step-IsLost (send s n e f) h = h
step-IsLost (fail s n e) h = h
step-IsLost (write s n e) h = h
step-IsLost (break s n e) h = h
step-IsLost (close s n e) h = ground arith
step-IsLost (finish s n e) h = h
step-IsLost (end s e) h = cc
step-IsLost (store s e) h = cc
step-IsLost (notify s e) h = cc
step-IsLost (wait s e f) h = h

-- A wait for the close that begins after the waiters have been notified never returns: from a state where
-- the task of the connection has notified and `closed()` had not begun to wait, no steps wake it.
pub closed-IsLost :
    (s t : State)
    → s.task ≡ closed_stored
    → s.waiting ≡ false
    → Steps (waiters_notified s) t
    → t.woken ≡ false
unfolding waiters_notified
closed-IsLost s t stored not_waiting steps = (lost steps).1
  where
    lost : {t : State} → Steps (waiters_notified s) t → IsLost t
    lost stay = (refl, not_waiting)
    lost (then_step steps step) = step-IsLost step (lost steps)

step-IsWaited : {s t : State} → Step s t → IsWaited s → IsWaited t
unfolding permit_set connect_begins limit_reached request_sent request_failed stream_opened
    write_failed stream_closed stream_finished connection_ended closed_set waiters_notified
    wait_begins
step-IsWaited (share s e) h = h
step-IsWaited (begin s e) h = ground arith
step-IsWaited (limit s n e) h = h
step-IsWaited (send s n e f) h = h
step-IsWaited (fail s n e) h = h
step-IsWaited (write s n e) h = h
step-IsWaited (break s n e) h = h
step-IsWaited (close s n e) h = ground arith
step-IsWaited (finish s n e) h = h
step-IsWaited (end s e) h = (h.0, inl (λ f. cc))
step-IsWaited (store s e) h = (h.0, inl (λ f. cc))
step-IsWaited (notify s e) h = (h.0, inr h.0)
step-IsWaited (wait s e f) h = cc

-- A wait that begins before the waiters are notified returns: whatever the steps from there on, when
-- the task of the connection has notified, the waiter is woken.
pub closed-IsWoken :
    (s t : State) → s.task ≢ notified → Steps (wait_begins s) t → t.task ≡ notified → t.woken ≡ true
unfolding wait_begins
closed-IsWoken s t before steps ended = elim (waited steps).1 [
  | inl h ↦ absurd (h ended)
  | inr h ↦ h
]
  where
    waited : {t : State} → Steps (wait_begins s) t → IsWaited t
    waited stay = (refl, inl before)
    waited (then_step steps step) = step-IsWaited step (waited steps)
