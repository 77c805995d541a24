-- ===== src/Http2/Lifetime/Examples.antt =====
-- A tunnel with one stream, whose connection ends.
use plug2proxy.Prelude.{◌%◌, ◌^◌, ◌≤◌, ◌<◌, ◌≡◌, ◌≢◌, refl, ◌⊎◌, true, false, arith}
use plug2proxy.Http2.Lifetime.{
  polling, closed_stored, notified, State, share, begin, send, write, close, finish, end, store,
  notify, Steps, stay, then_step, new_state, lifetime_streams_limit, count_stream, give_permit,
  add_active, remove_active, take_permit, permit_set, connect_begins, request_sent, stream_opened,
  stream_closed, stream_finished, connection_ended, closed_set, waiters_notified, wait_begins,
}
use plug2proxy.Http2.Lifetime.Permit.{active_permit-IsBounded}
use plug2proxy.Http2.Lifetime.Drain.{request_sender-IsTaken}
use plug2proxy.Http2.Lifetime.Close.{closed-IsLost, closed-IsWoken}

abbrev shared : State
shared = permit_set new_state

abbrev opened : State
opened = stream_opened 0 (request_sent 0 (connect_begins shared))

opened-Steps : Steps new_state opened
unfolding permit_set connect_begins count_stream give_permit request_sent
opened-Steps =
    then_step
      (then_step (then_step (then_step stay (share new_state refl)) (begin shared refl))
        (send (connect_begins shared) 0 refl refl))
      (write (request_sent 0 (connect_begins shared)) 0 refl)

active_permit-IsBounded_example :
    (opened.tunnel.active_streams ≡ opened.streams % 2 ^ 64)
    × ((opened.tunnel.active_permit ≡ false)
        ⊎ (((opened.tunnel.lifetime_streams < lifetime_streams_limit) ⊎ (1 ≤ opened.limited))
            × (opened.tunnel.request_sender ≡ true)))
active_permit-IsBounded_example = active_permit-IsBounded opened opened-Steps

abbrev ended : State
ended = connection_ended opened

ended-Steps : Steps new_state ended
unfolding permit_set give_permit connect_begins count_stream request_sent stream_opened add_active
ended-Steps = then_step opened-Steps (end opened refl)

abbrev drained : State
drained = stream_finished 0 (stream_closed 0 ended)

ended_facts : (ended.tunnel.active_permit ≡ false) × (1 ≤ ended.streams)
unfolding permit_set give_permit connect_begins count_stream request_sent stream_opened add_active
    connection_ended take_permit
ended_facts = (refl, omega arith)

drained_facts : Steps ended drained × (drained.streams ≡ 0) × (drained.finishing ≡ 0)
unfolding permit_set give_permit connect_begins count_stream request_sent stream_opened add_active
    connection_ended take_permit stream_closed remove_active stream_finished
drained_facts = (
  then_step (then_step stay (close ended 0 refl)) (finish (stream_closed 0 ended) 0 refl),
  refl,
  refl,
)

request_sender-IsTaken_example : drained.tunnel.request_sender ≡ false
request_sender-IsTaken_example =
    request_sender-IsTaken ended drained ended-Steps ended_facts.0 ended_facts.1 drained_facts.0
      drained_facts.1 drained_facts.2

abbrev stored : State
stored = closed_set (connection_ended new_state)

stored_facts : (stored.task ≡ closed_stored) × (stored.waiting ≡ false)
unfolding closed_set connection_ended
stored_facts = (refl, refl)

closed-IsLost_example : (waiters_notified stored).woken ≡ false
closed-IsLost_example =
    closed-IsLost stored (waiters_notified stored) stored_facts.0 stored_facts.1 stay

abbrev waited : State
waited = waiters_notified (closed_set (connection_ended (wait_begins new_state)))

waited_facts :
    (polling ≢ notified) × Steps (wait_begins new_state) waited × (waited.task ≡ notified)
unfolding wait_begins connection_ended closed_set waiters_notified
waited_facts = (
  λ e. cc,
  then_step
      (then_step (then_step stay (end (wait_begins new_state) refl))
        (store (connection_ended (wait_begins new_state)) refl))
      (notify (closed_set (connection_ended (wait_begins new_state))) refl),
  refl,
)

closed-IsWoken_example : waited.woken ≡ true
closed-IsWoken_example =
    closed-IsWoken new_state waited waited_facts.0 waited_facts.1 waited_facts.2
