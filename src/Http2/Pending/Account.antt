-- ===== src/Http2/Pending/Account.antt =====
-- What becomes of each stream that comes in for a tunnel
-- (src/lib/tunnel/http2/plug_http2_tunnel_provider.rs).
use mathlib.Core.List.{append-nil}
use plug2proxy.Prelude.{
  ℕ, nat_beq, nat_beq_iff, ◌≡◌, sym, ap, ◌∙◌, inl, inr, Bool-cases, none, some, List, [], ◌∷◌, ◌++◌,
  if_true, if_false,
}
use plug2proxy.Http2.Pending.{
  id_bytes, id_failed, id_timed_out, Pending, Event, arrived, delivered, dropped, stream_accepted,
  wait_turn, Run, stay, accept, wait,
}

module _ {Stream : Type 0} where
  abbrev pub held : Pending Stream → List (ℕ × Stream)
  held none = []
  held (some entry) = entry ∷ []

  -- The streams that came, each with the id it came with.
  abbrev pub came : List (Event Stream) → List (ℕ × Stream)
  came [] = []
  came (arrived tunnel_id stream ∷ events) = (tunnel_id, stream) ∷ came events
  came (delivered tunnel_id stream ∷ events) = came events
  came (dropped tunnel_id stream ∷ events) = came events

  -- The streams that went, each with the id of the tunnel that got it or the one it was dropped with.
  abbrev pub went : List (Event Stream) → List (ℕ × Stream)
  went [] = []
  went (arrived tunnel_id stream ∷ events) = went events
  went (delivered tunnel_id stream ∷ events) = (tunnel_id, stream) ∷ went events
  went (dropped tunnel_id stream ∷ events) = (tunnel_id, stream) ∷ went events

  wait_events :
      (id tunnel_id : ℕ) (stream : Stream) (events : List (Event Stream))
      → (came ((wait_turn Stream (some (id, stream)) tunnel_id).1 ++ events) ≡ came events)
        × (went ((wait_turn Stream (some (id, stream)) tunnel_id).1 ++ events)
            ≡ (id, stream) ∷ went events)
  unfolding wait_turn
  wait_events id tunnel_id stream events = elim (Bool-cases (nat_beq id tunnel_id)) [
    | inl b ↦
        let same : id ≡ tunnel_id = (nat_beq_iff id tunnel_id).0 b in
        (
          ap (λ (e : Event Stream). came (e ∷ events))
              (if_true (delivered tunnel_id stream) (dropped id stream) b),
          ap (λ (e : Event Stream). went (e ∷ events))
                (if_true (delivered tunnel_id stream) (dropped id stream) b)
              ∙ ap (λ i. (i, stream) ∷ went events) (sym same),
        )
    | inr b ↦ (
      ap (λ (e : Event Stream). came (e ∷ events))
          (if_false (delivered tunnel_id stream) (dropped id stream) b),
      ap (λ (e : Event Stream). went (e ∷ events))
          (if_false (delivered tunnel_id stream) (dropped id stream) b),
    )
  ]

  -- In every run of the accepting task and any number of waits, the streams that were in the place or came,
  -- with the ids they came with, are exactly those that went, with the id of the tunnel that got
  -- them or as dropped, and the one that is in the place at the end, in the same order: no stream is given
  -- to two tunnels or to one that it did not come for.
  pub Run-IsAccounted :
      (pending last : Pending Stream) (events : List (Event Stream))
      → Run Stream pending events last
      → held pending ++ came events ≡ went events ++ held last
  unfolding stream_accepted wait_turn
  Run-IsAccounted _ _ _ (stay pending) = append-nil (held pending)
  Run-IsAccounted _ _ _ (accept none last (id_bytes bytes) stream events run) =
      Run-IsAccounted _ last events run
  Run-IsAccounted _ _ _ (accept (some (id, old)) last (id_bytes bytes) stream events run) =
      ap (λ z. (id, old) ∷ z) (Run-IsAccounted _ last events run)
  Run-IsAccounted _ _ _ (accept pending last id_failed stream events run) =
      Run-IsAccounted pending last events run
  Run-IsAccounted _ _ _ (accept pending last id_timed_out stream events run) =
      Run-IsAccounted pending last events run
  Run-IsAccounted _ _ _ (wait none last tunnel_id events run) = Run-IsAccounted none last events run
  Run-IsAccounted _ _ _ (wait (some (id, stream)) last tunnel_id events run) =
      let (same_came, new_went) = wait_events id tunnel_id stream events in
      ap (λ z. (id, stream) ∷ z) (same_came ∙ Run-IsAccounted none last events run)
      ∙ ap (λ z. z ++ held last) (sym new_went)
