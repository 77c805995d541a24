-- ===== src/Http2/Pending/Examples.antt =====
-- A stream for tunnel 5 that a wait for tunnel 4 takes, and one for tunnel 4.
use plug2proxy.Prelude.{ℕ, ◌≡◌, none, List, [], ◌∷◌, ◌++◌}
use plug2proxy.Tunnel.Bytes.{from_be_bytes, from_be}
use plug2proxy.Http2.Pending.{
  id_bytes, Event, arrived, delivered, dropped, stream_accepted, wait_turn, Run, stay, accept, wait,
}
use plug2proxy.Http2.Pending.Account.{held, came, went, Run-IsAccounted}

abbrev events : List (Event ℕ)
events = arrived 5 70 ∷ dropped 5 70 ∷ arrived 4 71 ∷ delivered 4 71 ∷ []

ran : Run ℕ none events none
unfolding stream_accepted wait_turn from_be_bytes from_be
ran = accept none none (id_bytes (5 ∷ [])) 70 (dropped 5 70 ∷ arrived 4 71 ∷ delivered 4 71 ∷ []) (
    wait _ none 4 (arrived 4 71 ∷ delivered 4 71 ∷ []) (
      accept none none (id_bytes (4 ∷ [])) 71 (delivered 4 71 ∷ []) (wait _ none 4 [] (stay none))))

Run-IsAccounted_example : held none ++ came events ≡ went events ++ held none
Run-IsAccounted_example = Run-IsAccounted none none events ran
