-- ===== src/MatchServer/Accept/Examples.antt =====
-- An OUT that is accepted, goes and is accepted again.
use plug2proxy.Prelude.{refl, some, List, [], ◌∷◌, nat_eq, list_eq}
use plug2proxy.HashMap
use plug2proxy.MatchServer.Keys.{quic, get_match_name, Uuids}
use plug2proxy.MatchServer.Accept.{
  InMatchServer, new_server, active_out_id_set, with_set, accept_by_message, out_gone, Event,
  accepted, released, Run, rest, by_message, gone,
}
use plug2proxy.MatchServer.Accept.Once.{IsOnce, Run-IsOnce}

abbrev uuids : Uuids
uuids = record { to_text = λ id. id ∷ []; parse_str = λ text. some 3 }

abbrev once_accepted : InMatchServer
once_accepted = (accept_by_message quic 3 new_server).0

abbrev with_none : InMatchServer
with_none = with_set quic [] once_accepted

abbrev events : List Event
events = accepted quic 3 ∷ released quic 3 ∷ accepted quic 3 ∷ []

ran : Run uuids new_server events
unfolding accept_by_message active_out_id_set with_set out_gone get_match_name HashMap.get
    HashMap.insert HashMap.contains HashMap.set_insert HashMap.set_remove
ran = by_message quic 3 new_server (released quic 3 ∷ accepted quic 3 ∷ []) (
    gone quic 3 once_accepted with_none (accepted quic 3 ∷ []) refl
      (by_message quic 3 with_none [] (rest (accept_by_message quic 3 with_none).0)))

Run-IsOnce_example : IsOnce events
Run-IsOnce_example = Run-IsOnce uuids new_server events ran
