-- ===== src/Tunnel/Examples.antt =====
-- The head of a stream at a small input.
use plug2proxy.Prelude.{
  ℕ, ◌+◌, ◌≡◌, refl, true, false, Option, none, some, List, [], ◌∷◌, ◌++◌, arith,
}
use plug2proxy.Net.{Text, SocketAddr}
use plug2proxy.Tunnel.Bytes.{to_be_bytes}
use plug2proxy.Tunnel.Utf8.{is_utf8, utf8_from}
use plug2proxy.Tunnel.ByteStream.{ok, written_bytes, connect, accept, address_head, text_head}
use plug2proxy.Tunnel.ByteStream.RoundTrip.{sent_address, sent_text, accept-connect}
use plug2proxy.Tunnel.ByteStream.Connect.{ConnectCases, connect_cases}

abbrev address : SocketAddr
address = SocketAddr.v4 (256 + 2) 80

abbrev sent : List ℕ
sent = 0 ∷ 0 ∷ 0 ∷ 1 ∷ 2 ∷ 0 ∷ 80 ∷ 1 ∷ 65 ∷ 0 ∷ 22 ∷ []

sent_lem : connect true true true address (some (65 ∷ [])) none (some (22 ∷ [])) ≡ ok sent
unfolding connect written_bytes text_head address_head to_be_bytes
sent_lem = refl

accept-connect_example :
    accept (sent ++ 23 ∷ [])
    ≡ ok ((sent_address address, sent_text (some (65 ∷ [])), sent_text none), 22 ∷ 23 ∷ [])
unfolding is_utf8 utf8_from
accept-connect_example =
    accept-connect true true true address (some (65 ∷ [])) none (some (22 ∷ [])) sent (23 ∷ [])
      (omega arith, omega arith) refl tt sent_lem

abbrev no_text : Option Text
no_text = none

connect_cases_example :
    ConnectCases true false no_text no_text
      (written_bytes address no_text no_text (some (22 ∷ [])))
      (connect true true false address no_text no_text (some (22 ∷ [])))
connect_cases_example = connect_cases true true false address no_text no_text (some (22 ∷ []))
