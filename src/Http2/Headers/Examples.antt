-- ===== src/Http2/Headers/Examples.antt =====
-- A destination in a request.
use plug2proxy.Prelude.{◌≡◌, ◌⊎◌, ◌↔◌, Option, none, some, [], ◌∷◌}
use plug2proxy.Net.{Text, SocketAddr}
use plug2proxy.Http2.Headers.{connect_request}
use plug2proxy.Http2.Headers.RoundTrip.{IsRefused, connect_request-IsRefused}
use plug2proxy.Http2.Headers.Unary.{http, laws}

abbrev address : SocketAddr
address = SocketAddr.v4 3 80

abbrev name : Option Text
name = some (b'a' ∷ b'.' ∷ [])

connect_request-IsRefused_example :
    (connect_request http address name (some (10 ∷ [])) ≡ none)
    ↔ (IsRefused http name ⊎ IsRefused http (some (10 ∷ [])))
connect_request-IsRefused_example =
    connect_request-IsRefused http laws address name (some (10 ∷ []))
