-- ===== src/Http2/Headers.antt =====
-- src/lib/tunnel/http2/http2_tunnel.rs: the request that `connect` builds for a destination, and the
-- destination that `accept` takes from a request.
pub mod RoundTrip
pub mod Unary
mod Examples
use mathlib.Core.Option
use plug2proxy.Prelude.{
  ℕ, ◌≡◌, ◌≤◌, Bool, true, false, ◌&&◌, Option, none, some, List, [], ◌∷◌, ◌++◌, if◌then◌else◌, leb,
}
use plug2proxy.Net.{Text, SocketAddr}

-- The headers' names, which the `http` crate compares in lower case.
pub data HeaderName : Type 0 where
  x_address x_name x_tag : HeaderName

abbrev pub name_beq : HeaderName → HeaderName → Bool
name_beq x_address x_address = true
name_beq x_name x_name = true
name_beq x_tag x_tag = true
name_beq _ _ = false

-- A `HeaderMap`: a later header of a name stands behind the earlier.
abbrev pub HeaderMap : Type 0
HeaderMap = List (HeaderName × Text)

-- The first value of a name.
unfoldable pub get : HeaderName → HeaderMap → Option Text
get key [] = none
get key ((head, value) ∷ headers) =
    let rest = get key headers in if name_beq head key then some value else rest

-- Visible ASCII and the space.
unfoldable pub is_visible : Text → Bool
is_visible [] = true
is_visible (c ∷ text) = let rest = is_visible text in (leb 32 c && leb c 126) && rest

-- What the code takes from the `http` crate and the standard library: whether a text may be a header's
-- value, `HeaderValue::to_str`, and the text of a `SocketAddr` and back.
pub record HttpExternals : Type 0 where
  pub is_header_value : Text → Bool
  pub to_str : Text → Option Text
  pub address_to_string : SocketAddr → Text
  pub parse_address : Text → Option SocketAddr

-- What the text of an address keeps: all but the flow information of IPv6, which `Display` does not print
-- and which is 0 where a text is parsed.
abbrev pub printed_address : SocketAddr → SocketAddr
printed_address (SocketAddr.v4 bits port) = SocketAddr.v4 bits port
printed_address (SocketAddr.v6 bits port flowinfo scope) = SocketAddr.v6 bits port 0 scope

-- As documented: visible ASCII is a value and can be read; an address is such a text, and is read back but
-- for its flow information.
pub record HttpLaws (http : HttpExternals) : Type 0 where
  pub value_visible : (text : Text) → is_visible text ≡ true → http.is_header_value text ≡ true
  pub to_str_visible : (text : Text) → is_visible text ≡ true → http.to_str text ≡ some text
  pub address_visible : (a : SocketAddr) → is_visible (http.address_to_string a) ≡ true
  pub parse_address_to_string :
      (a : SocketAddr) → http.parse_address (http.address_to_string a) ≡ some (printed_address a)

module _ (http : HttpExternals) where
  -- `header(name, value)`: a value that is none makes the builder an error, which stays.
  unfoldable pub header : HeaderName → Text → Option HeaderMap → Option HeaderMap
  header key value none = none
  header key value (some headers) =
      if http.is_header_value value then some (headers ++ (key, value) ∷ []) else none

  -- `if let Some(value)`.
  unfoldable pub header_option : HeaderName → Option Text → Option HeaderMap → Option HeaderMap
  header_option key none builder = builder
  header_option key (some value) builder = header key value builder

  -- The request of `connect`; `none` is the panic of `body(()).unwrap()`.
  unfoldable pub connect_request : SocketAddr → Option Text → Option Text → Option HeaderMap
  connect_request destination_address destination_name tag = header_option x_tag tag (
      header_option x_name destination_name
        (header x_address (http.address_to_string destination_address) (some [])))

  -- `and_then(|value| value.to_str().ok())`.
  unfoldable pub get_str : HeaderName → HeaderMap → Option Text
  get_str key headers = elim (get key headers) [ none ↦ none | some value ↦ http.to_str value ]

  -- `destination_tuple` of `accept`; `none` is the error of a missing address.
  unfoldable pub destination_tuple : HeaderMap → Option (SocketAddr × Option Text × Option Text)
  destination_tuple headers = elim (get_str x_address headers) [
    | none ↦ none
    | some text ↦ elim (http.parse_address text) [
      | none ↦ none
      | some address ↦ some (address, get_str x_name headers, get_str x_tag headers)
    ]
  ]
