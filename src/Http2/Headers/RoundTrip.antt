-- ===== src/Http2/Headers/RoundTrip.antt =====
-- The destination that the OUT side gets from the request that the IN side builds
-- (src/lib/tunnel/http2/http2_tunnel.rs).
use plug2proxy.Prelude.{
  ◌≡◌, refl, ◌⊎◌, inl, inr, ◌↔◌, true, false, Bool-cases, Option, none, some, [], ◌∷◌, ◌++◌,
}
use plug2proxy.Net.{Text, SocketAddr}
use plug2proxy.Http2.Headers.{
  HeaderName, x_address, x_name, x_tag, HeaderMap, get, HttpExternals, HttpLaws, header,
  printed_address, header_option, connect_request, get_str, destination_tuple,
}

-- What `to_str` leaves of an optional text.
abbrev pub read_option : HttpExternals → Option Text → Option Text
read_option http none = none
read_option http (some text) = http.to_str text

abbrev pub IsValue : HttpExternals → Option Text → Type 0
IsValue http none = Unit
IsValue http (some text) = http.is_header_value text ≡ true

abbrev pub IsRefused : HttpExternals → Option Text → Type 0
IsRefused http none = ⊥
IsRefused http (some text) = http.is_header_value text ≡ false

module _ (http : HttpExternals) where
  header-some :
      (key : HeaderName) (value : Text) (headers : HeaderMap)
      → http.is_header_value value ≡ true
      → header http key value (some headers) ≡ some (headers ++ (key, value) ∷ [])
  unfolding header
  header-some key value headers h = rw h

  header-refused :
      (key : HeaderName) (value : Text) (builder : Option HeaderMap)
      → http.is_header_value value ≡ false
      → header http key value builder ≡ none
  unfolding header
  header-refused key value none h = refl
  header-refused key value (some headers) h = rw h

module _ (http : HttpExternals) (laws : HttpLaws http) (address : SocketAddr) where
  abbrev address_text : Text
  address_text = http.address_to_string address

  address_header :
      header http x_address address_text (some []) ≡ some ((x_address, address_text) ∷ [])
  address_header =
      header-some http x_address address_text []
        (laws.value_visible address_text (laws.address_visible address))

  address_read : http.to_str address_text ≡ some address_text
  address_read = laws.to_str_visible address_text (laws.address_visible address)

  -- What the header of the address and the two others give.
  tuple_read :
      (headers : HeaderMap) (name tag : Option Text)
      → get_str http x_address headers ≡ some address_text
      → get_str http x_name headers ≡ name
      → get_str http x_tag headers ≡ tag
      → destination_tuple http headers ≡ some (printed_address address, name, tag)
  unfolding destination_tuple
  tuple_read headers name tag e f g =
      rw (destination_tuple, e, laws.parse_address_to_string address, f, g)

  -- For every destination whose name and tag may be headers' values, `connect` builds its request, and
  -- `accept` takes from it the address without flow information, and the name and the tag as far as `to_str` reads them: one that
  -- it does not read is left out without an error.
  pub destination_tuple-connect_request :
      (name tag : Option Text)
      → IsValue http name
      → IsValue http tag
      → (headers : HeaderMap) × (connect_request http address name tag ≡ some headers)
        × (destination_tuple http headers
            ≡ some (printed_address address, read_option http name, read_option http tag))
  unfolding connect_request header_option get_str get
  destination_tuple-connect_request none none v w = (
    (x_address, address_text) ∷ [],
    address_header,
    tuple_read ((x_address, address_text) ∷ []) none none address_read refl refl,
  )
  destination_tuple-connect_request (some name) none v w =
      let headers : HeaderMap = (x_address, address_text) ∷ (x_name, name) ∷ [] in
      (
        headers,
        rw address_header (header-some http x_name name ((x_address, address_text) ∷ []) v),
        tuple_read headers (http.to_str name) none address_read refl refl,
      )
  destination_tuple-connect_request none (some tag) v w =
      let headers : HeaderMap = (x_address, address_text) ∷ (x_tag, tag) ∷ [] in
      (
        headers,
        rw address_header (header-some http x_tag tag ((x_address, address_text) ∷ []) w),
        tuple_read headers none (http.to_str tag) address_read refl refl,
      )
  destination_tuple-connect_request (some name) (some tag) v w =
      let headers : HeaderMap = (x_address, address_text) ∷ (x_name, name) ∷ (x_tag, tag) ∷ [] in
      (
        headers,
        rw (address_header, header-some http x_name name ((x_address, address_text) ∷ []) v)
            (header-some http x_tag tag ((x_address, address_text) ∷ (x_name, name) ∷ []) w),
        tuple_read headers (http.to_str name) (http.to_str tag) address_read refl refl,
      )

  pub refused_ends :
      (name tag : Option Text)
      → IsRefused http name ⊎ IsRefused http tag
      → connect_request http address name tag ≡ none
  unfolding connect_request header_option header
  refused_ends none none (inl h) = elim h [ ]
  refused_ends none none (inr h) = elim h [ ]
  refused_ends none (some tag) (inl h) = elim h [ ]
  refused_ends (some name) none (inr h) = elim h [ ]
  refused_ends none (some tag) (inr h) =
      header-refused http x_tag tag (header http x_address address_text (some [])) h
  refused_ends (some name) none (inl h) =
      header-refused http x_name name (header http x_address address_text (some [])) h
  refused_ends (some name) (some tag) (inl h) =
      rw (header-refused http x_name name (header http x_address address_text (some [])) h)
  refused_ends (some name) (some tag) (inr h) =
      header-refused http x_tag tag
        (header http x_name name (header http x_address address_text (some []))) h

  pub IsValue-or_IsRefused : (text : Option Text) → IsValue http text ⊎ IsRefused http text
  IsValue-or_IsRefused none = inl tt
  IsValue-or_IsRefused (some text) = Bool-cases (http.is_header_value text)

  -- `connect` panics for exactly the destinations whose name or tag may not be a header's value.
  pub connect_request-IsRefused :
      (name tag : Option Text)
      → (connect_request http address name tag ≡ none) ↔ (IsRefused http name ⊎ IsRefused http tag)
  connect_request-IsRefused name tag = (
    λ e. elim (IsValue-or_IsRefused name) [
      | inr h ↦ inl h
      | inl v ↦ elim (IsValue-or_IsRefused tag) [
        | inr h ↦ inr h
        | inl w ↦
            let (headers, f, _) = destination_tuple-connect_request name tag v w in
            absurd (none_some e f)
      ]
    ],
    refused_ends name tag,
  )
    where
      none_some : {o : Option HeaderMap} {headers : HeaderMap} → o ≡ none → o ≡ some headers → ⊥
      none_some e f = cc
