-- ===== src/Http2/Headers/Unary.antt =====
-- Header values and addresses for which the laws hold: numbers are written in unary.
use plug2proxy.Prelude.{
  ℕ, zero, suc, ◌≡◌, refl, Bool, true, not, ◌&&◌, ◌||◌, Option, none, some, [], ◌∷◌, if◌then◌else◌,
  leb, nat_beq, arith,
}
use plug2proxy.Net.{Text, SocketAddr}
use plug2proxy.Http2.Headers.{is_visible, printed_address, HttpExternals, HttpLaws}

unfoldable pub is_value : Text → Bool
is_value [] = true
is_value (c ∷ text) =
    let rest = is_value text in (nat_beq c 9 || leb 32 c && not (nat_beq c 127)) && rest

unfoldable pub unary : ℕ → Text → Text
unary zero rest = b'.' ∷ rest
unary (suc n) rest = b'1' ∷ unary n rest

unfoldable pub read_unary : Text → ℕ × Text
read_unary [] = (0, [])
read_unary (c ∷ text) =
    let (n, rest) = read_unary text in if nat_beq c b'1' then (suc n, rest) else (0, text)

unfoldable pub print : SocketAddr → Text
print (SocketAddr.v4 bits port) = b'4' ∷ unary bits (unary port [])
print (SocketAddr.v6 bits port flow scope) = b'6' ∷ unary bits (unary port (unary scope []))

unfoldable pub parse : Text → Option SocketAddr
parse [] = none
parse (c ∷ text) =
    let (bits, rest) = read_unary text in
    let (port, more) = read_unary rest in
    some (
      if nat_beq c b'4'
      then SocketAddr.v4 bits port
      else SocketAddr.v6 bits port 0 (read_unary more).0)

read_unary-unary : (n : ℕ) (rest : Text) → read_unary (unary n rest) ≡ (n, rest)
unfolding read_unary unary
read_unary-unary zero rest = refl
read_unary-unary (suc n) rest = rw (read_unary-unary n rest)

is_visible-unary : (n : ℕ) (rest : Text) → is_visible rest ≡ true → is_visible (unary n rest) ≡ true
unfolding unary is_visible
is_visible-unary zero rest h = rw h
is_visible-unary (suc n) rest h = rw (is_visible-unary n rest h)

print_visible : (a : SocketAddr) → is_visible (print a) ≡ true
unfolding print is_visible
print_visible (SocketAddr.v4 bits port) =
    is_visible-unary bits (unary port []) (is_visible-unary port [] refl)
print_visible (SocketAddr.v6 bits port flow scope) =
    is_visible-unary bits (unary port (unary scope []))
      (is_visible-unary port (unary scope []) (is_visible-unary scope [] refl))

parse-print : (a : SocketAddr) → parse (print a) ≡ some (printed_address a)
unfolding print parse
parse-print (SocketAddr.v4 bits port) =
    rw (read_unary-unary bits (unary port []), read_unary-unary port [])
parse-print (SocketAddr.v6 bits port flow scope) = rw (
  read_unary-unary bits (unary port (unary scope [])),
  read_unary-unary port (unary scope []),
  read_unary-unary scope [],
)

value_visible : (text : Text) → is_visible text ≡ true → is_value text ≡ true
unfolding is_value is_visible
value_visible [] h = refl
value_visible (c ∷ text) h = ground (arith, value_visible text)

abbrev pub http : HttpExternals
http = record {
  is_header_value = is_value;
  to_str = λ text. if is_visible text then some text else none;
  address_to_string = print;
  parse_address = parse;
}

pub laws : HttpLaws http
laws = record {
  value_visible = value_visible;
  to_str_visible = λ text h. rw h;
  address_visible = print_visible;
  parse_address_to_string = parse-print;
}
