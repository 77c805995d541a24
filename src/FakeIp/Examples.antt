-- ===== src/FakeIp/Examples.antt =====
-- The theorems of the fake addresses for two names in turn, over a small engine.
use plug2proxy.Prelude.{
  ◌+◌, ◌^◌, ◌<◌, ◌≡◌, refl, ap, get_elem?, subst, inl, inr, some, List, [], ◌∷◌, Elem, arith,
}
use plug2proxy.Net.{Text, IpAddr}
use plug2proxy.Tunnel.Bytes.{to_be_bytes}
use plug2proxy.FakeIp.Table.{a, Row}
use plug2proxy.FakeIp.Authority.{authority, assign_fake_ip, real_ip_octets, convert_id_to_fake_ip}
use plug2proxy.FakeIp.Assignment.{IsTable, assigned_row}
use plug2proxy.FakeIp.Invariant.{assign-IsTable, assign-keeps}
use plug2proxy.FakeIp.Resolver.{resolved, resolve, trim_end_dots}
use plug2proxy.FakeIp.RoundTrip.{IsAligned, net_size, resolve-assign_fake_ip, resolve-assign_other}
use plug2proxy.FakeIp.Engine.{engine, engine_laws, find, next_id, resolver}

aligned : IsAligned authority resolver
aligned = record { v4_start = refl; v4_end = omega arith; v6_start = refl; v6_end = omega arith }

abbrev name : Text
name = 65 ∷ b'.' ∷ []

abbrev other : Text
other = 66 ∷ b'.' ∷ []

abbrev real_ip : IpAddr
real_ip = IpAddr.v4 9

abbrev fake : IpAddr
fake = IpAddr.v4 (authority.fake_ip_v4_start + 1)

abbrev other_fake : IpAddr
other_fake = IpAddr.v4 (authority.fake_ip_v4_start + 3)

abbrev rows : List Row
rows = assigned_row 1 0 name real_ip ∷ []

abbrev more_rows : List Row
more_rows = assigned_row 1 0 name real_ip ∷ assigned_row 3 5 other real_ip ∷ []

empty_IsTable : IsTable []
empty_IsTable = record {
  ids = λ q r m. absurd m;
  names = λ q r m. absurd m;
  in_range = λ r m. absurd m;
}

assigned : assign_fake_ip engine authority [] 0 name real_ip ≡ some (fake, rows)
unfolding assign_fake_ip find next_id convert_id_to_fake_ip real_ip_octets to_be_bytes
assigned = refl

assigned_other : assign_fake_ip engine authority rows 5 other real_ip ≡ some (other_fake, more_rows)
unfolding assign_fake_ip find next_id convert_id_to_fake_ip real_ip_octets to_be_bytes
assigned_other = refl

assign-IsTable_example : IsTable rows
assign-IsTable_example =
    assign-IsTable engine engine_laws authority [] rows 0 name real_ip fake empty_IsTable assigned

different : ¬ ((a ≡ a) × (name ≡ other))
different h = ground (arith, ap (λ (t : Text). get_elem? t 0) h.1)

assign-keeps_example : Elem (assigned_row 1 0 name real_ip) more_rows
assign-keeps_example =
    assign-keeps engine engine_laws authority rows more_rows 5 other real_ip other_fake
      (assigned_row 1 0 name real_ip) assign-IsTable_example assigned_other (inl refl) (omega arith)
      different

small : (r : Row) → Elem r rows → r.id < net_size resolver real_ip
small r (inl e) = subst (λ (q : Row). q.id < 2 ^ 17) e (omega arith)
small r (inr m) = absurd m

resolve-assign_fake_ip_example :
    resolve engine resolver rows fake ≡ resolved real_ip (some (trim_end_dots name))
resolve-assign_fake_ip_example =
    resolve-assign_fake_ip engine engine_laws authority resolver [] rows 0 name real_ip fake aligned
      (omega arith) empty_IsTable assigned small

resolve-assign_other_example :
    resolve engine resolver more_rows fake ≡ resolved real_ip (some (trim_end_dots name))
resolve-assign_other_example =
    resolve-assign_other engine engine_laws authority resolver [] rows more_rows 0 5 name other
      real_ip real_ip fake other_fake aligned (omega arith) empty_IsTable assigned assigned_other
      (omega arith) different small
