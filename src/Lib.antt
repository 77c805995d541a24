-- ===== src/Lib.antt =====
-- plug2proxy carries the traffic of a network (the IN side) through tunnels to other machines (the OUT
-- side). For a connection or a datagram IN finds the real destination behind a fake address, asks the
-- router for labels, and has the tunnel manager choose a tunnel for them; the tunnel writes a head with
-- the destination to a stream, and OUT reads it.
--
-- The files and what they model:
--   Route: src/lib/route/rule.rs (Rule), src/lib/route/config (Config) and src/lib/route/router.rs
--     (Router). Rules are built from the configuration of IN and from those of the OUTs; the router keeps
--     both and a cache of them in groups by priority. `match`, `register_tunnel`, `unregister_tunnel` and
--     `update_rules_cache` are the methods of the names; the loops and closures inside are functions
--     of their own. Route/Ownership is about the router and the rules of the OUTs together.
--   Tunnel: src/lib/tunnel/byte_stream_tunnel.rs, the head of a stream. `connect` gives the bytes that are
--     written, with what `open` and the writes give as arguments; `accept` reads them.
--   FakeIp: src/lib/in/fake_ip_dns. Authority is `assign_fake_ip`, Resolver is `resolve`; Table is the table
--     of records, with SQLite's statements as a parameter, and Assignment what one assignment does to it.
--     Lookup is the authority's `lookup`, which answers queries, with the upstream's answer as an argument.
--   Http2: src/lib/tunnel/http2. Lifetime is http2_tunnel.rs's `Http2InTunnel`, whose tasks interleave
--     as a step relation: its permit, which `handle_out` of src/lib/in/tunnel_manager.rs sets, `connect` up to an open stream, the end of a stream, the end of the
--     connection, and the wait for it. Headers is the request that `connect` builds and `accept` reads,
--     WindowSize is `WindowSizeSetter`, and Streams is compat.rs, byte streams over the streams of h2. Accept is
--     `Http2OutTunnel` under Out's handle_tunnel; Pending is the place in which the streams of
--     plug_http2_tunnel_provider.rs wait for their tunnels.
--   MatchServer: src/lib/match_server/redis_match_server.rs. Keys has the names in Redis of the
--     three pairs of match data, Crypt is `encrypt` and `decrypt`, and Accept the OUTs that an IN has accepted,
--     with `accept_out` by key and by message and the part of `match_out` that drops an OUT. Messages is what
--     `match_out` and `match_in` send each other, and the tunnel that a provider makes of it; Lock is the
--     lock that `match_in` takes.
--   GeoLite2: src/lib/route/geolite2.rs, the database of countries, its file and its updates.
--   Out: src/lib/out/out.rs and the outputs of src/lib/route/config/out_config.rs: the choice of an
--     output for each stream of a tunnel.
--   Manager: src/lib/in/tunnel_manager.rs. The tunnels that are up, the map from labels to tunnels, and
--     `select_tunnel`; Live has the events of the manager, Available what connections are given.
--   UdpForwarder: src/lib/in/udp_forwarder.rs. The associations of sources and the response sockets;
--     Steps has the steps in which sends, answers, expirations and the two halves of a clean-up may
--     interleave; Sockets, Expired and Associated are about runs of them.
--   Proxy: src/lib/in/transparent_proxy.rs. The sniffing of a connection for a TLS host name, the resolution
--     of its destination, the tunnel that it gets, and the loop over datagrams; the reads of a socket are
--     a list of events.
--   Prelude, HashMap and Net: shared lists, tests, integers, sorting; the standard library's maps and
--     addresses. Modules named Examples apply the theorems to concrete inputs.
--
-- State is passed as a record, and a method that holds a lock throughout is one function. A panic is
-- `none` or a constructor of its own where a result says so; the program is built to abort at one. Where a hash map is iterated the order is a parameter, any permutation
-- of the entries. Numbers are native; `u32`, `u128`, `i64` and the index of the manager keep their wrap
-- written out. All loops are over lists or streams, and the sniffing loop runs over the
-- reads that the socket gives, and waits where they are used up. Only `write_on`, a caller that writes until
-- its buffer is empty, has fuel: a number of polls, and as many as are granted or pending with the bytes of
-- the buffer are enough.
--
-- Parameters: IP networks, regular expressions and the text of a UUID (Route/Externals); SQLite by the
-- documented effect of each statement (FakeIp/Table), for names that its numeric affinity for columns
-- declared STRING leaves as they are; `Itertools::unique`; the results of socket calls; whether a
-- tunnel is active; `tls_parser`; header values and the text of a socket address (Http2/Headers); what h2
-- gives at each poll, with the documented rule that a stream is assigned no more than it reserves
-- (Http2/Streams); `connect` of a kind of tunnel (Proxy); the cipher, JSON, UUIDs and the patterns, locks and values of Redis (MatchServer); maxminddb and the
-- downloads (GeoLite2); a lookup of a host (Out). What FakeIp and UdpForwarder take from SQLite and the system is stated as laws or
-- arguments, and FakeIp/Engine has the laws hold together.
--
-- Not modelled: the providers of HTTP/2 tunnels with their sockets and TLS, the drop of an HTTP/2 tunnel,
-- which aborts its task, and so the case that a stream outlives its tunnel; QUIC; the renewal of keys in Redis and
-- commands that it refuses; the connections of the outputs and the copying of streams; STUN and sockets,
-- logging, reading of the configuration file, and timing.
mod Prelude
mod HashMap
mod Net
pub mod Route
pub mod Tunnel
pub mod FakeIp
pub mod Http2
pub mod MatchServer
pub mod GeoLite2
pub mod Out
pub mod Manager
pub mod UdpForwarder
pub mod Proxy
