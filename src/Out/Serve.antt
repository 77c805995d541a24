-- ===== src/Out/Serve.antt =====
-- Which streams of a tunnel an OUT serves, and through which output (src/lib/out/out.rs).
use mathlib.Core.Option
use plug2proxy.Prelude.{
  nat_eq, list_eq, ◌==◌, ◌≡◌, refl, ap, ◌∙◌, Bool, true, false, Option, none, some, List, [], ◌∷◌,
  map, if◌then◌else◌,
}
use plug2proxy.Net.{Text}
use plug2proxy.HashMap
use plug2proxy.HashMap.{get-insert}
use plug2proxy.Out.{
  AnyOutput, OutOutputConfig, tag, into_output, direct_output, collect, output_map, Destination,
  Accepted, stream, failed, choose_output, handle_tunnel,
}

-- The output of the last configuration with a tag, and before all of them `before`.
abbrev pub last_output : Option AnyOutput → Text → List OutOutputConfig → Option AnyOutput
last_output before tag_ [] = before
last_output before tag_ (config ∷ configs) =
    last_output (if tag config == tag_ then some (into_output config) else before) tag_ configs

-- What a stream with a tag is to go through: the output that was configured last for the tag, and directly
-- where there is no tag or no such output.
abbrev pub output_for : List OutOutputConfig → Option Text → AnyOutput
output_for configs none = direct_output
output_for configs (some tag_) = Option.get_or (last_output none tag_ configs) direct_output

-- The streams before the tunnel is found closed.
abbrev pub served : List Accepted → List Destination
served [] = []
served (stream destination ∷ events) = destination ∷ served events
served (failed true ∷ events) = []
served (failed false ∷ events) = served events

-- No error has found the tunnel closed.
abbrev pub still_open : List Accepted → Bool
still_open [] = true
still_open (stream destination ∷ events) = still_open events
still_open (failed true ∷ events) = false
still_open (failed false ∷ events) = still_open events

get-collect :
    (tag_ : Text) (outputs : List (Text × AnyOutput)) (configs : List OutOutputConfig)
    → HashMap.get tag_ (collect outputs configs)
      ≡ last_output (HashMap.get tag_ outputs) tag_ configs
unfolding collect
get-collect tag_ outputs [] = refl
get-collect tag_ outputs (config ∷ configs) =
    get-collect tag_ (HashMap.insert (tag config) (into_output config) outputs) configs
    ∙ ap (λ before. last_output before tag_ configs)
        (get-insert (tag config) tag_ (into_output config) outputs)

pub choose_output-output_map :
    (configs : List OutOutputConfig) (tag_ : Option Text)
    → choose_output (output_map configs) tag_ ≡ output_for configs tag_
unfolding choose_output output_map HashMap.get
choose_output-output_map configs none = refl
choose_output-output_map configs (some tag_) =
    ap (λ (o : Option AnyOutput). Option.get_or o direct_output) (get-collect tag_ [] configs)

-- For any outputs that are configured and anything that a tunnel's `accept` gives, the streams that are
-- served are those before the first error that finds the tunnel closed, in their order, each through the
-- output that is configured last for its tag, and directly where it has no tag or its tag no output; and
-- the tunnel is still served exactly while no error has found it closed.
pub handle_tunnel_iff :
    (configs : List OutOutputConfig) (events : List Accepted)
    → handle_tunnel (output_map configs) events
      ≡ (map (λ (d : Destination). (d, output_for configs d.2)) (served events), still_open events)
unfolding handle_tunnel
handle_tunnel_iff configs [] = refl
handle_tunnel_iff configs (stream (address, name, tag_) ∷ events) =
    rw (handle_tunnel_iff configs events, choose_output-output_map configs tag_)
handle_tunnel_iff configs (failed true ∷ events) = refl
handle_tunnel_iff configs (failed false ∷ events) = handle_tunnel_iff configs events
