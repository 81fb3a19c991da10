-- ===== src/RoutingKeys.antt =====
-- The broker-free helpers of rabbitmq.go: routing keys and queue names.
pub mod ActionId
pub mod Distinct
use Prim.Native.Char.{code}
use Prim.Native.String.{[], ◌∷◌}
use griffino_go.Base.{
  ℕ, ◌-◌, String, ◌==◌, Option, none, some, List, length, get_elem?, eqb, ltb, if◌then◌else◌,
}
use griffino_go.Base.Text.{◌<>◌, split}

abbrev pub dot : ℕ
dot = b'.'

unfoldable pub invoke_routing_key : (user_id capability_type : String) → String
invoke_routing_key user_id capability_type =
    "invoke.griffino.router." <> user_id <> "." <> capability_type <> ".v1"

unfoldable pub dispatch_routing_key : (user_id event : String) → String
dispatch_routing_key user_id event = "dispatch.griffino.router." <> user_id <> "." <> event <> ".v1"

unfoldable pub node_result_routing_key : String → String
node_result_routing_key user_id = "dispatch.griffino.router." <> user_id <> ".node.result.v1"

unfoldable pub provider_queue_name : (plugin_id capability_id : String) → String
provider_queue_name plugin_id capability_id = "plugin." <> plugin_id <> "." <> capability_id

-- `strings.ReplaceAll(event, ".", "_")`
unfoldable pub underscored : String → String
underscored [] = []
underscored (c ∷ s) = let rest = underscored s in if eqb (code c) dot then "_" <> rest else c ∷ rest

unfoldable pub consumer_queue_name : (plugin_id event : String) → String
unfolding underscored
consumer_queue_name plugin_id event = "plugin." <> plugin_id <> ".consumer." <> underscored event

unfoldable pub action_queue_name : String → String
action_queue_name plugin_id = "action." <> plugin_id

-- `parts[i]`; the source never reads out of range
abbrev part_at : List String → ℕ → String
part_at parts i = elim (get_elem? parts i) [ none ↦ "" | some p ↦ p ]

unfoldable pub action_id_from_routing_key : String → String
unfolding split
action_id_from_routing_key routing_key =
    if routing_key == ""
    then ""
    else let parts = split dot routing_key in
      if ltb (length parts) 5 then "" else part_at parts (length parts - 2)
