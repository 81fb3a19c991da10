-- ===== src/RoutingKeys/ActionId.antt =====
-- The action id that is read back from a routing key.
use Prim.Native.String.{[], ◌∷◌}
use text.Mathlib.TextLemmas.{append-eq-nil_iff}
use mathlib.Core.List.{List, [], ◌∷◌, ◌++◌}
use griffino_go.Base.{
  ℕ, zero, suc, ◌-◌, ◌≤◌, String, ◌≡◌, ◌≢◌, refl, arith, length, ltb, append_assoc, false,
  length-append, ne_of_test, test_of_ne,
}
use griffino_go.Base.Text.{◌<>◌, split}
use griffino_go.Strings.Split.{Lacks, split_of_Lacks, split-ne-nil, split-append}
use griffino_go.RoutingKeys.{dot, action_id_from_routing_key, part_at}

abbrev pub LacksDot : String → Type 0
LacksDot = Lacks dot

length-pos : {ps : List String} → ps ≢ [] → 1 ≤ length ps
length-pos {ps = []} h = absurd (h refl)
length-pos {ps = p ∷ ps} h = omega arith

part_at-append :
    (ps : List String) (i : ℕ) (qs : List String)
    → i ≡ length ps
    → part_at (ps ++ qs) i ≡ part_at qs 0
part_at-append [] zero qs e = refl
part_at-append [] (suc i) qs e = absurd (omega arith)
part_at-append (p ∷ ps) zero qs e = absurd (omega arith)
part_at-append (p ∷ ps) (suc i) qs e = part_at-append ps i qs (omega arith)

-- The last part but one of the parts of a key.
second_last :
    (ps : List String) (a b : String)
    → 3 ≤ length ps
    → (ltb (length (ps ++ a ∷ b ∷ [])) 5 ≡ false)
      × (part_at (ps ++ a ∷ b ∷ []) (length (ps ++ a ∷ b ∷ []) - 2) ≡ a)
second_last ps a b h = (
  ground (arith, length-append ps (a ∷ b ∷ [])),
  part_at-append ps _ (a ∷ b ∷ []) (omega (arith, length-append ps (a ∷ b ∷ []))),
)

-- The form that the comment gives: action.{pluginId}.{userId}.{actionId}.v1
abbrev pub action_key : (plugin_id user_id action_id : String) → String
action_key plugin_id user_id action_id =
    "action" <> "." <> plugin_id <> "." <> user_id <> "." <> action_id <> "." <> "v1"

split-action_key :
    (p u a : String)
    → LacksDot a
    → split dot (action_key p u a) ≡ ("action" ∷ (split dot p ++ split dot u)) ++ a ∷ "v1" ∷ []
split-action_key p u a h =
    rw
      (
        split-append dot "." refl "action" _,
        split-append dot "." refl p _,
        split-append dot "." refl u _,
        split-append dot "." refl a "v1",
        split_of_Lacks dot a h,
      )
      (unfold split in rw (append_assoc (split dot p)) refl)

action_key-ne-nil : (p u a : String) → action_key p u a ≢ ""
action_key-ne-nil p u a h = ne_of_test "action" "" refl ((append-eq-nil_iff.0 h).0)

-- The action id comes back from its routing key, also where the plugin id or the user id holds
-- dots, if the action id itself holds none.
pub action_id-action_key :
    (plugin_id user_id action_id : String)
    → LacksDot action_id
    → action_id_from_routing_key (action_key plugin_id user_id action_id) ≡ action_id
unfolding action_id_from_routing_key
action_id-action_key p u a h =
    let enough : 3 ≤ length ("action" ∷ (split dot p ++ split dot u)) = omega (
      arith,
      length-append (split dot p) (split dot u),
      length-pos (split-ne-nil dot p),
      length-pos (split-ne-nil dot u),
    ) in
    let (long, last) = second_last ("action" ∷ (split dot p ++ split dot u)) a "v1" enough in
    rw (test_of_ne (action_key p u a) "" (action_key-ne-nil p u a), split-action_key p u a h, long)
      last
