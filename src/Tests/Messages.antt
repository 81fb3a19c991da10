-- ===== src/Tests/Messages.antt =====
-- Contexts, routing keys, message ids and errors.
use griffino_go.Base.{
  ℕ, ◌<◌, String, true, none, some, List, [], ◌∷◌, ◌≡◌, ◌↔◌, refl, arith, ne_of_test, All, ◌==◌,
  Bool-cases, inl, inr,
}
use griffino_go.Base.Maps.{lookup, insert}
use griffino_go.Json.{
  Json, null, bool, int, float, str, arr, obj, Object, Items, nil, cons, Members, end, member,
  members, of_members,
}
use griffino_go.Base.Int.{pos}
use griffino_go.Base.Number.{itoa}
use griffino_go.Json.Wire.{
  Same, SameItems, SameEntry, same_null, same_bool, same_int, same_float, same_str, same_arr,
  same_obj, same_nil, same_cons, same_none, same_some,
}
use griffino_go.Errors.{ok, is, capability, timeout_error}
use griffino_go.Errors.Succeeds.{Succeeds}
use griffino_go.Errors.Hierarchy.{Matches, is_iff_Matches}
use griffino_go.Envelopes.{build_invoke_envelope}
use griffino_go.Context.{HandlerContext, context_from_message}
use griffino_go.Context.Fields.{IsAcceptable}
use griffino_go.Context.Validation.{context_from_message_iff}
use griffino_go.Context.RoundTrip.{IsSeen, context-invoke_envelope}
use griffino_go.RoutingKeys.{consumer_queue_name, action_id_from_routing_key}
use griffino_go.RoutingKeys.ActionId.{action_key, action_id-action_key}
use griffino_go.RoutingKeys.Distinct.{
  SameButDots, invoke_routing_key-injective, consumer_queue_name_iff,
}
use griffino_go.Codec.MessageId.{Uuid}
use griffino_go.Tests.Samples.{task_message}

context_from_message_iff_example :
    Succeeds (context_from_message task_message "acme.echo") ↔ IsAcceptable "acme.echo" task_message
context_from_message_iff_example = context_from_message_iff "acme.echo" task_message

-- What comes back of a value where integers are printed in decimal.
mutual
  wire : Json → Json
  wire null = null
  wire (bool b) = bool b
  wire (int n) = float (itoa n)
  wire (float t) = float t
  wire (str s) = str s
  wire (arr vs) = arr (wire_items vs)
  wire (obj ms) = obj (wire_members ms)

  wire_items : Items → Items
  wire_items nil = nil
  wire_items (cons v vs) = cons (wire v) (wire_items vs)

  wire_members : Members → Members
  wire_members end = end
  wire_members (member k v ms) = member k (wire v) (wire_members ms)

abbrev same_text : String → String
same_text t = t

mutual
  unfolding wire wire_items wire_members lookup

  Same-wire : (v : Json) → Same itoa same_text v (wire v)
  Same-wire null = same_null
  Same-wire (bool b) = same_bool
  Same-wire (int n) = same_int
  Same-wire (float t) = same_float
  Same-wire (str s) = same_str
  Same-wire (arr vs) = same_arr (SameItems-wire_items vs)
  Same-wire (obj ms) = same_obj (λ k. SameEntry-wire_members ms k)

  SameItems-wire_items : (vs : Items) → SameItems itoa same_text vs (wire_items vs)
  SameItems-wire_items nil = same_nil
  SameItems-wire_items (cons v vs) = same_cons (Same-wire v) (SameItems-wire_items vs)

  SameEntry-wire_members :
      (ms : Members) (k : String)
      → SameEntry itoa same_text (lookup k (members ms)) (lookup k (members (wire_members ms)))
  SameEntry-wire_members end k = same_none
  SameEntry-wire_members (member j v ms) k = elim (Bool-cases (j == k)) [
    | inl e ↦ rw e (same_some (Same-wire v))
    | inr e ↦ rw e (SameEntry-wire_members ms k)
  ]

abbrev sent_message : Object
sent_message =
    build_invoke_envelope "t1" "m1" "u1" "acme.echo" (some (("n", int (pos 3)) ∷ [])) "fast"

abbrev got : Object
got = members (wire_members (of_members sent_message))

context-invoke_envelope_example :
    (hc : HandlerContext) × (context_from_message got "other" ≡ ok hc)
    × IsSeen itoa same_text "t1" "m1" "u1" "acme.echo" (some (("n", int (pos 3)) ∷ [])) hc
unfolding build_invoke_envelope insert wire_members
context-invoke_envelope_example =
    context-invoke_envelope itoa same_text "t1" "m1" "u1" "acme.echo" "fast" "other"
      (some (("n", int (pos 3)) ∷ [])) got (ne_of_test "acme.echo" "" refl)
      (SameEntry-wire_members (of_members sent_message))

action_id-action_key_example :
    action_id_from_routing_key (action_key "acme.echo" "u.1" "run") ≡ "run"
action_id-action_key_example =
    action_id-action_key "acme.echo" "u.1" "run" (omega arith, (omega arith, (omega arith, tt)))

abbrev user : String
user = "u1"

abbrev echo_type : String
echo_type = "text.echo"

invoke_routing_key-injective_example : (user ≡ user) × (echo_type ≡ echo_type)
invoke_routing_key-injective_example =
    invoke_routing_key-injective user user echo_type echo_type (omega arith, (omega arith, tt))
      (omega arith, (omega arith, tt)) refl

consumer_queue_name_iff_example :
    (consumer_queue_name "acme.echo" "user.created"
      ≡ consumer_queue_name "acme.echo" "user_created")
    ↔ SameButDots "user.created" "user_created"
consumer_queue_name_iff_example = consumer_queue_name_iff "acme.echo" "user.created" "user_created"

abbrev zeros : List ℕ
zeros = 0 ∷ 1 ∷ 2 ∷ 3 ∷ 4 ∷ 5 ∷ 255 ∷ 7 ∷ 255 ∷ 9 ∷ 10 ∷ 11 ∷ 12 ∷ 13 ∷ 14 ∷ 15 ∷ []

abbrev zeros_id : Uuid
zeros_id = record {
  time_low = 0 ∷ 1 ∷ 2 ∷ 3 ∷ [];
  time_mid = 4 ∷ 5 ∷ [];
  time_hi = 0x4f ∷ 7 ∷ [];
  clock = 0xbf ∷ 9 ∷ [];
  node = 10 ∷ 11 ∷ 12 ∷ 13 ∷ 14 ∷ 15 ∷ [];
}

zeros_are_bytes : All (λ b. b < 256) zeros
zeros_are_bytes = (
  omega arith,
  (
    omega arith,
    (
      omega arith,
      (
        omega arith,
        (
          omega arith,
          (
            omega arith,
            (
              omega arith,
              (
                omega arith,
                (
                  omega arith,
                  (
                    omega arith,
                    (
                      omega arith,
                      (omega arith, (omega arith, (omega arith, (omega arith, (omega arith, tt))))),
                    ),
                  ),
                ),
              ),
            ),
          ),
        ),
      ),
    ),
  ),
)

is_iff_Matches_example :
    (is (timeout_error none "provider_timeout" []) capability ≡ true)
    ↔ Matches (timeout_error none "provider_timeout" []) capability
is_iff_Matches_example = is_iff_Matches (timeout_error none "provider_timeout" []) capability
