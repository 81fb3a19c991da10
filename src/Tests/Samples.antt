-- ===== src/Tests/Samples.antt =====
-- Concrete messages, registrations, environments and a broker for the tests.
use griffino_go.Declarative.{ConfigModelDefinition}
use griffino_go.Declarative.Reflect.{GoType, pointer_to, struct_of, Kind}
use griffino_go.Base.{String, Option, ◌==◌, true, false, none, some, [], ◌∷◌, if◌then◌else◌}
use griffino_go.Base.Int.{pos}
use griffino_go.Json.{int, str, Object, object}
use griffino_go.Errors.{ok}
use griffino_go.Config.{Config, Env}
use griffino_go.Codec.{JsonCodec}
use griffino_go.Context.{HandlerContext}
use griffino_go.Models.{
  returned, Handler, I18nString, ProviderRegistration, ConsumerRegistration, ActionRegistration,
  InvokeRequest, DispatchRequest,
}
use griffino_go.Rabbit.Broker.{World, Delivery, Externals, new_world}

abbrev pub task_message : Object
task_message =
    ("userId", str "u1")
    ∷ ("msgId", str "m1")
    ∷ ("taskId", str "t1")
    ∷ ("nodeId", str "n1")
    ∷ ("payload", object (("text", str "hello") ∷ []))
    ∷ []

abbrev pub task_context : HandlerContext
task_context = record {
  user_id = "u1";
  plugin_id = "acme.echo";
  task_id = "t1";
  msg_id = "m1";
  payload = ("text", str "hello") ∷ [];
  node_id = "n1";
  node_context = none;
  action_id = "";
}

abbrev pub echo : Handler
echo hc = returned (some hc.payload)

abbrev pub label : I18nString
label = record { default = "Echo"; key = "" }

abbrev pub echo_provider : ProviderRegistration
echo_provider = record {
  capability_id = "echo";
  capability_type = "text.echo";
  handler = echo;
  name = label;
  description = label;
  standard_interface_ref = "";
  input_schema_ref = "";
  output_schema_ref = "";
  timeout_ms = none;
  slots = [];
}

abbrev pub echo_consumer : ConsumerRegistration
echo_consumer = record { event = "user.created"; handler = echo }

abbrev pub echo_action : ActionRegistration
echo_action = record {
  action_id = "run";
  handler = echo;
  name = label;
  description = label;
  confirmation_required = false;
  confirmation_message = none;
  cooldown_ms = none;
}

abbrev pub plugin_env : Env
plugin_env name =
    if name == "RABBITMQ_HOST"
    then "mq"
    else if name == "RABBITMQ_USER"
    then "guest"
    else if name == "RABBITMQ_PASSWORD"
    then "secret"
    else if name == "GRIFFINO_PLUGIN_ID"
    then "acme.echo"
    else ""

abbrev pub settings : Config
settings = record {
  rabbitmq_host = "mq";
  rabbitmq_port = pos 0;
  rabbitmq_user = "guest";
  rabbitmq_password = "secret";
  plugin_id = "acme.echo";
  user_id = "u1";
  invoke_timeout = pos 0;
  router_exchange = "";
  plugin_exchange = "";
}

-- a codec whose every body is the sample message
abbrev pub sample_codec : JsonCodec
sample_codec = record {
  encode = λ v. ok (123 ∷ 125 ∷ 10 ∷ []);
  unmarshal = λ body. ok (object task_message);
}

-- a broker on which every call succeeds
abbrev pub broker : Externals
broker = record {
  answer = λ past c. none;
  codec = sample_codec;
  message_id = λ n. "m2";
  sprintf = λ f args. f;
}

-- a transport that is started on channel 1
abbrev pub running_world : World
running_world = record {
  cfg = settings;
  started = true;
  conn = some 0;
  ch = some 1;
  consumer_ctx = some 2;
  pending = [];
  waiters = (new_world settings).waiters;
  made = 3;
  cancelled = [];
  routines = [];
  calls = [];
  handled = [];
  drawn = 0;
}

abbrev pub request_delivery : Delivery
request_delivery = record {
  tag = 7;
  correlation_id = "m1";
  reply_to = "replies";
  routing_key = "";
  body = [];
}

abbrev pub task_delivery : Delivery
task_delivery = record { tag = 8; correlation_id = ""; reply_to = ""; routing_key = ""; body = [] }

abbrev pub action_delivery : Delivery
action_delivery = record {
  tag = 9;
  correlation_id = "";
  reply_to = "";
  routing_key = "action.acme.echo.u1.run.v1";
  body = [];
}

abbrev pub echo_request : InvokeRequest
echo_request = record {
  capability_type = "text.echo";
  payload = none;
  user_id = "u1";
  plugin_id = "acme.echo";
  task_id = "";
  slot = "";
  timeout_ms = pos 500;
}

abbrev pub created_event : DispatchRequest
created_event = record {
  event = "user.created";
  payload = none;
  user_id = "u1";
  plugin_id = "acme.echo";
  task_id = "";
}

-- A parser of floats that knows one of them.
abbrev pub only_one : String → Option String
only_one s = if s == "1.0" then some "1" else none

abbrev pub port_tag : String
port_tag =
    "key=PORT, type=int, name=Port,description=The port.,default=8080,validation=min:1;max:65535"

abbrev pub port_model : GoType
port_model = pointer_to (
    struct_of (
      record { name = "hidden"; pkg_path = "acme"; tags = []; kind = Kind.string }
      ∷ record { name = "Port"; pkg_path = ""; tags = ("griffino", port_tag) ∷ []; kind = Kind.int }
      ∷ []))

abbrev pub port_definition : ConfigModelDefinition
port_definition = record {
  kind = "boot";
  fields =
      record {
        key = "PORT";
        type = "int";
        name = "Port";
        description = "The port.";
        optional = false;
        has_default = true;
        default = int (pos 8080);
        validation = some (("minimum", int (pos 1)) ∷ ("maximum", int (pos 65535)) ∷ []);
        group = "";
        values = [];
      }
      ∷ [];
}
