-- ===== src/DeepSeek.antt =====
-- examples/deepseek/plugin/plugin.go: a plugin over the public functions of the library. The text
-- of a tag is written in pieces.
pub mod Building
pub mod Chat
use mathlib.Core.List.{List, [], ◌∷◌, ◌++◌}
use griffino_go.Base.{ℕ, String, Bool, false, Option, none, some}
use griffino_go.Base.Int.{pos}
use griffino_go.Base.Maps.{lookup}
use griffino_go.Base.Text.{◌<>◌}
use griffino_go.Json.{Json, Object, null, bool, int, float, str, arr, obj, object}
use griffino_go.Errors.{Error, foreign, Result, ok, ◌>>=◌}
use griffino_go.Config.{Config, Env}
use griffino_go.Context.{HandlerContext}
use griffino_go.Models.{
  Outcome, returned, failed, i18n, ProviderRegistration, PluginPermission, PluginMetadata,
}
use griffino_go.Declarative.Reflect.{StructField, GoType, struct_of, Kind}
use griffino_go.Client.Interface.{Client}
use griffino_go.Client.New.{ClientOption, with_metadata, new, provider}

abbrev exported : (name : String) → Kind → (tag : String) → StructField
exported name kind tag = record {
  name = name;
  pkg_path = "";
  tags = ("griffino", tag) ∷ [];
  kind = kind;
}

abbrev api_key_tag : String
api_key_tag =
    "key=DEEPSEEK_API_KEY,type=password,name=DeepSeek API Key,"
    <> "description=DeepSeek platform API key.,optional=false," <> "group=API Configuration"

abbrev model_tag : String
model_tag =
    "key=DEEPSEEK_MODEL,type=options,name=Default Model,"
    <> "description=DeepSeek model used for chat requests.,optional=false,"
    <> "default=deepseek-chat,group=API Configuration,"
    <> "values=deepseek-chat:DeepSeek-V3 (Recommended)|deepseek-reasoner:DeepSeek-R1 (Reasoning)"

abbrev base_url_tag : String
base_url_tag =
    "key=DEEPSEEK_BASE_URL,type=string,name=API Base URL,"
    <> "description=Base URL for DeepSeek compatible APIs.,optional=true,"
    <> "default=https://api.deepseek.com,group=API Configuration"

abbrev tokens_tag : String
tokens_tag =
    "key=MAX_TOKENS,type=int,name=Max Tokens,"
    <> "description=Maximum completion tokens per request.,optional=true,"
    <> "default=4096,validation=min:256;max:8192,group=Model Parameters"

abbrev prompt_tag : String
prompt_tag =
    "key=SYSTEM_PROMPT,type=string,name=System Prompt,"
    <> "description=Global system prompt applied to all users.,optional=true,"
    <> "default=You are a helpful assistant.,group=Model Parameters"

abbrev pub boot_config : GoType
boot_config = struct_of (
    exported "APIKey" Kind.string api_key_tag
    ∷ exported "Model" Kind.string model_tag
    ∷ exported "BaseURL" Kind.string base_url_tag
    ∷ exported "Tokens" Kind.int tokens_tag
    ∷ exported "Prompt" Kind.string prompt_tag
    ∷ [])

abbrev user_system_prompt_tag : String
user_system_prompt_tag =
    "key=USER_SYSTEM_PROMPT,type=string,name=Personal System Prompt,"
    <> "description=Prompt appended after the global system prompt.,"
    <> "optional=true,default=,group=Personalization"

abbrev temperature_tag : String
temperature_tag =
    "key=TEMPERATURE,type=float,name=Temperature,"
    <> "description=Controls response randomness.,optional=true,default=1.0,"
    <> "group=Personalization"

abbrev reply_language_tag : String
reply_language_tag =
    "key=REPLY_LANGUAGE,type=options,name=Reply Language,"
    <> "description=Preferred reply language.,optional=true,default=auto,"
    <> "group=Personalization," <> "values=auto:Automatic|zh-CN:Simplified Chinese|en-US:English"

abbrev pub user_config : GoType
user_config = struct_of (
    exported "UserSystemPrompt" Kind.string user_system_prompt_tag
    ∷ exported "Temperature" Kind.float64 temperature_tag
    ∷ exported "ReplyLanguage" Kind.string reply_language_tag
    ∷ [])

unfoldable pub metadata : PluginMetadata
unfolding i18n
metadata = record {
  id = "com.morcherlf.deepseek";
  name = i18n "DeepSeek AI" [];
  version = "0.1.0";
  description = i18n "Provides AI chat model capability via the DeepSeek official API." [];
  main_service_id = "deepseek-service";
  author = "MorCherlf";
  license = "MIT";
  site = "https://github.com/MorCherlf/Griffino-DeepSeek-Plugin";
  tutorial = "https://platform.deepseek.com/api-docs";
  main_system_version = ">=0.1.0";
  required_plugins = [];
  internationalization = some (record {
    default_language = "zh-CN";
    supported_languages = "zh-CN" ∷ "en-US" ∷ [];
    localization_files = some (("zh-CN", "i18n/zh_CN.json") ∷ ("en-US", "i18n/en_US.json") ∷ []);
  });
  permissions_requested =
      record {
        name = "network.outbound.internet";
        description = i18n "Requires internet access to call the DeepSeek API." [];
        optional = false;
      }
      ∷ [];
  manifest_schema = "";
  boot_config_schema = "";
  user_config_schema = "";
}

abbrev pub completion : Object
completion =
    ("content", str "This is a stub completion from the Griffino DeepSeek example.")
    ∷ ("model", str "deepseek-chat")
    ∷ (
      "usage",
      object (
          ("promptTokens", int (pos 0))
          ∷ ("completionTokens", int (pos 0))
          ∷ ("totalTokens", int (pos 0))
          ∷ []),
    )
    ∷ []

-- `ctx.Payload["messages"].([]any)`
abbrev pub chat_outcome : (messages : Option Json) → Outcome
chat_outcome (some (arr messages)) = returned (some completion)
chat_outcome _ = failed none (foreign "payload.messages must be a list")

unfoldable pub handle_chat : HandlerContext → Outcome
handle_chat ctx = chat_outcome (lookup "messages" ctx.payload)

unfoldable pub chat_provider : ProviderRegistration
unfolding i18n
chat_provider = record {
  capability_id = "ai_chat_model";
  capability_type = "ai.chat.model";
  name = i18n "AI Chat Model" [];
  description = i18n "Provides AI chat completion via DeepSeek API." [];
  standard_interface_ref = "griffino.interfaces.ai.chat@1.0.0";
  input_schema_ref = "";
  output_schema_ref = "";
  timeout_ms = some (pos 60000);
  handler = handle_chat;
  slots = [];
}

-- `make_transport` makes the RabbitMQ transport.
unfoldable pub new_client :
    {T : Type 0} → (make_transport : Config → T) → Env → List (ClientOption T) → Result (Client T)
new_client make_transport env opts = do
  client ← new make_transport env (with_metadata metadata ∷ opts)
  ok (provider chat_provider client)
