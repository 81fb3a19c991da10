-- ===== src/DeepSeek/Chat.antt =====
-- When the handler of the example fails.
use griffino_go.Base.{Option, none, some, ◌≡◌, ◌↔◌, refl}
use griffino_go.Base.Maps.{lookup}
use griffino_go.Json.{Json, Items, null, bool, int, float, str, arr, obj, Object}
use griffino_go.Context.{HandlerContext}
use griffino_go.Models.{returned}
use griffino_go.DeepSeek.{handle_chat, chat_outcome, completion}

chat_outcome-eq-returned :
    (messages : Option Json) {r : Option Object}
    → chat_outcome messages ≡ returned r
    → (vs : Items) × (messages ≡ some (arr vs))
chat_outcome-eq-returned (some (arr vs)) e = (vs, refl)
chat_outcome-eq-returned none e = cc
chat_outcome-eq-returned (some null) e = cc
chat_outcome-eq-returned (some (bool b)) e = cc
chat_outcome-eq-returned (some (int n)) e = cc
chat_outcome-eq-returned (some (float f)) e = cc
chat_outcome-eq-returned (some (str s)) e = cc
chat_outcome-eq-returned (some (obj ms)) e = cc

pub handle_chat_iff :
    (ctx : HandlerContext)
    → ((r : Option Object) × (handle_chat ctx ≡ returned r))
      ↔ ((vs : Items) × (lookup "messages" ctx.payload ≡ some (arr vs)))
unfolding handle_chat
handle_chat_iff ctx = (
  λ p. chat_outcome-eq-returned (lookup "messages" ctx.payload) p.1,
  λ p. (some completion, rw p.1),
)
