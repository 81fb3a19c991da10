-- ===== src/Codec.antt =====
-- internal/transport/codec.go over package encoding/json, whose encoder and decoder are the two
-- fields of a record: what the encoder appends to the buffer, and what Unmarshal into an `any`
-- gives. A body is a list of bytes.
pub mod MessageId
use griffino_go.Base.{ℕ, String, Bool, Option, none, some, List, [], ◌∷◌, eqb, if◌then◌else◌}
use griffino_go.Json.{Json, obj, Object, members}
use griffino_go.Errors.{Error, foreign, Result, ok, err, ◌>>=◌}

abbrev pub Bytes : Type 0
Bytes = List ℕ

pub record JsonCodec : Type 0 where
  pub encode : Json → Result Bytes
  pub unmarshal : Bytes → Result Json

abbrev newline : ℕ
newline = 10

-- `bytes.TrimRight(b, "\n")`
unfoldable pub trim_newlines : Bytes → Bytes
trim_newlines [] = []
trim_newlines (c ∷ cs) = elim (trim_newlines cs) [
  | [] ↦ if eqb c newline then [] else c ∷ []
  | d ∷ ds ↦ c ∷ d ∷ ds
]

module _ (codec : JsonCodec) where
  unfoldable pub encode_json : Json → Result Bytes
  encode_json v = do body ← codec.encode v; ok (trim_newlines body)

  abbrev object_of : Json → Result Object
  object_of (obj ms) = ok (members ms)
  object_of _ = err (foreign "message body must decode to an object")

  unfoldable pub decode_json : Bytes → Result Object
  decode_json body = do v ← codec.unmarshal body; object_of v
