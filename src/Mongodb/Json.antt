-- ===== src/Mongodb/Json.antt =====
-- What `jsonMarshal` of internal/proto/mongodb/handler.go writes for a document that was parsed.
use white_toyota_tacoma.Common.{true, false, Option, none, some, List, [], ◌∷◌}
use white_toyota_tacoma.Common.Bytes.{Bytes, codes}
use white_toyota_tacoma.Common.Decimal.{format_int}
use white_toyota_tacoma.Common.Quote.{json_string}
use white_toyota_tacoma.Common.Json.{json_object}
use white_toyota_tacoma.Mongodb.Bson.{Value, string, int32, int64, boolean, Doc}

unfoldable pub json_value : Value → Bytes
json_value (string s) = json_string s
json_value (int32 n) = format_int n
json_value (int64 n) = format_int n
json_value (boolean true) = codes "true"
json_value (boolean false) = codes "false"

unfoldable pub json_entries : Doc → List (Bytes × Bytes)
json_entries [] = []
json_entries ((key, v) ∷ doc) = (key, json_value v) ∷ json_entries doc

-- `none` is the nil map.
unfoldable pub json_marshal : Option Doc → Bytes
json_marshal none = codes "null"
json_marshal (some doc) = json_object (json_entries doc)
