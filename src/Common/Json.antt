-- ===== src/Common/Json.antt =====
-- What `encoding/json` writes for a value of maps, lists, strings, numbers and booleans. The keys
-- of a map are sorted.
use white_toyota_tacoma.Common.{ℕ, Bool, true, false, List, [], ◌∷◌, ◌++◌, ltb, if◌then◌else◌}
use white_toyota_tacoma.Common.Bytes.{Bytes, codes}
use white_toyota_tacoma.Common.Decimal.{itoa}
use white_toyota_tacoma.Common.Quote.{json_string}

-- The order of Go's strings.
before : Bytes → Bytes → Bool
before s [] = false
before [] (y ∷ t) = true
before (x ∷ s) (y ∷ t) = if ltb x y then true else if ltb y x then false else before s t

module _ {ℓ} {A : Type ℓ} where
  insert : Bytes × A → List (Bytes × A) → List (Bytes × A)
  unfolding before
  insert e [] = e ∷ []
  insert e (d ∷ es) = if before d.0 e.0 then d ∷ insert e es else e ∷ (d ∷ es)

  unfoldable pub sorted : List (Bytes × A) → List (Bytes × A)
  unfolding insert
  sorted [] = []
  sorted (e ∷ es) = insert e (sorted es)

-- The members of an object, whose values are written already.
member : Bytes × Bytes → Bytes
unfolding json_string
member e = json_string e.0 ++ b':' ∷ e.1

more_members : List (Bytes × Bytes) → Bytes
unfolding member
more_members [] = []
more_members (e ∷ es) = b',' ∷ (member e ++ more_members es)

members : List (Bytes × Bytes) → Bytes
unfolding more_members
members [] = []
members (e ∷ es) = member e ++ more_members es

unfoldable pub json_object : List (Bytes × Bytes) → Bytes
unfolding members sorted
json_object es = b'{' ∷ (members (sorted es) ++ b'}' ∷ [])

mutual
  pub data Json : Type 0 where
    null : Json
    text : Bytes → Json
    number : ℕ → Json
    boolean : Bool → Json
    list : Items → Json
    object : Members → Json

  pub data Items : Type 0 where
    nil : Items
    cons : Json → Items → Items

  pub data Members : Type 0 where
    end : Members
    field : Bytes → Json → Members → Members

unfoldable mutual
  unfolding json_object

  pub json : Json → Bytes
  json null = codes "null"
  json (text s) = json_string s
  json (number n) = itoa n
  json (boolean true) = codes "true"
  json (boolean false) = codes "false"
  json (list nil) = codes "[]"
  json (list (cons v vs)) = b'[' ∷ (json v ++ json_items vs)
  json (object fields) = json_object (json_fields fields)

  -- The items behind the first.
  pub json_items : Items → Bytes
  json_items nil = codes "]"
  json_items (cons v vs) = b',' ∷ (json v ++ json_items vs)

  pub json_fields : Members → List (Bytes × Bytes)
  json_fields end = []
  json_fields (field key v fields) = (key, json v) ∷ json_fields fields
