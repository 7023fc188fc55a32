-- ===== src/Json.antt =====
-- What the server uses of cJSON, which is not code of the repository's own: parsing a text, and
-- looking into the values.
use npacn_fisac.Base.{ℕ, Bool, true, false, Option, List}
use npacn_fisac.Base.Int.{ℤ}

-- The constants `cJSON_False` to `cJSON_Object`.
pub data Kind : Type 0 where
  is_false is_true is_null number string array object : Kind

-- `item->type == kind`
unfoldable pub same_kind : Kind → Kind → Bool
same_kind is_false is_false = true
same_kind is_true is_true = true
same_kind is_null is_null = true
same_kind number number = true
same_kind string string = true
same_kind array array = true
same_kind object object = true
same_kind _ _ = false

pub record Json : Type 1 where
  pub Item : Type 0
  pub Double : Type 0
  -- `cJSON_Parse` of a string; `none` is NULL.
  pub parse : List ℕ → Option Item
  -- `cJSON_GetObjectItem` of an item that is not NULL.
  pub get_object_item : Item → List ℕ → Option Item
  pub kind : Item → Kind
  -- Of an item of kind `string`; it is never NULL there.
  pub valuestring : Item → List ℕ
  pub valueint : Item → ℤ
  pub valuedouble : Item → Double
  -- `%f` of `printf`.
  pub print_double : Double → List ℕ
