-- ===== src/Registry/Canonical.antt =====
-- packages/config/src/signedRegistry.ts: the canonical text of a JSON value, whose fields are sorted.
-- `a.localeCompare(b) <= 0` is an argument; no number stands in a registry.
use capital_os.Shared.{
  Text, codes, json_text, join, Bool, true, false, List, [], ◌∷◌, ◌++◌, map, if◌then◌else◌,
}

mutual
  pub data Json : Type 0 where
    null : Json
    flag : Bool → Json
    string : Text → Json
    array : Items → Json
    object : Fields → Json

  pub data Items : Type 0 where
    nil : Items
    cons : Json → Items → Items

  pub data Fields : Type 0 where
    end : Fields
    field : Text → Json → Fields → Fields

-- A rendered field before the first that does not come before it, so that the order of equals is kept.
unfoldable pub insert_field :
    (Text → Text → Bool) → Text × Text → List (Text × Text) → List (Text × Text)
insert_field le entry [] = entry ∷ []
insert_field le entry (other ∷ rest) =
    if le entry.0 other.0 then entry ∷ other ∷ rest else other ∷ insert_field le entry rest

abbrev brackets : Text → Text → Text → Text
brackets left inner right = left ++ inner ++ right

abbrev rendered : Text × Text → Text
rendered (name, value) = json_text name ++ codes ":" ++ value

-- `canonicalValue`
unfoldable mutual
  pub canonical_value : (Text → Text → Bool) → Json → Text
  canonical_value le null = codes "null"
  canonical_value le (flag true) = codes "true"
  canonical_value le (flag false) = codes "false"
  canonical_value le (string s) = json_text s
  canonical_value le (array xs) =
      brackets (codes "[") (join (codes ",") (canonical_items le xs)) (codes "]")
  canonical_value le (object fs) =
      brackets (codes "{") (join (codes ",") (map rendered (canonical_fields le fs))) (codes "}")

  pub canonical_items : (Text → Text → Bool) → Items → List Text
  canonical_items le nil = []
  canonical_items le (cons x xs) = canonical_value le x ∷ canonical_items le xs

  pub canonical_fields : (Text → Text → Bool) → Fields → List (Text × Text)
  canonical_fields le end = []
  canonical_fields le (field name value rest) =
      insert_field le (name, canonical_value le value) (canonical_fields le rest)
