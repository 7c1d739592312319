-- ===== src/Sbtc/Unknown.antt =====
-- packages/adapters/src/sbtc: a value of type `unknown`, as `response.json()` gives it, and the checks of it that
-- depositLifecycle.ts and withdrawalLifecycle.ts make.
use capital_os.Shared.{
  ℕ, ◌==◌, Text, codes, text_eq, ℤ, show_ℕ, Bool, Option, none, some, ◌++◌, if◌then◌else◌,
}
use capital_os.Errors.{Result, ok, ◌>>=◌}
use capital_os.Sbtc.Fields.{fail, non_empty, safe_uint, uint_string, txid, hex}

-- `missing` is undefined, `whole` a number that is an integer; what no check accepts is `other`.
mutual
  pub data Unknown : Type 0 where
    missing null other array : Unknown
    text : Text → Unknown
    whole : ℤ → Unknown
    object : Members → Unknown

  pub data Members : Type 0 where
    end : Members
    member : Text → Unknown → Members → Members

-- `record[name]`
unfoldable pub get_member : Members → Text → Unknown
get_member end name = missing
get_member (member key value rest) name =
    let found = get_member rest name in if text_eq key name then value else found

-- `typeof value !== "object" || value === null || Array.isArray(value)` throws.
abbrev pub members_of : Unknown → Text → Result Members
members_of (object ms) name = ok ms
members_of _ name = fail (name ++ codes " must be an object")

abbrev pub text_field : Unknown → Text → Result Text
text_field (text s) name = non_empty s name
text_field _ name = fail (name ++ codes " must be a non-empty string")

abbrev pub uint_field : Unknown → Text → Result ℕ
uint_field (whole z) name = safe_uint z name
uint_field _ name = fail (name ++ codes " must be a safe non-negative integer")

-- `uintString` and `int64String`
abbrev pub uint_text_field : Unknown → Text → Result Text
uint_text_field (text s) name = uint_string s name
uint_text_field value name = uint_field value name >>= λ n. ok (show_ℕ n)

abbrev pub txid_field : Unknown → Text → Result Text
txid_field value name = text_field value name >>= λ s. txid s name

abbrev pub hex_field : Unknown → Text → Result Text
hex_field value name = text_field value name >>= λ s. hex s name

-- `value === null || value === undefined ? null : check(value, name)`
abbrev pub optional_field {ℓ} :
    {A : Type ℓ} → (Unknown → Text → Result A) → Unknown → Text → Result (Option A)
optional_field check missing name = ok none
optional_field check null name = ok none
optional_field check value name = check value name >>= λ a. ok (some a)

-- An answer over HTTP; the body may not be read.
pub record Response : Type 0 where
  pub ok : Bool
  pub status : ℕ
  pub json : Result Unknown

-- What follows a read: nothing when it is not found, and its body when it went well.
abbrev pub read_response {ℓ} :
    {A : Type ℓ} → Text → (Unknown → Result A) → Response → Result (Option A)
read_response what parse response =
    if response.status == 404
    then Result.ok none
    else if response.ok
    then (response.json >>= λ body. parse body >>= λ a. Result.ok (some a))
    else fail (codes "Emily " ++ what ++ codes " read failed with HTTP " ++ show_ℕ response.status)
