-- ===== src/Sbtc/Fields.antt =====
-- packages/adapters/src/sbtc/withdrawalLifecycle.ts: the checks of single fields, which throw an `Error`
-- that names the field.
use capital_os.Shared.{
  ℕ, ◌%◌, ◌+◌, ◌*◌, ◌-◌, leb, ltb, ◌==◌, Text, codes, to_lower, is_empty, length, all, is_digit, ℤ,
  pos, negsuc, ltb_ℤ, show_ℤ, show_ℕ, Bool, true, false, not, ◌&&◌, ◌||◌, List, [], ◌∷◌, ◌++◌,
  if◌then◌else◌,
}
use capital_os.Errors.{Result, ok, err, error, ◌>>=◌, ◌>>◌}
use capital_os.Amounts.{parse_quantity}

abbrev pub fail {ℓ} : {A : Type ℓ} → Text → Result A
fail message = err (error message)

abbrev pub fail_if : Bool → Text → Result (Unit {0})
fail_if true message = fail message
fail_if false message = ok tt

unfoldable pub non_empty : Text → Text → Result Text
non_empty value name =
    if is_empty value then fail (name ++ codes " must be a non-empty string") else ok value

-- `Number.MAX_SAFE_INTEGER`
abbrev pub max_safe : ℕ
max_safe = 9007199254740991

unfoldable pub safe_uint : ℤ → Text → Result ℕ
safe_uint (pos n) name =
    if leb n max_safe then ok n else fail (name ++ codes " must be a safe non-negative integer")
safe_uint (negsuc n) name = fail (name ++ codes " must be a safe non-negative integer")

-- `uintString` of a text.
unfoldable pub uint_string : Text → Text → Result Text
uint_string value name = do
  parsed ← parse_quantity value
  fail_if (ltb_ℤ parsed (pos 0)) (name ++ codes " cannot be negative")
  ok (show_ℤ parsed)

unfoldable pub is_hex_digit : ℕ → Bool
is_hex_digit c = is_digit c || (leb b'a' c && leb c b'f') || (leb b'A' c && leb c b'F')

abbrev pub is_hex_of : ℕ → Text → Bool
is_hex_of n s = length s == n && all is_hex_digit s

-- The text without a `0x` in front.
unfoldable pub unprefixed : Text → Text
unprefixed (z ∷ x ∷ s) = if z == b'0' && x == b'x' then s else z ∷ x ∷ s
unprefixed s = s

-- `txid`: the text matches `/^(?:0x)?[0-9a-fA-F]{64}$/`.
unfoldable pub txid : Text → Text → Result Text
unfolding unprefixed is_hex_digit
txid value name = do
  parsed ← non_empty value name
  fail_if (not (is_hex_of 64 (unprefixed parsed))) (name ++ codes " must be 32-byte hex")
  ok (to_lower (unprefixed parsed))

-- `HEX.test(text)`
unfoldable pub is_byte_hex : Text → Bool
unfolding is_hex_digit
is_byte_hex s = not (is_empty s) && length s % 2 == 0 && all is_hex_digit s

unfoldable pub hex : Text → Text → Result Text
unfolding is_byte_hex
hex value name = do
  parsed ← non_empty value name
  fail_if (not (is_byte_hex parsed)) (name ++ codes " must be non-empty byte hex")
  ok (to_lower parsed)

unfoldable pub hex_value : ℕ → ℕ
hex_value c = if is_digit c then c - b'0' else if leb b'a' c then c - b'a' + 10 else c - b'A' + 10

-- `Number.parseInt(version, 16)` of a text that is one byte, as `/^[0-9a-fA-F]{2}$/` tests.
unfoldable pub recipient_kind : Text → Result ℕ
unfolding is_hex_digit hex_value
recipient_kind (c ∷ d ∷ []) =
    if is_hex_digit c && is_hex_digit d
    then ok (hex_value c * 16 + hex_value d)
    else fail (codes "recipient version must be exactly one byte")
recipient_kind version = fail (codes "recipient version must be exactly one byte")

unfoldable pub script_of : ℕ → Text → Text
script_of kind hash =
    if kind == 0
    then codes "76a914" ++ hash ++ codes "88ac"
    else if leb kind 3
    then codes "a914" ++ hash ++ codes "87"
    else if kind == 4
    then codes "0014" ++ hash
    else if kind == 5
    then codes "0020" ++ hash
    else codes "5120" ++ hash

abbrev expected_bytes : ℕ → ℕ
expected_bytes kind = if leb kind 4 then 20 else 32

unfoldable pub withdrawal_recipient_script : Text → Text → Result Text
unfolding script_of
withdrawal_recipient_script version hashbytes = do
  kind ← recipient_kind version
  fail_if (ltb 6 kind) (codes "recipient version must be between 00 and 06")
  hash ← hex hashbytes (codes "recipient hashbytes")
  fail_if (not (length hash == (expected_bytes kind * 2))) (
      codes "recipient hashbytes must be "
      ++ show_ℕ (expected_bytes kind)
      ++ codes " bytes for version "
      ++ to_lower version)
  ok (script_of kind hash)

-- `parseQuantity(value).toString(10)`
abbrev pub quantity_text : Text → Result Text
quantity_text value = parse_quantity value >>= λ q. ok (show_ℤ q)

-- `if (test) list.push(text)`
abbrev pub note_if : Bool → Text → List Text
note_if true note = note ∷ []
note_if false note = []

-- Several of these one after the other.
unfoldable pub noted : List (Bool × Text) → List Text
noted [] = []
noted ((test, note) ∷ more) = note_if test note ++ noted more
