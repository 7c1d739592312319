-- ===== src/Amounts.antt =====
-- packages/core/src/amounts.ts: quantities as exact integers, their text, and rounding division.
pub mod Units
pub mod MulDiv
pub mod Texts
mod Examples
use capital_os.Shared.{
  ℕ, ◌+◌, ◌-◌, ◌*◌, Text, codes, trim, is_empty, ℤ, pos, negsuc, ◌+ℤ◌, ◌-ℤ◌, ◌*ℤ◌, ◌/ℤ◌, leb_ℤ,
  ltb_ℤ, eqb_ℤ, is_integer, json_text, read_ℤ, show_ℤ, Bool, true, false, Option, none, some, List,
  [], ◌∷◌, ◌++◌, if◌then◌else◌, leb, ◌&&◌, ◌==◌,
}
use capital_os.Errors.{Result, ok, err, error, Thrown, ◌>>=◌}
use capital_os.Ids.{AssetId, same_asset, parse_asset_id, format_asset_id}

pub record AssetAmount : Type 0 where
  pub asset : AssetId
  pub quantity : ℤ

-- What a JSON field may hold, as far as the code tells it apart by `typeof`. Any other value comes
-- with its JSON text.
pub data Value : Type 0 where
  number : Value
  bigint : ℤ → Value
  text : Text → Value
  other : Text → Value

abbrev pub not_an_integer : Text → Thrown
not_an_integer json = error (codes "Quantity must be a base-10 integer string, got " ++ json)

unfoldable pub parse_quantity : Text → Result ℤ
parse_quantity value =
    if is_integer (trim value)
    then ok (read_ℤ (trim value))
    else err (not_an_integer (json_text value))

abbrev pub format_quantity : ℤ → Text
format_quantity = show_ℤ

-- `jsonAmount`: the asset's text and the quantity's.
unfoldable pub json_amount : AssetAmount → Text × Text
json_amount a = (format_asset_id a.asset, format_quantity a.quantity)

abbrev bigint_in_json : Thrown
bigint_in_json = error (codes "Do not know how to serialize a BigInt")

unfoldable pub parse_amount : Text → Value → Result AssetAmount
parse_amount asset number = err (error (codes "Quantity cannot use a JavaScript number"))
parse_amount asset (bigint z) = err bigint_in_json
parse_amount asset (other json) = err (not_an_integer json)
parse_amount asset (text s) = do
  a ← parse_asset_id asset
  q ← parse_quantity s
  ok (record { asset = a; quantity = q })

unfoldable pub assert_financial_int : Value → Text → Result ℤ
assert_financial_int number label = err (error (label ++ codes " cannot use a JavaScript number"))
assert_financial_int (bigint z) label = ok z
assert_financial_int (text s) label = parse_quantity s
assert_financial_int (other json) label =
    err (error (label ++ codes " must be a bigint or base-10 integer string"))

unfoldable pub add_amounts : AssetAmount → AssetAmount → Result AssetAmount
add_amounts left right =
    if same_asset left.asset right.asset
    then ok (record { asset = left.asset; quantity = left.quantity +ℤ right.quantity })
    else err (error (codes "Cannot add amounts of different assets"))

unfoldable pub assert_positive : AssetAmount → Text → Result (Unit {0})
assert_positive a label =
    if leb_ℤ a.quantity (pos 0)
    then err (error (label ++ codes " must be greater than zero"))
    else ok tt

pub data Rounding : Type 0 where
  down up : Rounding

abbrev rounded : Rounding → ℤ → ℤ → ℤ
rounded down product denominator = product /ℤ denominator
rounded up product denominator = (product +ℤ denominator -ℤ pos 1) /ℤ denominator

unfoldable pub mul_div : ℤ → ℤ → ℤ → Rounding → Result ℤ
mul_div value numerator denominator rounding =
    if eqb_ℤ denominator (pos 0)
    then err (error (codes "Division by zero"))
    else ok (rounded rounding (value *ℤ numerator) denominator)
