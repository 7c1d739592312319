-- ===== src/Amounts/Units.antt =====
-- packages/core/src/amounts.ts: decimal amounts as a person writes them, `parseUnits` and
-- `formatUnits`. A count of decimals is an integer, or a JavaScript number that is none.
use capital_os.Shared.{
  ℕ, suc, zero, ◌+◌, ◌-◌, Text, codes, trim, is_empty, json_text, ℤ, pos, negsuc, ◌-ℤ◌, is_integer,
  show_ℕ, show_ℤ, big_int, Bool, true, false, Option, none, some, List, [], ◌∷◌, ◌++◌,
  if◌then◌else◌, leb, ◌&&◌, ◌||◌, ◌==◌, not, length, any,
}
use capital_os.Errors.{Result, ok, err, error, Thrown, ◌>>=◌, ◌>>◌}
use capital_os.Amounts.{parse_quantity}

pub data Decimals : Type 0 where
  integer : ℤ → Decimals
  fraction : Text → Decimals

abbrev bad_decimals : Text → Thrown
bad_decimals shown = error (codes "Decimals must be an integer between 0 and 36, got " ++ shown)

-- The count of decimals, if it is one of 0 to 36.
unfoldable pub checked_decimals : Decimals → Result ℕ
checked_decimals (fraction shown) = err (bad_decimals shown)
checked_decimals (integer (negsuc n)) = err (bad_decimals (show_ℤ (negsuc n)))
checked_decimals (integer (pos n)) = if leb n 36 then ok n else err (bad_decimals (show_ℤ (pos n)))

abbrev is_e : ℕ → Bool
is_e c = c == b'e' || c == b'E'

-- `text.split(".")`
unfoldable pub split_dot : Text → Text × List Text
split_dot [] = ([], [])
split_dot (c ∷ s) = let (p, ps) = split_dot s in if c == b'.' then ([], p ∷ ps) else (c ∷ p, ps)

-- `text.padEnd(width, "0")`, which adds what is missing
unfoldable pub zeros : ℕ → Text
zeros zero = []
zeros (suc n) = b'0' ∷ zeros n

unfoldable pub pad_end : Text → ℕ → Text
unfolding zeros
pad_end s width = s ++ zeros (width - length s)

unfoldable pub pad_start : Text → ℕ → Text
unfolding zeros
pad_start s width = zeros (width - length s) ++ s

unfoldable pub is_sign : Text → Bool
is_sign (c ∷ []) = c == b'-' || c == b'+'
is_sign _ = false

abbrev unsigned : Text → Text
unsigned [] = []
unsigned (c ∷ s) = if c == b'-' || c == b'+' then s else c ∷ s

abbrev is_negative : Text → Bool
is_negative [] = false
is_negative (c ∷ s) = c == b'-'

-- The integer part and the fractional part; a third part is refused.
unfoldable pub parts_of : Text → Text × List Text → Result (Text × Text)
parts_of shown (int, []) = ok (int, [])
parts_of shown (int, frac ∷ []) = ok (int, frac)
parts_of shown (int, frac ∷ more ∷ rest) =
    err (error (codes "Multiple decimal points in string: " ++ shown))

abbrev require : Bool → Text → Result (Unit {0})
require true message = ok tt
require false message = err (error message)

abbrev as_bigint : Text → Result ℤ
as_bigint s = elim (big_int s) [
  | none ↦ err (error (codes "Cannot convert " ++ s ++ codes " to a BigInt"))
  | some z ↦ ok z
]

-- What is made of the two parts.
unfoldable pub combine : Text → ℕ → Text → Text → Result ℤ
combine shown dec int frac = do
  require (not (is_empty int && is_empty frac))
      (codes "Invalid decimal string with no digits: " ++ shown)
  require (is_integer int || is_empty int)
      (codes "Invalid integer part in decimal string: " ++ shown)
  require (is_empty frac || is_integer frac)
      (codes "Invalid fractional part in decimal string: " ++ shown)
  require (leb (length frac) dec) (
      codes "Fractional component has "
      ++ show_ℕ (length frac)
      ++ codes " decimal places, exceeding allowed "
      ++ show_ℕ dec
      ++ codes " decimals: "
      ++ shown)
  as_bigint ((if is_empty int then b'0' ∷ [] else int) ++ pad_end frac dec)

-- `isNegative && parsed !== 0n ? -parsed : parsed`: there is one zero.
abbrev signed_as : Bool → ℤ → ℤ
signed_as negative z = if negative then pos 0 -ℤ z else z

unfoldable pub parse_units : Text → Decimals → Result ℤ
parse_units value decimals = do
  dec ← checked_decimals decimals
  let trimmed = trim value
  let shown = json_text value
  require (not (is_empty trimmed || is_sign trimmed)) (codes "Invalid decimal string: " ++ shown)
  require (not (any is_e trimmed))
      (codes "Scientific notation is forbidden for financial amounts: " ++ shown)
  parts ← parts_of shown (split_dot (unsigned trimmed))
  parsed ← combine shown dec parts.0 parts.1
  ok (signed_as (is_negative trimmed) parsed)

pub record FormatUnitsOptions : Type 0 where
  pub max_decimals : Option ℤ
  pub trim_trailing_zeros : Bool

abbrev pub plain : FormatUnitsOptions
plain = record { max_decimals = none; trim_trailing_zeros = false }

unfoldable pub take_units : ℕ → Text → Text
take_units zero s = []
take_units (suc n) [] = []
take_units (suc n) (c ∷ s) = c ∷ take_units n s

unfoldable pub drop_units : ℕ → Text → Text
drop_units zero s = s
drop_units (suc n) [] = []
drop_units (suc n) (c ∷ s) = drop_units n s

-- `text.replace(/0+$/, "")`
unfoldable pub keep_unless_zero : ℕ → Text → Text
keep_unless_zero c [] = if c == b'0' then [] else c ∷ []
keep_unless_zero c (d ∷ s) = c ∷ d ∷ s

unfoldable pub drop_zeros : Text → Text
drop_zeros [] = []
drop_zeros (c ∷ s) = keep_unless_zero c (drop_zeros s)

unfoldable pub cut_to : Option ℤ → Text → Result Text
cut_to none frac = ok frac
cut_to (some (pos n)) frac = ok (take_units n frac)
cut_to (some (negsuc n)) frac = err (error (codes "maxDecimals cannot be negative"))

abbrev with_sign : ℤ → Text → Text
with_sign (pos n) s = s
with_sign (negsuc n) s = b'-' ∷ s

abbrev magnitude : ℤ → ℕ
magnitude (pos n) = n
magnitude (negsuc n) = suc n

abbrev with_fraction : Text → Text → Text
with_fraction int [] = int
with_fraction int (c ∷ frac) = int ++ b'.' ∷ c ∷ frac

unfoldable pub format_fixed : ℤ → ℕ → FormatUnitsOptions → Result Text
format_fixed z zero options = ok (with_sign z (show_ℕ (magnitude z)))
format_fixed z (suc d) options = do
  let str = pad_start (show_ℕ (magnitude z)) (suc d + 1)
  let at = length str - suc d
  frac ← cut_to options.max_decimals (drop_units at str)
  ok (
      with_sign z (
        with_fraction (take_units at str)
          (if options.trim_trailing_zeros then drop_zeros frac else frac)))

-- A quantity given as a bigint. A text is first read by `parse_quantity`.
unfoldable pub format_units : ℤ → Decimals → FormatUnitsOptions → Result Text
format_units z decimals options = do dec ← checked_decimals decimals; format_fixed z dec options

unfoldable pub format_units_text : Text → Decimals → FormatUnitsOptions → Result Text
format_units_text quantity decimals options = do
  dec ← checked_decimals decimals
  z ← parse_quantity quantity
  format_fixed z dec options
