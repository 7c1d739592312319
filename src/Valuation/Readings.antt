-- ===== src/Valuation/Readings.antt =====
-- packages/core/src/valuation.ts: price readings, the ones that are valid, their prices on one scale, the spread
-- and the median. A `Date` is its time in milliseconds.
use capital_os.Shared.{
  ◌/◌, Text, codes, ℤ, pos, ◌-ℤ◌, ◌*ℤ◌, ◌/ℤ◌, ltb_ℤ, leb_ℤ, big_int, length, get_elem?, Bool, true,
  false, Option, none, some, List, [], ◌∷◌, ◌++◌, if◌then◌else◌,
}
use capital_os.Errors.{Result, ok, err, error, ◌>>=◌}
use capital_os.Amounts.{mul_div, up}
use capital_os.Risk.{bps, pow10}

abbrev pub default_max_quorum_spread_bps : ℤ
default_max_quorum_spread_bps = pos 300

abbrev pub default_price_scale : ℤ
default_price_scale = pos 8

pub data ValuationStatus : Type 0 where
  verified disputed stale unsupported : ValuationStatus

-- `bigint | string | null`
pub data Price : Type 0 where
  absent : Price
  bigint : ℤ → Price
  text : Text → Price

-- `Date | string`
pub data Stamp : Type 0 where
  date : ℤ → Stamp
  text : Text → Stamp

pub record PriceReading : Type 0 where
  pub source : Text
  pub price : Price
  pub scale : ℤ
  pub published_at : Option Stamp
  pub observed_at : Stamp
  pub stale : Bool
  pub warnings : List Text

pub record AssetValuation : Type 0 where
  pub asset_id : Text
  pub price : Option Text
  pub scale : ℤ
  pub source_set : List Text
  pub timestamp : Text
  pub status : ValuationStatus
  pub disagreement : Bool
  pub spread_bps : Option ℤ
  pub warnings : List Text

abbrev syntax_error : Text → Result ℤ
syntax_error s = err (error (codes "Cannot convert " ++ s ++ codes " to a BigInt"))

-- `BigInt(text)`, which throws on other text.
unfoldable pub to_bigint : Text → Result ℤ
to_bigint s = elim (big_int s) [ none ↦ syntax_error s | some z ↦ ok z ]

-- The filter's test: a reading with a positive price that is not stale.
unfoldable pub is_valid : PriceReading → Result Bool
unfolding to_bigint
is_valid r = if r.stale then ok false else elim r.price [
  | absent ↦ ok false
  | bigint z ↦ ok (ltb_ℤ (pos 0) z)
  | text s ↦ to_bigint s >>= λ z. ok (ltb_ℤ (pos 0) z)
]

abbrev pub keep_if : PriceReading → List PriceReading → Bool → List PriceReading
keep_if r rs true = r ∷ rs
keep_if r rs false = rs

unfoldable pub valid_readings : List PriceReading → Result (List PriceReading)
unfolding is_valid
valid_readings [] = ok []
valid_readings (r ∷ rs) = do valid ← is_valid r; rest ← valid_readings rs; ok (keep_if r rest valid)

-- The price of a valid reading.
unfoldable pub raw_price : Price → Result ℤ
unfolding to_bigint
raw_price absent = ok (pos 0)
raw_price (bigint z) = ok z
raw_price (text s) = to_bigint s

-- A price on the scale of 8 decimals.
unfoldable pub normalize : ℤ → ℤ → Result ℤ
normalize scale raw =
    let diff = default_price_scale -ℤ scale in
    if leb_ℤ (pos 0) diff
    then (pow10 diff >>= λ unit. ok (raw *ℤ unit))
    else (pow10 (pos 0 -ℤ diff) >>= λ unit. ok (raw /ℤ unit))

unfoldable pub normalized_prices : List PriceReading → Result (List ℤ)
unfolding raw_price normalize
normalized_prices [] = ok []
normalized_prices (r ∷ rs) = do
  raw ← raw_price r.price
  price ← normalize r.scale raw
  rest ← normalized_prices rs
  ok (price ∷ rest)

-- The loops for the least and the greatest price.
unfoldable pub least : ℤ → List ℤ → ℤ
least m [] = m
least m (p ∷ ps) = least (if ltb_ℤ p m then p else m) ps

unfoldable pub greatest : ℤ → List ℤ → ℤ
greatest m [] = m
greatest m (p ∷ ps) = greatest (if ltb_ℤ m p then p else m) ps

abbrev pub first_price : List ℤ → ℤ
first_price [] = pos 0
first_price (p ∷ ps) = p

unfoldable pub spread_of : List ℤ → Result ℤ
unfolding least greatest
spread_of prices =
    let low = least (first_price prices) prices in
    let high = greatest (first_price prices) prices in
    if ltb_ℤ (pos 0) low then mul_div (high -ℤ low) bps low up else ok (pos 0)

-- `array.sort`, on prices: it puts them in rising order, and equal ones are alike.
unfoldable pub insert_price : ℤ → List ℤ → List ℤ
insert_price p [] = p ∷ []
insert_price p (q ∷ qs) = if ltb_ℤ q p then q ∷ insert_price p qs else p ∷ q ∷ qs

unfoldable pub sort_prices : List ℤ → List ℤ
unfolding insert_price
sort_prices [] = []
sort_prices (p ∷ ps) = insert_price p (sort_prices ps)

abbrev pub or_zero : Option ℤ → ℤ
or_zero none = pos 0
or_zero (some p) = p

-- The middle one of the sorted prices.
unfoldable pub median : List ℤ → ℤ
unfolding sort_prices
median prices = let sorted = sort_prices prices in or_zero (get_elem? sorted (length sorted / 2))
