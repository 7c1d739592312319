-- ===== src/Accounting/Entries.antt =====
-- packages/core/src/accounting.ts: the categories and the entries of a portfolio, and the sums of each category.
-- The valuations are the map that `evaluatePortfolioValuation` looks up.
use capital_os.Shared.{
  ℕ, Text, codes, text_eq, to_lower, pos, ◌+ℤ◌, show_ℤ, get, put, length, filter, is_empty, Bool,
  true, false, not, ◌||◌, Option, none, some, List, [], ◌∷◌, ◌++◌, map, if◌then◌else◌,
}
use capital_os.Errors.{Result, ok, ◌>>=◌}
use capital_os.Valuation.Readings.{AssetValuation, to_bigint}
use capital_os.Valuation.Portfolio.{
  Holding, ValuedHoldingItem, PortfolioCoverage, evaluate_portfolio_valuation,
}

pub data CapitalCategory : Type 0 where
  wallet supplied lp collateral debt locked : CapitalCategory

abbrev pub category_eq : CapitalCategory → CapitalCategory → Bool
category_eq wallet wallet = true
category_eq supplied supplied = true
category_eq lp lp = true
category_eq collateral collateral = true
category_eq debt debt = true
category_eq locked locked = true
category_eq _ _ = false

abbrev is_word : Text → List Text → Bool
is_word s [] = false
is_word s (w ∷ words) = text_eq s w || is_word s words

unfoldable pub normalize_capital_category : Text → Option CapitalCategory
unfolding codes text_eq to_lower
normalize_capital_category kind =
    let lower = to_lower kind in
    if is_word lower (codes "wallet" ∷ [])
    then some wallet
    else if is_word lower (codes "supplied" ∷ codes "supply" ∷ [])
    then some supplied
    else if is_word lower (codes "lp" ∷ codes "liquidity" ∷ codes "pool" ∷ [])
    then some lp
    else if is_word lower (codes "collateral" ∷ [])
    then some collateral
    else if is_word lower (codes "debt" ∷ codes "borrow" ∷ [])
    then some debt
    else if is_word lower (codes "locked" ∷ codes "staked" ∷ codes "stake" ∷ [])
    then some locked
    else none

pub record LinkedCollateralRef : Type 0 where
  pub market_id : Text
  pub asset_id : Text
  pub protocol_key : Option Text
  pub quantity : Option Text

pub record AccountingEntry : Type 0 where
  pub id : Text
  pub category : CapitalCategory
  pub asset_id : Text
  pub quantity : Option Text
  pub market_id : Option Text
  pub protocol_key : Option Text
  pub is_receipt : Bool
  pub counts_toward_total : Bool
  pub linked_collateral : Option LinkedCollateralRef
  pub stale : Bool
  pub warnings : List Text

pub record CategoryAccountingSummary : Type 0 where
  pub total_usd : Option Text
  pub count : ℕ
  pub items : List ValuedHoldingItem

pub record ByCategory : Type 0 where
  pub wallet : CategoryAccountingSummary
  pub supplied : CategoryAccountingSummary
  pub lp : CategoryAccountingSummary
  pub collateral : CategoryAccountingSummary
  pub debt : CategoryAccountingSummary
  pub locked : CategoryAccountingSummary

pub record PortfolioAccountingSummary : Type 0 where
  pub gross_assets_usd : Option Text
  pub gross_debt_usd : Option Text
  pub net_worth_usd : Option Text
  pub coverage : PortfolioCoverage
  pub by_category : ByCategory
  pub incomplete : Bool
  pub warnings : List Text

abbrev pub Valuations : Type 0
Valuations = List (Text × AssetValuation)

-- `{ assetId, quantity }`
abbrev pub Amount : Type 0
Amount = Text × Option Text

-- The entries that count; the loop puts each of them in the list of its category, and in the one of the assets or
-- the debts.
unfoldable pub counted : List AccountingEntry → List AccountingEntry
counted entries = filter (λ (e : AccountingEntry). e.counts_toward_total) entries

unfoldable pub amounts_where : (CapitalCategory → Bool) → List AccountingEntry → List Amount
amounts_where test entries =
    map (λ (e : AccountingEntry). (e.asset_id, e.quantity))
      (filter (λ (e : AccountingEntry). test e.category) entries)

abbrev pub no_quantity : AccountingEntry → Bool
no_quantity e = elim e.quantity [ none ↦ true | some q ↦ false ]

abbrev pub missing_quantity : List AccountingEntry → Bool
missing_quantity entries = not (is_empty (filter no_quantity entries))

abbrev entry_warnings : AccountingEntry → List Text
entry_warnings e =
    if not e.counts_toward_total
    then (if e.is_receipt
        then (codes "Receipt " ++ e.asset_id ++ codes " is held as evidence; not double-counted.")
          ∷ []
        else [])
    else if no_quantity e
    then (codes "Entry "
        ++ e.id
        ++ codes " ("
        ++ e.asset_id
        ++ codes ") has null quantity; zero is not assumed.")
      ∷ []
    else []

abbrev pub all_warnings : List AccountingEntry → List Text
all_warnings [] = []
all_warnings (e ∷ entries) = entry_warnings e ++ all_warnings entries

-- The sum of what is there and one more; unknown when either is.
unfoldable pub join_quantity : Option (Option Text) → Option Text → Result (Option Text)
join_quantity (some none) quantity = ok none
join_quantity _ none = ok none
join_quantity none (some quantity) = to_bigint quantity >>= λ q. ok (some (show_ℤ (pos 0 +ℤ q)))
join_quantity (some (some current)) (some quantity) = do
  prev ← to_bigint current
  q ← to_bigint quantity
  ok (some (show_ℤ (prev +ℤ q)))

unfoldable pub aggregate_into : List Amount → List Amount → Result (List Amount)
unfolding join_quantity get put
aggregate_into m [] = ok m
aggregate_into m ((asset, quantity) ∷ rest) =
    join_quantity (get asset m) quantity >>= λ joined. aggregate_into (put asset joined m) rest

abbrev holding_of : Amount → Holding
holding_of (asset, quantity) = record { asset_id = asset; quantity = quantity; decimals = none }

unfoldable pub aggregate_holdings : List Amount → Result (List Holding)
unfolding aggregate_into
aggregate_holdings amounts = aggregate_into [] amounts >>= λ m. ok (map holding_of m)

unfoldable pub summarize_category :
    Valuations → List AccountingEntry → CapitalCategory → Result CategoryAccountingSummary
unfolding aggregate_holdings amounts_where
summarize_category valuations entries category = do
  let amounts = amounts_where (category_eq category) entries
  holdings ← aggregate_holdings amounts
  value ← evaluate_portfolio_valuation holdings valuations
  ok (record { total_usd = value.total_usd; count = length amounts; items = value.items })

unfoldable pub summarize_categories : Valuations → List AccountingEntry → Result ByCategory
unfolding summarize_category
summarize_categories valuations entries = do
  w ← summarize_category valuations entries wallet
  s ← summarize_category valuations entries supplied
  l ← summarize_category valuations entries lp
  c ← summarize_category valuations entries collateral
  d ← summarize_category valuations entries debt
  k ← summarize_category valuations entries locked
  ok (record { wallet = w; supplied = s; lp = l; collateral = c; debt = d; locked = k })
