-- ===== src/Accounting/Examples.antt =====
-- A supplied position and its receipt in packages/core/src/accounting.ts.
use native.Mathlib.Decide.{dec_le, dec_lt}
use native.Mathlib.Bridge.{IsLe}
use capital_os.Amounts.{mul_div}
use capital_os.Risk.{pow10, times_ten}
use capital_os.Shared.{
  Text, codes, pos, ◌≡◌, refl, Bool, true, false, none, some, [], ◌∷◌, ◌++◌, show_ℤ, add_all,
  big_int, get, includes, is_digits, is_integer, is_space, keep_trimmed, put, read_ℤ, show_ℕ,
  starts_with, text_eq, to_lower, trim, trim_end, trim_start, value, ◌*ℤ◌, ◌+ℤ◌, ◌-ℤ◌, ◌/ℤ◌,
}
use capital_os.Errors.{ok}
use capital_os.Valuation.Readings.{AssetValuation, verified, to_bigint}
use capital_os.Valuation.Portfolio.{
  HoldingStatus, ValuedHoldingItem, by_price, by_valuation, default_decimals_for_asset,
  evaluate_portfolio_valuation, notional, summarize, tally, tally_all, value_holding,
}
use capital_os.Accounting.Ledger.{
  evaluate_portfolio_accounting, account, combined_coverage, net_worth, unvalued_map,
}
use capital_os.Accounting.Entries.{
  CapitalCategory, AccountingEntry, CategoryAccountingSummary, PortfolioAccountingSummary,
  Valuations, aggregate_holdings, aggregate_into, amounts_where, counted, join_quantity,
  summarize_categories, summarize_category,
}
use capital_os.Accounting.Net.{Nets, accounting-Nets}

abbrev stx : Text
stx = b':' ∷ b's' ∷ b't' ∷ b'x' ∷ []

abbrev three : Text
three = b'3' ∷ b'0' ∷ b'0' ∷ b'0' ∷ b'0' ∷ b'0' ∷ b'0' ∷ []

abbrev entry : Bool → AccountingEntry
entry counts = record {
  id = b'i' ∷ [];
  category = CapitalCategory.supplied;
  asset_id = stx;
  quantity = some three;
  market_id = none;
  protocol_key = none;
  is_receipt = true;
  counts_toward_total = counts;
  linked_collateral = none;
  stale = false;
  warnings = [];
}

abbrev priced : AssetValuation
priced = record {
  asset_id = stx;
  price = some (b'2' ∷ []);
  scale = pos 8;
  source_set = [];
  timestamp = [];
  status = verified;
  disagreement = false;
  spread_bps = none;
  warnings = [];
}

abbrev prices : Valuations
prices = (stx, priced) ∷ []

abbrev nothing : CategoryAccountingSummary
nothing = record { total_usd = none; count = 0; items = [] }

abbrev item : ValuedHoldingItem
item = record {
  asset_id = stx;
  quantity = some three;
  decimals = 6;
  usd_value = some (b'6' ∷ []);
  status = HoldingStatus.valued;
  unvalued_reason = none;
  valuation = some priced;
}

abbrev summary : PortfolioAccountingSummary
summary = record {
  gross_assets_usd = some (b'6' ∷ []);
  gross_debt_usd = some (codes "0");
  net_worth_usd = some (b'6' ∷ []);
  coverage = record {
    is_complete = true;
    valued_count = 1;
    unvalued_count = 0;
    total_count = 1;
    coverage_bps = some 10000;
    valued_assets = stx ∷ [];
    unvalued_assets = [];
  };
  by_category = record {
    wallet = nothing;
    supplied = record { total_usd = some (b'6' ∷ []); count = 1; items = item ∷ [] };
    lp = nothing;
    collateral = nothing;
    debt = nothing;
    locked = nothing;
  };
  incomplete = false;
  warnings = (codes "Receipt " ++ stx ++ codes " is held as evidence; not double-counted.") ∷ [];
}

evaluated : evaluate_portfolio_accounting (entry false ∷ entry true ∷ []) prices ≡ ok summary
unfolding evaluate_portfolio_accounting to_bigint big_int evaluate_portfolio_valuation value_holding
    by_valuation text_eq show_ℤ ◌+ℤ◌ show_ℕ pow10 mul_div times_ten default_decimals_for_asset tally
    ◌/ℤ◌ ◌*ℤ◌ account aggregate_holdings aggregate_into amounts_where combined_coverage counted
    join_quantity net_worth summarize_categories summarize_category unvalued_map is_digits
    is_integer read_ℤ value ◌-ℤ◌ add_all get put codes includes is_space keep_trimmed starts_with
    to_lower trim trim_end trim_start by_price notional summarize tally_all IsLe dec_le dec_lt
evaluated = refl

accounting-Nets_example : Nets (entry false ∷ entry true ∷ []) summary
accounting-Nets_example = accounting-Nets (entry false ∷ entry true ∷ []) prices summary evaluated
