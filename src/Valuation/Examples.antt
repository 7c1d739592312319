-- ===== src/Valuation/Examples.antt =====
-- Three readings and a portfolio at work in packages/core/src/valuation.ts.
use native.Mathlib.Decide.{dec_le, dec_lt}
use native.Mathlib.Bridge.{IsLe}
use capital_os.Amounts.{mul_div}
use capital_os.Risk.{pow10, times_ten}
use capital_os.Shared.{
  ℕ, Text, codes, ℤ, pos, ◌≡◌, refl, Bool, true, false, none, some, List, [], ◌∷◌, show_ℤ, add_all,
  big_int, is_digits, is_integer, is_space, keep_trimmed, read_ℤ, show_ℕ, text_eq, text_lt, trim,
  trim_end, trim_start, value, ◌*ℤ◌, ◌+ℤ◌, ◌-ℤ◌, ◌/ℤ◌, get, map,
}
use capital_os.Errors.{ok}
use capital_os.Valuation.Quorum.{reconcile_price_quorum, judge, latest, verdict}
use capital_os.Valuation.Readings.{
  PriceReading, Price, Stamp, AssetValuation, verified, greatest, insert_price, is_valid, least,
  median, normalize, normalized_prices, raw_price, sort_prices, spread_of, to_bigint,
  valid_readings,
}
use capital_os.Valuation.Portfolio.{
  Holding, HoldingStatus, PortfolioValuation, evaluate_portfolio_valuation, by_valuation, tally,
  value_holding,
}
use capital_os.Valuation.Totals.{Accounts, portfolio-Accounts}
use capital_os.Valuation.Verdict.{Supported, quorum-Supported}

abbrev reading : ℕ → ℕ → Bool → PriceReading
reading source price stale = record {
  source = source ∷ [];
  price = Price.bigint (pos price);
  scale = pos 8;
  published_at = none;
  observed_at = Stamp.text (b'5' ∷ []);
  stale = stale;
  warnings = [];
}

-- Sources that agree to 1 %, and a stale one.
abbrev readings : List PriceReading
readings = reading b'a' 1000 false ∷ reading b'b' 1010 false ∷ reading b'c' 9000 true ∷ []

abbrev no_text : ℤ → Text
no_text t = []

abbrev priced : AssetValuation
priced = record {
  asset_id = b's' ∷ [];
  price = some (b'1' ∷ b'0' ∷ b'1' ∷ b'0' ∷ []);
  scale = pos 8;
  source_set = (b'a' ∷ []) ∷ (b'b' ∷ []) ∷ (b'c' ∷ []) ∷ [];
  timestamp = b'5' ∷ [];
  status = verified;
  disagreement = false;
  spread_bps = some (pos 100);
  warnings = [];
}

agreed : reconcile_price_quorum no_text no_text (pos 0) (pos 300) (b's' ∷ []) readings ≡ ok priced
unfolding reconcile_price_quorum valid_readings normalized_prices ◌-ℤ◌ pow10 spread_of ◌*ℤ◌
    times_ten mul_div verdict add_all text_eq ◌/ℤ◌ ◌+ℤ◌ show_ℤ latest median text_lt show_ℕ big_int
    is_digits is_integer read_ℤ value codes is_space keep_trimmed trim trim_end trim_start greatest
    insert_price is_valid judge least normalize raw_price sort_prices to_bigint IsLe dec_le dec_lt
agreed = refl

quorum-Supported_example : Supported (pos 300) readings priced
quorum-Supported_example =
    quorum-Supported no_text no_text (pos 0) (pos 300) (b's' ∷ []) readings priced
      (b'1' ∷ b'0' ∷ b'1' ∷ b'0' ∷ []) agreed refl

abbrev holdings : List Holding
holdings =
    record { asset_id = b's' ∷ []; quantity = some (b'3' ∷ []); decimals = some 0 }
    ∷ record { asset_id = b'u' ∷ []; quantity = none; decimals = some 0 }
    ∷ []

abbrev portfolio : PortfolioValuation
portfolio = record {
  total_usd = some (b'3' ∷ b'0' ∷ b'3' ∷ b'0' ∷ []);
  coverage = record {
    is_complete = false;
    valued_count = 1;
    unvalued_count = 1;
    total_count = 2;
    coverage_bps = some 5000;
    valued_assets = (b's' ∷ []) ∷ [];
    unvalued_assets =
        record {
          asset_id = b'u' ∷ [];
          reason = codes "Holding quantity is unknown or missing";
          quantity = none;
        }
        ∷ [];
  };
  items =
      record {
        asset_id = b's' ∷ [];
        quantity = some (b'3' ∷ []);
        decimals = 0;
        usd_value = some (b'3' ∷ b'0' ∷ b'3' ∷ b'0' ∷ []);
        status = HoldingStatus.valued;
        unvalued_reason = none;
        valuation = some priced;
      }
      ∷ record {
        asset_id = b'u' ∷ [];
        quantity = none;
        decimals = 0;
        usd_value = none;
        status = HoldingStatus.missing_quantity;
        unvalued_reason = some (codes "Holding quantity is unknown or missing");
        valuation = none;
      }
      ∷ [];
  warnings = [];
}

evaluated : evaluate_portfolio_valuation holdings ((b's' ∷ [], priced) ∷ []) ≡ ok portfolio
unfolding evaluate_portfolio_valuation value_holding by_valuation get text_eq to_bigint big_int
    pow10 mul_div times_ten tally show_ℤ ◌+ℤ◌ ◌/ℤ◌ ◌*ℤ◌ show_ℕ
evaluated = refl

portfolio-Accounts_example : Accounts holdings portfolio
portfolio-Accounts_example =
    portfolio-Accounts holdings ((b's' ∷ [], priced) ∷ []) portfolio evaluated

-- A reading that comes to 0 on the common scale hides any disagreement: the spread counts as 0.
abbrev apart : List PriceReading
apart = record (reading b'a' 1 false) { scale = pos 18 } ∷ reading b'b' 5000 false ∷ []

abbrev passed : AssetValuation
passed = record {
  asset_id = b's' ∷ [];
  price = some (b'5' ∷ b'0' ∷ b'0' ∷ b'0' ∷ []);
  scale = pos 8;
  source_set = (b'a' ∷ []) ∷ (b'b' ∷ []) ∷ [];
  timestamp = b'5' ∷ [];
  status = verified;
  disagreement = false;
  spread_bps = some (pos 0);
  warnings = [];
}

zero_hides : reconcile_price_quorum no_text no_text (pos 0) (pos 300) (b's' ∷ []) apart ≡ ok passed
unfolding reconcile_price_quorum valid_readings normalized_prices ◌-ℤ◌ pow10 spread_of ◌*ℤ◌
    times_ten ◌/ℤ◌ verdict add_all text_eq show_ℤ latest median text_lt show_ℕ
zero_hides = refl

spread_ok : spread_of (map pos (1000 ∷ 1010 ∷ [])) ≡ ok (pos 100)
unfolding spread_of mul_div ◌/ℤ◌ ◌-ℤ◌ ◌+ℤ◌ ◌*ℤ◌
spread_ok = refl
