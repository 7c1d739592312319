-- ===== src/Performance/Examples.antt =====
-- A vault position at work in packages/core/src/performance.ts.
use capital_os.Amounts.{parse_quantity, mul_div}
use capital_os.Shared.{
  ℕ, ◌≤◌, Text, ℤ, pos, ◌≡◌, refl, arith, true, false, Option, none, some, List, [], ◌∷◌, show_ℤ,
  is_integer, read_ℤ, trim, ◌+ℤ◌, ◌-ℤ◌, show_ℕ, ◌*ℤ◌, ◌/ℤ◌, inr,
}
use capital_os.Errors.{ok}
use capital_os.Performance.Shares.{underlying_from_shares, shares_from_underlying}
use capital_os.Performance.Attribution.{
  AttributeYieldParams, Figures, measure, CashFlowEvent, deposit, add_flow, excess, figures,
  realized_gains, appreciation,
}
use capital_os.Performance.Projection.{
  Forward30dProjectionParams, Forward30dProjection, verified, evaluate_forward30d_projection,
}
use capital_os.Performance.Chart.{
  CanonicalObservation, CanonicalPerformancePoint, PerformanceChartSeries,
  build_performance_chart_series,
}
use capital_os.Performance.Rounding.{rate_of, text_of, shares_never_gain}
use capital_os.Performance.Yield.{Covers, rebalanced, accounted, measure-Covers, earned_not_balance}
use capital_os.Performance.Verified.{Current, Projects, available-Current}

shares_never_gain_example :
    (u : ℕ) × (back : ℕ) × (underlying_from_shares (text_of 10) (rate_of 3 2) ≡ ok (text_of u))
    × (shares_from_underlying (text_of u) (rate_of 3 2) ≡ ok (text_of back))
    × (back ≤ 10)
shares_never_gain_example = shares_never_gain 10 3 2 (omega arith) (omega arith)

abbrev flow : CashFlowEvent
flow = record {
  id = [];
  kind = deposit;
  asset_id = [];
  amount = b'4' ∷ [];
  timestamp = [];
  block_height = none;
  block_hash = none;
  txid = none;
}

abbrev position : Text → Text → AttributeYieldParams
position current start = record {
  asset_id = [];
  current_underlying_value = current;
  current_shares = none;
  current_share_rate = none;
  initial_share_rate = none;
  starting_underlying_value = start;
  cash_flows = flow ∷ [];
  unclaimed_rewards = [];
  oracle_price = none;
}

-- 9 stand at the end, of which 4 were deposited: 5 are of unknown origin, and nothing is earned.
abbrev measured : ℤ → ℤ → ℤ → Figures
measured current start inflow = record {
  totals = record { deposits = pos 4; withdrawals = pos 0; fees = pos 0; claimed_rewards = pos 0 };
  current = current;
  start = start;
  appreciation = pos 0;
  realized = pos 0;
  inflow = inflow;
  earned = pos 0;
}

nine_measured : measure (position (b'9' ∷ []) (b'0' ∷ [])) ≡ ok (measured (pos 9) (pos 0) (pos 5))
unfolding measure parse_quantity is_integer trim figures add_flow read_ℤ realized_gains excess ◌+ℤ◌
    ◌-ℤ◌
nine_measured = refl

four_measured : measure (position (b'4' ∷ []) (b'1' ∷ [])) ≡ ok (measured (pos 4) (pos 1) (pos 0))
unfolding measure parse_quantity is_integer trim figures add_flow read_ℤ realized_gains excess ◌+ℤ◌
    ◌-ℤ◌
four_measured = refl

measure-Covers_example : Covers (pos 9) (accounted (measured (pos 9) (pos 0) (pos 5))) (pos 5)
measure-Covers_example =
    measure-Covers (position (b'9' ∷ []) (b'0' ∷ [])) (measured (pos 9) (pos 0) (pos 5))
      nine_measured

-- The rate stands still.
abbrev steady : AttributeYieldParams
steady = record (position (b'9' ∷ []) (b'0' ∷ [])) {
  current_share_rate = some (rate_of 3 2);
  initial_share_rate = some (rate_of 3 2);
}

still_measured : measure steady ≡ ok (measured (pos 9) (pos 0) (pos 5))
unfolding measure parse_quantity is_integer trim figures add_flow read_ℤ realized_gains excess ◌+ℤ◌
    ◌-ℤ◌
still_measured = refl

more_shares_measured :
    measure (rebalanced steady (b'4' ∷ []) (b'1' ∷ []) (some (b'8' ∷ [])))
    ≡ ok (measured (pos 4) (pos 1) (pos 0))
unfolding measure parse_quantity is_integer trim figures add_flow read_ℤ realized_gains excess ◌+ℤ◌
    ◌-ℤ◌ appreciation underlying_from_shares show_ℤ show_ℕ mul_div ◌/ℤ◌ ◌*ℤ◌
more_shares_measured = refl

earned_not_balance_example :
    (measured (pos 4) (pos 1) (pos 0)).earned ≡ (measured (pos 9) (pos 0) (pos 5)).earned
earned_not_balance_example =
    earned_not_balance steady (b'4' ∷ []) (b'1' ∷ []) (some (b'8' ∷ []))
      (measured (pos 9) (pos 0) (pos 5)) (measured (pos 4) (pos 1) (pos 0))
      (inr (rate_of 3 2, refl, refl)) still_measured more_shares_measured

abbrev rate : Text
rate = b'5' ∷ b'0' ∷ b'0' ∷ []

abbrev outlook : Forward30dProjectionParams
outlook = record {
  principal_amount = b'9' ∷ b'0' ∷ b'0' ∷ [];
  principal_usd = none;
  rate_bps = some rate;
  rate_status = verified;
  rate_disagreement = none;
  is_stale = false;
}

-- 900 at 5 % over 30 days: 3.69…, rounded down.
abbrev projection : Forward30dProjection
projection = record {
  is_projection_available = true;
  projected30d_amount = some (b'3' ∷ []);
  projected30d_usd = none;
  rate_used_bps = some rate;
  rate_status = verified;
  unavailable_reason = none;
}

projected : evaluate_forward30d_projection outlook ≡ ok projection
unfolding evaluate_forward30d_projection parse_quantity is_integer trim mul_div show_ℤ ◌/ℤ◌ ◌*ℤ◌
    read_ℤ show_ℕ
projected = refl

available-Current_example :
    Current outlook
    × (rate : Text) × (outlook.rate_bps ≡ some rate)
    × Projects outlook projection rate
available-Current_example = available-Current outlook projection projected refl

abbrev seen : Text → Text → CanonicalObservation
seen time value = record {
  observed_at = time;
  block_height = none;
  block_hash = none;
  source = [];
  share_rate = none;
  position_shares = none;
  underlying_value = some value;
  accrued_rewards = none;
}

-- Times that are one digit.
abbrev digit_date : Text → Option ℤ
digit_date [] = none
digit_date (c ∷ s) = some (pos c)

abbrev observations : List CanonicalObservation
observations =
    seen (b'2' ∷ []) (b'9' ∷ []) ∷ seen (b'1' ∷ []) (b'7' ∷ []) ∷ seen [] (b'1' ∷ []) ∷ []

abbrev point : Text → Text → Text → CanonicalPerformancePoint
point time value yield = record {
  timestamp = time;
  block_height = none;
  block_hash = none;
  source = [];
  share_rate = none;
  position_shares = none;
  underlying_value = value;
  cumulative_yield = yield;
}

abbrev series : PerformanceChartSeries
series = record {
  has_chart = true;
  points =
      point (b'1' ∷ []) (b'7' ∷ []) (b'2' ∷ []) ∷ point (b'2' ∷ []) (b'9' ∷ []) (b'4' ∷ []) ∷ [];
  observation_count = 2;
  reason = none;
}

charted : build_performance_chart_series digit_date observations (b'5' ∷ []) ≡ ok series
unfolding build_performance_chart_series trim parse_quantity is_integer show_ℤ read_ℤ excess show_ℕ
    ◌-ℤ◌
charted = refl
