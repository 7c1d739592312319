-- ===== src/RiskReport/Safety.antt =====
-- packages/core/src/riskReport.ts: what the reports say of a loan, whatever the prices were.
use capital_os.Shared.{
  ℕ, ◌+◌, ◌*◌, ◌<◌, Text, ℤ, pos, leb_ℤ, ◌<ℤ◌, ◌≡◌, refl, sym, arith, Bool, true, false, not, ◌&&◌,
  ◌||◌, Option, All, Bool-cases, inl, inr, ◌≤ℤ◌, ◌-◌, ◌≤◌,
}
use capital_os.Errors.{ok, same_ok}
use capital_os.Risk.{
  AssetRiskSide, RiskParams, Health, OracleQuote, oracle_fresh, compute_health, fresh_health,
  assess,
}
use capital_os.Risk.Bounds.{
  side, limits, ltv, factor, collateral_value, debt_value, max_debt, fresh_health_lem,
}
use capital_os.Risk.Liquidation.{liquidatable_of_factor, debt_of_liquidatable}
use capital_os.RiskReport.Health.{
  interpret_granite_health, is_liquidatable, ProtectiveAction, granite_protective_actions,
  Liquidity, unasked, unknown, known, liquidity_ok, borrow,
}

module _ (parse_date : Text → Option ℤ) where
  untrusted :
      (collateral debt : AssetRiskSide) (params : RiskParams) (now : ℤ) (h : Health)
      → (collateral.oracle.disagreement
          || debt.oracle.disagreement
          || not (oracle_fresh parse_date collateral.oracle now)
          || not (oracle_fresh parse_date debt.oracle now))
        ≡ true
      → compute_health parse_date collateral debt params now ≡ ok h
      → h.stale ≡ true
  unfolding compute_health
  untrusted collateral debt params now h bad e = ground arith

  -- When a quote carries the disagreement flag or is not fresh, the health that is computed makes every report fail
  -- closed: no action is allowed, whatever the vault holds and whatever is asked for, and the loan counts neither
  -- as liquidatable nor as within the cap.
  pub untrusted_blocks :
      (collateral debt : AssetRiskSide) (params : RiskParams) (now : ℤ) (h : Health) (paused : Bool)
      (liquidity : Liquidity) (requested : ℤ)
      → (collateral.oracle.disagreement
          || debt.oracle.disagreement
          || not (oracle_fresh parse_date collateral.oracle now)
          || not (oracle_fresh parse_date debt.oracle now))
        ≡ true
      → compute_health parse_date collateral debt params now ≡ ok h
      → All
          (λ (a : ProtectiveAction). a.allowed ≡ false)
          (granite_protective_actions h paused liquidity requested).actions
        × ((interpret_granite_health h params).liquidatable ≡ false)
        × ((interpret_granite_health h params).within_borrow_cap ≡ false)
  unfolding granite_protective_actions interpret_granite_health is_liquidatable
  untrusted_blocks collateral debt params now h paused liquidity requested bad e =
      let stale : h.stale ≡ true = untrusted collateral debt params now h bad e in
      rw stale ((refl, (refl, (refl, (refl, tt)))), refl, refl)

-- The vault's liquidity does not stand in the way: it was not asked for, or it is known and nothing is borrowed
-- or it covers what is.
pub data Enough (requested : ℤ) : Liquidity → Type 0 where
  not_asked : Enough requested unasked
  nothing_borrowed : (available : ℤ) → requested ≤ℤ pos 0 → Enough requested (known available)
  covered : (available : ℤ) → requested ≤ℤ available → Enough requested (known available)

enough :
    (liquidity : Liquidity) (requested : ℤ)
    → liquidity_ok liquidity requested ≡ true
    → Enough requested liquidity
unfolding liquidity_ok
enough unasked requested h = not_asked
enough unknown requested h = absurd (ground arith)
enough (known available) requested h = elim (Bool-cases (leb_ℤ requested (pos 0))) [
  | inl e ↦ nothing_borrowed available (ground arith)
  | inr e ↦ covered available (ground arith)
]

-- What is required of the health, the vault and its liquidity before a borrow is offered.
pub record MayBorrow (h : Health) (paused : Bool) (liquidity : Liquidity) (requested : ℤ)
    : Type 0 where
  pub fresh : h.stale ≡ false
  pub healthy : h.healthy ≡ true
  pub running : paused ≡ false
  pub enough : Enough requested liquidity

may_borrow :
    (h : Health) (paused : Bool) (liquidity : Liquidity) (requested : ℤ)
    → (not h.stale && h.healthy && not paused && liquidity_ok liquidity requested) ≡ true
    → MayBorrow h paused liquidity requested
may_borrow h paused liquidity requested e = record {
  fresh = ground arith;
  healthy = ground arith;
  running = ground arith;
  enough = enough liquidity requested (ground arith);
}

-- A report that allows a borrow does so on a fresh and healthy position, with the vault open and its liquidity,
-- where it is asked for, known and covering the request; it then allows every other action too.
pub borrow_allowed :
    (h : Health) (paused : Bool) (liquidity : Liquidity) (requested : ℤ)
    → All
        (λ (a : ProtectiveAction).
          a.action ≡ borrow
          → a.allowed ≡ true
          → MayBorrow h paused liquidity requested
            × All
                (λ (other : ProtectiveAction). other.allowed ≡ true)
                (granite_protective_actions h paused liquidity requested).actions)
        (granite_protective_actions h paused liquidity requested).actions
unfolding granite_protective_actions
borrow_allowed h paused liquidity requested = (
  (λ n e. absurd (ground arith)),
  (
    (λ n e. (
      may_borrow h paused liquidity requested (ground arith),
      (ground arith, (ground arith, (ground arith, (ground arith, tt)))),
    )),
    ((λ n e. absurd (ground arith)), ((λ n e. absurd (ground arith)), tt)),
  ),
)

reaches :
    (b l u c d x f m : ℕ)
    → 0 < d
    → let h = assess (limits b l u) (pos c) (pos d) (pos x) (pos f) (pos m) in
      (is_liquidatable h (limits b l u) ≡ true → l ≤ x)
      × (l ≤ x → is_liquidatable h (limits b l u) ≡ true)
unfolding assess is_liquidatable
reaches b l u c d x f m hd = ((λ h. ground arith), (λ h. ground arith))

below :
    (b l u c d x f m : ℕ)
    → (assess (limits b l u) (pos c) (pos d) (pos x) (pos f) (pos m)).health_factor_bps <ℤ pos 10000
    → f < 10000
unfolding assess
below b l u c d x f m h = omega arith

liquidatable_of :
    (h : Health) (params : RiskParams)
    → (interpret_granite_health h params).liquidatable ≡ is_liquidatable h params
unfolding interpret_granite_health
liquidatable_of h params = refl

-- On fresh prices, amounts and limits that are not negative, and a debt and a collateral of some value: a loan
-- whose health factor is below 1.0 is reported as liquidatable, and one that is reported so owes more than the
-- threshold allows on a loan-to-value that is smaller by one basis point.
pub liquidatable_by_factor :
    (ca cd cp da dd dp b l u : ℕ) (o o' : OracleQuote) (h : Health)
    → 0 < dp
    → 0 < collateral_value ca cd cp
    → 0 < debt_value da dd dp
    → fresh_health (side ca cd cp o) (side da dd dp o') (limits b l u) ≡ ok h
    → (h.health_factor_bps <ℤ pos 10000
        → (interpret_granite_health h (limits b l u)).liquidatable ≡ true)
      × ((interpret_granite_health h (limits b l u)).liquidatable ≡ true
          → l * collateral_value ca cd cp < debt_value da dd dp * 10000 + collateral_value ca cd cp)
liquidatable_by_factor ca cd cp da dd dp b l u o o' h hp hc hd e =
    let c : ℕ = collateral_value ca cd cp in
    let d : ℕ = debt_value da dd dp in
    let m : ℕ = max_debt (b - u) c dd dp in
    let h' : Health =
      assess (limits b l u) (pos c) (pos d) (pos (ltv c d)) (pos (factor l c d)) (pos m) in
    let same : h' ≡ h = same_ok _ _ _ (fresh_health_lem ca cd cp da dd dp b l u o o' hp) e in
    let (only, if_reached) = reaches b l u c d (ltv c d) (factor l c d) m hd in
    rw (sym same, liquidatable_of h' (limits b l u))
      (
        (λ low.
            if_reached (
              liquidatable_of_factor l c d hc hd (below b l u c d (ltv c d) (factor l c d) m low))),
        (λ hit. debt_of_liquidatable l c d hc hd (only hit)),
      )
