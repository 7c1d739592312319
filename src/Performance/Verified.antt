-- ===== src/Performance/Verified.antt =====
-- packages/core/src/performance.ts: which projections are made.
use capital_os.Shared.{
  Text, ℤ, pos, ◌*ℤ◌, show_ℤ, ◌≡◌, arith, true, false, some, Option-cases, inl, inr,
}
use capital_os.Errors.{ok, bind-ok}
use capital_os.Amounts.{parse_quantity, mul_div, down}
use capital_os.Performance.Projection.{
  Forward30dProjectionParams, Forward30dProjection, verified, ProjectionRateStatus,
  evaluate_forward30d_projection, verified_projection, with_rate, is_mismatch, is_unavailable,
  status_stale, status_disputed, status_missing, status_unverified, project_usd,
}

-- The amount that a principal earns in 30 days at this rate, in base units.
pub record Projects (p : Forward30dProjectionParams) (r : Forward30dProjection) (rate : Text)
    : Type 0 where
  pub principal : ℤ
  pub bps : ℤ
  pub amount : ℤ
  pub read_principal : parse_quantity p.principal_amount ≡ ok principal
  pub read_rate : parse_quantity rate ≡ ok bps
  pub rounds_down : mul_div principal (bps *ℤ pos 30) (pos 3650000) down ≡ ok amount
  pub shown : r.projected30d_amount ≡ some (show_ℤ amount)
  pub used : r.rate_used_bps ≡ some rate

verified-Projects :
    (p : Forward30dProjectionParams) (rate : Text) (r : Forward30dProjection)
    → verified_projection p rate ≡ ok r
    → Projects p r rate
unfolding verified_projection
verified-Projects p rate r h =
    let (principal, read_principal, h1) = bind-ok (parse_quantity p.principal_amount) _ r h in
    let (bps, read_rate, h2) = bind-ok (parse_quantity rate) _ r h1 in
    let (amount, rounds_down, h3) =
      bind-ok (mul_div principal (bps *ℤ pos 30) (pos 3650000) down) _ r h2 in
    let (usd, projected, h4) = bind-ok (project_usd p.principal_usd (bps *ℤ pos 30)) _ r h3 in
    record {
      principal = principal;
      bps = bps;
      amount = amount;
      read_principal = read_principal;
      read_rate = read_rate;
      rounds_down = rounds_down;
      shown = ground arith;
      used = ground arith;
    }

-- A rate that a projection may be made with.
pub record Current (p : Forward30dProjectionParams) : Type 0 where
  pub fresh : p.is_stale ≡ false
  pub status : p.rate_status ≡ verified
  pub undisputed : is_mismatch p.rate_disagreement ≡ false
  pub checked : is_unavailable p.rate_disagreement ≡ false

only_verified :
    (s : ProjectionRateStatus)
    → status_stale s ≡ false
    → status_disputed s ≡ false
    → status_missing s ≡ false
    → status_unverified s ≡ false
    → s ≡ verified
only_verified s h1 h2 h3 h4 = ground arith

rate_lem :
    (p : Forward30dProjectionParams) (rate : Text) (r : Forward30dProjection)
    → with_rate p rate ≡ ok r
    → r.is_projection_available ≡ true
    → (status_missing p.rate_status ≡ false)
      × (status_unverified p.rate_status ≡ false)
      × (is_unavailable p.rate_disagreement ≡ false)
      × (verified_projection p rate ≡ ok r)
unfolding with_rate
rate_lem p rate r h a = (ground arith, ground arith, ground arith, ground arith)

available_lem :
    (p : Forward30dProjectionParams) (r : Forward30dProjection)
    → evaluate_forward30d_projection p ≡ ok r
    → r.is_projection_available ≡ true
    → (p.is_stale ≡ false)
      × (status_stale p.rate_status ≡ false)
      × (status_disputed p.rate_status ≡ false)
      × (is_mismatch p.rate_disagreement ≡ false)
      × (rate : Text) × (p.rate_bps ≡ some rate)
      × (with_rate p rate ≡ ok r)
unfolding evaluate_forward30d_projection
available_lem p r h a = elim (Option-cases p.rate_bps) [
  | inl n ↦ absurd (ground arith)
  | inr (rate, e) ↦ (ground arith, ground arith, ground arith, ground arith, rate, e, ground arith)
]

-- A projection is available only for a rate that is given, fresh, verified and not contradicted by an
-- independent read; it is then the principal times the rate over 30 days of 365, rounded down.
pub available-Current :
    (p : Forward30dProjectionParams) (r : Forward30dProjection)
    → evaluate_forward30d_projection p ≡ ok r
    → r.is_projection_available ≡ true
    → Current p × (rate : Text) × (p.rate_bps ≡ some rate) × Projects p r rate
available-Current p r h a =
    let (fresh, not_stale, not_disputed, undisputed, rate, given, e) = available_lem p r h a in
    let (not_missing, not_unverified, checked, made) = rate_lem p rate r e a in
    (
      record {
        fresh = fresh;
        status = only_verified p.rate_status not_stale not_disputed not_missing not_unverified;
        undisputed = undisputed;
        checked = checked;
      },
      rate,
      given,
      verified-Projects p rate r made,
    )
