-- ===== src/Performance/Yield.antt =====
-- packages/core/src/performance.ts: what the attribution counts as earned.
use capital_os.Performance.Shares.{ShareRate}
use capital_os.Shared.{
  add_zero, Text, ℤ, pos, ◌+ℤ◌, ◌-ℤ◌, ◌≤ℤ◌, ltb_ℤ, ◌≡◌, refl, sym, ap, ◌∙◌, arith, ◌⊎◌, inl, inr,
  Bool-cases, Option-cases, Option, some, true, false, is_empty,
}
use capital_os.Errors.{ok, bind-ok, same_ok, ok_inj}
use capital_os.Amounts.{parse_quantity}
use capital_os.Performance.Attribution.{
  AttributeYieldParams, Totals, no_totals, Figures, figures, measure, sum_flows, share_appreciation,
  cost_basis_of, excess, realized_gains, appreciation, worth_at,
}

-- What a measurement is made of.
record Measured (p : AttributeYieldParams) (f : Figures) : Type 0 where
  current : ℤ
  start : ℤ
  totals : Totals
  gain : ℤ
  read_current : parse_quantity p.current_underlying_value ≡ ok current
  read_start : parse_quantity p.starting_underlying_value ≡ ok start
  flows : sum_flows no_totals p.cash_flows ≡ ok totals
  gained : share_appreciation p (cost_basis_of totals) ≡ ok gain
  result : figures current start totals gain ≡ f

measured : (p : AttributeYieldParams) (f : Figures) → measure p ≡ ok f → Measured p f
unfolding measure
measured p f h =
    let (current, read_current, h1) = bind-ok (parse_quantity p.current_underlying_value) _ f h in
    let (start, read_start, h2) = bind-ok (parse_quantity p.starting_underlying_value) _ f h1 in
    let (totals, flows, h3) = bind-ok (sum_flows no_totals p.cash_flows) _ f h2 in
    let (gain, gained, h4) = bind-ok (share_appreciation p (cost_basis_of totals)) _ f h3 in
    record {
      current = current;
      start = start;
      totals = totals;
      gain = gain;
      read_current = read_current;
      read_start = read_start;
      flows = flows;
      gained = gained;
      result = ground arith;
    }

add_sub : (a b : ℤ) → a ≡ b +ℤ (a -ℤ b)
unfolding ◌+ℤ◌ ◌-ℤ◌
add_sub a b = ground arith

sub_nonneg : (a b : ℤ) → ltb_ℤ b a ≡ true → pos 0 ≤ℤ a -ℤ b
unfolding ◌-ℤ◌
sub_nonneg a b h = ground arith

not_above : (a b : ℤ) → ltb_ℤ b a ≡ false → a ≤ℤ b
not_above a b h = ground arith

-- What `excess` adds makes up for the shortfall, and it is 0 or exactly that.
unfoldable pub Covers : ℤ → ℤ → ℤ → Type 0
Covers a b x = (a ≤ℤ b +ℤ x) × (pos 0 ≤ℤ x) × ((x ≡ pos 0) ⊎ (a ≡ b +ℤ x))

excess-Covers : (a b : ℤ) → Covers a b (excess a b)
unfolding excess Covers
excess-Covers a b = elim (Bool-cases (ltb_ℤ b a)) [
  | inl e ↦ rw (e, sym (add_sub a b)) (omega arith, sub_nonneg a b e, inr refl)
  | inr e ↦ rw (e, add_zero b) (not_above a b e, omega arith, inl refl)
]

-- The balance that the flows and the share rate account for.
abbrev pub accounted : Figures → ℤ
accounted f = f.start +ℤ (f.totals.deposits -ℤ f.totals.withdrawals) +ℤ f.appreciation

figures-Covers :
    (current start : ℤ) (t : Totals) (gain : ℤ)
    → let f = figures current start t gain in Covers f.current (accounted f) f.inflow
unfolding figures
figures-Covers current start t gain =
    excess-Covers current (start +ℤ (t.deposits -ℤ t.withdrawals) +ℤ gain)

-- In every attribution the current balance is at most what the starting balance, the net deposits, the share
-- appreciation and the unattributed inflow come to; and the inflow is 0 or makes up exactly for the shortfall.
pub measure-Covers :
    (p : AttributeYieldParams) (f : Figures)
    → measure p ≡ ok f
    → Covers f.current (accounted f) f.inflow
measure-Covers p f h =
    let m : Measured p f = measured p f h in
    rw (sym m.result) (figures-Covers m.current m.start m.totals m.gain)

figures-earned :
    (c c' s s' : ℤ) (t t' : Totals) (g g' : ℤ)
    → t ≡ t'
    → g ≡ g'
    → (figures c s t g).earned ≡ (figures c' s' t' g').earned
unfolding figures
figures-earned c c' s s' t t' g g' ht hg = λ i. hg i +ℤ realized_gains (ht i)

gain_same :
    (p : AttributeYieldParams) (current start : Text) (basis : ℤ)
    → share_appreciation
        (record p { current_underlying_value = current; starting_underlying_value = start })
        basis
      ≡ share_appreciation p basis
unfolding share_appreciation
gain_same p current start basis = refl

excess_none : (a b : ℤ) → a ≡ b → excess a b ≡ pos 0
unfolding excess
excess_none a b e = ground arith

-- The share rate is known at the start and now, and it is the same.
abbrev pub Unmoved : AttributeYieldParams → Type 0
Unmoved p = (r : ShareRate) × (p.initial_share_rate ≡ some r) × (p.current_share_rate ≡ some r)

unmoved_appreciation :
    (shares : Text) (r : ShareRate) (basis gain : ℤ)
    → appreciation shares r (some r) basis ≡ ok gain
    → gain ≡ pos 0
unfolding appreciation
unmoved_appreciation shares r basis gain h =
    let (now, read, h1) = bind-ok (worth_at shares r) _ gain h in
    let (start, read', h2) = bind-ok (worth_at shares r) _ gain h1 in
    sym (ok_inj _ _ h2) ∙ excess_none now start (same_ok _ _ _ read read')

gain-Unmoved :
    (p : AttributeYieldParams) (basis gain : ℤ)
    → Unmoved p
    → share_appreciation p basis ≡ ok gain
    → gain ≡ pos 0
unfolding share_appreciation
gain-Unmoved p basis gain (r, at_start, at_end) h = elim (Option-cases p.current_shares) [
  | inl n ↦ sym (ok_inj _ _ (rw n at h))
  | inr (shares, e) ↦ elim (Bool-cases (is_empty shares)) [
    | inl nothing ↦ sym (ok_inj _ _ (rw (e, at_end, nothing) at h))
    | inr more ↦ unmoved_appreciation shares r basis gain (rw (e, at_end, more, at_start) at h)
  ]
]

-- Another balance: other values, and other shares.
abbrev pub rebalanced : AttributeYieldParams → Text → Text → Option Text → AttributeYieldParams
rebalanced p current start shares = record p {
  current_underlying_value = current;
  starting_underlying_value = start;
  current_shares = shares;
}

gain_rebalanced :
    (p : AttributeYieldParams) (current start : Text) (shares : Option Text) (basis g g' : ℤ)
    → (shares ≡ p.current_shares) ⊎ Unmoved p
    → share_appreciation p basis ≡ ok g
    → share_appreciation (rebalanced p current start shares) basis ≡ ok g'
    → g' ≡ g
gain_rebalanced p current start shares basis g g' (inl same) h h' = same_ok _ _ _ h' (
    ap (λ x. share_appreciation (rebalanced p current start x) basis) same
    ∙ gain_same p current start basis
    ∙ h)
gain_rebalanced p current start shares basis g g' (inr still) h h' =
    gain-Unmoved (rebalanced p current start shares) basis g' still h'
    ∙ sym (gain-Unmoved p basis g still h)

-- With the same cash flows and share rates the same yield is earned, whatever the current and the starting value are
-- read to be, as long as the shares held are the same; and when the rates at the start and now are both known and
-- equal, whatever the shares are too.
pub earned_not_balance :
    (p : AttributeYieldParams) (current start : Text) (shares : Option Text) (f f' : Figures)
    → (shares ≡ p.current_shares) ⊎ Unmoved p
    → measure p ≡ ok f
    → measure (rebalanced p current start shares) ≡ ok f'
    → f'.earned ≡ f.earned
earned_not_balance p current start shares f f' k h h' =
    let m : Measured p f = measured p f h in
    let m' : Measured (rebalanced p current start shares) f' = measured _ f' h' in
    let totals : m'.totals ≡ m.totals = same_ok _ _ _ m'.flows m.flows in
    ap (λ (x : Figures). x.earned) (sym m'.result)
    ∙ figures-earned m'.current m.current m'.start m.start m'.totals m.totals m'.gain m.gain totals
        (gain_rebalanced p current start shares (cost_basis_of m'.totals) m.gain m'.gain k
          (rw totals m.gained) m'.gained)
    ∙ ap (λ (x : Figures). x.earned) m.result
