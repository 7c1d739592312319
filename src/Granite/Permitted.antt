-- ===== src/Granite/Permitted.antt =====
-- packages/adapters/src/granite/creditLifecycle.ts: what the checks of an action guarantee when none blocks it,
-- and that a block always leads to a state in which nothing is signed.
use mathlib.Core.Path.{subst}
use capital_os.Shared.{
  negated, Text, ℤ, pos, ◌+ℤ◌, ◌≤ℤ◌, ◌<ℤ◌, leb_ℤ, ltb_ℤ, Bool, true, false, not, none, some, List,
  [], ◌∷◌, if◌then◌else◌, ◌≡◌, refl, ap, ◌∙◌, ◌⊎◌, inl, inr, arith,
}
use capital_os.Errors.{Result, ok, ◌>>=◌, bind-ok, ok_inj}
use capital_os.Amounts.{parse_quantity}
use capital_os.Risk.{Health}
use capital_os.Granite.Evidence.{
  GraniteCreditAction, supplies, withdraws, borrows, repays, GranitePositionEvidence,
  GraniteMarketEvidence, GraniteCreditIntent, GraniteCreditState, unavailable, oracle_stale, paused,
  liquidity_blocked, health_blocked,
}
use capital_os.Granite.Gates.{
  above_limit, above_max, Block, block_if, max_block, collateral_block, borrow_block, granite_block,
}
use capital_os.Granite.Sums.{quantity_or_zero}
use capital_os.Granite.Evaluate.{or_stale}
use capital_os.Granite.Steps.{unless}

-- A borrow that may be signed: the vault is open and holds the sum, there is collateral, the projected loan is
-- healthy, and the debt on record and the sum are within the largest borrow.
pub record BorrowPermitted (intent : GraniteCreditIntent) (market : GraniteMarketEvidence)
    (position : GranitePositionEvidence) (health : Health) : Type 0 where
  pub qty : ℤ
  pub held : ℤ
  pub added : ℤ
  pub debt : ℤ
  pub is_open : market.borrow_paused ≡ false
  pub qty_is : parse_quantity intent.amount ≡ ok qty
  pub held_is : parse_quantity position.collateral ≡ ok held
  pub added_is : quantity_or_zero intent.collateral_amount ≡ ok added
  pub debt_is : parse_quantity position.debt ≡ ok debt
  pub liquid : above_limit qty market.liquidity_usdcx ≡ ok false
  pub secured : pos 0 <ℤ held +ℤ added
  pub healthy : health.healthy ≡ true
  pub within_max : debt +ℤ qty ≤ℤ health.max_borrow

abbrev pub Permitted :
    GraniteCreditIntent
    → GraniteMarketEvidence
    → GranitePositionEvidence
    → Health
    → GraniteCreditAction
    → Type 0
Permitted intent market position health borrows = BorrowPermitted intent market position health
Permitted intent market position health withdraws = health.healthy ≡ true
Permitted intent market position health supplies = Unit {0}
Permitted intent market position health repays = Unit {0}

pub not_taken {ℓ} :
    {A : Type ℓ} (b : Bool) (x y : Result A) (r : A)
    → (if b then x else y) ≡ ok r
    → ¬ (x ≡ ok r)
    → (b ≡ false) × (y ≡ ok r)
not_taken true x y r e h = absurd (h e)
not_taken false x y r e h = (refl, e)

pub either_way {ℓ} :
    {A : Type ℓ} (b : Bool) (x y : Result A) (r : A)
    → (if b then x else y) ≡ ok r
    → ((b ≡ true) × (x ≡ ok r)) ⊎ ((b ≡ false) × (y ≡ ok r))
either_way true x y r e = inl (refl, e)
either_way false x y r e = inr (refl, e)

pub by_test {ℓ κ} :
    {A : Type ℓ} (P : A → Type κ) (b : Bool) {x y : A}
    → (b ≡ true → P x)
    → (b ≡ false → P y)
    → P (if b then x else y)
by_test P true h k = h refl
by_test P false h k = k refl

not_blocked : (b : Block) → ¬ (ok (some b) ≡ ok none)
not_blocked b e = ground (arith, e)

block_if-none : (b : Bool) (block : Block) → block_if b block ≡ none → b ≡ false
block_if-none false block e = refl
block_if-none true block e = absurd (cc e)

below_max :
    (health : Health) (position : GranitePositionEvidence) (qty : ℤ)
    → above_max health position qty ≡ ok false
    → (health.healthy ≡ true)
      × ((debt : ℤ) × (parse_quantity position.debt ≡ ok debt) × (debt +ℤ qty ≤ℤ health.max_borrow))
below_max health position qty e = split health.healthy e
  where
    split :
        (h : Bool)
        → (if h
            then (parse_quantity position.debt >>= λ debt.
                ok (ltb_ℤ health.max_borrow (debt +ℤ qty)))
            else ok true)
          ≡ ok false
        → (h ≡ true)
          × ((debt : ℤ) × (parse_quantity position.debt ≡ ok debt)
              × (debt +ℤ qty ≤ℤ health.max_borrow))
    split true e =
        let (debt, d, e₁) = bind-ok (parse_quantity position.debt) _ false e in
        (refl, (debt, d, ground (arith, ok_inj _ false e₁)))
    split false e = absurd (ground (arith, e))

pub spared : (test : Bool) (note : Text) → unless test note ≡ [] → test ≡ true
spared true note e = refl
spared false note e = absurd (cc e)

pub warned : (ws : List Text) → ¬ (or_stale ws ≡ [])
warned [] e = cc e
warned (w ∷ ws) e = cc e

-- The states in which nothing may be signed or waited for.
abbrev pub is_stop : GraniteCreditState → Bool
is_stop unavailable = true
is_stop oracle_stale = true
is_stop paused = true
is_stop liquidity_blocked = true
is_stop health_blocked = true
is_stop _ = false

block-stops :
    (x b : Block) → ok (some x) ≡ ok (some b) → is_stop x.state ≡ true → is_stop b.state ≡ true
block-stops x b e h =
    let same : x ≡ b = ground (arith, e) in subst (λ (y : Block). is_stop y.state ≡ true) same h

block_if-stops :
    (test : Bool) (x b : Block)
    → block_if test x ≡ some b
    → is_stop x.state ≡ true
    → is_stop b.state ≡ true
block_if-stops true x b e h = block-stops x b (ap ok e) h
block_if-stops false x b e h = absurd (cc e)

-- Where a borrow has come through one check after the other.
module _ (intent : GraniteCreditIntent) (market : GraniteMarketEvidence)
    (position : GranitePositionEvidence) (health : Health) where
  max_block-none :
      (qty : ℤ) → max_block health position qty ≡ ok none → above_max health position qty ≡ ok false
  unfolding max_block
  max_block-none qty e =
      let (above, a, e₁) = bind-ok (above_max health position qty) _ none e in
      a ∙ ap ok (block_if-none above _ (ok_inj _ none e₁))

  collateral_block-none :
      (qty : ℤ)
      → collateral_block intent position health qty ≡ ok none
      → (held : ℤ) × (added : ℤ) × (parse_quantity position.collateral ≡ ok held)
        × (quantity_or_zero intent.collateral_amount ≡ ok added)
        × (leb_ℤ (held +ℤ added) (pos 0) ≡ false)
        × (max_block health position qty ≡ ok none)
  unfolding collateral_block
  collateral_block-none qty e =
      let (held, h, e₁) = bind-ok (parse_quantity position.collateral) _ none e in
      let (added, a, e₂) = bind-ok (quantity_or_zero intent.collateral_amount) _ none e₁ in
      let (secured, rest) = not_taken (leb_ℤ (held +ℤ added) (pos 0)) _ _ none e₂ (not_blocked _) in
      (held, added, h, a, secured, rest)

  borrow_block-none :
      borrow_block intent market position health ≡ ok none
      → (qty : ℤ) × (parse_quantity intent.amount ≡ ok qty)
        × (above_limit qty market.liquidity_usdcx ≡ ok false)
        × (collateral_block intent position health qty ≡ ok none)
  unfolding borrow_block
  borrow_block-none e =
      let (qty, q, e₁) = bind-ok (parse_quantity intent.amount) _ none e in
      let (short, s, e₂) = bind-ok (above_limit qty market.liquidity_usdcx) _ none e₁ in
      let (liquid, rest) = not_taken short _ _ none e₂ (not_blocked _) in
      (qty, q, s ∙ ap ok liquid, rest)

  borrow-Permitted :
      market.borrow_paused ≡ false
      → borrow_block intent market position health ≡ ok none
      → BorrowPermitted intent market position health
  borrow-Permitted o e =
      let (qty, q, liquid, rest) = borrow_block-none e in
      let (held, added, h, a, secured, rest₁) = collateral_block-none qty rest in
      let (healthy, (debt, d, within)) = below_max health position qty (max_block-none qty rest₁) in
      record {
        qty = qty;
        held = held;
        added = added;
        debt = debt;
        is_open = o;
        qty_is = q;
        held_is = h;
        added_is = a;
        debt_is = d;
        liquid = liquid;
        secured = ground (arith, secured);
        healthy = healthy;
        within_max = within;
      }

  pub granite_block-Permitted :
      (action : GraniteCreditAction)
      → granite_block intent market position health action ≡ ok none
      → Permitted intent market position health action
  unfolding granite_block
  granite_block-Permitted borrows e =
      let (o, rest) = not_taken market.borrow_paused _ _ none e (not_blocked _) in
      borrow-Permitted o rest
  granite_block-Permitted withdraws e =
      negated (block_if-none (not health.healthy) _ (ok_inj _ none e))
  granite_block-Permitted supplies e = tt
  granite_block-Permitted repays e = tt

  -- Every block leads to one of the states in which nothing is signed.
  max_block-stops :
      (qty : ℤ) (b : Block) → max_block health position qty ≡ ok (some b) → is_stop b.state ≡ true
  unfolding max_block
  max_block-stops qty b e =
      let (above, a, e₁) = bind-ok (above_max health position qty) _ (some b) e in
      block_if-stops above _ b (ok_inj _ (some b) e₁) refl

  borrow_block-stops :
      (b : Block)
      → borrow_block intent market position health ≡ ok (some b)
      → is_stop b.state ≡ true
  unfolding borrow_block collateral_block
  borrow_block-stops b e =
      let (qty, q, e₁) = bind-ok (parse_quantity intent.amount) _ (some b) e in
      let (short, s, e₂) = bind-ok (above_limit qty market.liquidity_usdcx) _ (some b) e₁ in
      elim (either_way short _ _ (some b) e₂) [
        | inl (_, stop) ↦ block-stops _ b stop refl
        | inr (_, rest) ↦
            let (held, h, e₃) = bind-ok (parse_quantity position.collateral) _ (some b) rest in
            let (added, a, e₄) =
              bind-ok (quantity_or_zero intent.collateral_amount) _ (some b) e₃ in
            elim (either_way (leb_ℤ (held +ℤ added) (pos 0)) _ _ (some b) e₄) [
              | inl (_, stop) ↦ block-stops _ b stop refl
              | inr (_, last) ↦ max_block-stops qty b last
            ]
      ]

  pub granite_block-stops :
      (action : GraniteCreditAction) (b : Block)
      → granite_block intent market position health action ≡ ok (some b)
      → is_stop b.state ≡ true
  unfolding granite_block
  granite_block-stops borrows b e = elim (either_way market.borrow_paused _ _ (some b) e) [
    | inl (_, stop) ↦ block-stops _ b stop refl
    | inr (_, rest) ↦ borrow_block-stops b rest
  ]
  granite_block-stops withdraws b e =
      block_if-stops (not health.healthy) _ b (ok_inj _ (some b) e) refl
  granite_block-stops supplies b e = absurd (ground (arith, e))
  granite_block-stops repays b e = absurd (ground (arith, e))
