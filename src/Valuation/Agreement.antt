-- ===== src/Valuation/Agreement.antt =====
-- packages/core/src/valuation.ts: what a reading says by itself, and when prices agree.
use capital_os.Shared.{
  ℕ, zero, suc, ◌<◌, Text, ℤ, pos, negsuc, ◌≤ℤ◌, ◌<ℤ◌, ltb_ℤ, big_int, length, map, Bool, true,
  false, some, List, [], ◌∷◌, All, ◌≡◌, refl, sym, ap, ◌⊎◌, inl, inr, arith, Bool-cases,
  Option-cases,
}
use capital_os.Errors.{ok, bind-ok, ok_inj}
use capital_os.Valuation.Readings.{
  PriceReading, Price, absent, bigint, text, to_bigint, is_valid, keep_if, valid_readings,
  spread_of,
}
use capital_os.Valuation.Spread.{Near, spread_bounds}

-- The number that a price stands for.
abbrev pub Quoted : Price → ℤ → Type 0
Quoted absent z = ⊥
Quoted (bigint p) z = p ≡ z
Quoted (text s) z = big_int s ≡ some z

-- A reading that is not stale and has a positive price.
abbrev pub Valid : PriceReading → Type 0
Valid r = (r.stale ≡ false) × (z : ℤ) × Quoted r.price z × (pos 0 <ℤ z)

-- The valid ones among some readings, in order.
pub data Selected : List PriceReading → List PriceReading → Type 0 where
  nothing : Selected [] []
  taken :
      {r : PriceReading} {rs valid : List PriceReading}
      → Valid r
      → Selected rs valid
      → Selected (r ∷ rs) (r ∷ valid)
  passed :
      {r : PriceReading} {rs valid : List PriceReading}
      → ¬ Valid r
      → Selected rs valid
      → Selected (r ∷ rs) valid

pub to_bigint_lem : (s : Text) (z : ℤ) → to_bigint s ≡ ok z → big_int s ≡ some z
unfolding to_bigint
to_bigint_lem s z h = elim (Option-cases (big_int s)) [
  | inl n ↦ absurd (ground arith)
  | inr (y, e) ↦ ground arith
]

positive_by : (z : ℤ) → ltb_ℤ (pos 0) z ≡ true → pos 0 <ℤ z
positive_by z h = ground arith

tested : (z : ℤ) → pos 0 <ℤ z → ltb_ℤ (pos 0) z ≡ true
tested z h = ground arith

-- What the test says of a price, and that it is right.
price-Valid :
    (r : PriceReading) (p : Price) (b : Bool)
    → r.stale ≡ false
    → r.price ≡ p
    → is_valid r ≡ ok b
    → ((b ≡ true) × Valid r) ⊎ ((b ≡ false) × ¬ Valid r)
unfolding is_valid
price-Valid r absent b fresh k h =
    inr (ground (arith, fresh, k, h), λ (f, z, quoted, up). rw k at quoted)
price-Valid r (bigint p) b fresh k h =
    let same : ltb_ℤ (pos 0) p ≡ b = ok_inj _ _ (rw (fresh, k) at h) in
    elim (Bool-cases b) [
      | inl hit ↦ inl (hit, (fresh, p, rw k refl, positive_by p (cc (same, hit))))
      | inr miss ↦ inr (
        miss,
        λ (f, z, quoted, up).
            let q : p ≡ z = rw k at quoted in
            let hit = tested z up in absurd (cc (same, miss, q, hit)),
      )
    ]
price-Valid r (text s) b fresh k h =
    let (p, read, next) = bind-ok (to_bigint s) _ b (rw (fresh, k) at h) in
    let same : ltb_ℤ (pos 0) p ≡ b = ok_inj _ _ next in
    let e = to_bigint_lem s p read in
    elim (Bool-cases b) [
      | inl hit ↦ inl (hit, (fresh, p, rw k e, positive_by p (cc (same, hit))))
      | inr miss ↦ inr (
        miss,
        λ (f, z, quoted, up).
            let q : big_int s ≡ some z = rw k at quoted in
            let hit = tested z up in absurd (cc (same, miss, e, q, hit)),
      )
    ]

stale_is_left : (r : PriceReading) (b : Bool) → r.stale ≡ true → is_valid r ≡ ok b → b ≡ false
unfolding is_valid
stale_is_left r b old h = sym (ok_inj _ _ (rw old at h))

is_valid-Valid :
    (r : PriceReading) (b : Bool)
    → is_valid r ≡ ok b
    → ((b ≡ true) × Valid r) ⊎ ((b ≡ false) × ¬ Valid r)
is_valid-Valid r b h = elim (Bool-cases r.stale) [
  | inl old ↦ inr (stale_is_left r b old h, λ (f, z, quoted, up). absurd (cc (old, f)))
  | inr fresh ↦ price-Valid r r.price b fresh refl h
]

pub valid_readings-Selected :
    (rs valid : List PriceReading) → valid_readings rs ≡ ok valid → Selected rs valid
unfolding valid_readings
valid_readings-Selected [] valid h = rw (sym (ok_inj _ _ h)) nothing
valid_readings-Selected (r ∷ rs) valid h =
    let (b, test, h1) = bind-ok (is_valid r) _ valid h in
    let (rest, others, h2) = bind-ok (valid_readings rs) _ valid h1 in
    let more = valid_readings-Selected rs rest others in
    let same : keep_if r rest b ≡ valid = ok_inj _ _ h2 in
    elim (is_valid-Valid r b test) [
      | inl (hit, v) ↦ rw (sym same, hit) (taken v more)
      | inr (miss, v) ↦ rw (sym same, miss) (passed v more)
    ]

pub selected_all : (rs valid : List PriceReading) → Selected rs valid → All Valid valid
selected_all _ _ nothing = tt
selected_all _ _ (taken v more) = (v, selected_all _ _ more)
selected_all _ _ (passed v more) = selected_all _ _ more

-- A price close to a level.
abbrev pub Close : ℕ → ℕ → ℤ → Type 0
Close low q p = (n : ℕ) × (p ≡ pos n) × Near low q n

abbrev pub SomeNotPositive : List ℤ → Type 0
SomeNotPositive [] = ⊥
SomeNotPositive (p ∷ ps) = (p ≤ℤ pos 0) ⊎ SomeNotPositive ps

-- No price is below a level, and none is above it by more basis points than the limit.
abbrev pub WithinLimit : ℤ → List ℤ → Type 0
WithinLimit limit prices = (low q : ℕ) × (pos q ≤ℤ limit) × All (Close low q) prices

price_cases : (p : ℤ) → (p ≤ℤ pos 0) ⊎ ((n : ℕ) × (p ≡ pos n) × (0 < n))
price_cases (pos zero) = inl (omega arith)
price_cases (pos (suc n)) = inr (suc n, refl, omega arith)
price_cases (negsuc n) = inl (omega arith)

positive_prices :
    (ps : List ℤ) → SomeNotPositive ps ⊎ ((ns : List ℕ) × (ps ≡ map pos ns) × All (λ n. 0 < n) ns)
positive_prices [] = inr ([], refl, tt)
positive_prices (p ∷ ps) = elim (price_cases p) [
  | inl low ↦ inl (inl low)
  | inr (n, e, up) ↦ elim (positive_prices ps) [
    | inl low ↦ inl (inr low)
    | inr (ns, es, ups) ↦ inr (n ∷ ns, cc (e, es), (up, ups))
  ]
]

Near-Close : (low q : ℕ) (ns : List ℕ) → All (Near low q) ns → All (Close low q) (map pos ns)
Near-Close low q [] h = tt
Near-Close low q (n ∷ ns) (h, hs) = ((n, refl, h), Near-Close low q ns hs)

pub spread-WithinLimit :
    (prices : List ℤ) (limit spread : ℤ)
    → 0 < length prices
    → spread_of prices ≡ ok spread
    → spread ≤ℤ limit
    → SomeNotPositive prices ⊎ WithinLimit limit prices
spread-WithinLimit prices limit spread some_price measured h = elim (positive_prices prices) [
  | inl low ↦ inl low
  | inr ([], e, ups) ↦ absurd (omega (arith, ap length e, some_price))
  | inr (n ∷ ns, e, ups) ↦
      let (low, q, s, near) = spread_bounds n ns spread ups (rw e at measured) in
      inr (low, q, rw s at h, rw e (Near-Close low q (n ∷ ns) near))
]
