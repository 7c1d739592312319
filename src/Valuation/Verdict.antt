-- ===== src/Valuation/Verdict.antt =====
-- packages/core/src/valuation.ts: which prices a quorum lets through.
use capital_os.Shared.{
  ℕ, zero, suc, ◌/◌, ◌<◌, ◌≤◌, Text, ℤ, ltb_ℤ, ◌≤ℤ◌, show_ℤ, length, distinct, get_elem?, ◌≡◌, refl,
  sym, ap, ◌∙◌, arith, false, ◌&&◌, none, some, List, [], ◌∷◌, map, All, Bool-cases, inl, inr, ◌⊎◌,
}
use mathlib.Core.List.{Perm}
use mathlib.Core.List.Perm
use capital_os.Errors.{ok, bind-ok}
use capital_os.Valuation.Quorum.{several, verdict, judge, reconcile_price_quorum}
use capital_os.Valuation.Agreement.{
  Selected, SomeNotPositive, WithinLimit, valid_readings-Selected, selected_all, spread-WithinLimit,
}
use capital_os.Valuation.Scaled.{Scaled, normalized_prices-Scaled}
use capital_os.Valuation.Readings.{
  PriceReading, AssetValuation, verified, valid_readings, normalized_prices, spread_of,
  insert_price, sort_prices, median, or_zero, raw_price, normalize,
}

insert-Perm : (p : ℤ) (ps : List ℤ) → Perm (insert_price p ps) (p ∷ ps)
unfolding insert_price
insert-Perm p [] = Perm.refl (p ∷ [])
insert-Perm p (q ∷ ps) = elim (Bool-cases (ltb_ℤ q p)) [
  | inl e ↦ rw e (Perm.trans (Perm.cons q (insert-Perm p ps)) (Perm.swap p q ps))
  | inr e ↦ rw e (Perm.refl (p ∷ q ∷ ps))
]

sort-Perm : (ps : List ℤ) → Perm (sort_prices ps) ps
unfolding sort_prices
sort-Perm [] = Perm.refl []
sort-Perm (p ∷ ps) = Perm.trans (insert-Perm p (sort_prices ps)) (Perm.cons p (sort-Perm ps))

-- Prices in rising order.
abbrev pub Rising : List ℤ → Type 0
Rising [] = Unit
Rising (p ∷ ps) = All (λ q. p ≤ℤ q) ps × Rising ps

All-insert :
    (lo p : ℤ) (ps : List ℤ)
    → lo ≤ℤ p
    → All (λ q. lo ≤ℤ q) ps
    → All (λ q. lo ≤ℤ q) (insert_price p ps)
unfolding insert_price
All-insert lo p [] h hs = (h, tt)
All-insert lo p (q ∷ ps) h (hq, hs) = elim (Bool-cases (ltb_ℤ q p)) [
  | inl e ↦ rw e (hq, All-insert lo p ps h hs)
  | inr e ↦ rw e (h, (hq, hs))
]

All-weaken : (lo hi : ℤ) (ps : List ℤ) → lo ≤ℤ hi → All (λ q. hi ≤ℤ q) ps → All (λ q. lo ≤ℤ q) ps
All-weaken lo hi [] h hs = tt
All-weaken lo hi (q ∷ ps) h (hq, hs) = (omega arith, All-weaken lo hi ps h hs)

insert-Rising : (p : ℤ) (ps : List ℤ) → Rising ps → Rising (insert_price p ps)
unfolding insert_price
insert-Rising p [] r = (tt, tt)
insert-Rising p (q ∷ ps) (low, r) = elim (Bool-cases (ltb_ℤ q p)) [
  | inl e ↦ rw e (All-insert q p ps (ground arith) low, insert-Rising p ps r)
  | inr e ↦ rw e ((ground arith, All-weaken p q ps (ground arith) low), (low, r))
]

sort-Rising : (ps : List ℤ) → Rising (sort_prices ps)
unfolding sort_prices
sort-Rising [] = tt
sort-Rising (p ∷ ps) = insert-Rising p (sort_prices ps) (sort-Rising ps)

length-insert_price : (p : ℤ) (ps : List ℤ) → length (insert_price p ps) ≡ suc (length ps)
unfolding insert_price
length-insert_price p [] = refl
length-insert_price p (q ∷ ps) = elim (Bool-cases (ltb_ℤ q p)) [
  | inl e ↦ rw e (ap suc (length-insert_price p ps))
  | inr e ↦ rw e refl
]

length-sort_prices : (ps : List ℤ) → length (sort_prices ps) ≡ length ps
unfolding sort_prices
length-sort_prices [] = refl
length-sort_prices (p ∷ ps) =
    length-insert_price p (sort_prices ps) ∙ ap suc (length-sort_prices ps)

elem_at : (ps : List ℤ) (i : ℕ) → i < length ps → get_elem? ps i ≡ some (or_zero (get_elem? ps i))
elem_at [] i h = absurd (omega arith)
elem_at (p ∷ ps) zero h = refl
elem_at (p ∷ ps) (suc i) h = elem_at ps i (omega arith)

-- The middle of the prices: the one at half the length of a rising list that holds the same prices.
pub record Middle (prices : List ℤ) (m : ℤ) : Type 0 where
  pub sorted : List ℤ
  pub same_prices : Perm sorted prices
  pub rising : Rising sorted
  pub halfway : get_elem? sorted (length prices / 2) ≡ some m

median-Middle : (prices : List ℤ) → 0 < length prices → Middle prices (median prices)
unfolding median
median-Middle prices h = record {
  sorted = sort_prices prices;
  same_prices = sort-Perm prices;
  rising = sort-Rising prices;
  halfway =
      rw (length-sort_prices prices) (
        elem_at (sort_prices prices) (length prices / 2)
          (omega (arith, length-sort_prices prices)));
}

-- The sources of all readings, each once.
abbrev pub sources_of : List PriceReading → List Text
sources_of readings = distinct (map (λ (r : PriceReading). r.source) readings)

-- When prices pass for agreeing: they are of one source, or one of them comes to 0 or less on the common scale, so
-- that no spread is measured, or all are within the limit.
abbrev pub Agreed : ℤ → List PriceReading → List ℤ → Type 0
Agreed limit readings prices =
    (length (sources_of readings) ≤ 1) ⊎ (SomeNotPositive prices ⊎ WithinLimit limit prices)

-- What stands behind a price that is shown.
pub record Supported (limit : ℤ) (readings : List PriceReading) (v : AssetValuation) : Type 0 where
  pub valid : List PriceReading
  pub prices : List ℤ
  pub middle : ℤ
  pub selected : Selected readings valid
  pub scaled : Scaled valid prices
  pub is_middle : Middle prices middle
  pub shown : v.price ≡ some (show_ℤ middle)
  pub agreed : Agreed limit readings prices
  pub is_verified : v.status ≡ verified
  pub no_dispute : v.disagreement ≡ false

normalized-nonempty :
    (r : PriceReading) (rs : List PriceReading) (prices : List ℤ)
    → normalized_prices (r ∷ rs) ≡ ok prices
    → 0 < length prices
unfolding normalized_prices
normalized-nonempty r rs prices h =
    let (raw, read, h1) = bind-ok (raw_price r.price) _ prices h in
    let (price, scaled, h2) = bind-ok (normalize r.scale raw) _ prices h1 in
    let (rest, others, h3) = bind-ok (normalized_prices rs) _ prices h2 in
    let same : price ∷ rest ≡ prices = ground arith in rw (sym same) (omega arith)

agreement :
    (readings : List PriceReading) (prices : List ℤ) (limit spread : ℤ)
    → 0 < length prices
    → spread_of prices ≡ ok spread
    → (several (sources_of readings) && ltb_ℤ limit spread) ≡ false
    → Agreed limit readings prices
agreement readings prices limit spread some_price measured e =
    elim (Bool-cases (several (sources_of readings))) [
      | inl many ↦ inr (spread-WithinLimit prices limit spread some_price measured (ground arith))
      | inr few ↦ inl (ground arith)
    ]

module _ (to_iso date_text : ℤ → Text) where
  verdict-Supported :
      (now limit : ℤ) (asset : Text) (readings valid : List PriceReading) (prices : List ℤ)
      (spread : ℤ) (shown : Text)
      → valid_readings readings ≡ ok valid
      → normalized_prices valid ≡ ok prices
      → spread_of prices ≡ ok spread
      → 0 < length prices
      → (verdict to_iso date_text now limit asset readings valid prices spread).price ≡ some shown
      → Supported limit readings
          (verdict to_iso date_text now limit asset readings valid prices spread)
  unfolding verdict
  verdict-Supported now limit asset readings valid prices spread shown h1 h2 h3 h4 h =
      let selection = valid_readings-Selected readings valid h1 in
      elim (Bool-cases (several (sources_of readings) && ltb_ℤ limit spread)) [
        | inl e ↦ absurd (ground arith)
        | inr e ↦ rw e (record {
          valid = valid;
          prices = prices;
          middle = median prices;
          selected = selection;
          scaled = normalized_prices-Scaled valid prices (selected_all readings valid selection) h2;
          is_middle = median-Middle prices h4;
          shown = refl;
          agreed = agreement readings prices limit spread h4 h3 e;
          is_verified = refl;
          no_dispute = refl;
        })
      ]

  judge-Supported :
      (now limit : ℤ) (asset : Text) (first : PriceReading) (rest valid : List PriceReading)
      (v : AssetValuation) (shown : Text)
      → valid_readings (first ∷ rest) ≡ ok valid
      → judge to_iso date_text now limit asset first rest valid ≡ ok v
      → v.price ≡ some shown
      → Supported limit (first ∷ rest) v
  unfolding judge
  judge-Supported now limit asset first rest [] v shown selected e h =
      let nothing : v.price ≡ none = ground arith in absurd (ground arith)
  judge-Supported now limit asset first rest (r ∷ valid) v shown selected e h =
      let (prices, normalized, e1) = bind-ok (normalized_prices (r ∷ valid)) _ v e in
      let (spread, measured, e2) = bind-ok (spread_of prices) _ v e1 in
      let same : verdict to_iso date_text now limit asset (first ∷ rest) (r ∷ valid) prices spread
          ≡ v =
        ground arith in
      rw (sym same) (
        verdict-Supported now limit asset (first ∷ rest) (r ∷ valid) prices spread shown selected
          normalized measured (normalized-nonempty r valid prices normalized)
          (ap (λ (x : AssetValuation). x.price) same ∙ h))

  -- A price that the quorum lets through is the middle one, in rising order, of the prices of exactly the
  -- readings that are not stale and have a positive price, each brought to 8 decimals, with more of them cut
  -- off; it is marked as verified and undisputed. Either all readings are of one source, or one of those prices
  -- comes to 0 or less with 8 decimals, or there is a level that no price is below and that none exceeds by more
  -- basis points than the limit.
  pub quorum-Supported :
      (now limit : ℤ) (asset : Text) (readings : List PriceReading) (v : AssetValuation)
      (shown : Text)
      → reconcile_price_quorum to_iso date_text now limit asset readings ≡ ok v
      → v.price ≡ some shown
      → Supported limit readings v
  unfolding reconcile_price_quorum
  quorum-Supported now limit asset [] v shown e h =
      let nothing : v.price ≡ none = ground arith in absurd (ground arith)
  quorum-Supported now limit asset (first ∷ rest) v shown e h =
      let (valid, selected, e1) = bind-ok (valid_readings (first ∷ rest)) _ v e in
      judge-Supported now limit asset first rest valid v shown selected e1 h
