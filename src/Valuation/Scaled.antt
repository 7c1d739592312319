-- ===== src/Valuation/Scaled.antt =====
-- packages/core/src/valuation.ts: what a price comes to on the scale of 8 decimals.
use capital_os.Shared.{
  ℕ, zero, suc, ◌+◌, ◌^◌, ℤ, pos, negsuc, ◌+ℤ◌, ◌-ℤ◌, ◌*ℤ◌, ◌/ℤ◌, leb_ℤ, true, false, List, [], ◌∷◌,
  All, ◌≡◌, refl, sym, ap, ◌∙◌, ◌⊎◌, inl, inr, arith, int_laws,
}
use capital_os.Errors.{ok, bind-ok, ok_inj}
use capital_os.Risk.{pow10, times_ten}
use capital_os.Valuation.Readings.{
  PriceReading, Price, absent, bigint, text, raw_price, normalize, normalized_prices,
}
use capital_os.Valuation.Agreement.{Quoted, Valid, to_bigint_lem}

-- A number of some decimals, with 8 decimals: exact, or cut off when it has more.
abbrev pub OnScale : ℤ → ℤ → ℤ → Type 0
OnScale scale z p =
    ((k : ℕ) × (scale +ℤ pos k ≡ pos 8) × (p ≡ z *ℤ pos (10 ^ k)))
    ⊎ ((k : ℕ) × (scale ≡ pos (8 + k)) × (p ≡ z /ℤ pos (10 ^ k)))

-- The prices of some readings, with 8 decimals each.
pub data Scaled : List PriceReading → List ℤ → Type 0 where
  done : Scaled [] []
  scaled :
      {r : PriceReading} {rs : List PriceReading} {p : ℤ} {ps : List ℤ} (z : ℤ)
      → Quoted r.price z
      → OnScale r.scale z p
      → Scaled rs ps
      → Scaled (r ∷ rs) (p ∷ ps)

times_ten_lem : (n : ℕ) → times_ten n ≡ 10 ^ n
unfolding times_ten
times_ten_lem zero = refl
times_ten_lem (suc n) = rw (times_ten_lem n) (omega arith)

add_back : (a s : ℤ) → s +ℤ (a -ℤ s) ≡ a
add_back a s = omega int_laws

take_back : (a s : ℤ) → s ≡ a -ℤ (a -ℤ s)
take_back a s = omega int_laws

more : (k : ℕ) → pos 8 -ℤ negsuc k ≡ pos (8 + suc k)
unfolding ◌-ℤ◌
more k = ground arith

not_below : (k : ℕ) → leb_ℤ (pos 0) (pos k) ≡ true
not_below k = ground arith

below : (k : ℕ) → leb_ℤ (pos 0) (negsuc k) ≡ false
below k = ground arith

negated_back : (k : ℕ) → pos 0 -ℤ negsuc k ≡ pos (suc k)
unfolding ◌-ℤ◌
negated_back k = ground arith

normalize-OnScale :
    (scale raw p diff : ℤ)
    → pos 8 -ℤ scale ≡ diff
    → normalize scale raw ≡ ok p
    → OnScale scale raw p
unfolding normalize pow10
normalize-OnScale scale raw p (pos k) e h =
    let same : raw *ℤ pos (times_ten k) ≡ p = ok_inj _ _ (rw (e, not_below k) at h) in
    inl (
      k,
      ap (λ d. scale +ℤ d) (sym e) ∙ add_back (pos 8) scale,
      sym same ∙ ap (λ t. raw *ℤ pos t) (times_ten_lem k),
    )
normalize-OnScale scale raw p (negsuc k) e h =
    let same : raw /ℤ pos (times_ten (suc k)) ≡ p =
      ok_inj _ _ (rw (e, below k, negated_back k) at h) in
    inr (
      suc k,
      take_back (pos 8) scale ∙ ap (λ d. pos 8 -ℤ d) e ∙ more k,
      sym same ∙ ap (λ t. raw /ℤ pos t) (times_ten_lem (suc k)),
    )

raw_price-Quoted : (p : Price) (z raw : ℤ) → Quoted p z → raw_price p ≡ ok raw → Quoted p raw
unfolding raw_price
raw_price-Quoted absent z raw q h = absurd q
raw_price-Quoted (bigint p) z raw q h = ok_inj _ _ h
raw_price-Quoted (text s) z raw q h = to_bigint_lem s raw h

pub normalized_prices-Scaled :
    (rs : List PriceReading) (prices : List ℤ)
    → All Valid rs
    → normalized_prices rs ≡ ok prices
    → Scaled rs prices
unfolding normalized_prices
normalized_prices-Scaled [] prices v h = rw (sym (ok_inj _ _ h)) done
normalized_prices-Scaled (r ∷ rs) prices ((f, z, quoted, up), vs) h =
    let (raw, read, h1) = bind-ok (raw_price r.price) _ prices h in
    let (price, sized, h2) = bind-ok (normalize r.scale raw) _ prices h1 in
    let (rest, others, h3) = bind-ok (normalized_prices rs) _ prices h2 in
    rw (sym (ok_inj _ _ h3)) (
      scaled raw (raw_price-Quoted r.price z raw quoted read)
        (normalize-OnScale r.scale raw price _ refl sized)
        (normalized_prices-Scaled rs rest vs others))
