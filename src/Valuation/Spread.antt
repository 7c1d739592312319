-- ===== src/Valuation/Spread.antt =====
-- packages/core/src/valuation.ts: what the spread of some prices says of them.
use capital_os.Shared.{
  ℕ, ◌+◌, ◌-◌, ◌*◌, ◌≤◌, ◌<◌, ltb, ℤ, pos, ◌-ℤ◌, ltb_ℤ, ◌≡◌, refl, arith, true, List, [], ◌∷◌, map,
  All, if◌then◌else◌,
}
use capital_os.Shared.Rounding.{ceil_div, ceil_bounds}
use capital_os.Errors.{ok, same_ok}
use capital_os.Amounts.MulDiv.{mul_div-up}
use capital_os.Valuation.Readings.{least, greatest, spread_of}

lower : ℕ → ℕ → ℕ
lower m p = if ltb p m then p else m

higher : ℕ → ℕ → ℕ
higher m p = if ltb m p then p else m

lowest : ℕ → List ℕ → ℕ
lowest m [] = m
lowest m (p ∷ ps) = lowest (lower m p) ps

highest : ℕ → List ℕ → ℕ
highest m [] = m
highest m (p ∷ ps) = highest (higher m p) ps

least-pos : (m : ℕ) (ps : List ℕ) → least (pos m) (map pos ps) ≡ pos (lowest m ps)
unfolding least lowest lower
least-pos m [] = refl
least-pos m (p ∷ ps) = ground (arith, least-pos p ps, least-pos m ps)

greatest-pos : (m : ℕ) (ps : List ℕ) → greatest (pos m) (map pos ps) ≡ pos (highest m ps)
unfolding greatest highest higher
greatest-pos m [] = refl
greatest-pos m (p ∷ ps) = ground (arith, greatest-pos p ps, greatest-pos m ps)

lower_le : (m p : ℕ) → (lower m p ≤ m) × (lower m p ≤ p)
unfolding lower
lower_le m p = (ground arith, ground arith)

higher_ge : (m p : ℕ) → (m ≤ higher m p) × (p ≤ higher m p)
unfolding higher
higher_ge m p = (ground arith, ground arith)

lowest_le : (m : ℕ) (ps : List ℕ) → (lowest m ps ≤ m) × All (λ p. lowest m ps ≤ p) ps
unfolding lowest
lowest_le m [] = (omega arith, tt)
lowest_le m (p ∷ ps) =
    let (here, rest) = lowest_le (lower m p) ps in
    (omega (arith, here, (lower_le m p).0), (omega (arith, here, (lower_le m p).1), rest))

highest_ge : (m : ℕ) (ps : List ℕ) → (m ≤ highest m ps) × All (λ p. p ≤ highest m ps) ps
unfolding highest
highest_ge m [] = (omega arith, tt)
highest_ge m (p ∷ ps) =
    let (here, rest) = highest_ge (higher m p) ps in
    (omega (arith, here, (higher_ge m p).0), (omega (arith, here, (higher_ge m p).1), rest))

lowest_pos : (m : ℕ) (ps : List ℕ) → 0 < m → All (λ p. 0 < p) ps → 0 < lowest m ps
unfolding lowest lower
lowest_pos m [] h hs = h
lowest_pos m (p ∷ ps) h (hp, hs) = lowest_pos (lower m p) ps (ground arith) hs

difference : (hi lo : ℕ) → lo ≤ hi → pos hi -ℤ pos lo ≡ pos (hi - lo)
unfolding ◌-ℤ◌
difference hi lo h = ground arith

positive : (lo : ℕ) → 0 < lo → ltb_ℤ (pos 0) (pos lo) ≡ true
positive lo h = ground arith

spread_lem :
    (n : ℕ) (ns : List ℕ)
    → All (λ p. 0 < p) (n ∷ ns)
    → lowest n (n ∷ ns) ≤ highest n (n ∷ ns)
    → spread_of (map pos (n ∷ ns))
      ≡ ok (pos (ceil_div ((highest n (n ∷ ns) - lowest n (n ∷ ns)) * 10000) (lowest n (n ∷ ns))))
unfolding spread_of
spread_lem n ns (hn, hs) ordered =
    rw
      (
        least-pos n (n ∷ ns),
        greatest-pos n (n ∷ ns),
        positive (lowest n (n ∷ ns)) (lowest_pos n (n ∷ ns) hn (hn, hs)),
        difference (highest n (n ∷ ns)) (lowest n (n ∷ ns)) ordered,
      )
      (mul_div-up (highest n (n ∷ ns) - lowest n (n ∷ ns)) 10000 (lowest n (n ∷ ns))
        (lowest_pos n (n ∷ ns) hn (hn, hs)))

-- A price between the two ends.
unfoldable pub Near : ℕ → ℕ → ℕ → Type 0
Near low q p = (low ≤ p) × (p * 10000 ≤ low * 10000 + q * low)

bounds-Near :
    (low high q : ℕ) (ps : List ℕ)
    → high * 10000 ≤ low * 10000 + q * low
    → All (λ p. low ≤ p) ps
    → All (λ p. p ≤ high) ps
    → All (Near low q) ps
unfolding Near
bounds-Near low high q [] h hl hh = tt
bounds-Near low high q (p ∷ ps) h (l, hl) (u, hu) =
    ((l, omega arith), bounds-Near low high q ps h hl hu)

-- When the spread of positive prices is computed, it is a natural number and bounds how far they are apart: there is
-- a level which no price is below and which none exceeds by more than that many basis points of it.
pub spread_bounds :
    (n : ℕ) (ns : List ℕ) (s : ℤ)
    → All (λ p. 0 < p) (n ∷ ns)
    → spread_of (map pos (n ∷ ns)) ≡ ok s
    → (low q : ℕ) × (s ≡ pos q) × All (Near low q) (n ∷ ns)
spread_bounds n ns s hs e =
    let lo : ℕ = lowest n (n ∷ ns) in
    let hi : ℕ = highest n (n ∷ ns) in
    let (lo_n, lo_all) = lowest_le n (n ∷ ns) in
    let (hi_n, hi_all) = highest_ge n (n ∷ ns) in
    let ordered : lo ≤ hi = omega (arith, lo_n, hi_n) in
    let q : ℕ = ceil_div ((hi - lo) * 10000) lo in
    (
      lo,
      q,
      same_ok _ s (pos q) e (spread_lem n ns hs ordered),
      bounds-Near lo hi q (n ∷ ns)
          (omega (arith, (ceil_bounds ((hi - lo) * 10000) lo (lowest_pos n (n ∷ ns) hs.0 hs)).0))
          lo_all hi_all,
    )
