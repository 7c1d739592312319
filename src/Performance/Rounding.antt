-- ===== src/Performance/Rounding.antt =====
-- packages/core/src/performance.ts: what the rounding of the share rate costs.
use capital_os.Shared.{ℕ, ◌*◌, ◌/◌, ◌≤◌, ◌<◌, Text, codes, pos, show_ℤ, ◌≡◌, refl, arith}
use native.Mathlib.Nat.{le_of_mul-le-mul_right}
use capital_os.Shared.Rounding.{floor_bounds}
use capital_os.Errors.{ok}
use capital_os.Amounts.MulDiv.{mul_div-down}
use capital_os.Amounts.Texts.{parse_quantity-format_quantity}
use capital_os.Performance.Shares.{
  ShareRate, underlying_from_shares, shares_from_underlying, reject_zero,
}

abbrev pub rate_of : ℕ → ℕ → ShareRate
rate_of n d = record { numerator = show_ℤ (pos n); denominator = show_ℤ (pos d) }

abbrev pub text_of : ℕ → Text
text_of n = show_ℤ (pos n)

not_zero : (n : ℕ) (message : Text) → 0 < n → reject_zero (pos n) message ≡ ok tt
not_zero n message h = ground arith

underlying_lem :
    (s n d : ℕ)
    → 0 < n
    → 0 < d
    → underlying_from_shares (text_of s) (rate_of n d) ≡ ok (text_of (s * d / n))
unfolding underlying_from_shares
underlying_lem s n d hn hd =
    rw
      (
        parse_quantity-format_quantity (pos s),
        parse_quantity-format_quantity (pos n),
        parse_quantity-format_quantity (pos d),
        not_zero n (codes "Share rate numerator cannot be zero") hn,
        mul_div-down s d n hn,
      )
      refl

shares_lem :
    (a n d : ℕ)
    → 0 < n
    → 0 < d
    → shares_from_underlying (text_of a) (rate_of n d) ≡ ok (text_of (a * n / d))
unfolding shares_from_underlying
shares_lem a n d hn hd =
    rw
      (
        parse_quantity-format_quantity (pos a),
        parse_quantity-format_quantity (pos n),
        parse_quantity-format_quantity (pos d),
        not_zero d (codes "Share rate denominator cannot be zero") hd,
        mul_div-down a n d hd,
      )
      refl

back_le : (s n d u back : ℕ) → 0 < d → u * n ≤ s * d → back * d ≤ u * n → back ≤ s
back_le s n d u back hd h1 h2 = le_of_mul-le-mul_right {k = d} (omega arith) hd

-- Shares that are turned into assets and back, at a rate of positive numbers, never become more shares.
pub shares_never_gain :
    (s n d : ℕ)
    → 0 < n
    → 0 < d
    → (u : ℕ) × (back : ℕ) × (underlying_from_shares (text_of s) (rate_of n d) ≡ ok (text_of u))
      × (shares_from_underlying (text_of u) (rate_of n d) ≡ ok (text_of back))
      × (back ≤ s)
shares_never_gain s n d hn hd =
    let u : ℕ = s * d / n in
    (
      u,
      u * n / d,
      underlying_lem s n d hn hd,
      shares_lem u n d hn hd,
      back_le s n d u (u * n / d) hd (floor_bounds (s * d) n hn).0 (floor_bounds (u * n) d hd).0,
    )
