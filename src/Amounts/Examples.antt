-- ===== src/Amounts/Examples.antt =====
-- Quantities of packages/core/src/amounts.ts at work.
use capital_os.Shared.{
  ℕ, [], ◌∷◌, refl, ◌*◌, ◌+◌, ◌≤◌, ◌<◌, pos, negsuc, ◌≡◌, arith, big_int, is_integer, trim, ◌-ℤ◌,
}
use capital_os.Errors.{ok}
use capital_os.Amounts.{mul_div, down, up, parse_quantity, format_quantity}
use capital_os.Amounts.Units.{
  Decimals, parse_units, checked_decimals, combine, is_sign, pad_end, parts_of, split_dot,
}
use capital_os.Amounts.MulDiv.{mul_div_bounds}
use capital_os.Amounts.Texts.{parse_quantity-format_quantity}

mul_div_bounds_example :
    (q : ℕ) × (r : ℕ) × (mul_div (pos 7) (pos 3) (pos 2) down ≡ ok (pos q))
    × (mul_div (pos 7) (pos 3) (pos 2) up ≡ ok (pos r))
    × (q * 2 ≤ 21)
    × (21 < q * 2 + 2)
    × (21 ≤ r * 2)
    × (r * 2 < 21 + 2)
    × (q ≤ r)
    × (r ≤ q + 1)
mul_div_bounds_example = mul_div_bounds 7 3 2 (omega arith)

parse_quantity-format_quantity_example : parse_quantity (format_quantity (negsuc 4)) ≡ ok (negsuc 4)
parse_quantity-format_quantity_example = parse_quantity-format_quantity (negsuc 4)

-- "--5" with two decimals is read as 5.00: the second minus sign passes as part of the integer.
double_minus : parse_units (b'-' ∷ b'-' ∷ b'5' ∷ []) (Decimals.integer (pos 2)) ≡ ok (pos 500)
unfolding parse_units checked_decimals trim is_sign parts_of split_dot combine is_integer big_int
    pad_end ◌-ℤ◌
double_minus = refl
