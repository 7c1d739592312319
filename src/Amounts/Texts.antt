-- ===== src/Amounts/Texts.antt =====
-- packages/core/src/amounts.ts: quantities as text.
use capital_os.Shared.{ℤ, ◌≡◌, refl, trim-show_ℤ, is_integer-show_ℤ, read_ℤ-show_ℤ}
use capital_os.Errors.{ok}
use capital_os.Amounts.{parse_quantity, format_quantity}

-- A quantity that is written out and read again is the same quantity.
pub parse_quantity-format_quantity : (z : ℤ) → parse_quantity (format_quantity z) ≡ ok z
unfolding parse_quantity
parse_quantity-format_quantity z = rw (trim-show_ℤ z, is_integer-show_ℤ z, read_ℤ-show_ℤ z) refl
