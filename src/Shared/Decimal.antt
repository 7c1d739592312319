-- ===== src/Shared/Decimal.antt =====
-- Decimal text: `BigInt.prototype.toString(10)`, `BigInt(text)`, and the regular expressions for
-- digits. The code's numbers are unbounded, and so are these.
pub mod RoundTrip
use Prim.Native.Nat.{ℕ, zero, suc, ◌+◌, ◌-◌, ◌*◌, ◌/◌, ◌%◌, ◌<◌}
use mathlib.Core.Path.{◌≡◌, refl}
use mathlib.Core.Logic.{dite}
use mathlib.Core.Bool.{Bool, true, false, ◌&&◌, ◌||◌, not}
use mathlib.Core.Option.{Option, none, some}
use mathlib.Core.List.{List, [], ◌∷◌, ◌++◌}
use mathlib.Core.WellFounded.{Acc, WellFounded}
use native.Mathlib.Omega.{arith}
use native.Mathlib.Decide.{dec_lt}
use capital_os.Shared.Tests.{leb, ltb, ◌==◌, if◌then◌else◌}
use capital_os.Shared.Int.{ℤ, pos, negsuc, sub_ℕ}
use capital_os.Shared.Lists.{all}
use capital_os.Shared.Strings.{Text, is_space, trim, trim_start, trim_end, keep_trimmed}
use capital_os.Shared.Lists.{is_empty}

Acc-below : (k n : ℕ) → n < k → Acc ◌<◌ n
Acc-below zero n h = absurd (omega arith)
Acc-below (suc k) n h = Acc.intro n (λ m hm. Acc-below k m (omega arith))

unfoldable pub lt_wf : WellFounded ◌<◌
unfolding Acc-below
lt_wf = record { apply = λ n. Acc-below (suc n) n (omega arith) }

pub tenth_lt : {n : ℕ} → 0 < n → n / 10 < n
tenth_lt h = omega arith

-- The digits of `n` in front of a text; none for 0.
digits : (n : ℕ) → Acc ◌<◌ n → Text → Text
digits n (Acc.intro _ smaller) rest =
    dite (dec_lt 0 n)
      (λ h. digits (n / 10) (smaller (n / 10) (tenth_lt h)) ((b'0' + n % 10) ∷ rest)) (λ _. rest)

unfoldable pub show_ℕ : ℕ → Text
unfolding digits lt_wf dec_lt
show_ℕ n = if n == 0 then b'0' ∷ [] else digits n (lt_wf.apply n) []

-- `quantity.toString(10)`
unfoldable pub show_ℤ : ℤ → Text
show_ℤ (pos n) = show_ℕ n
show_ℤ (negsuc n) = b'-' ∷ show_ℕ (suc n)

abbrev pub is_digit : ℕ → Bool
is_digit c = leb b'0' c && leb c b'9'

-- The number that digits spell behind those already read.
unfoldable pub value : ℕ → Text → ℕ
value n [] = n
value n (c ∷ s) = value (n * 10 + (c - b'0')) s

-- `^[0-9]+$`
unfoldable pub is_digits : Text → Bool
is_digits s = not (is_empty s) && all is_digit s

-- `^-?[0-9]+$`
unfoldable pub is_integer : Text → Bool
unfolding is_digits
is_integer [] = false
is_integer (c ∷ s) = if c == b'-' then is_digits s else is_digits (c ∷ s)

-- The integer that a text of that form spells.
unfoldable pub read_ℤ : Text → ℤ
unfolding value
read_ℤ [] = pos 0
read_ℤ (c ∷ s) = if c == b'-' then sub_ℕ 0 (value 0 s) else pos (value 0 (c ∷ s))

hex_digit : ℕ → Option ℕ
hex_digit c =
    if is_digit c
    then some (c - b'0')
    else if leb b'a' c && leb c b'f'
    then some (c - b'a' + 10)
    else if leb b'A' c && leb c b'F'
    then some (c - b'A' + 10)
    else none

-- Digits of a base, as `BigInt` reads them behind `0x`, `0o` or `0b`.
based : ℕ → ℕ → Text → Option ℤ
unfolding hex_digit
based base n [] = some (pos n)
based base n (c ∷ s) = elim (hex_digit c) [
  | none ↦ none
  | some d ↦ elim (ltb d base) [ true ↦ based base (n * base + d) s | false ↦ none ]
]

based_of : ℕ → Text → Option ℤ
unfolding based
based_of base [] = none
based_of base (c ∷ s) = based base 0 (c ∷ s)

signed : Text → Option ℤ
unfolding is_integer read_ℤ is_digits value
signed [] = some (pos 0)
signed (c ∷ s) =
    if c == b'+'
    then (if is_digits s then some (pos (value 0 s)) else none)
    else if is_integer (c ∷ s)
    then some (read_ℤ (c ∷ s))
    else none

base_of : ℕ → Option ℕ
base_of c =
    if c == b'x' || c == b'X'
    then some 16
    else if c == b'o' || c == b'O'
    then some 8
    else if c == b'b' || c == b'B'
    then some 2
    else none

unprefixed : Text → Option ℤ
unfolding based_of signed base_of
unprefixed (z ∷ c ∷ s) =
    if z == b'0'
    then elim (base_of c) [ none ↦ signed (z ∷ c ∷ s) | some base ↦ based_of base s ]
    else signed (z ∷ c ∷ s)
unprefixed s = signed s

-- `BigInt(text)`: `none` is its SyntaxError. Space around is ignored, and a blank text is 0.
unfoldable pub big_int : Text → Option ℤ
unfolding unprefixed trim
big_int s = unprefixed (trim s)
