-- ===== src/Shared/Decimal/RoundTrip.antt =====
-- Decimal text is read back as the number that was written, and holds no white space.
use capital_os.Shared.Tests.{◌==◌, Bool-cases, ==_iff}
use capital_os.Shared.Int.{ℤ, pos, negsuc}
use capital_os.Shared.Lists.{is_empty, all}
use capital_os.Shared.Strings.{Text, is_space, trim, trim_lem, trim_start, trim_end, keep_trimmed}
use capital_os.Shared.Decimal.{
  lt_wf, tenth_lt, digits, show_ℕ, show_ℤ, is_digit, value, is_digits, is_integer, read_ℤ,
}
use Prim.Native.Nat.{ℕ, suc, ◌+◌, ◌-◌, ◌*◌, ◌/◌, ◌%◌, ◌<◌}
use mathlib.Core.Path.{◌≡◌, refl, sym, ap, ◌∙◌}
use mathlib.Core.Logic.{dif_pos, dif_neg, inl, inr}
use mathlib.Core.Bool.{Bool, true, false, not}
use mathlib.Core.List.{[], ◌∷◌}
use mathlib.Core.WellFounded.{Acc}
use native.Mathlib.Omega.{arith}
use native.Mathlib.Bridge.{le_prop}
use native.Mathlib.Decide.{dec_lt}

zero_of : (n : ℕ) → ¬ (0 < n) → n ≡ 0
zero_of n h = omega arith

digit_ok : (n : ℕ) → is_digit (b'0' + n % 10) ≡ true
digit_ok n = ground arith

value_step : (n : ℕ) (rest : Text) → value (n / 10) ((b'0' + n % 10) ∷ rest) ≡ value n rest
unfolding value
value_step n rest = rw (fuse n)
  where
    fuse : (n : ℕ) → n / 10 * 10 + (b'0' + n % 10 - b'0') ≡ n
    fuse n = omega arith

value-digits : (n : ℕ) (w : Acc ◌<◌ n) (rest : Text) → value 0 (digits n w rest) ≡ value n rest
unfolding digits
value-digits n (Acc.intro _ smaller) rest = elim (dec_lt 0 n) [
  | yes h ↦ rw (dif_pos (dec_lt 0 n) le_prop h) (
      value-digits (n / 10) (smaller (n / 10) (tenth_lt h)) ((b'0' + n % 10) ∷ rest)
      ∙ value_step n rest)
  | no h ↦ rw (dif_neg (dec_lt 0 n) h) (rw (zero_of n h))
]

all-digits :
    (n : ℕ) (w : Acc ◌<◌ n) (rest : Text)
    → all is_digit rest ≡ true
    → all is_digit (digits n w rest) ≡ true
unfolding digits
all-digits n (Acc.intro _ smaller) rest a = elim (dec_lt 0 n) [
  | yes h ↦ rw (dif_pos (dec_lt 0 n) le_prop h) (
      all-digits (n / 10) (smaller (n / 10) (tenth_lt h)) ((b'0' + n % 10) ∷ rest)
        (rw (digit_ok n) a))
  | no h ↦ rw (dif_neg (dec_lt 0 n) h) a
]

digits-nonempty :
    (n : ℕ) (w : Acc ◌<◌ n) (rest : Text)
    → is_empty rest ≡ false
    → is_empty (digits n w rest) ≡ false
unfolding digits
digits-nonempty n (Acc.intro _ smaller) rest a = elim (dec_lt 0 n) [
  | yes h ↦
      rw (dif_pos (dec_lt 0 n) le_prop h)
        (digits-nonempty (n / 10) (smaller (n / 10) (tenth_lt h)) ((b'0' + n % 10) ∷ rest) refl)
  | no h ↦ rw (dif_neg (dec_lt 0 n) h) a
]

pub value-show_ℕ : (n : ℕ) → value 0 (show_ℕ n) ≡ n
unfolding show_ℕ value
value-show_ℕ n = elim (Bool-cases (n == 0)) [
  | inl z ↦ rw z (sym ((==_iff n 0).0 z))
  | inr p ↦ rw p (value-digits n (lt_wf.apply n) [])
]

pub all-show_ℕ : (n : ℕ) → all is_digit (show_ℕ n) ≡ true
unfolding show_ℕ
all-show_ℕ n = elim (Bool-cases (n == 0)) [
  | inl z ↦ rw z
  | inr p ↦ rw p (all-digits n (lt_wf.apply n) [] refl)
]

first-nonempty : (n : ℕ) (w : Acc ◌<◌ n) (rest : Text) → 0 < n → is_empty (digits n w rest) ≡ false
unfolding digits
first-nonempty n (Acc.intro _ smaller) rest h =
    rw (dif_pos (dec_lt 0 n) le_prop h)
      (digits-nonempty (n / 10) (smaller (n / 10) (tenth_lt h)) ((b'0' + n % 10) ∷ rest) refl)

pub show_ℕ-nonempty : (n : ℕ) → is_empty (show_ℕ n) ≡ false
unfolding show_ℕ
show_ℕ-nonempty n = elim (Bool-cases (n == 0)) [
  | inl z ↦ rw z
  | inr p ↦ rw p (first-nonempty n (lt_wf.apply n) [] (ground arith))
]

-- What begins with a digit does not begin with a sign.
read_digits :
    (s : Text)
    → is_empty s ≡ false
    → all is_digit s ≡ true
    → (is_integer s ≡ true) × (read_ℤ s ≡ pos (value 0 s))
unfolding is_integer is_digits read_ℤ
read_digits [] e a = cc
read_digits (c ∷ s) e a = (ground arith, ground arith)

pub is_integer-show_ℤ : (z : ℤ) → is_integer (show_ℤ z) ≡ true
unfolding show_ℤ
is_integer-show_ℤ (pos n) = (read_digits (show_ℕ n) (show_ℕ-nonempty n) (all-show_ℕ n)).0
is_integer-show_ℤ (negsuc n) =
    unfold is_integer is_digits in rw (show_ℕ-nonempty (suc n)) (all-show_ℕ (suc n))

-- The number that was written is read back.
pub read_ℤ-show_ℤ : (z : ℤ) → read_ℤ (show_ℤ z) ≡ z
unfolding show_ℤ
read_ℤ-show_ℤ (pos n) =
    (read_digits (show_ℕ n) (show_ℕ-nonempty n) (all-show_ℕ n)).1 ∙ rw (value-show_ℕ n)
read_ℤ-show_ℤ (negsuc n) = unfold read_ℤ in rw (value-show_ℕ (suc n)) (ground arith)

-- Trimming leaves text alone that holds no white space.
abbrev not_space : ℕ → Bool
not_space c = not (is_space c)

kept_plain : (c : ℕ) (s : Text) → is_space c ≡ false → keep_trimmed c s ≡ c ∷ s
unfolding keep_trimmed
kept_plain c [] h = rw h
kept_plain c (d ∷ s) h = refl

trim_end-plain : (s : Text) → all not_space s ≡ true → trim_end s ≡ s
unfolding trim_end
trim_end-plain [] h = refl
trim_end-plain (c ∷ s) h = rw (trim_end-plain s (ground arith)) (kept_plain c s (ground arith))

trim_start-plain : (s : Text) → all not_space s ≡ true → trim_start s ≡ s
unfolding trim_start
trim_start-plain [] h = refl
trim_start-plain (c ∷ s) h = ground arith

pub trim-plain : (s : Text) → all not_space s ≡ true → trim s ≡ s
trim-plain s h = trim_lem s ∙ ap trim_end (trim_start-plain s h) ∙ trim_end-plain s h

digit_not_space : (c : ℕ) → is_digit c ≡ true → is_space c ≡ false
unfolding is_space
digit_not_space c h = ground arith

all-not_space : (s : Text) → all is_digit s ≡ true → all not_space s ≡ true
all-not_space [] h = refl
all-not_space (c ∷ s) h = ground (arith, digit_not_space c, all-not_space s)

minus_not_space : is_space b'-' ≡ false
unfolding is_space
minus_not_space = refl

pub trim-show_ℤ : (z : ℤ) → trim (show_ℤ z) ≡ show_ℤ z
unfolding show_ℤ
trim-show_ℤ (pos n) = trim-plain _ (all-not_space _ (all-show_ℕ n))
trim-show_ℤ (negsuc n) =
    trim-plain (b'-' ∷ show_ℕ (suc n))
      (rw minus_not_space (all-not_space (show_ℕ (suc n)) (all-show_ℕ (suc n))))
