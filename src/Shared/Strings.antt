-- ===== src/Shared/Strings.antt =====
-- JavaScript strings: sequences of UTF-16 code units, with the string methods that the code calls.
-- A literal is `codes "..."`, which is shut: a proof compares such texts by what is built from them.
use Prim.Native.Char.{code}
use Prim.Native.String.{String}
use capital_os.Shared.Tests.{leb, ltb, ◌==◌, if◌then◌else◌}
use Prim.Native.Nat.{ℕ, ◌+◌, ◌-◌, ◌/◌, ◌%◌, compare, Ordering}
use mathlib.Core.Path.{◌≡◌, refl}
use mathlib.Core.Logic.{◌↔◌}
use mathlib.Core.Bool.{Bool, true, false, ◌&&◌, ◌||◌, not}
use mathlib.Core.List.{List, [], ◌∷◌, ◌++◌}
use native.Mathlib.Omega.{arith}

abbrev pub Text : Type 0
Text = List ℕ

-- A literal's code units; the code's literals hold no character above U+FFFF.
unfoldable pub codes : String → Text
codes String.[] = []
codes (String.◌∷◌ c s) = code c ∷ codes s

-- `left === right`
unfoldable pub text_eq : Text → Text → Bool
text_eq [] [] = true
text_eq [] (d ∷ t) = false
text_eq (c ∷ s) [] = false
text_eq (c ∷ s) (d ∷ t) = (c == d) && text_eq s t

-- `left < right`, by code units
unfoldable pub text_lt : Text → Text → Bool
text_lt s [] = false
text_lt [] (d ∷ t) = true
text_lt (c ∷ s) (d ∷ t) = elim (compare c d) [
  | Ordering.lt ↦ true
  | Ordering.eq ↦ text_lt s t
  | Ordering.gt ↦ false
]

-- `text.startsWith(prefix)`
unfoldable pub starts_with : Text → Text → Bool
starts_with s [] = true
starts_with [] (d ∷ t) = false
starts_with (c ∷ s) (d ∷ t) = (c == d) && starts_with s t

-- `text.includes(part)`
unfoldable pub includes : Text → Text → Bool
unfolding starts_with
includes [] t = starts_with [] t
includes (c ∷ s) t = starts_with (c ∷ s) t || includes s t

-- JavaScript's white space and line terminators.
unfoldable pub is_space : ℕ → Bool
is_space c =
    (leb 9 c && leb c 13)
    || c == 32
    || c == 160
    || c == 5760
    || (leb 8192 c && leb c 8202)
    || c == 8232
    || c == 8233
    || c == 8239
    || c == 8287
    || c == 12288
    || c == 65279

unfoldable pub trim_start : Text → Text
trim_start [] = []
trim_start (c ∷ s) = if is_space c then trim_start s else c ∷ s

-- A unit in front of trimmed text: dropped when it is a space and nothing is left behind it.
unfoldable pub keep_trimmed : ℕ → Text → Text
keep_trimmed c [] = if is_space c then [] else c ∷ []
keep_trimmed c (d ∷ s) = c ∷ d ∷ s

unfoldable pub trim_end : Text → Text
trim_end [] = []
trim_end (c ∷ s) = keep_trimmed c (trim_end s)

-- `text.trim()`
unfoldable pub trim : Text → Text
unfolding trim_start trim_end keep_trimmed is_space
trim s = trim_end (trim_start s)

pub trim_lem : (s : Text) → trim s ≡ trim_end (trim_start s)
unfolding trim
trim_lem s = refl

-- `text.toLowerCase()` as far as its answer has ASCII in it: besides A to Z, the Kelvin sign
-- becomes k, and the dotted capital I becomes i and a combining dot. Other letters are kept.
unfoldable pub to_lower : Text → Text
to_lower [] = []
to_lower (c ∷ s) =
    (if leb b'A' c && leb c b'Z'
      then (c + 32) ∷ []
      else if c == 0x212a
      then b'k' ∷ []
      else if c == 0x130
      then b'i' ∷ 0x307 ∷ []
      else c ∷ [])
    ++ to_lower s

-- `parts.join(separator)`
unfoldable pub join : Text → List Text → Text
join sep [] = []
join sep (p ∷ []) = p
join sep (p ∷ q ∷ ps) = p ++ sep ++ join sep (q ∷ ps)

abbrev hex : ℕ → ℕ
hex d = if leb d 9 then b'0' + d else b'a' + (d - 10)

-- `\uXXXX`
abbrev unicode_escape : ℕ → Text
unicode_escape c =
    b'\\' ∷ b'u' ∷ hex (c / 4096) ∷ hex (c / 256 % 16) ∷ hex (c / 16 % 16) ∷ hex (c % 16) ∷ []

abbrev is_lead : ℕ → Bool
is_lead c = leb 0xd800 c && leb c 0xdbff

abbrev is_trail : ℕ → Bool
is_trail c = leb 0xdc00 c && leb c 0xdfff

abbrev escaped_as : ℕ → Text
escaped_as c = b'\\' ∷ c ∷ []

-- One unit of a JSON string, between the units around it: half of a surrogate pair whose other half
-- is missing is escaped.
quote_unit : ℕ → ℕ → ℕ → Text
quote_unit before c after =
    if c == 8
    then escaped_as b'b'
    else if c == 9
    then escaped_as b't'
    else if c == 10
    then escaped_as b'n'
    else if c == 12
    then escaped_as b'f'
    else if c == 13
    then escaped_as b'r'
    else if c == b'"' || c == b'\\'
    then escaped_as c
    else if ltb c 32 || (is_lead c && not (is_trail after)) || (is_trail c && not (is_lead before))
    then unicode_escape c
    else c ∷ []

abbrev first_unit : Text → ℕ
first_unit [] = 0
first_unit (c ∷ s) = c

quote_units : ℕ → Text → Text
unfolding quote_unit
quote_units before [] = []
quote_units before (c ∷ s) = quote_unit before c (first_unit s) ++ quote_units c s

-- `JSON.stringify(text)`
unfoldable pub json_text : Text → Text
unfolding quote_units
json_text s = b'"' ∷ quote_units 0 s ++ b'"' ∷ []

pub text_eq_refl : (s : Text) → text_eq s s ≡ true
unfolding text_eq
text_eq_refl [] = refl
text_eq_refl (c ∷ s) = ground (arith, text_eq_refl s)

pub eq_of_text_eq : (s t : Text) → text_eq s t ≡ true → s ≡ t
unfolding text_eq
eq_of_text_eq [] [] h = refl
eq_of_text_eq [] (d ∷ t) h = cc
eq_of_text_eq (c ∷ s) [] h = cc
eq_of_text_eq (c ∷ s) (d ∷ t) h = ground (arith, eq_of_text_eq s t)

pub text_eq_iff : (s t : Text) → (text_eq s t ≡ true) ↔ (s ≡ t)
text_eq_iff s t = ground (arith, eq_of_text_eq s t, text_eq_refl s)

pub starts_with-append : (p s : Text) → starts_with (p ++ s) p ≡ true
unfolding starts_with
starts_with-append [] [] = refl
starts_with-append [] (c ∷ s) = refl
starts_with-append (c ∷ p) s = ground (arith, starts_with-append p s)
