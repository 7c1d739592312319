-- ===== src/Shared/Sums.antt =====
-- Sums of BigInts.
use capital_os.Shared.Int.{ℤ, pos, ◌+ℤ◌}
use mathlib.Core.Path.{◌≡◌, sym, ap, ◌∙◌}
use mathlib.Core.List.{List, [], ◌∷◌, ◌++◌}
use native.Mathlib.Omega.{arith}

pub add_assoc : (a b c : ℤ) → a +ℤ b +ℤ c ≡ a +ℤ (b +ℤ c)
unfolding ◌+ℤ◌
add_assoc a b c = ground arith

pub add_comm : (a b : ℤ) → a +ℤ b ≡ b +ℤ a
unfolding ◌+ℤ◌
add_comm a b = ground arith

pub add_zero : (a : ℤ) → a +ℤ pos 0 ≡ a
unfolding ◌+ℤ◌
add_zero a = ground arith

-- The last of three moved forward.
pub add_right_comm : (a b c : ℤ) → a +ℤ b +ℤ c ≡ a +ℤ c +ℤ b
add_right_comm a b c = add_assoc a b c ∙ ap (λ x. a +ℤ x) (add_comm b c) ∙ sym (add_assoc a c b)

abbrev pub sum : List ℤ → ℤ
sum [] = pos 0
sum (x ∷ xs) = x +ℤ sum xs

pub sum-snoc : (xs : List ℤ) (x : ℤ) → sum (xs ++ x ∷ []) ≡ sum xs +ℤ x
sum-snoc [] x = add_comm x (pos 0)
sum-snoc (y ∷ ys) x = ap (λ t. y +ℤ t) (sum-snoc ys x) ∙ sym (add_assoc y (sum ys) x)
