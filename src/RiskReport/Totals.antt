-- ===== src/RiskReport/Totals.antt =====
-- packages/core/src/riskReport.ts: nothing is lost between the positions and their shares.
use capital_os.Shared.{
  add_assoc, add_comm, add_zero, add_right_comm, sum, Text, codes, text_eq, ℤ, pos, ◌+ℤ◌, leb_ℤ,
  eqb_ℤ, ◌≡◌, refl, sym, ap, ◌∙◌, arith, Bool, true, false, some, List, [], ◌∷◌, map, filter, get,
  put, if◌then◌else◌, Bool-cases, inl, inr, length, ltb, distinct,
}
use capital_os.RiskReport.Concentration.{
  Slice, ConcentrationSlice, ConcentrationReport, or_zero, sum_slices, share_of, insert_slice,
  sort_slices, shares, concentration_by_quantity, is_unknown, unavailable_report, unknown_reason,
}

abbrev values : List (Text × ℤ) → List ℤ
values m = map (λ (e : Text × ℤ). e.1) m

abbrev pub input_quantities : List Slice → List ℤ
input_quantities slices = map (λ (s : Slice). or_zero s.quantity) slices

abbrev pub slice_quantities : List ConcentrationSlice → List ℤ
slice_quantities slices = map (λ (s : ConcentrationSlice). s.quantity) slices

at_key :
    (k j : Text) (v w : ℤ) (m : List (Text × ℤ))
    → text_eq k j ≡ true
    → (get k ((j, w) ∷ m) ≡ some w) × (put k v ((j, w) ∷ m) ≡ (j, v) ∷ m)
unfolding put get
at_key k j v w m e = (ground arith, ground arith)

past_key :
    (k j : Text) (v w : ℤ) (m : List (Text × ℤ))
    → text_eq k j ≡ false
    → (get k ((j, w) ∷ m) ≡ get k m) × (put k v ((j, w) ∷ m) ≡ (j, w) ∷ put k v m)
unfolding put get
past_key k j v w m e = (ground arith, ground arith)

at_end : (k : Text) (q : ℤ) → sum (values (put k (or_zero (get k []) +ℤ q) [])) ≡ pos 0 +ℤ q
unfolding put get
at_end k q = add_zero (pos 0 +ℤ q)

sum-put :
    (k : Text) (q : ℤ) (m : List (Text × ℤ))
    → sum (values (put k (or_zero (get k m) +ℤ q) m)) ≡ sum (values m) +ℤ q
sum-put k q [] = at_end k q
sum-put k q ((j, w) ∷ m) = elim (Bool-cases (text_eq k j)) [
  | inl e ↦
      rw ((at_key k j w w m e).0, (at_key k j (w +ℤ q) w m e).1)
        (add_right_comm w q (sum (values m)))
  | inr e ↦
      rw ((past_key k j w w m e).0, (past_key k j (or_zero (get k m) +ℤ q) w m e).1)
        (ap (λ x. w +ℤ x) (sum-put k q m) ∙ sym (add_assoc w (sum (values m)) q))
]

sum-sum_slices :
    (total : ℤ) (m : List (Text × ℤ)) (slices : List Slice)
    → sum (values m) ≡ total
    → let r = sum_slices total m slices in
      (sum (values r.1) ≡ r.0) × (r.0 ≡ total +ℤ sum (input_quantities slices))
unfolding sum_slices
sum-sum_slices total m [] h = (h, sym (add_zero total))
sum-sum_slices total m (s ∷ slices) h =
    let q : ℤ = or_zero s.quantity in
    let (same, all) =
      sum-sum_slices (total +ℤ q) (put s.key (or_zero (get s.key m) +ℤ q) m) slices
        (sum-put s.key q m ∙ ap (λ x. x +ℤ q) h) in
    (same, all ∙ add_assoc total q (sum (input_quantities slices)))

sum-insert_slice :
    (x : ConcentrationSlice) (xs : List ConcentrationSlice)
    → sum (slice_quantities (insert_slice x xs)) ≡ x.quantity +ℤ sum (slice_quantities xs)
unfolding insert_slice
sum-insert_slice x [] = refl
sum-insert_slice x (y ∷ ys) = elim (Bool-cases (leb_ℤ y.share_bps x.share_bps)) [
  | inl e ↦ rw e refl
  | inr e ↦ rw e (
      ap (λ t. y.quantity +ℤ t) (sum-insert_slice x ys)
      ∙ sym (add_assoc y.quantity x.quantity (sum (slice_quantities ys)))
      ∙ ap (λ t. t +ℤ sum (slice_quantities ys)) (add_comm y.quantity x.quantity)
      ∙ add_assoc x.quantity y.quantity (sum (slice_quantities ys)))
]

sum-sort_slices :
    (xs : List ConcentrationSlice)
    → sum (slice_quantities (sort_slices xs)) ≡ sum (slice_quantities xs)
unfolding sort_slices
sum-sort_slices [] = refl
sum-sort_slices (x ∷ xs) =
    sum-insert_slice x (sort_slices xs) ∙ ap (λ t. x.quantity +ℤ t) (sum-sort_slices xs)

quantities-shares :
    (total : ℤ) (m : List (Text × ℤ)) → slice_quantities (map (share_of total) m) ≡ values m
quantities-shares total [] = refl
quantities-shares total (e ∷ m) = ap (λ t. e.1 ∷ t) (quantities-shares total m)

-- What the slices of a report come to.
pub record AddsUp (slices : List Slice) (r : ConcentrationReport) : Type 0 where
  pub total : ℤ
  pub shown : r.total ≡ some total
  pub shares : sum (slice_quantities r.slices) ≡ total
  pub inputs : sum (input_quantities slices) ≡ total

shares-AddsUp :
    (slices : List Slice) (total : ℤ) (m : List (Text × ℤ))
    → sum (values m) ≡ total
    → sum (input_quantities slices) ≡ total
    → (shares (total, m)).available ≡ true
    → AddsUp slices (shares (total, m))
unfolding shares
shares-AddsUp slices total m same inputs h = elim (Bool-cases (eqb_ℤ total (pos 0))) [
  | inl e ↦ absurd (ground arith)
  | inr e ↦ rw e (record {
    total = total;
    shown = refl;
    shares = sum-sort_slices (map (share_of total) m) ∙ ap sum (quantities-shares total m) ∙ same;
    inputs = inputs;
  })
]

all-AddsUp :
    (slices : List Slice)
    → (shares (sum_slices (pos 0) [] slices)).available ≡ true
    → AddsUp slices (shares (sum_slices (pos 0) [] slices))
all-AddsUp slices h =
    let (same, all) = sum-sum_slices (pos 0) [] slices refl in
    shares-AddsUp slices (sum_slices (pos 0) [] slices).0 (sum_slices (pos 0) [] slices).1 same
      (sym (
        all
        ∙ add_comm (pos 0) (sum (input_quantities slices))
        ∙ add_zero (sum (input_quantities slices))))
      h

chosen :
    (b c : Bool) (x y r : ConcentrationReport)
    → x.available ≡ false
    → y.available ≡ false
    → (if b then x else if c then y else r).available ≡ true
    → (b ≡ false) × ((if b then x else if c then y else r) ≡ r)
chosen true c x y r hx hy h = absurd (ground arith)
chosen false true x y r hx hy h = absurd (ground arith)
chosen false false x y r hx hy h = (refl, refl)

none_of : (slices : List Slice) → ltb 0 (length slices) ≡ false → slices ≡ []
none_of [] h = refl
none_of (s ∷ slices) h = absurd (ground arith)

-- An available concentration report shows a total that is both the sum of the quantities of the positions and the
-- sum of the quantities of its slices; and it has no position of an unknown quantity.
pub concentration-AddsUp :
    (slices : List Slice)
    → (concentration_by_quantity slices).available ≡ true
    → AddsUp slices (concentration_by_quantity slices) × (filter is_unknown slices ≡ [])
unfolding concentration_by_quantity
concentration-AddsUp [] h = absurd (ground arith)
concentration-AddsUp (s ∷ rest) h =
    let unknown : List Slice = filter is_unknown (s ∷ rest) in
    let (no_unknown, same) =
      chosen (ltb 0 (length unknown))
        (ltb 1 (length (distinct (map (λ (t : Slice). t.asset_id) (s ∷ rest)))))
        (unavailable_report (unknown_reason unknown))
        (unavailable_report
          (codes "Positions are held in different assets, which cannot be added together."))
        (shares (sum_slices (pos 0) [] (s ∷ rest))) refl refl h in
    (
      rw same
          (all-AddsUp (s ∷ rest) (sym (ap (λ (r : ConcentrationReport). r.available) same) ∙ h)),
      none_of unknown no_unknown,
    )
