-- ===== src/Valuation/Totals.antt =====
-- packages/core/src/valuation.ts: every holding is accounted for, and the total is that of the items.
use capital_os.Shared.{
  ◌+◌, Text, ℤ, pos, ◌+ℤ◌, show_ℤ, read_ℤ, read_ℤ-show_ℤ, add_zero, sum, sum-snoc, get, length,
  length-append, ◌==◌, ◌≡◌, refl, sym, ap, ◌∙◌, arith, true, false, Option, none, some, List, [],
  ◌∷◌, ◌++◌, map, All, All-append, append_assoc, append-nil, Bool-cases, inl, inr, ◌⊎◌,
}
use capital_os.Errors.{ok, bind-ok}
use capital_os.Valuation.Readings.{AssetValuation}
use capital_os.Valuation.Portfolio.{
  Holding, valued, ValuedHoldingItem, PortfolioValuation, Verdict, worth, without, value_holding,
  Tally, empty_tally, tally, tally_all, summarize, evaluate_portfolio_valuation,
}

-- The value that an item shows, 0 where it shows none.
abbrev shown_value : Option Text → ℤ
shown_value none = pos 0
shown_value (some t) = read_ℤ t

abbrev pub item_values : List ValuedHoldingItem → List ℤ
item_values items = map (λ (i : ValuedHoldingItem). shown_value i.usd_value) items

abbrev pub item_assets : List ValuedHoldingItem → List Text
item_assets items = map (λ (i : ValuedHoldingItem). i.asset_id) items

map-snoc :
    {A B : Type 0} (f : A → B) (xs : List A) (x : A) → map f (xs ++ x ∷ []) ≡ map f xs ++ f x ∷ []
map-snoc f [] x = refl
map-snoc f (y ∷ ys) x = ap (λ t. f y ∷ t) (map-snoc f ys x)

-- What holds of the loop's variables once these holdings are done.
record Done (seen : List Holding) (t : Tally) : Type 0 where
  assets : item_assets t.items ≡ map (λ (h : Holding). h.asset_id) seen
  counts : length t.valued_assets + length t.unvalued_assets ≡ length seen
  total : sum (item_values t.items) ≡ t.total
  complete : t.unvalued_assets ≡ [] → All (λ (i : ValuedHoldingItem). i.status ≡ valued) t.items
  some_value : t.has_any_valued ≡ false → t.valued_assets ≡ []

snoc-nonempty : {A : Type 0} (xs : List A) (x : A) → xs ++ x ∷ [] ≡ [] → ⊥
snoc-nonempty [] x h = absurd (ground arith)
snoc-nonempty (y ∷ ys) x h = absurd (ground arith)

tally-Done :
    (seen : List Holding) (h : Holding) (v : Option AssetValuation) (verdict : Verdict) (t : Tally)
    → Done seen t
    → Done (seen ++ h ∷ []) (tally h v verdict t)
unfolding tally
tally-Done seen h v (worth usd) t d = record {
  assets = map-snoc _ t.items _ ∙ ap (λ x. x ++ h.asset_id ∷ []) d.assets ∙ sym (map-snoc _ seen h);
  counts = omega (
    arith,
    d.counts,
    length-append t.valued_assets (h.asset_id ∷ []),
    length-append seen (h ∷ []),
  );
  total =
      ap sum (map-snoc _ t.items _)
      ∙ sum-snoc (item_values t.items) _
      ∙ (λ i. d.total i +ℤ read_ℤ-show_ℤ usd i);
  complete = λ e. All-append _ t.items _ (d.complete e) (refl, tt);
  some_value = λ e. absurd (ground arith);
}
tally-Done seen h v (without status reason) t d = record {
  assets = map-snoc _ t.items _ ∙ ap (λ x. x ++ h.asset_id ∷ []) d.assets ∙ sym (map-snoc _ seen h);
  counts = omega (
    arith,
    d.counts,
    length-append t.unvalued_assets
        (record { asset_id = h.asset_id; reason = reason; quantity = h.quantity } ∷ []),
    length-append seen (h ∷ []),
  );
  total =
      ap sum (map-snoc _ t.items _) ∙ sum-snoc (item_values t.items) (pos 0) ∙ add_zero _ ∙ d.total;
  complete = λ e. absurd (snoc-nonempty t.unvalued_assets _ e);
  some_value = d.some_value;
}

all-Done :
    (m : List (Text × AssetValuation)) (seen rest : List Holding) (t t' : Tally)
    → Done seen t
    → tally_all m t rest ≡ ok t'
    → Done (seen ++ rest) t'
unfolding tally_all
all-Done m seen [] t t' d h = let same : t ≡ t' = ground arith in rw (append-nil seen, sym same) d
all-Done m seen (x ∷ rest) t t' d h =
    let (verdict, reached, h1) = bind-ok (value_holding x (get x.asset_id m)) _ t' h in
    rw (sym (append_assoc seen (x ∷ []) rest)) (
      all-Done m (seen ++ x ∷ []) rest (tally x (get x.asset_id m) verdict t) t'
        (tally-Done seen x (get x.asset_id m) verdict t d) h1)

-- How a valuation accounts for the holdings.
pub record Accounts (holdings : List Holding) (r : PortfolioValuation) : Type 0 where
  pub assets : item_assets r.items ≡ map (λ (h : Holding). h.asset_id) holdings
  pub all_counted : r.coverage.valued_count + r.coverage.unvalued_count ≡ r.coverage.total_count
  pub count : r.coverage.total_count ≡ length holdings
  pub total :
      (r.total_usd ≡ some (show_ℤ (sum (item_values r.items))))
      ⊎ ((r.total_usd ≡ none) × (r.coverage.valued_count ≡ 0))
  pub complete :
      r.coverage.is_complete ≡ true → All (λ (i : ValuedHoldingItem). i.status ≡ valued) r.items

empty_of : {A : Type 0} (xs : List A) → (length xs == 0) ≡ true → xs ≡ []
empty_of [] h = refl
empty_of (x ∷ xs) h = absurd (ground arith)

no_valued : (xs : List Text) → xs ≡ [] → length xs ≡ 0
no_valued [] h = refl
no_valued (x ∷ xs) h = absurd (ground arith)

summarize-Accounts :
    (holdings : List Holding) (t : Tally)
    → Done holdings t
    → Accounts holdings (summarize (length holdings) t)
unfolding summarize
summarize-Accounts holdings t d = record {
  assets = d.assets;
  all_counted = d.counts;
  count = refl;
  total = elim (Bool-cases t.has_any_valued) [
    | inl e ↦ rw e (inl (ap (λ z. some (show_ℤ z)) (sym d.total)))
    | inr e ↦ rw e (inr (refl, no_valued t.valued_assets (d.some_value e)))
  ];
  complete = λ e. d.complete (empty_of t.unvalued_assets (ground arith));
}

-- A valuation has one item for each holding, in order; the numbers of valued and unvalued holdings add up to the
-- number of holdings; the total is the sum of the values that the items show, or absent when nothing is valued;
-- and it counts as complete only when every item is valued.
pub portfolio-Accounts :
    (holdings : List Holding) (m : List (Text × AssetValuation)) (r : PortfolioValuation)
    → evaluate_portfolio_valuation holdings m ≡ ok r
    → Accounts holdings r
unfolding evaluate_portfolio_valuation
portfolio-Accounts holdings m r h =
    let (t, done, h1) = bind-ok (tally_all m empty_tally holdings) _ r h in
    let same : summarize (length holdings) t ≡ r = ground arith in
    rw (sym same) (
      summarize-Accounts holdings t (
        all-Done m [] holdings empty_tally t
          (record {
            assets = refl;
            counts = refl;
            total = refl;
            complete = λ e. tt;
            some_value = λ e. refl;
          })
          done))
