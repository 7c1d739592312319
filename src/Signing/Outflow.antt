-- ===== src/Signing/Outflow.antt =====
-- packages/core/src/signing.ts: what the steps of a plan let out of the wallet, and how inputs answer to it.
use capital_os.Shared.{
  codes, text_eq_iff, true, List, [], ◌∷◌, ◌++◌, ◌≡◌, arith, eq_of_parts, append_assoc,
}
use mathlib.Core.List.{Perm}
use mathlib.Core.List.Perm
use capital_os.Errors.{ok}
use capital_os.Ids.{native, btc, format_asset_id, same_asset}
use capital_os.Amounts.{AssetAmount, Value, assert_financial_int}
use capital_os.Plan.{
  PostCondition, PostConditionKind, send_lte, send_eq, send_gte, receive_gte, UnsignedPayload,
  bitcoin_deposit, stacks_contract_call, PlanStep,
}
use capital_os.Signing.Checks.{amounts_equal}

-- Amounts of one asset, by its identifier, and of one quantity.
abbrev pub Same : AssetAmount → AssetAmount → Type 0
Same a b = (format_asset_id a.asset ≡ format_asset_id b.asset) × (a.quantity ≡ b.quantity)

pub amounts_equal-Same : (a b : AssetAmount) → amounts_equal a b ≡ true → Same a b
unfolding amounts_equal same_asset
amounts_equal-Same a b h = (
  (text_eq_iff (format_asset_id a.asset) (format_asset_id b.asset)).0 (ground arith),
  eq_of_parts a.quantity b.quantity (ground arith),
)

-- What a step names as leaving the wallet: the amount of a send post-condition, or the satoshis of a deposit.
pub data Outflow : Type 0 where
  sent : AssetAmount → Outflow
  deposited : Value → Outflow

abbrev pub condition_outflow : PostConditionKind → AssetAmount → List Outflow
condition_outflow send_lte a = sent a ∷ []
condition_outflow send_eq a = sent a ∷ []
condition_outflow send_gte a = sent a ∷ []
condition_outflow receive_gte a = []

unfoldable pub conditions_outflow : List PostCondition → List Outflow
conditions_outflow [] = []
conditions_outflow (c ∷ cs) = condition_outflow c.mode c.amount ++ conditions_outflow cs

unfoldable pub payload_outflow : UnsignedPayload → List Outflow
payload_outflow (bitcoin_deposit p) = deposited p.amount_sats ∷ []
payload_outflow (stacks_contract_call p) = conditions_outflow p.post_conditions

unfoldable pub steps_outflow : List PlanStep → List Outflow
unfolding payload_outflow conditions_outflow
steps_outflow [] = []
steps_outflow (s ∷ steps) = payload_outflow s.payload ++ steps_outflow steps

-- An input that answers to it: the same asset and quantity, or bitcoin of that many satoshis.
abbrev pub Fits : AssetAmount → Outflow → Type 0
Fits a (sent b) = Same a b
Fits a (deposited sats) =
    (a.asset.identity ≡ native btc)
    × (assert_financial_int sats (codes "bitcoin deposit amount") ≡ ok a.quantity)

-- Two lists of one length whose items are related pair by pair.
pub data Pairs {A B : Type 0} (R : A → B → Type 0) : List A → List B → Type 0 where
  done : Pairs R [] []
  pair :
      {a : A} {b : B} {xs : List A} {ys : List B}
      → R a b
      → Pairs R xs ys
      → Pairs R (a ∷ xs) (b ∷ ys)

pub Pairs-append :
    {A B : Type 0} {R : A → B → Type 0} {xs xs' : List A} {ys ys' : List B}
    → Pairs R xs ys
    → Pairs R xs' ys'
    → Pairs R (xs ++ xs') (ys ++ ys')
Pairs-append done q = q
Pairs-append (pair r p) q = pair r (Pairs-append p q)

-- Out of a pool come amounts that fit the outflows one by one, and the rest is left.
pub record Covered (pool rest : List AssetAmount) (out : List Outflow) : Type 0 where
  pub used : List AssetAmount
  pub parted : Perm pool (used ++ rest)
  pub fitting : Pairs Fits used out

pub Covered-none : (pool : List AssetAmount) → Covered pool pool []
Covered-none pool = record { used = []; parted = Perm.refl pool; fitting = done }

-- Two spends, one after the other.
pub Covered-then :
    {pool middle rest : List AssetAmount} {here there : List Outflow}
    → Covered pool middle here
    → Covered middle rest there
    → Covered pool rest (here ++ there)
Covered-then {rest = rest} c d = record {
  used = c.used ++ d.used;
  parted =
      rw (append_assoc c.used d.used rest) (Perm.trans c.parted (Perm.append_left c.used d.parted));
  fitting = Pairs-append c.fitting d.fitting;
}
