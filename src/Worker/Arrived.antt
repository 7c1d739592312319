-- ===== src/Worker/Arrived.antt =====
-- apps/worker/src/reconciliation.ts: what the effects of a workflow brought to its owner.
use capital_os.Shared.{
  Text, text_eq_refl, eq_of_text_eq, ℤ, pos, ◌+ℤ◌, big_int, Bool, true, false, Option, none, some,
  List, [], ◌∷◌, filter, All, ◌≡◌, ◌≢◌, refl, ◌∙◌, ◌⊎◌, inl, inr, arith, int_laws, Bool-cases,
  Option-cases,
}
use capital_os.Errors.{ok, bind-ok, ok_inj}
use capital_os.Worker.Reconciliation.{
  StoredEffect, Direction, inward, outward, is_inward, same_owner, same_asset_id, is_received,
  read_bigint, observed_total,
}

-- An owner is as good as another one, or is not known.
abbrev pub OwnerFits : Option Text → Option Text → Type 0
OwnerFits none theirs = Unit
OwnerFits (some owner) none = Unit
OwnerFits (some owner) (some theirs) = theirs ≡ owner

-- An effect brings in an asset, and not to somebody else.
abbrev pub Credited : Option Text → Text → StoredEffect → Type 0
Credited owner asset e = (e.direction ≡ inward) × (e.asset_id ≡ asset) × OwnerFits owner e.owner

abbrev pub SomeCredited : Option Text → Text → List StoredEffect → Type 0
SomeCredited owner asset [] = ⊥
SomeCredited owner asset (e ∷ es) = Credited owner asset e ⊎ SomeCredited owner asset es

-- The total of all quantities credited.
pub data Arrived (owner : Option Text) (asset : Text) : List StoredEffect → ℤ → Type 0 where
  nothing : Arrived owner asset [] (pos 0)
  counted :
      {e : StoredEffect} {es : List StoredEffect} {q t : ℤ}
      → Credited owner asset e
      → (big_int e.quantity ≡ some q)
      → Arrived owner asset es t
      → Arrived owner asset (e ∷ es) (q +ℤ t)
  passed :
      {e : StoredEffect} {es : List StoredEffect} {t : ℤ}
      → ¬ Credited owner asset e
      → Arrived owner asset es t
      → Arrived owner asset (e ∷ es) t

-- What `BigInt` made of a text.
pub read_bigint_lem : (s : Text) (z : ℤ) → read_bigint s ≡ ok z → big_int s ≡ some z
unfolding read_bigint
read_bigint_lem s z h = elim (Option-cases (big_int s)) [
  | inl n ↦ absurd (ground arith)
  | inr (y, e) ↦ ground arith
]

pub read_big_int : (s : Text) (z : ℤ) → big_int s ≡ some z → read_bigint s ≡ ok z
unfolding read_bigint
read_big_int s z h = rw (h, read_bigint) refl

inward-Direction : (d : Direction) → is_inward d ≡ true → d ≡ inward
inward-Direction inward h = refl
inward-Direction outward h = absurd (ground arith)

same_owner-OwnerFits :
    (owner theirs : Option Text) → same_owner owner theirs ≡ true → OwnerFits owner theirs
same_owner-OwnerFits none theirs h = tt
same_owner-OwnerFits (some owner) none h = tt
same_owner-OwnerFits (some owner) (some theirs) h = eq_of_text_eq theirs owner h

same_owner_fits :
    (owner theirs : Option Text) → OwnerFits owner theirs → same_owner owner theirs ≡ true
same_owner_fits none theirs h = refl
same_owner_fits (some owner) none h = refl
same_owner_fits (some owner) (some theirs) h = rw h (text_eq_refl owner)

is_received-Credited :
    (owner : Option Text) (asset : Text) (e : StoredEffect)
    → is_received owner asset e ≡ true
    → Credited owner asset e
unfolding is_received same_asset_id
is_received-Credited owner asset e h = (
  inward-Direction e.direction (ground (arith, h)),
  eq_of_text_eq e.asset_id asset (ground (arith, h)),
  same_owner-OwnerFits owner e.owner (ground (arith, h)),
)

Credited-is_received :
    (owner : Option Text) (asset : Text) (e : StoredEffect)
    → Credited owner asset e
    → is_received owner asset e ≡ true
unfolding is_received same_asset_id
Credited-is_received owner asset e (d, a, o) =
    rw (d, a, text_eq_refl asset, same_owner_fits owner e.owner o) refl

other-NotCredited :
    (owner : Option Text) (asset : Text) (e : StoredEffect)
    → is_received owner asset e ≡ false
    → ¬ Credited owner asset e
other-NotCredited owner asset e h c =
    let yes = Credited-is_received owner asset e c in absurd (ground arith)

filter_hit :
    (test : StoredEffect → Bool) (e : StoredEffect) (es : List StoredEffect)
    → test e ≡ true
    → filter test (e ∷ es) ≡ e ∷ filter test es
filter_hit test e es h = rw (h, filter) refl

filter_miss :
    (test : StoredEffect → Bool) (e : StoredEffect) (es : List StoredEffect)
    → test e ≡ false
    → filter test (e ∷ es) ≡ filter test es
filter_miss test e es h = rw (h, filter) refl

regroup : (a b c : ℤ) → (a +ℤ b) +ℤ c ≡ a +ℤ (b +ℤ c)
regroup a b c = omega int_laws

pub observed_total-Arrived :
    (owner : Option Text) (asset : Text) (es : List StoredEffect) (z total : ℤ)
    → observed_total z (filter (is_received owner asset) es) ≡ ok total
    → (t : ℤ) × Arrived owner asset es t × (total ≡ z +ℤ t)
unfolding observed_total
observed_total-Arrived owner asset [] z total h =
    (pos 0, nothing, rw (ok_inj _ _ h) (omega int_laws))
observed_total-Arrived owner asset (e ∷ es) z total h =
    elim (Bool-cases (is_received owner asset e)) [
      | inl hit ↦
          let (q, read, next) =
            bind-ok (read_bigint e.quantity) _ total (rw (filter_hit _ e es hit) at h) in
          let (t, arrived, sum) = observed_total-Arrived owner asset es (z +ℤ q) total next in
          (
            q +ℤ t,
            counted (is_received-Credited owner asset e hit) (read_bigint_lem e.quantity q read)
                arrived,
            sum ∙ regroup z q t,
          )
      | inr miss ↦
          let (t, arrived, sum) =
            observed_total-Arrived owner asset es z total (rw (filter_miss _ e es miss) at h) in
          (t, passed (other-NotCredited owner asset e miss) arrived, sum)
    ]

pub received-SomeCredited :
    (owner : Option Text) (asset : Text) (es : List StoredEffect)
    → filter (is_received owner asset) es ≢ []
    → SomeCredited owner asset es
received-SomeCredited owner asset [] h = h refl
received-SomeCredited owner asset (e ∷ es) h = elim (Bool-cases (is_received owner asset e)) [
  | inl hit ↦ inl (is_received-Credited owner asset e hit)
  | inr miss ↦ inr (received-SomeCredited owner asset es (rw (miss, filter) at h))
]

pub none_received :
    (owner : Option Text) (asset : Text) (es : List StoredEffect)
    → filter (is_received owner asset) es ≡ []
    → All (λ e. ¬ Credited owner asset e) es
none_received owner asset [] h = tt
none_received owner asset (e ∷ es) h = elim (Bool-cases (is_received owner asset e)) [
  | inl hit ↦ absurd (cc (rw (hit, filter) at h))
  | inr miss ↦
      (other-NotCredited owner asset e miss, none_received owner asset es (rw (miss, filter) at h))
]
