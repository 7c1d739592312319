-- ===== src/Ids/RoundTrip.antt =====
-- packages/core/src/ids.ts: an asset's text is read back as the asset.
use capital_os.Shared.{
  ℕ, ◌==◌, ==_iff, Text, codes, join, all, not, ◌≡◌, refl, sym, ap, ◌∙◌, arith, Bool, true, false,
  List, [], ◌∷◌, ◌++◌, Bool-cases, inl, inr,
}
use capital_os.Errors.{ok}
use capital_os.Network.{StacksNetwork, mainnet, testnet, Chain, bitcoin, stacks}
use capital_os.Ids.{
  Symbol, btc, stx, AssetIdentity, native, contract, AssetId, colon, split_colon, format_asset_id,
  parse_asset_id, parse_contract,
}

abbrev pub no_colon : Text → Bool
no_colon s = all (λ c. not (c == colon)) s

abbrev parts : Text × List Text → List Text
parts (p, ps) = p ∷ ps

split_at :
    (s t : Text) → no_colon s ≡ true → split_colon (s ++ colon ∷ t) ≡ (s, parts (split_colon t))
unfolding split_colon
split_at [] t h = refl
split_at (c ∷ s) t h = ground (arith, split_at s t (ground arith))

join-cons :
    (c : ℕ) (p : Text) (ps : List Text)
    → join (colon ∷ []) ((c ∷ p) ∷ ps) ≡ c ∷ join (colon ∷ []) (p ∷ ps)
unfolding join
join-cons c p [] = refl
join-cons c p (q ∷ ps) = refl

join-nil :
    (p : Text) (ps : List Text)
    → join (colon ∷ []) ([] ∷ p ∷ ps) ≡ colon ∷ join (colon ∷ []) (p ∷ ps)
unfolding join
join-nil p ps = refl

at_colon :
    (c : ℕ) (s : Text) → (c == colon) ≡ true → split_colon (c ∷ s) ≡ ([], parts (split_colon s))
unfolding split_colon
at_colon c s e = ground arith

past_colon :
    (c : ℕ) (s : Text)
    → (c == colon) ≡ false
    → split_colon (c ∷ s) ≡ (c ∷ (split_colon s).0, (split_colon s).1)
unfolding split_colon
past_colon c s e = ground arith

join-split_nil : join (colon ∷ []) (parts (split_colon [])) ≡ []
unfolding join split_colon
join-split_nil = refl

join-split : (s : Text) → join (colon ∷ []) (parts (split_colon s)) ≡ s
join-split [] = join-split_nil
join-split (c ∷ s) = elim (Bool-cases (c == colon)) [
  | inl e ↦ rw (at_colon c s e) (
      join-nil (split_colon s).0 (split_colon s).1
      ∙ (λ i. sym ((==_iff c colon).0 e) i ∷ join-split s i))
  | inr e ↦
      rw (past_colon c s e)
        (join-cons c (split_colon s).0 (split_colon s).1 ∙ ap (λ t. c ∷ t) (join-split s))
]

-- A principal, where there is one, that has no colon in it.
abbrev pub Readable : AssetIdentity → Type 0
Readable (native symbol) = Unit
Readable (contract principal asset_name) = no_colon principal ≡ true

native_lem :
    (c : Chain) (n : StacksNetwork) (s : Symbol)
    → let a : AssetId = record { chain = c; network = n; identity = native s } in
      parse_asset_id (format_asset_id a) ≡ ok a
unfolding format_asset_id parse_asset_id codes
native_lem bitcoin mainnet btc = refl
native_lem bitcoin mainnet stx = refl
native_lem bitcoin testnet btc = refl
native_lem bitcoin testnet stx = refl
native_lem stacks mainnet btc = refl
native_lem stacks mainnet stx = refl
native_lem stacks testnet btc = refl
native_lem stacks testnet stx = refl

contract-parts :
    (value : Text) (c : Chain) (n : StacksNetwork) (p q : Text)
    → no_colon p ≡ true
    → parse_contract value c n (parts (split_colon (p ++ colon ∷ q)))
      ≡ ok (record { chain = c; network = n; identity = contract p q })
unfolding parse_contract
contract-parts value c n p q h =
    rw (split_at p q h)
      (λ i. ok (record { chain = c; network = n; identity = contract p (join-split q i) }))

contract_lem :
    (c : Chain) (n : StacksNetwork) (p q : Text)
    → no_colon p ≡ true
    → let a : AssetId = record { chain = c; network = n; identity = contract p q } in
      parse_asset_id (format_asset_id a) ≡ ok a
unfolding format_asset_id parse_asset_id codes
contract_lem bitcoin mainnet p q h = contract-parts _ _ _ p q h
contract_lem bitcoin testnet p q h = contract-parts _ _ _ p q h
contract_lem stacks mainnet p q h = contract-parts _ _ _ p q h
contract_lem stacks testnet p q h = contract-parts _ _ _ p q h

by_identity :
    (c : Chain) (n : StacksNetwork) (i : AssetIdentity)
    → Readable i
    → let a : AssetId = record { chain = c; network = n; identity = i } in
      parse_asset_id (format_asset_id a) ≡ ok a
by_identity c n (native s) h = native_lem c n s
by_identity c n (contract p q) h = contract_lem c n p q h

-- The text of an asset is read back as that asset, for native assets, and for contracts whose principal has no colon
-- in it; the asset's name may have any.
pub parse_asset_id-format_asset_id :
    (a : AssetId) → Readable a.identity → parse_asset_id (format_asset_id a) ≡ ok a
parse_asset_id-format_asset_id a h = by_identity a.chain a.network a.identity h
