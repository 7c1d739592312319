-- ===== src/Ids.antt =====
-- packages/core/src/ids.ts: asset and deployment identifiers, and their text form.
pub mod RoundTrip
mod Examples
use capital_os.Shared.{
  Text, codes, text_eq, join, Bool, Option, none, some, List, [], ◌∷◌, ◌++◌, if◌then◌else◌, ℕ, ◌==◌,
}
use capital_os.Errors.{Result, ok, err, error}
use capital_os.Network.{StacksNetwork, Chain, bitcoin, stacks}

pub data Symbol : Type 0 where
  btc stx : Symbol

pub data AssetIdentity : Type 0 where
  native : Symbol → AssetIdentity
  contract : Text → Text → AssetIdentity

pub record AssetId : Type 0 where
  pub chain : Chain
  pub network : StacksNetwork
  pub identity : AssetIdentity

pub record DeploymentId : Type 0 where
  pub protocol : Text
  pub network : StacksNetwork
  pub contract_id : Text
  pub revision : Text

unfoldable pub chain_text : Chain → Text
chain_text bitcoin = codes "bitcoin"
chain_text stacks = codes "stacks"

unfoldable pub network_text : StacksNetwork → Text
network_text StacksNetwork.mainnet = codes "mainnet"
network_text StacksNetwork.testnet = codes "testnet"

unfoldable pub symbol_text : Symbol → Text
symbol_text btc = codes "btc"
symbol_text stx = codes "stx"

abbrev pub colon : ℕ
colon = b':'

-- The part of the text that the asset's kind decides.
unfoldable pub identity_text : AssetIdentity → Text
unfolding symbol_text
identity_text (native symbol) = codes "native:" ++ symbol_text symbol
identity_text (contract principal asset_name) = codes "contract:" ++ principal ++ colon ∷ asset_name

unfoldable pub format_asset_id : AssetId → Text
unfolding chain_text network_text identity_text
format_asset_id a =
    chain_text a.chain ++ colon ∷ network_text a.network ++ colon ∷ identity_text a.identity

-- `text.split(":")`: the part before the first colon, and the others.
unfoldable pub split_colon : Text → Text × List Text
split_colon [] = ([], [])
split_colon (c ∷ s) =
    let (p, ps) = split_colon s in if c == colon then ([], p ∷ ps) else (c ∷ p, ps)

unfoldable pub parse_chain : Text → Option Chain
unfolding codes text_eq
parse_chain s =
    if text_eq s (codes "bitcoin")
    then some bitcoin
    else if text_eq s (codes "stacks")
    then some stacks
    else none

unfoldable pub parse_network : Text → Option StacksNetwork
unfolding codes text_eq
parse_network s =
    if text_eq s (codes "mainnet")
    then some StacksNetwork.mainnet
    else if text_eq s (codes "testnet")
    then some StacksNetwork.testnet
    else none

unfoldable pub parse_symbol : Text → Option Symbol
unfolding codes text_eq
parse_symbol s =
    if text_eq s (codes "btc") then some btc else if text_eq s (codes "stx") then some stx else none

abbrev ticker_alone : Text → Result AssetId
ticker_alone value = err (error (codes "Ticker alone is never an identifier: " ++ value))

abbrev unknown_native : Text → Result AssetId
unknown_native value = err (error (codes "Unknown native asset: " ++ value))

abbrev with_symbol : Text → Chain → StacksNetwork → Option Symbol → Result AssetId
with_symbol value chain network none = unknown_native value
with_symbol value chain network (some symbol) =
    ok (record { chain = chain; network = network; identity = native symbol })

unfoldable pub parse_native : Text → Chain → StacksNetwork → List Text → Result AssetId
unfolding parse_symbol
parse_native value chain network [] = unknown_native value
parse_native value chain network (symbol ∷ rest) =
    with_symbol value chain network (parse_symbol symbol)

unfoldable pub parse_contract : Text → Chain → StacksNetwork → List Text → Result AssetId
unfolding codes join
parse_contract value chain network (principal ∷ name ∷ names) = ok (record {
  chain = chain;
  network = network;
  identity = contract principal (join (colon ∷ []) (name ∷ names));
})
parse_contract value chain network _ = ticker_alone value

-- The parts from the kind on; a missing kind is neither of the two.
unfoldable pub parse_identity : Text → Chain → StacksNetwork → List Text → Result AssetId
unfolding codes text_eq parse_native parse_contract
parse_identity value chain network [] = ticker_alone value
parse_identity value chain network (kind ∷ parts) =
    if text_eq kind (codes "native")
    then parse_native value chain network parts
    else if text_eq kind (codes "contract")
    then parse_contract value chain network parts
    else ticker_alone value

abbrev on_network : Text → Option Chain → Option StacksNetwork → List Text → Result AssetId
on_network value (some chain) (some network) parts = parse_identity value chain network parts
on_network value _ _ parts = ticker_alone value

abbrev from_parts : Text → Text × List Text → Result AssetId
from_parts value (chain, []) = ticker_alone value
from_parts value (chain, network ∷ parts) =
    on_network value (parse_chain chain) (parse_network network) parts

unfoldable pub parse_asset_id : Text → Result AssetId
unfolding parse_chain parse_network parse_identity split_colon
parse_asset_id value = from_parts value (split_colon value)

unfoldable pub format_deployment_id : DeploymentId → Text
unfolding network_text
format_deployment_id d =
    d.protocol ++ colon ∷ network_text d.network ++ colon ∷ d.contract_id ++ b'@' ∷ d.revision

unfoldable pub same_asset : AssetId → AssetId → Bool
same_asset left right = text_eq (format_asset_id left) (format_asset_id right)

abbrev pub bitcoin_native : StacksNetwork → AssetId
bitcoin_native network = record { chain = bitcoin; network = network; identity = native btc }

abbrev pub stacks_native : StacksNetwork → AssetId
stacks_native network = record { chain = stacks; network = network; identity = native stx }

abbrev pub sip10 : StacksNetwork → Text → Text → AssetId
sip10 network principal asset_name = record {
  chain = stacks;
  network = network;
  identity = contract principal asset_name;
}
