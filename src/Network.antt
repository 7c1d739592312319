-- ===== src/Network.antt =====
-- packages/core/src/network.ts: the networks, and how an address shows which one it is of.
use capital_os.Shared.{
  ℕ, Text, codes, text_eq, to_lower, starts_with, length, all, any, leb, ◌==◌, if◌then◌else◌, Bool,
  true, false, ◌&&◌, ◌||◌, Option, none, some, [], ◌∷◌,
}
use capital_os.Errors.{Result, ok, err, error}

pub data StacksNetwork : Type 0 where
  mainnet testnet : StacksNetwork

pub data BitcoinNetworkKind : Type 0 where
  mainnet test regtest : BitcoinNetworkKind

pub data Chain : Type 0 where
  bitcoin stacks : Chain

abbrev pub bitcoin_for_stacks : StacksNetwork → BitcoinNetworkKind
bitcoin_for_stacks StacksNetwork.mainnet = BitcoinNetworkKind.mainnet
bitcoin_for_stacks testnet = regtest

abbrev pub network_eq : StacksNetwork → StacksNetwork → Bool
network_eq StacksNetwork.mainnet StacksNetwork.mainnet = true
network_eq testnet testnet = true
network_eq _ _ = false

abbrev pub kind_eq : BitcoinNetworkKind → BitcoinNetworkKind → Bool
kind_eq BitcoinNetworkKind.mainnet BitcoinNetworkKind.mainnet = true
kind_eq test test = true
kind_eq regtest regtest = true
kind_eq _ _ = false

abbrev is_digit : ℕ → Bool
is_digit c = leb b'0' c && leb c b'9'

-- `[0-9A-HJKMNP-TV-Z]`
unfoldable pub is_c32 : ℕ → Bool
is_c32 c =
    is_digit c
    || (leb b'A' c && leb c b'H')
    || c == b'J'
    || c == b'K'
    || c == b'M'
    || c == b'N'
    || (leb b'P' c && leb c b'T')
    || (leb b'V' c && leb c b'Z')

abbrev within : ℕ → ℕ → ℕ → Bool
within lo hi n = leb lo n && leb n hi

-- `S`, a version letter, and 36 to 40 characters of the c32 alphabet.
unfoldable pub stacks_pattern : ℕ → ℕ → Text → Bool
unfolding is_c32
stacks_pattern v w (s ∷ c ∷ body) =
    s == b'S' && (c == v || c == w) && all is_c32 body && within 36 40 (length body)
stacks_pattern v w _ = false

unfoldable pub stacks_address_network : Text → Option StacksNetwork
unfolding stacks_pattern
stacks_address_network address =
    if stacks_pattern b'P' b'M' address
    then some StacksNetwork.mainnet
    else if stacks_pattern b'T' b'N' address
    then some testnet
    else none

-- `[023456789acdefghjklmnpqrstuvwxyz]`
unfoldable pub is_bech32 : ℕ → Bool
is_bech32 c =
    c == b'0'
    || (leb b'2' c && leb c b'9')
    || c == b'a'
    || (leb b'c' c && leb c b'h')
    || (leb b'j' c && leb c b'n')
    || (leb b'p' c && leb c b'z')

-- `[1-9A-HJ-NP-Za-km-z]`
unfoldable pub is_base58 : ℕ → Bool
is_base58 c =
    (leb b'1' c && leb c b'9')
    || (leb b'A' c && leb c b'H')
    || (leb b'J' c && leb c b'N')
    || (leb b'P' c && leb c b'Z')
    || (leb b'a' c && leb c b'k')
    || (leb b'm' c && leb c b'z')

abbrev drop_prefix : Text → Text → Text
drop_prefix [] s = s
drop_prefix (c ∷ p) [] = []
drop_prefix (c ∷ p) (d ∷ s) = drop_prefix p s

-- `^<prefix><bech32 data>$`
unfoldable pub bech32_pattern : Text → Text → Bool
unfolding is_bech32 starts_with
bech32_pattern prefix s =
    let body = drop_prefix prefix s in
    starts_with s prefix && all is_bech32 body && within 8 87 (length body)

abbrev is_one_of : ℕ → Text → Bool
is_one_of c = any (λ f. c == f)

-- `^[<first>]<base58 body>$`
unfoldable pub base58_pattern : Text → Text → Bool
unfolding is_base58
base58_pattern firsts [] = false
base58_pattern firsts (c ∷ body) =
    is_one_of c firsts && all is_base58 body && within 25 34 (length body)

unfoldable pub bitcoin_address_kind : Text → Option BitcoinNetworkKind
unfolding bech32_pattern base58_pattern codes to_lower
bitcoin_address_kind address =
    let lower = to_lower address in
    if bech32_pattern (codes "bcrt1") lower
    then some regtest
    else if bech32_pattern (codes "bc1") lower || base58_pattern (codes "13") address
    then some BitcoinNetworkKind.mainnet
    else if bech32_pattern (codes "tb1") lower || base58_pattern (codes "mn2") address
    then some test
    else none

-- An absent value is `none`.
unfoldable pub require_network : Option Text → Result StacksNetwork
unfolding codes text_eq
require_network none =
    err (error (codes "Pass network testnet or mainnet. There is no default network."))
require_network (some value) =
    if text_eq value (codes "mainnet")
    then ok StacksNetwork.mainnet
    else if text_eq value (codes "testnet")
    then ok testnet
    else err (error (codes "Pass network testnet or mainnet. There is no default network."))
