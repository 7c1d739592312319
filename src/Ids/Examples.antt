-- ===== src/Ids/Examples.antt =====
-- An asset of packages/core/src/ids.ts whose name has a colon in it.
use capital_os.Shared.{◌≡◌, refl, [], ◌∷◌}
use capital_os.Errors.{ok}
use capital_os.Network.{testnet}
use capital_os.Ids.{AssetId, sip10, parse_asset_id, format_asset_id}
use capital_os.Ids.RoundTrip.{parse_asset_id-format_asset_id}

abbrev token : AssetId
token = sip10 testnet (b'p' ∷ []) (b'a' ∷ b':' ∷ b'b' ∷ [])

parse_asset_id-format_asset_id_example : parse_asset_id (format_asset_id token) ≡ ok token
parse_asset_id-format_asset_id_example = parse_asset_id-format_asset_id token refl
