-- ===== src/Manifest/Releases.antt =====
-- `releases_for` of manifest.py, and its `sorted`: a stable sort by `version_key`.
use ha_nrf52840_ot_rcp_updat.Base.{
  Bool, true, false, not, List, [], ◌∷◌, map, Result, ok, if◌then◌else◌, ◌>>=◌,
}
use ha_nrf52840_ot_rcp_updat.Base.Text.{Text, text_eq}
use ha_nrf52840_ot_rcp_updat.Models.Value.{ValidationError}
use ha_nrf52840_ot_rcp_updat.Models.Firmware.{FirmwareRelease}
use ha_nrf52840_ot_rcp_updat.Models.Version.{VersionKey, version_key, key_lt, is_prerelease}

-- The condition of the comprehension, which asks for the channel only when the hardware fits.
unfoldable pub is_wanted : Text → Bool → FirmwareRelease → Result ValidationError Bool
is_wanted hardware allow_prereleases release =
    if not (text_eq release.hardware hardware)
    then ok false
    else if allow_prereleases
    then ok true
    else (do preview ← is_prerelease release.ncs_version; ok (not preview))

unfoldable pub select_releases :
    Text → Bool → List FirmwareRelease → Result ValidationError (List FirmwareRelease)
select_releases hardware allow_prereleases [] = ok []
select_releases hardware allow_prereleases (release ∷ others) = do
  keep ← is_wanted hardware allow_prereleases release
  rest ← select_releases hardware allow_prereleases others
  ok (if keep then release ∷ rest else rest)

-- A release with its sort key.
pub record Keyed : Type 0 where
  pub key : VersionKey
  pub release : FirmwareRelease

unfoldable pub with_keys : List FirmwareRelease → Result ValidationError (List Keyed)
with_keys [] = ok []
with_keys (release ∷ others) = do
  key ← version_key release.ncs_version
  rest ← with_keys others
  ok (record { key = key; release = release } ∷ rest)

-- In front of the first item that is not smaller, so that equal items keep their order.
unfoldable pub insert_keyed : Keyed → List Keyed → List Keyed
insert_keyed item [] = item ∷ []
insert_keyed item (first ∷ others) =
    let behind = insert_keyed item others in
    if key_lt first.key item.key then first ∷ behind else item ∷ first ∷ others

unfoldable pub sort_keyed : List Keyed → List Keyed
sort_keyed [] = []
sort_keyed (item ∷ others) = insert_keyed item (sort_keyed others)

unfoldable pub releases_for :
    Text → Bool → List FirmwareRelease → Result ValidationError (List FirmwareRelease)
releases_for hardware allow_prereleases releases = do
  chosen ← select_releases hardware allow_prereleases releases
  keyed ← with_keys chosen
  ok (map (λ (item : Keyed). item.release) (sort_keyed keyed))
