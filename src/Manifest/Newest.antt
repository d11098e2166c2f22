-- ===== src/Manifest/Newest.antt =====
-- `newest_for` and `release_for` of manifest.py.
use ha_nrf52840_ot_rcp_updat.Base.{
  Bool, ◌&&◌, List, [], ◌∷◌, Option, none, some, Result, ok, err, if◌then◌else◌, ◌>>=◌, map_err,
}
use ha_nrf52840_ot_rcp_updat.Base.Text.{Text, text_eq}
use ha_nrf52840_ot_rcp_updat.Models.Value.{ValidationError}
use ha_nrf52840_ot_rcp_updat.Models.Firmware.{FirmwareRelease}
use ha_nrf52840_ot_rcp_updat.Models.Version.{key_lt}
use ha_nrf52840_ot_rcp_updat.Models.Tokens.{minor_line}
use ha_nrf52840_ot_rcp_updat.Manifest.Releases.{Keyed, with_keys, releases_for}
use ha_nrf52840_ot_rcp_updat.Effects.{Class, manifest, validation}

-- The releases of the pinned minor line, all where none is pinned.
unfoldable pub on_line : Text → List FirmwareRelease → Result ValidationError (List FirmwareRelease)
on_line pinned [] = ok []
on_line pinned (release ∷ others) = do
  line ← minor_line release.ncs_version
  rest ← on_line pinned others
  ok (if text_eq line pinned then release ∷ rest else rest)

unfoldable pub in_policy :
    Option Text → List FirmwareRelease → Result ValidationError (List FirmwareRelease)
in_policy none releases = ok releases
in_policy (some pinned) releases = on_line pinned releases

-- `max` by the key: the first one of the greatest.
unfoldable pub max_from : Keyed → List Keyed → Keyed
max_from best [] = best
max_from best (item ∷ others) = max_from (if key_lt best.key item.key then item else best) others

abbrev pub latest : List Keyed → Result Class FirmwareRelease
latest [] = err manifest
latest (item ∷ others) = ok (max_from item others).release

-- The candidates of `newest_for`, with their keys.
unfoldable pub candidates :
    Text → Bool → Option Text → List FirmwareRelease → Result ValidationError (List Keyed)
candidates hardware allow_prereleases pinned_minor releases = do
  allowed ← releases_for hardware allow_prereleases releases
  chosen ← in_policy pinned_minor allowed
  with_keys chosen

unfoldable pub newest_for :
    Text → Bool → Option Text → List FirmwareRelease → Result Class FirmwareRelease
newest_for hardware allow_prereleases pinned_minor releases = do
  keyed ← map_err (λ _. validation) (candidates hardware allow_prereleases pinned_minor releases)
  latest keyed

-- The releases with this version for this hardware.
unfoldable pub matching_releases : Text → Text → List FirmwareRelease → List FirmwareRelease
matching_releases hardware ncs_version [] = []
matching_releases hardware ncs_version (release ∷ others) =
    let rest = matching_releases hardware ncs_version others in
    if text_eq release.hardware hardware && text_eq release.ncs_version ncs_version
    then release ∷ rest
    else rest

abbrev pub the_only : List FirmwareRelease → Result Class FirmwareRelease
the_only (release ∷ []) = ok release
the_only releases = err manifest

unfoldable pub unique_release : Text → Text → List FirmwareRelease → Result Class FirmwareRelease
unique_release hardware ncs_version releases =
    the_only (matching_releases hardware ncs_version releases)
