-- ===== src/Manifest/Latest.antt =====
-- What `newest_for` of manifest.py returns.
use ha_nrf52840_ot_rcp_updat.Base.{
  arith, ◌≡◌, refl, ◌⊎◌, inl, inr, Bool-cases, Bool, true, false, List, [], ◌∷◌, Option, Result, ok,
  err, >>=-eq-ok, map_err, All, map,
}
use ha_nrf52840_ot_rcp_updat.Base.Text.{Text}
use ha_nrf52840_ot_rcp_updat.Models.Value.{ValidationError}
use ha_nrf52840_ot_rcp_updat.Models.Firmware.{FirmwareRelease}
use ha_nrf52840_ot_rcp_updat.Models.Version.{VersionKey, version_key, key_lt}
use ha_nrf52840_ot_rcp_updat.Manifest.Releases.{Keyed, with_keys, releases_for}
use ha_nrf52840_ot_rcp_updat.Manifest.Policy.{
  IsOpen, IsOnLine, Selected-sound, Selected-complete, in_policy_sound, in_policy_complete,
}
use ha_nrf52840_ot_rcp_updat.Manifest.Sorted.{released_of, keyed_of, releases_for-Sorted}
use ha_nrf52840_ot_rcp_updat.Manifest.Order.{HasKey, with_keys-HasKey, key_le_trans, key_lt-asymm}
use ha_nrf52840_ot_rcp_updat.Manifest.Newest.{in_policy, max_from, latest, candidates, newest_for}
use ha_nrf52840_ot_rcp_updat.Effects.{validation}

-- One of the items.
abbrev pub IsOneOf : Keyed → List Keyed → Type 0
IsOneOf item [] = ⊥
IsOneOf item (first ∷ others) = (item ≡ first) ⊎ IsOneOf item others

-- No item is above it by the key.
abbrev pub IsTop : Keyed → List Keyed → Type 0
IsTop item items = All (λ (other : Keyed). key_lt item.key other.key ≡ false) items

key_lt_irrefl : (key : VersionKey) → key_lt key key ≡ false
unfolding key_lt
key_lt_irrefl key = ground arith

max_from-[] : (best : Keyed) → max_from best [] ≡ best
unfolding max_from
max_from-[] best = refl

max_from-above :
    (best item : Keyed) (others : List Keyed)
    → key_lt best.key item.key ≡ true
    → max_from best (item ∷ others) ≡ max_from item others
unfolding max_from
max_from-above best item others e = rw e refl

max_from-below :
    (best item : Keyed) (others : List Keyed)
    → key_lt best.key item.key ≡ false
    → max_from best (item ∷ others) ≡ max_from best others
unfolding max_from
max_from-below best item others e = rw e refl

-- One of the items, with none above it.
pub record IsMax (item : Keyed) (items : List Keyed) : Type 0 where
  pub top : IsTop item items
  pub one_of : IsOneOf item items

further :
    (m best item : Keyed) (others : List Keyed)
    → IsOneOf m (best ∷ others)
    → IsOneOf m (best ∷ item ∷ others)
further m best item others (inl e) = inl e
further m best item others (inr h) = inr (inr h)

max_from-IsMax : (items : List Keyed) (best : Keyed) → IsMax (max_from best items) (best ∷ items)
max_from-IsMax [] best =
    rw (max_from-[] best) (record { top = (key_lt_irrefl best.key, tt); one_of = inl refl })
max_from-IsMax (item ∷ others) best = elim (Bool-cases (key_lt best.key item.key)) [
  | inl e ↦
      let found = max_from-IsMax others item in
      rw (max_from-above best item others e) (record {
        top = (
          key_le_trans best.key item.key _ (key_lt-asymm best.key item.key e) found.top.0,
          found.top,
        );
        one_of = inr found.one_of;
      })
  | inr e ↦
      let found = max_from-IsMax others best in
      rw (max_from-below best item others e) (record {
        top = (found.top.0, (key_le_trans item.key best.key _ e found.top.0, found.top.1));
        one_of = further _ best item others found.one_of;
      })
]

-- What the board, the channel and the pinned line ask of a release.
abbrev pub IsAdmitted : Text → Bool → Option Text → FirmwareRelease → Type 0
IsAdmitted hardware allow pinned release =
    (release.hardware ≡ hardware) × IsOpen allow release × IsOnLine pinned release

-- One of the published releases.
abbrev pub IsPublished : FirmwareRelease → List FirmwareRelease → Type 0
IsPublished release [] = ⊥
IsPublished release (first ∷ others) = (release ≡ first) ⊎ IsPublished release others

-- This key is not below the key of the release.
abbrev pub IsNotBelow : VersionKey → FirmwareRelease → Type 0
IsNotBelow key release =
    (other : VersionKey) → version_key release.ncs_version ≡ ok other → key_lt key other ≡ false

-- An admitted one of the releases, with no admitted release above it.
pub record IsNewest (hardware : Text) (allow : Bool) (pinned : Option Text)
    (releases : List FirmwareRelease) (newest : FirmwareRelease) : Type 0 where
  pub published : IsPublished newest releases
  pub admitted : IsAdmitted hardware allow pinned newest
  pub key : VersionKey
  pub has_key : version_key newest.ncs_version ≡ ok key
  pub greatest :
      All (λ release. IsAdmitted hardware allow pinned release → IsNotBelow key release) releases

All-published :
    (releases items : List FirmwareRelease)
    → ((release : FirmwareRelease) → IsPublished release items → IsPublished release releases)
    → All (λ release. IsPublished release releases) items
All-published releases [] among = tt
All-published releases (release ∷ others) among =
    (among release (inl refl), All-published releases others (λ other h. among other (inr h)))

unmapped :
    {A : Type 0} (r : Result ValidationError A) (a : A)
    → map_err (λ _. validation) r ≡ ok a
    → r ≡ ok a
unmapped (ok b) a h = cc
unmapped (err e) a h = cc

picked :
    (P : Keyed → Type 0) (best : Keyed) (items : List Keyed)
    → IsOneOf best items
    → All P items
    → P best
picked P best [] h all = absurd h
picked P best (item ∷ others) (inl e) all = rw e all.0
picked P best (item ∷ others) (inr h) all = picked P best others h all.1

picked_release :
    (P : FirmwareRelease → Type 0) (best : Keyed) (items : List Keyed)
    {chosen : List FirmwareRelease}
    → IsOneOf best items
    → map (λ (item : Keyed). item.release) items ≡ chosen
    → All P chosen
    → P best.release
picked_release P best items one_of same all =
    picked (λ (item : Keyed). P item.release) best items one_of (keyed_of P items (rw same all))

not_below :
    (best : Keyed) (items : List Keyed)
    → All HasKey items
    → IsTop best items
    → All (λ (item : Keyed). IsNotBelow best.key item.release) items
unfolding HasKey
not_below best [] keys top = tt
not_below best (item ∷ others) (has, keys) (below, top) =
    (λ other e. cc, not_below best others keys top)

module _ (hardware : Text) (allow : Bool) (pinned : Option Text)
    (releases : List FirmwareRelease) where
  latest-IsNewest :
      (allowed chosen : List FirmwareRelease) (items : List Keyed) (newest : FirmwareRelease)
      → releases_for hardware allow releases ≡ ok allowed
      → in_policy pinned allowed ≡ ok chosen
      → with_keys chosen ≡ ok items
      → latest items ≡ ok newest
      → IsNewest hardware allow pinned releases newest
  unfolding HasKey
  latest-IsNewest allowed chosen [] newest a c k h = cc
  latest-IsNewest allowed chosen (item ∷ others) newest a c k h =
      let (same, keys) = with_keys-HasKey chosen (item ∷ others) k in
      let found = max_from-IsMax others item in
      let best = max_from item others in
      let is_best : best.release ≡ newest = cc in
      let sorted = releases_for-Sorted hardware allow releases allowed a in
      let sound = in_policy_sound _ pinned allowed chosen c (
        sorted.into _ (
          Selected-sound hardware allow (λ release. IsPublished release releases) sorted.selected
            (All-published releases releases (λ _ h. h)))) in
      let complete = Selected-complete hardware allow _ sorted.selected (
        sorted.back _ (
          in_policy_complete (IsNotBelow best.key) pinned allowed chosen c (
            rw⁻¹ same (
              released_of (IsNotBelow best.key) (item ∷ others)
                (not_below best (item ∷ others) keys found.top))))) in
      let ((published, board, open_to), line) =
        picked_release
          (λ (release : FirmwareRelease).
            (IsPublished release releases × (release.hardware ≡ hardware) × IsOpen allow release)
            × IsOnLine pinned release)
          best (item ∷ others) found.one_of same sound in
      rw⁻¹ is_best (record {
        published = published;
        admitted = (board, open_to, line);
        key = best.key;
        has_key = picked HasKey best (item ∷ others) found.one_of keys;
        greatest = regrouped best.key releases complete;
      })
    where
      regrouped :
          (key : VersionKey) (items : List FirmwareRelease)
          → All
              (λ release.
                release.hardware ≡ hardware
                → IsOpen allow release
                → IsOnLine pinned release
                → IsNotBelow key release)
              items
          → All (λ release. IsAdmitted hardware allow pinned release → IsNotBelow key release) items
      regrouped key [] all = tt
      regrouped key (release ∷ rest) (p, ps) =
          (λ admitted. p admitted.0 admitted.1 admitted.2, regrouped key rest ps)

  -- When `newest_for` returns, the release is one of the published ones, is of this board, is let
  -- through by the channel (previews are allowed, or it is none) and is on the pinned minor line,
  -- if one is pinned, and no published release of which these hold has a greater version key.
  pub newest_for-IsNewest :
      (newest : FirmwareRelease)
      → newest_for hardware allow pinned releases ≡ ok newest
      → IsNewest hardware allow pinned releases newest
  unfolding newest_for candidates
  newest_for-IsNewest newest h =
      let (items, e, l) =
        >>=-eq-ok (map_err (λ _. validation) (candidates hardware allow pinned releases)) _ h in
      let (allowed, a, h1) =
        >>=-eq-ok (releases_for hardware allow releases) _ (unmapped _ items e) in
      let (chosen, c, k) = >>=-eq-ok (in_policy pinned allowed) _ h1 in
      latest-IsNewest allowed chosen items newest a c k l
