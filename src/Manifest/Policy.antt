-- ===== src/Manifest/Policy.antt =====
-- Which releases the channel and the pinned minor line of manifest.py let through.
use ha_nrf52840_ot_rcp_updat.Base.{
  ◌≡◌, refl, ◌⊎◌, inl, inr, Bool-cases, Bool, true, false, not, List, [], ◌∷◌, Option, none, some,
  Result, ok, err, ◌>>=◌, >>=-eq-ok, if◌then◌else◌, All,
}
use ha_nrf52840_ot_rcp_updat.Base.Text.{Text, text_eq, text_eq_iff}
use ha_nrf52840_ot_rcp_updat.Models.Value.{ValidationError}
use ha_nrf52840_ot_rcp_updat.Models.Firmware.{FirmwareRelease}
use ha_nrf52840_ot_rcp_updat.Models.Version.{is_prerelease}
use ha_nrf52840_ot_rcp_updat.Models.Tokens.{minor_line}
use ha_nrf52840_ot_rcp_updat.Manifest.Releases.{is_wanted}
use ha_nrf52840_ot_rcp_updat.Manifest.Order.{Selected, nothing, keep, skip}
use ha_nrf52840_ot_rcp_updat.Manifest.Newest.{on_line, in_policy}

-- The channel lets a release through: previews are allowed, or it is none.
abbrev pub IsOpen : Bool → FirmwareRelease → Type 0
IsOpen allow release = (allow ≡ true) ⊎ (is_prerelease release.ncs_version ≡ ok false)

-- It is on the pinned minor line, if one is pinned.
abbrev pub IsOnLine : Option Text → FirmwareRelease → Type 0
IsOnLine none release = Unit {0}
IsOnLine (some pinned) release = minor_line release.ncs_version ≡ ok pinned

abbrev verdict : Bool → Bool → Result ValidationError Bool → Result ValidationError Bool
verdict same allow previewed =
    if not same
    then ok false
    else if allow
    then ok true
    else (do preview ← previewed; ok (not preview))

verdict-true :
    (same allow : Bool) (previewed : Result ValidationError Bool)
    → verdict same allow previewed ≡ ok true
    → (same ≡ true) × ((allow ≡ true) ⊎ (previewed ≡ ok false))
verdict-true false allow previewed h = cc
verdict-true true true previewed h = (refl, inl refl)
verdict-true true false (err e) h = cc
verdict-true true false (ok true) h = cc
verdict-true true false (ok false) h = (refl, inr refl)

verdict-false :
    (same allow : Bool) (previewed : Result ValidationError Bool)
    → verdict same allow previewed ≡ ok false
    → same ≡ true
    → (allow ≡ true) ⊎ (previewed ≡ ok false)
    → ⊥
verdict-false false allow previewed h s o = cc
verdict-false true true previewed h s o = cc
verdict-false true false (err e) h s o = cc
verdict-false true false (ok true) h s (inl e) = cc
verdict-false true false (ok true) h s (inr e) = cc
verdict-false true false (ok false) h s o = cc

module _ (hardware : Text) (allow : Bool) where
  pub Selected-sound :
      (P : FirmwareRelease → Type 0) {releases chosen : List FirmwareRelease}
      → Selected hardware allow releases chosen
      → All P releases
      → All (λ release. P release × (release.hardware ≡ hardware) × IsOpen allow release) chosen
  unfolding is_wanted
  Selected-sound P nothing all = tt
  Selected-sound P (keep {release} wanted rest) (p, ps) =
      let (same, open_to) =
        verdict-true (text_eq release.hardware hardware) allow (is_prerelease release.ncs_version)
          wanted in
      ((p, (text_eq_iff release.hardware hardware).0 same, open_to), Selected-sound P rest ps)
  Selected-sound P (skip unwanted rest) (p, ps) = Selected-sound P rest ps

  pub Selected-complete :
      (Q : FirmwareRelease → Type 0) {releases chosen : List FirmwareRelease}
      → Selected hardware allow releases chosen
      → All Q chosen
      → All (λ release. release.hardware ≡ hardware → IsOpen allow release → Q release) releases
  unfolding is_wanted
  Selected-complete Q nothing all = tt
  Selected-complete Q (keep wanted rest) (q, qs) = (λ _ _. q, Selected-complete Q rest qs)
  Selected-complete Q (skip {release} unwanted rest) qs = (
    λ same open_to. absurd (
        verdict-false (text_eq release.hardware hardware) allow (is_prerelease release.ncs_version)
          unwanted ((text_eq_iff release.hardware hardware).1 same) open_to),
    Selected-complete Q rest qs,
  )

ok_list_injective :
    {x y : List FirmwareRelease}
    → ◌≡◌ {A = Result ValidationError (List FirmwareRelease)} (ok x) (ok y)
    → x ≡ y
ok_list_injective e = cc

on_line_sound :
    (P : FirmwareRelease → Type 0) (pinned : Text) (releases chosen : List FirmwareRelease)
    → on_line pinned releases ≡ ok chosen
    → All P releases
    → All (λ release. P release × (minor_line release.ncs_version ≡ ok pinned)) chosen
unfolding on_line
on_line_sound P pinned [] [] h all = tt
on_line_sound P pinned [] (c ∷ cs) h all = cc
on_line_sound P pinned (release ∷ others) chosen h (p, ps) =
    let (line, e, h1) = >>=-eq-ok (minor_line release.ncs_version) _ h in
    let (rest, f, h2) = >>=-eq-ok (on_line pinned others) _ h1 in
    rw⁻¹ (ok_list_injective h2) (kept line rest e (on_line_sound P pinned others rest f ps))
  where
    kept :
        (line : Text) (rest : List FirmwareRelease)
        → minor_line release.ncs_version ≡ ok line
        → All (λ release. P release × (minor_line release.ncs_version ≡ ok pinned)) rest
        → All
            (λ release. P release × (minor_line release.ncs_version ≡ ok pinned))
            (if text_eq line pinned then release ∷ rest else rest)
    kept line rest e all = elim (Bool-cases (text_eq line pinned)) [
      | inl same ↦
          let equal : line ≡ pinned = (text_eq_iff line pinned).0 same in
          rw same ((p, rw⁻¹ equal e), all)
      | inr differs ↦ rw differs all
    ]

on_line_complete :
    (Q : FirmwareRelease → Type 0) (pinned : Text) (releases chosen : List FirmwareRelease)
    → on_line pinned releases ≡ ok chosen
    → All Q chosen
    → All (λ release. minor_line release.ncs_version ≡ ok pinned → Q release) releases
unfolding on_line
on_line_complete Q pinned [] chosen h all = tt
on_line_complete Q pinned (release ∷ others) chosen h all =
    let (line, e, h1) = >>=-eq-ok (minor_line release.ncs_version) _ h in
    let (rest, f, h2) = >>=-eq-ok (on_line pinned others) _ h1 in
    let (q, qs) = parted line rest e (rw (ok_list_injective h2) all) in
    (q, on_line_complete Q pinned others rest f qs)
  where
    parted :
        (line : Text) (rest : List FirmwareRelease)
        → minor_line release.ncs_version ≡ ok line
        → All Q (if text_eq line pinned then release ∷ rest else rest)
        → (minor_line release.ncs_version ≡ ok pinned → Q release) × All Q rest
    parted line rest e all = by_test (text_eq line pinned) refl all
      where
        by_test :
            (test : Bool)
            → text_eq line pinned ≡ test
            → All Q (if test then release ∷ rest else rest)
            → (minor_line release.ncs_version ≡ ok pinned → Q release) × All Q rest
        by_test true same (q, qs) = (λ _. q, qs)
        by_test false differs qs = (
          λ on_it.
              let equal : line ≡ pinned = cc in let same = (text_eq_iff line pinned).1 equal in cc,
          qs,
        )

pub in_policy_sound :
    (P : FirmwareRelease → Type 0) (pinned : Option Text) (releases chosen : List FirmwareRelease)
    → in_policy pinned releases ≡ ok chosen
    → All P releases
    → All (λ release. P release × IsOnLine pinned release) chosen
unfolding in_policy
in_policy_sound P none releases chosen h all = rw⁻¹ (ok_list_injective h) (with_unit releases all)
  where
    with_unit : (items : List FirmwareRelease) → All P items → All (λ item. P item × Unit {0}) items
    with_unit [] all = tt
    with_unit (item ∷ others) (p, ps) = ((p, tt), with_unit others ps)
in_policy_sound P (some pinned) releases chosen h all = on_line_sound P pinned releases chosen h all

pub in_policy_complete :
    (Q : FirmwareRelease → Type 0) (pinned : Option Text) (releases chosen : List FirmwareRelease)
    → in_policy pinned releases ≡ ok chosen
    → All Q chosen
    → All (λ release. IsOnLine pinned release → Q release) releases
unfolding in_policy
in_policy_complete Q none releases chosen h all = ignoring releases (rw (ok_list_injective h) all)
  where
    ignoring : (items : List FirmwareRelease) → All Q items → All (λ item. Unit {0} → Q item) items
    ignoring [] all = tt
    ignoring (item ∷ others) (q, qs) = (λ _. q, ignoring others qs)
in_policy_complete Q (some pinned) releases chosen h all =
    on_line_complete Q pinned releases chosen h all
