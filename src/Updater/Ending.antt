-- ===== src/Updater/Ending.antt =====
-- The steps of updater.py come to an end, on any clock that runs on while the program sleeps.
use ha_nrf52840_ot_rcp_updat.Base.{
  ℕ, zero, suc, ◌+◌, ◌*◌, ◌/◌, ◌≤◌, ◌≢◌, arith, Bool, true, false, none, some, Result, ok, err, ltb,
  if◌then◌else◌,
}
use ha_nrf52840_ot_rcp_updat.Models.Firmware.{PreparedFirmware}
use ha_nrf52840_ot_rcp_updat.Models.Settings.{Settings}
use ha_nrf52840_ot_rcp_updat.Effects.{
  Class, update, Failure, raised, out_of_rounds, M, catch, gets, change, lift, raise_if, on_class,
  ◌>>=◌, ◌>>◌,
}
use ha_nrf52840_ot_rcp_updat.Effects.Hoare.{
  Hoare, Hoare-bind, Hoare-fail, Hoare-catch, Hoare-if, Hoare-pre, Hoare-post, Hoare-gets,
  Hoare-change,
}
use ha_nrf52840_ot_rcp_updat.Effects.Timely.{
  IsTimely, IsTimely-pure, IsTimely-raise, IsTimely-fail, IsTimely-call, IsTimely-if, IsTimely-bind,
  IsTimely-write, IsTimely-Hoare, Hoare-IsTimely,
}
use ha_nrf52840_ot_rcp_updat.Environment.{Environment, ClockLaws}
use ha_nrf52840_ot_rcp_updat.Updater.Steps.{
  spinel_or_update, is_preflight, spinel_version, read_expected, poll_round, poll_loop,
  post_dfu_timeout, poll_release, health_round, health_loop, require_otbr_healthy,
}

module _ {W A : Type 0} {clock : W → ℕ} where
  pub IsTimely-on_class :
      (test : Class → Bool) (handler : M W A) (failure : Failure)
      → failure ≢ out_of_rounds
      → IsTimely clock handler
      → IsTimely clock (on_class test handler failure)
  IsTimely-on_class test handler (raised class noted) ne h =
      IsTimely-if (test class) _ _ h (IsTimely-fail (raised class noted) ne)
  IsTimely-on_class test handler out_of_rounds ne h = IsTimely-fail out_of_rounds ne

  pub IsTimely-lift : (r : Result Class A) → IsTimely clock (lift r)
  unfolding lift
  IsTimely-lift (ok value) = IsTimely-pure value
  IsTimely-lift (err class) = IsTimely-raise class

module _ {W : Type 0} {clock : W → ℕ} where
  pub IsTimely-raise_if : (test : Bool) (class : Class) → IsTimely clock (raise_if test class)
  unfolding raise_if
  IsTimely-raise_if true class = IsTimely-raise class
  IsTimely-raise_if false class = IsTimely-pure tt

module _ {W A : Type 0} (env : Environment W) (laws : ClockLaws env) where
  -- The handler of a round: another round a second later, or the failure.
  retry_later :
      (test : Class → Bool) (again : M W A) (failure : Failure) (base now : ℕ)
      → base ≤ now
      → Hoare
          (λ s. now + 1000 ≤ env.monotonic s.world)
          again
          (λ _ s. base ≤ env.monotonic s.world)
          (λ failure s. (failure ≢ out_of_rounds) × (base ≤ env.monotonic s.world))
      → Hoare
          (λ s. (failure ≢ out_of_rounds) × (now ≤ env.monotonic s.world))
          (on_class test (do change (env.sleep 1000); again) failure)
          (λ _ s. base ≤ env.monotonic s.world)
          (λ failure s. (failure ≢ out_of_rounds) × (base ≤ env.monotonic s.world))
  retry_later test again (raised class noted) base now le h =
      Hoare-if (test class) _ _
        (λ _.
          Hoare-bind {Q = λ _ s. now + 1000 ≤ env.monotonic s.world} _ _
            (Hoare-change (env.sleep 1000) (λ s p. omega (arith, laws.sleeps 1000 s.world, p.1)))
            (λ _. h))
        (λ _. Hoare-fail (raised class noted) (λ s p. (p.0, omega (arith, p.1))))
  retry_later test again out_of_rounds base now le h =
      Hoare-fail out_of_rounds (λ s p. (p.0, omega (arith, p.1)))

  -- A round that tries a timely body until the deadline, and ends with `late` behind it.
  round_timely :
      (test : Class → Bool) (body again late : M W A) (deadline base now : ℕ)
      → base ≤ now
      → IsTimely env.monotonic body
      → IsTimely env.monotonic late
      → (now + 1 ≤ deadline
          → Hoare
              (λ s. now + 1000 ≤ env.monotonic s.world)
              again
              (λ _ s. base ≤ env.monotonic s.world)
              (λ failure s. (failure ≢ out_of_rounds) × (base ≤ env.monotonic s.world)))
      → Hoare
          (λ s. now ≤ env.monotonic s.world)
          (do
            seen ← gets env.monotonic
            if ltb seen deadline
                then catch body (on_class test (do change (env.sleep 1000); again))
                else late)
          (λ _ s. base ≤ env.monotonic s.world)
          (λ failure s. (failure ≢ out_of_rounds) × (base ≤ env.monotonic s.world))
  round_timely test body again late deadline base now le b l h =
      Hoare-bind {Q = λ seen s. (now ≤ seen) × (now ≤ env.monotonic s.world)} _ _
        (Hoare-gets env.monotonic (λ s p. (p, p)))
        (λ seen.
          Hoare-if (ltb seen deadline) _ _
            (λ early. record {
              at = λ s p.
                  (Hoare-catch
                      (λ failure t. (failure ≢ out_of_rounds) × (now ≤ env.monotonic t.world)) body
                      _
                      (Hoare-post (IsTimely-Hoare now now (omega arith) b)
                        (λ _ t q. omega (arith, q)) (λ _ t q. q))
                      (λ failure.
                        retry_later test again failure base now le (h (ground (arith, p.0))))).at
                    s p.1;
            })
            (λ _.
              Hoare-pre (λ s. now ≤ env.monotonic s.world) _
                (Hoare-post (IsTimely-Hoare base now le l) (λ _ t q. omega (arith, q)) (λ _ t q. q))
                (λ s p. p.1)))

module _ {W : Type 0} (env : Environment W) (laws : ClockLaws env) (settings : Settings) where
  pub spinel_version-IsTimely : IsTimely env.monotonic (spinel_version env settings)
  unfolding spinel_version
  spinel_version-IsTimely =
      IsTimely-bind _ _ (IsTimely-write _) (λ _. IsTimely-call _ laws.get_ncp_version)

  read_expected-IsTimely :
      (firmware : PreparedFirmware) → IsTimely env.monotonic (read_expected env settings firmware)
  unfolding read_expected
  read_expected-IsTimely firmware =
      IsTimely-bind _ _ spinel_version-IsTimely
        (λ version. IsTimely-bind _ _ (IsTimely-lift _) (λ _. IsTimely-pure (some version)))

  poll_loop-timely :
      (left : ℕ) (firmware : PreparedFirmware) (deadline base now : ℕ)
      → base ≤ now
      → deadline ≤ now + left * 1000
      → Hoare
          (λ s. now ≤ env.monotonic s.world)
          (poll_loop env settings (suc left) firmware deadline)
          (λ _ s. base ≤ env.monotonic s.world)
          (λ failure s. (failure ≢ out_of_rounds) × (base ≤ env.monotonic s.world))
  unfolding poll_loop poll_round
  poll_loop-timely zero firmware deadline base now le enough =
      round_timely env laws spinel_or_update _ _ _ deadline base now le
        (read_expected-IsTimely firmware) (IsTimely-pure none) (λ early. absurd (omega arith))
  poll_loop-timely (suc left) firmware deadline base now le enough =
      round_timely env laws spinel_or_update _ _ _ deadline base now le
        (read_expected-IsTimely firmware) (IsTimely-pure none)
        (λ early.
          poll_loop-timely left firmware deadline base (now + 1000) (omega arith) (omega arith))

  pub poll_release-IsTimely :
      (firmware : PreparedFirmware) → IsTimely env.monotonic (poll_release env settings firmware)
  unfolding poll_release
  poll_release-IsTimely firmware = Hoare-IsTimely (λ base.
      Hoare-bind {Q = λ now s. (base ≤ now) × (now ≤ env.monotonic s.world)} _ _
        (Hoare-gets env.monotonic (λ s p. (p, omega arith)))
        (λ now. record {
          at = λ s p.
              (poll_loop-timely (post_dfu_timeout env settings / 1000 + 1) firmware
                  (now + post_dfu_timeout env settings) base now p.0 (omega arith)).at
                s p.1;
        }))

  health_loop-timely :
      (left deadline base now : ℕ)
      → base ≤ now
      → deadline ≤ now + left * 1000
      → Hoare
          (λ s. now ≤ env.monotonic s.world)
          (health_loop env settings (suc left) deadline)
          (λ _ s. base ≤ env.monotonic s.world)
          (λ failure s. (failure ≢ out_of_rounds) × (base ≤ env.monotonic s.world))
  unfolding health_loop health_round
  health_loop-timely zero deadline base now le enough =
      round_timely env laws is_preflight _ _ _ deadline base now le
        (IsTimely-call _ laws.require_healthy) (IsTimely-raise update)
        (λ early. absurd (omega arith))
  health_loop-timely (suc left) deadline base now le enough =
      round_timely env laws is_preflight _ _ _ deadline base now le
        (IsTimely-call _ laws.require_healthy) (IsTimely-raise update)
        (λ early. health_loop-timely left deadline base (now + 1000) (omega arith) (omega arith))

  pub require_otbr_healthy-IsTimely : IsTimely env.monotonic (require_otbr_healthy env settings)
  unfolding require_otbr_healthy
  require_otbr_healthy-IsTimely = Hoare-IsTimely (λ base.
      Hoare-bind {Q = λ now s. (base ≤ now) × (now ≤ env.monotonic s.world)} _ _
        (Hoare-gets env.monotonic (λ s p. (p, omega arith)))
        (λ now. record {
          at = λ s p.
              (health_loop-timely (1000 * settings.boot_timeout / 1000 + 1)
                  (now + 1000 * settings.boot_timeout) base now p.0 (omega arith)).at
                s p.1;
        }))
