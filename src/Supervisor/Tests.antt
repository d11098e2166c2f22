-- ===== src/Supervisor/Tests.antt =====
-- `temporarily_stop` of supervisor.py on a concrete world.
use ha_nrf52840_ot_rcp_updat.Base.{ℕ, ◌≡◌, refl, Bool, true, false, [], ◌∷◌, err}
use ha_nrf52840_ot_rcp_updat.Base.Text.{lower, codes, text_eq, text_in}
use ha_nrf52840_ot_rcp_updat.Effects.{
  dfu, raised, observed, stop, start, read_version, St, M, pure, raise, write, change, call, gets,
  catch, fail, ◌>>=◌, ◌>>◌,
}
use ha_nrf52840_ot_rcp_updat.Effects.Timely.{IsTimely, IsTimely-raise}
use ha_nrf52840_ot_rcp_updat.Environment.Bench.{Bench, bench_start, bench, bench_laws}
use ha_nrf52840_ot_rcp_updat.Supervisor.Client.{
  is_accepted, otbr, accept, checked_document, request, state_value, state_text, addon_state,
  stop_addon, start_addon, wait_round, wait_loop, wait_for_state, restore_once, restore_attempts,
  restore_addon, stop_if_running, around, temporarily_stop,
}
use ha_nrf52840_ot_rcp_updat.Supervisor.Handover.{IsRestored, around-IsRestored}
use ha_nrf52840_ot_rcp_updat.Supervisor.Waiting.{temporarily_stop-IsTimely}

abbrev start_state : St Bench
start_state = record { world = bench_start; log = [] }

-- A body that queries the radio and then raises.
abbrev failing_body : Bool → M Bench ℕ
failing_body was_running = do write read_version; raise dfu

failure_restores_otbr : temporarily_stop (bench []) otbr failing_body start_state ≡ (
  err (raised dfu false),
  record {
    world = bench_start;
    log =
        observed (codes "started")
        ∷ start
        ∷ observed (codes "stopped")
        ∷ read_version
        ∷ observed (codes "stopped")
        ∷ stop
        ∷ observed (codes "started")
        ∷ [];
  },
)
unfolding temporarily_stop around stop_if_running restore_addon restore_attempts restore_once
    wait_for_state wait_loop wait_round stop_addon start_addon addon_state state_text state_value
    request checked_document accept is_accepted lower text_in text_eq pure raise write change call
    gets catch ◌>>=◌ fail
failure_restores_otbr = refl

around-IsRestored_example :
    IsRestored
      (failing_body true start_state)
      (around (bench []) otbr true (failing_body true) start_state)
around-IsRestored_example = around-IsRestored (bench []) otbr (failing_body true) start_state

body_IsTimely : IsTimely (bench []).monotonic (raise {A = ℕ} dfu)
body_IsTimely = IsTimely-raise dfu

temporarily_stop-IsTimely_example :
    IsTimely (bench []).monotonic (temporarily_stop (bench []) otbr (λ _. raise {A = ℕ} dfu))
temporarily_stop-IsTimely_example =
    temporarily_stop-IsTimely (bench []) (bench_laws []) otbr (λ _. raise dfu) (λ _. body_IsTimely)
