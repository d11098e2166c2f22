-- ===== src/Preflight/Window.antt =====
-- `OtbrRestClient.require_quiet_management_window` of preflight.py over a world that answers
-- requests and passes time. A request is `urlopen` with the reading and decoding of its answer.
use ha_nrf52840_ot_rcp_updat.Base.{ℕ, ◌+◌, List, [], ◌∷◌, Result, ok, err, length}
use ha_nrf52840_ot_rcp_updat.Models.Value.{Value, Fields}
use ha_nrf52840_ot_rcp_updat.Preflight.Actions.{
  PreflightError, active_work, started_work, listed, busy_actions,
}

-- A computation that may raise and that changes the world.
abbrev pub Run : Type 0 → Type 0 → Type 0
Run W A = W → Result PreflightError A × W

abbrev pub onward :
    {W A B : Type 0} → Result PreflightError A × W → (A → Run W B) → Result PreflightError B × W
onward (ok value, later) next = next value later
onward (err failure, later) next = (err failure, later)

infixl 5 ◌>>=◌ ◌>>◌
abbrev pub ◌>>=◌ : {W A B : Type 0} → Run W A → (A → Run W B) → Run W B
◌>>=◌ first next s = onward (first s) next

abbrev pub ◌>>◌ : {W B : Type 0} → Run W (Unit {0}) → Run W B → Run W B
first >> second = first >>= λ _. second

-- What does not touch the world.
abbrev pub lift : {W A : Type 0} → Result PreflightError A → Run W A
lift outcome s = (outcome, s)

pub record PreflightResult : Type 0 where
  pub quiet_window : ℕ
  pub actions_checked : ℕ

-- `if busy: raise`
abbrev pub refuse : List Fields → PreflightError → Result PreflightError (Unit {0})
refuse [] e = ok tt
refuse (action ∷ others) e = err e

module _ {W : Type 0} (request : Run W Value) (sleep : ℕ → W → W) where
  unfoldable pub actions : Run W (List Fields)
  actions = do document ← request; lift (listed document)

  -- `sleep(quiet_window)`
  abbrev pub slept : ℕ → Run W (Unit {0})
  slept seconds s = (ok tt, sleep seconds s)

  -- One of the two looks at the actions.
  unfoldable pub quiet_actions : PreflightError → Run W (List Fields)
  quiet_actions failure = do
    present ← actions
    busy ← lift (busy_actions present)
    lift (refuse busy failure)
    lift (ok present)

  unfoldable pub require_quiet_management_window : ℕ → Run W PreflightResult
  require_quiet_management_window quiet_window = do
    first ← quiet_actions active_work
    slept quiet_window
    second ← quiet_actions started_work
    lift (
        ok (record { quiet_window = quiet_window; actions_checked = length first + length second }))
