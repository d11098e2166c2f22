-- ===== src/Effects.antt =====
-- The effects of the updater. The world outside the process (Supervisor, OTBR, the radio, its
-- bootloader, the disk, the clock) is a state of any type that answers each call as it likes, by
-- a value or an exception. A call that matters for safety is written to a log, the newest first,
-- before it is made; an OTBR state that Supervisor reports is logged with its value.
pub mod Hoare
pub mod Keeps
pub mod Timely
pub mod Yields
pub mod Finds
use ha_nrf52840_ot_rcp_updat.Base.{
  ℕ, suc, ◌+◌, ◌/◌, Bool, true, false, List, ◌∷◌, Result, ok, err, if◌then◌else◌,
}
use ha_nrf52840_ot_rcp_updat.Base.Text.{Text}
use ha_nrf52840_ot_rcp_updat.Models.Value.{Fields}
use ha_nrf52840_ot_rcp_updat.Dfu.Target.{Argument, DfuSelector}

-- The exception classes that the updater tells apart; `other` is every class that it never names.
pub data Class : Type 0 where
  update rescan_deferred dfu dfu_transfer spinel supervisor preflight : Class
  state_store manifest validation os_error timeout_expired assertion other : Class

-- An exception, and whether `add_note` has attached that OTBR could not be restarted.
-- `out_of_rounds` is of the model: a loop on the clock has used up the rounds that it was given.
pub data Failure : Type 0 where
  raised : Class → Bool → Failure
  out_of_rounds : Failure

pub data Event : Type 0 where
  lock unlock : Event
  observed : Text → Event
  stop start : Event
  read_version reset reboot : Event
  flash : DfuSelector → Event
  save : Fields → Event
  ran : List Argument → Event

pub record St (W : Type 0) : Type 0 where
  pub world : W
  pub log : List Event

-- A call of the world.
abbrev pub Call : Type 0 → Type 0 → Type 0
Call W A = W → Result Class A × W

-- A computation that may raise; what it has done until then stays done.
abbrev pub M : Type 0 → Type 0 → Type 0
M W A = St W → Result Failure A × St W

module _ {W A : Type 0} where
  unfoldable pub pure : A → M W A
  pure value s = (ok value, s)

  unfoldable pub fail : Failure → M W A
  fail failure s = (err failure, s)

  -- `raise` of an exception of this class.
  unfoldable pub raise : Class → M W A
  raise class s = (err (raised class false), s)

  abbrev pub handle : Result Failure A × St W → (Failure → M W A) → Result Failure A × St W
  handle (ok value, s) handler = (ok value, s)
  handle (err failure, s) handler = handler failure s

  -- `try: body except ...`; the handler raises again what it does not catch.
  unfoldable pub catch : M W A → (Failure → M W A) → M W A
  catch body handler s = handle (body s) handler

  abbrev pub answered : Result Class A × W → St W → Result Failure A × St W
  answered (ok value, w) s = (ok value, record s { world = w })
  answered (err class, w) s = (err (raised class false), record s { world = w })

  unfoldable pub call : Call W A → M W A
  call operation s = answered (operation s.world) s

  unfoldable pub gets : (W → A) → M W A
  gets f s = (ok (f s.world), s)

module _ {W : Type 0} where
  unfoldable pub write : Event → M W (Unit {0})
  write event s = (ok tt, record s { log = event ∷ s.log })

  -- A change of the world that cannot fail, as `sleep`.
  unfoldable pub change : (W → W) → M W (Unit {0})
  change f s = (ok tt, record s { world = f s.world })

-- `except` of the classes that pass the test.
abbrev pub on_class : {W A : Type 0} → (Class → Bool) → M W A → Failure → M W A
on_class test handler (raised class noted) =
    if test class then handler else fail (raised class noted)
on_class test handler out_of_rounds = fail out_of_rounds

abbrev pub continue :
    {W A B : Type 0} → Result Failure A × St W → (A → M W B) → Result Failure B × St W
continue (ok value, s) next = next value s
continue (err failure, s) next = (err failure, s)

infixl 5 ◌>>=◌ ◌>>◌
unfoldable pub ◌>>=◌ : {W A B : Type 0} → M W A → (A → M W B) → M W B
◌>>=◌ first next s = continue (first s) next

abbrev pub ◌>>◌ : {W B : Type 0} → M W (Unit {0}) → M W B → M W B
first >> second = first >>= λ _. second

unfoldable pub raise_if : {W : Type 0} → Bool → Class → M W (Unit {0})
raise_if test class = if test then raise class else pure tt

-- A result of a function that does not touch the world.
unfoldable pub lift : {W A : Type 0} → Result Class A → M W A
lift (ok value) = pure value
lift (err class) = raise class

abbrev pub is_os_error : Class → Bool
is_os_error os_error = true
is_os_error class = false

-- The rounds in which a loop that sleeps `step` in each is through with `timeout`.
abbrev pub rounds : ℕ → ℕ → ℕ
rounds timeout step = suc (timeout / step + 1)
