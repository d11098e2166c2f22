-- ===== src/Effects/Timely.antt =====
-- Computations that never run out of rounds, and never turn the clock back.
use ha_nrf52840_ot_rcp_updat.Base.{
  ℕ, ◌≤◌, ◌≢◌, arith, Bool, true, false, Result, ok, err, if◌then◌else◌,
}
use ha_nrf52840_ot_rcp_updat.Effects.{
  Class, Failure, raised, out_of_rounds, Event, St, Call, M, pure, fail, raise, handle, catch,
  answered, call, gets, write, change, continue, ◌>>=◌,
}
use ha_nrf52840_ot_rcp_updat.Effects.Hoare.{Ends, returns, raises, Ends-post, Hoare}

module _ {W : Type 0} (clock : W → ℕ) where
  abbrev pub EndsTimely : {A : Type 0} → ℕ → Result Failure A × St W → Type 0
  EndsTimely {A} now r =
      Ends {A = A} (λ _ s. now ≤ clock s.world)
        (λ failure s. (failure ≢ out_of_rounds) × (now ≤ clock s.world)) r

  pub record IsTimely {A : Type 0} (m : M W A) : Type 0 where
    pub at : (now : ℕ) (s : St W) → now ≤ clock s.world → EndsTimely now (m s)

pub raised-ne-out_of_rounds : (class : Class) (noted : Bool) → raised class noted ≢ out_of_rounds
raised-ne-out_of_rounds class noted e = cc

module _ {W A : Type 0} (clock : W → ℕ) where
  answered-timely :
      (now : ℕ) (r : Result Class A × W) (s : St W)
      → now ≤ clock r.1
      → EndsTimely clock now (answered r s)
  answered-timely now (ok value, w) s p = returns p
  answered-timely now (err class, w) s p = raises (raised-ne-out_of_rounds class false, p)

module _ {W A : Type 0} {clock : W → ℕ} where
  pub IsTimely-pure : (value : A) → IsTimely clock (pure value)
  unfolding pure
  IsTimely-pure value = record { at = λ now s p. returns p }

  pub IsTimely-fail :
      (failure : Failure) → failure ≢ out_of_rounds → IsTimely clock (fail {A = A} failure)
  unfolding fail
  IsTimely-fail failure h = record { at = λ now s p. raises (h, p) }

  pub IsTimely-raise : (class : Class) → IsTimely clock (raise {A = A} class)
  unfolding raise
  IsTimely-raise class = record { at = λ now s p. raises (raised-ne-out_of_rounds class false, p) }

  pub IsTimely-gets : (f : W → A) → IsTimely clock (gets f)
  unfolding gets
  IsTimely-gets f = record { at = λ now s p. returns p }

  pub IsTimely-call :
      (operation : Call W A)
      → ((w : W) → clock w ≤ clock (operation w).1)
      → IsTimely clock (call operation)
  unfolding call
  IsTimely-call operation h = record {
    at = λ now s p. answered-timely clock now (operation s.world) s (omega (arith, h s.world));
  }

  handle-timely :
      (now : ℕ) (r : Result Failure A × St W) (handler : Failure → M W A)
      → EndsTimely clock now r
      → ((failure : Failure) → failure ≢ out_of_rounds → IsTimely clock (handler failure))
      → EndsTimely clock now (handle r handler)
  handle-timely now (ok value, s) handler (returns p) next = returns p
  handle-timely now (err failure, s) handler (raises (h, p)) next = (next failure h).at now s p

  pub IsTimely-catch :
      (body : M W A) (handler : Failure → M W A)
      → IsTimely clock body
      → ((failure : Failure) → failure ≢ out_of_rounds → IsTimely clock (handler failure))
      → IsTimely clock (catch body handler)
  unfolding catch
  IsTimely-catch body handler h next = record {
    at = λ now s p. handle-timely now (body s) handler (h.at now s p) next;
  }

  pub IsTimely-if :
      (test : Bool) (m n : M W A)
      → IsTimely clock m
      → IsTimely clock n
      → IsTimely clock (if test then m else n)
  IsTimely-if true m n left right = left
  IsTimely-if false m n left right = right

module _ {W A B : Type 0} {clock : W → ℕ} where
  continue-timely :
      (now : ℕ) (r : Result Failure A × St W) (next : A → M W B)
      → EndsTimely clock now r
      → ((value : A) → IsTimely clock (next value))
      → EndsTimely clock now (continue r next)
  continue-timely now (ok value, s) next (returns p) rest = (rest value).at now s p
  continue-timely now (err failure, s) next (raises r) rest = raises r

  pub IsTimely-bind :
      (m : M W A) (next : A → M W B)
      → IsTimely clock m
      → ((value : A) → IsTimely clock (next value))
      → IsTimely clock (m >>= next)
  unfolding ◌>>=◌
  IsTimely-bind m next first rest = record {
    at = λ now s p. continue-timely now (m s) next (first.at now s p) rest;
  }

module _ {W : Type 0} {clock : W → ℕ} where
  pub IsTimely-write : (event : Event) → IsTimely clock (write event)
  unfolding write
  IsTimely-write event = record { at = λ now s p. returns p }

  pub IsTimely-change : (f : W → W) → ((w : W) → clock w ≤ clock (f w)) → IsTimely clock (change f)
  unfolding change
  IsTimely-change f h = record { at = λ now s p. returns (omega (arith, h s.world)) }

pub ruleset timely_rules =
    (IsTimely-pure, IsTimely-raise, IsTimely-gets, IsTimely-if, IsTimely-bind, IsTimely-write)

module _ {W A : Type 0} {clock : W → ℕ} where
  -- The same as a contract, from any earlier time on.
  pub IsTimely-Hoare :
      {m : M W A} (base now : ℕ)
      → base ≤ now
      → IsTimely clock m
      → Hoare
          (λ s. now ≤ clock s.world)
          m
          (λ _ s. now ≤ clock s.world)
          (λ failure s. (failure ≢ out_of_rounds) × (base ≤ clock s.world))
  IsTimely-Hoare base now le h = record {
    at =
        λ s p. Ends-post (h.at now s p) (λ value t q. q) (λ failure t r. (r.0, omega (arith, r.1)));
  }

  pub Hoare-IsTimely :
      {m : M W A}
      → ((now : ℕ)
          → Hoare
              (λ s. now ≤ clock s.world)
              m
              (λ _ s. now ≤ clock s.world)
              (λ failure s. (failure ≢ out_of_rounds) × (now ≤ clock s.world)))
      → IsTimely clock m
  Hoare-IsTimely h = record { at = λ now s p. (h now).at s p }
