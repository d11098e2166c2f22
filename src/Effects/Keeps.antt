-- ===== src/Effects/Keeps.antt =====
-- Invariants of the log: a call of the world keeps them all, an event may not. One rule for each
-- way to build a computation, for `search`.
use ha_nrf52840_ot_rcp_updat.Base.{
  Bool, true, false, ◌≡◌, refl, Result, ok, err, List, ◌∷◌, if◌then◌else◌,
}
use ha_nrf52840_ot_rcp_updat.Effects.{
  Class, Failure, raised, out_of_rounds, Event, St, Call, M, on_class, lift, raise_if, pure, fail,
  raise, handle, catch, answered, call, gets, write, change, continue, ◌>>=◌,
}
use ha_nrf52840_ot_rcp_updat.Effects.Hoare.{Ends, returns, raises, Hoare}

module _ {W A : Type 0} where
  answered-log : (r : Result Class A × W) (s : St W) → (answered r s).1.log ≡ s.log
  answered-log (ok value, w) s = refl
  answered-log (err class, w) s = refl

-- `I` holds of the log after `m`, returned or raised, when it held before.
pub record Keeps {W A : Type 0} (I : List Event → Type 0) (m : M W A) : Type 0 where
  pub at : (s : St W) → I s.log → I (m s).1.log

module _ {W A : Type 0} {I : List Event → Type 0} where
  pub Keeps-pure : (value : A) → Keeps {W = W} I (pure value)
  unfolding pure
  Keeps-pure value = record { at = λ s p. p }

  pub Keeps-raise : (class : Class) → Keeps {W = W} {A = A} I (raise class)
  unfolding raise
  Keeps-raise class = record { at = λ s p. p }

  pub Keeps-fail : (failure : Failure) → Keeps {W = W} {A = A} I (fail failure)
  unfolding fail
  Keeps-fail failure = record { at = λ s p. p }

  pub Keeps-gets : (f : W → A) → Keeps I (gets f)
  unfolding gets
  Keeps-gets f = record { at = λ s p. p }

  pub Keeps-call : (operation : Call W A) → Keeps I (call operation)
  unfolding call
  Keeps-call operation = record { at = λ s p. rw (answered-log (operation s.world) s) p }

  handle-log :
      (r : Result Failure A × St W) (handler : Failure → M W A)
      → I r.1.log
      → ((failure : Failure) → Keeps I (handler failure))
      → I (handle r handler).1.log
  handle-log (ok value, s) handler p next = p
  handle-log (err failure, s) handler p next = (next failure).at s p

  pub Keeps-catch :
      (body : M W A) (handler : Failure → M W A)
      → Keeps I body
      → ((failure : Failure) → Keeps I (handler failure))
      → Keeps I (catch body handler)
  unfolding catch
  Keeps-catch body handler h next = record {
    at = λ s p. handle-log (body s) handler (h.at s p) next;
  }

  pub Keeps-if :
      (test : Bool) (m n : M W A) → Keeps I m → Keeps I n → Keeps I (if test then m else n)
  Keeps-if true m n left right = left
  Keeps-if false m n left right = right

module _ {W A B : Type 0} {I : List Event → Type 0} where
  continue-log :
      (r : Result Failure A × St W) (next : A → M W B)
      → I r.1.log
      → ((value : A) → Keeps I (next value))
      → I (continue r next).1.log
  continue-log (ok value, s) next p rest = (rest value).at s p
  continue-log (err failure, s) next p rest = p

  pub Keeps-bind :
      (m : M W A) (next : A → M W B)
      → Keeps I m
      → ((value : A) → Keeps I (next value))
      → Keeps I (m >>= next)
  unfolding ◌>>=◌
  Keeps-bind m next first rest = record { at = λ s p. continue-log (m s) next (first.at s p) rest }

module _ {W : Type 0} {I : List Event → Type 0} where
  pub Keeps-write :
      (event : Event)
      → ((log : List Event) → I log → I (event ∷ log))
      → Keeps {W = W} I (write event)
  unfolding write
  Keeps-write event keep = record { at = λ s p. keep s.log p }

  pub Keeps-change : (f : W → W) → Keeps I (change f)
  unfolding change
  Keeps-change f = record { at = λ s p. p }

pub ruleset keeps_rules = (
  Keeps-pure, Keeps-raise, Keeps-fail, Keeps-gets, Keeps-call, Keeps-catch, Keeps-if, Keeps-bind,
  Keeps-change,
)

module _ {W A : Type 0} (I : List Event → Type 0) where
  Ends-log :
      (r : Result Failure A × St W)
      → I r.1.log
      → Ends (λ (_ : A) (s : St W). I s.log) (λ _ (s : St W). I s.log) r
  Ends-log (ok value, s) p = returns p
  Ends-log (err failure, s) p = raises p

  pub Keeps-Hoare :
      {m : M W A} → Keeps I m → Hoare (λ s. I s.log) m (λ _ s. I s.log) (λ _ s. I s.log)
  Keeps-Hoare {m} h = record { at = λ s p. Ends-log (m s) (h.at s p) }

module _ {W A : Type 0} {I : List Event → Type 0} where
  pub Keeps-on_class :
      (test : Class → Bool) (handler : M W A) (failure : Failure)
      → Keeps I handler
      → Keeps I (on_class test handler failure)
  Keeps-on_class test handler (raised class noted) h =
      Keeps-if (test class) _ _ h (Keeps-fail (raised class noted))
  Keeps-on_class test handler out_of_rounds h = Keeps-fail out_of_rounds

  pub Keeps-lift : (r : Result Class A) → Keeps {W = W} I (lift r)
  unfolding lift
  Keeps-lift (ok value) = Keeps-pure value
  Keeps-lift (err class) = Keeps-raise class

module _ {W : Type 0} {I : List Event → Type 0} where
  pub Keeps-raise_if : (test : Bool) (class : Class) → Keeps {W = W} I (raise_if test class)
  unfolding raise_if
  Keeps-raise_if true class = Keeps-raise class
  Keeps-raise_if false class = Keeps-pure tt

pub ruleset step_rules = (keeps_rules, Keeps-on_class, Keeps-lift, Keeps-raise_if)
