-- ===== src/Effects/Yields.antt =====
-- What is known of the value of a computation, whatever the state it starts in.
use ha_nrf52840_ot_rcp_updat.Base.{
  Bool, true, false, ◌≡◌, refl, List, Result, ok, err, if◌then◌else◌,
}
use ha_nrf52840_ot_rcp_updat.Effects.{
  Class, Failure, raised, out_of_rounds, Event, St, M, pure, fail, raise, catch, handle, on_class,
  lift, continue, ◌>>=◌,
}
use ha_nrf52840_ot_rcp_updat.Effects.Hoare.{Ends, returns, raises, Hoare}
use ha_nrf52840_ot_rcp_updat.Effects.Keeps.{Keeps}

-- Whatever `m` returns has the property `V`.
pub record Yields {W A : Type 0} (V : A → Type 0) (m : M W A) : Type 0 where
  pub at : (s : St W) → Ends (λ value _. V value) (λ _ _. Unit {0}) (m s)

module _ {W A : Type 0} {V : A → Type 0} where
  pub Yields-pure : (value : A) → V value → Yields {W = W} V (pure value)
  unfolding pure
  Yields-pure value v = record { at = λ s. returns v }

  pub Yields-fail : (failure : Failure) → Yields {W = W} V (fail failure)
  unfolding fail
  Yields-fail failure = record { at = λ s. raises tt }

  pub Yields-raise : (class : Class) → Yields {W = W} V (raise class)
  unfolding raise
  Yields-raise class = record { at = λ s. raises tt }

  pub Yields-if :
      (test : Bool) (m n : M W A)
      → (test ≡ true → Yields V m)
      → (test ≡ false → Yields V n)
      → Yields V (if test then m else n)
  Yields-if true m n left right = left refl
  Yields-if false m n left right = right refl

  pub Yields-on_class :
      (test : Class → Bool) (handler : M W A) (failure : Failure)
      → Yields V handler
      → Yields V (on_class test handler failure)
  Yields-on_class test handler (raised class noted) h =
      Yields-if (test class) _ _ (λ _. h) (λ _. Yields-fail (raised class noted))
  Yields-on_class test handler out_of_rounds h = Yields-fail out_of_rounds

  handle-Yields :
      (r : Result Failure A × St W) (handler : Failure → M W A)
      → Ends (λ value _. V value) (λ _ _. Unit {0}) r
      → ((failure : Failure) → Yields V (handler failure))
      → Ends (λ value _. V value) (λ _ _. Unit {0}) (handle r handler)
  handle-Yields (ok value, s) handler (returns v) next = returns v
  handle-Yields (err failure, s) handler (raises _) next = (next failure).at s

  pub Yields-catch :
      (body : M W A) (handler : Failure → M W A)
      → Yields V body
      → ((failure : Failure) → Yields V (handler failure))
      → Yields V (catch body handler)
  unfolding catch
  Yields-catch body handler h next = record {
    at = λ s. handle-Yields (body s) handler (h.at s) next;
  }

  pub Yields-lift :
      (r : Result Class A) → ((value : A) → r ≡ ok value → V value) → Yields {W = W} V (lift r)
  unfolding lift
  Yields-lift (ok value) h = Yields-pure value (h value refl)
  Yields-lift (err class) h = Yields-raise class

module _ {W A B : Type 0} {V : A → Type 0} {V' : B → Type 0} where
  continue-Yields :
      (r : Result Failure A × St W) (next : A → M W B)
      → Ends (λ value _. V value) (λ _ _. Unit {0}) r
      → ((value : A) → V value → Yields V' (next value))
      → Ends (λ value _. V' value) (λ _ _. Unit {0}) (continue r next)
  continue-Yields (ok value, s) next (returns v) rest = (rest value v).at s
  continue-Yields (err failure, s) next (raises _) rest = raises tt

  pub Yields-bind :
      (m : M W A) (next : A → M W B)
      → Yields V m
      → ((value : A) → V value → Yields V' (next value))
      → Yields V' (m >>= next)
  unfolding ◌>>=◌
  Yields-bind m next h rest = record { at = λ s. continue-Yields (m s) next (h.at s) rest }

any_end : {W A : Type 0} (r : Result Failure A × St W) → Ends (λ _ _. Unit {0}) (λ _ _. Unit {0}) r
any_end (ok value, s) = returns tt
any_end (err failure, s) = raises tt

module _ {W A B : Type 0} {V' : B → Type 0} where
  -- The value of the first computation does not matter.
  pub Yields-after :
      (m : M W A) (next : A → M W B)
      → ((value : A) → Yields V' (next value))
      → Yields V' (m >>= next)
  Yields-after m next rest =
      Yields-bind {V = λ _. Unit {0}} m next (record { at = λ s. any_end (m s) })
        (λ value _. rest value)

module _ {W A : Type 0} {V : A → Type 0} (I : List Event → Type 0) where
  both_hold :
      (r : Result Failure A × St W)
      → Ends (λ value _. V value) (λ _ _. Unit {0}) r
      → I r.1.log
      → Ends (λ value s. V value × I s.log) (λ _ s. I s.log) r
  both_hold (ok value, s) (returns v) p = returns (v, p)
  both_hold (err failure, s) (raises _) p = raises p

  -- A computation whose value is known and that keeps a property of logs.
  pub Yields-Hoare :
      {m : M W A}
      → Yields V m
      → Keeps I m
      → Hoare (λ s. I s.log) m (λ value s. V value × I s.log) (λ _ s. I s.log)
  Yields-Hoare {m} y k = record { at = λ s p. both_hold (m s) (y.at s) (k.at s p) }
