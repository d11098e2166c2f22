-- ===== src/Effects/Finds.antt =====
-- What is known of the value of a computation that keeps a property of its log and visits only
-- worlds with a property of their own, such as having been reached.
use ha_nrf52840_ot_rcp_updat.Base.{
  Bool, true, false, ◌≡◌, refl, ap, List, ◌∷◌, Result, ok, err, if◌then◌else◌,
}
use ha_nrf52840_ot_rcp_updat.Effects.{
  Class, Failure, raised, out_of_rounds, Event, St, Call, M, pure, fail, raise, catch, call, gets,
  write, change, answered, on_class, raise_if, lift, ◌>>=◌,
}
use ha_nrf52840_ot_rcp_updat.Effects.Hoare.{
  Ends, returns, raises, Hoare, Hoare-bind, Hoare-pure, Hoare-fail, Hoare-raise, Hoare-catch,
  Hoare-gets, Hoare-write, Hoare-change, Hoare-post,
}

-- In a visited state of the world the call gives this answer.
abbrev pub Answers : {W A : Type 0} → (W → Type 0) → Call W A → A → Type 0
Answers {W} R operation value = (w : W) × R w × ((operation w).0 ≡ ok value)

-- Started where the log has `I` and the world `R`, `m` ends there, and what it returns has `V`.
pub record Finds {W A : Type 0} (R : W → Type 0) (I : List Event → Type 0) (V : A → Type 0)
    (m : M W A) : Type 0 where
  pub contract :
      Hoare
        (λ s. I s.log × R s.world)
        m
        (λ value s. V value × I s.log × R s.world)
        (λ _ s. I s.log × R s.world)

module _ {W A : Type 0} {R : W → Type 0} {I : List Event → Type 0} {V : A → Type 0} where
  pub Finds-pure : (value : A) → V value → Finds R I V (pure value)
  Finds-pure value v = record { contract = Hoare-pure value (λ s p. (v, p.0, p.1)) }

  pub Finds-raise : (class : Class) → Finds R I V (raise class)
  Finds-raise class = record { contract = Hoare-raise class (λ s p. p) }

  pub Finds-fail : (failure : Failure) → Finds R I V (fail failure)
  Finds-fail failure = record { contract = Hoare-fail failure (λ s p. p) }

  -- Forget what is known of the value.
  pub Finds-any : (m : M W A) → Finds R I V m → Finds R I (λ _. Unit {0}) m
  Finds-any m h = record { contract = Hoare-post h.contract (λ _ s q. (tt, q.1, q.2)) (λ _ s p. p) }

  pub Finds-if :
      (test : Bool) (m n : M W A)
      → (test ≡ true → Finds R I V m)
      → (test ≡ false → Finds R I V n)
      → Finds R I V (if test then m else n)
  Finds-if true m n left right = left refl
  Finds-if false m n left right = right refl

  pub Finds-on_class :
      (test : Class → Bool) (handler : M W A) (failure : Failure)
      → Finds R I V handler
      → Finds R I V (on_class test handler failure)
  Finds-on_class test handler (raised class noted) h =
      Finds-if (test class) _ _ (λ _. h) (λ _. Finds-fail (raised class noted))
  Finds-on_class test handler out_of_rounds h = Finds-fail out_of_rounds

  pub Finds-catch :
      (body : M W A) (handler : Failure → M W A)
      → Finds R I V body
      → ((failure : Failure) → Finds R I V (handler failure))
      → Finds R I V (catch body handler)
  Finds-catch body handler h next = record {
    contract =
        Hoare-catch (λ _ s. I s.log × R s.world) body handler h.contract
          (λ failure. (next failure).contract);
  }

  pub Finds-lift :
      (r : Result Class A) → ((value : A) → r ≡ ok value → V value) → Finds R I V (lift r)
  unfolding lift
  Finds-lift (ok value) h = Finds-pure value (h value refl)
  Finds-lift (err class) h = Finds-raise class

module _ {W A B : Type 0} {R : W → Type 0} {I : List Event → Type 0} {V : A → Type 0}
    {V' : B → Type 0} where
  pub Finds-bind :
      (m : M W A) (next : A → M W B)
      → Finds R I V m
      → ((value : A) → V value → Finds R I V' (next value))
      → Finds R I V' (m >>= next)
  Finds-bind m next h rest = record {
    contract =
        Hoare-bind m next h.contract
          (λ value. record { at = λ s q. (rest value q.0).contract.at s (q.1, q.2) });
  }

module _ {W A B : Type 0} {R : W → Type 0} {I : List Event → Type 0} {V' : B → Type 0} where
  -- The value of the first computation does not matter.
  pub Finds-after :
      (m : M W A) (next : A → M W B)
      → Finds R I (λ _. Unit {0}) m
      → ((value : A) → Finds R I V' (next value))
      → Finds R I V' (m >>= next)
  Finds-after m next h rest = Finds-bind m next h (λ value _. rest value)

module _ {W A : Type 0} {R : W → Type 0} where
  answered-Answers :
      (I : List Event → Type 0) (operation : Call W A) (s : St W) (r : Result Class A × W)
      → operation s.world ≡ r
      → I s.log
      → R s.world
      → R r.1
      → Ends
          (λ value later. Answers R operation value × I later.log × R later.world)
          (λ _ later. I later.log × R later.world)
          (answered r s)
  answered-Answers I operation s (ok value, w) e p here later =
      returns ((s.world, here, ap (λ r. r.0) e), p, later)
  answered-Answers I operation s (err class, w) e p here later = raises (p, later)

  pub Finds-call :
      {I : List Event → Type 0} (operation : Call W A)
      → ((w : W) → R w → R (operation w).1)
      → Finds R I (Answers R operation) (call operation)
  unfolding call
  Finds-call {I} operation steps = record {
    contract = record {
      at = λ s p.
          answered-Answers I operation s (operation s.world) refl p.0 p.1 (steps s.world p.1);
    };
  }

  pub Finds-gets : {I : List Event → Type 0} (f : W → A) → Finds R I (λ _. Unit {0}) (gets f)
  Finds-gets f = record { contract = Hoare-gets f (λ s p. (tt, p.0, p.1)) }

module _ {W : Type 0} {R : W → Type 0} {I : List Event → Type 0} where
  pub Finds-write :
      (event : Event)
      → ((log : List Event) → I log → I (event ∷ log))
      → Finds R I (λ _. Unit {0}) (write event)
  Finds-write event keep = record {
    contract = Hoare-write event (λ s p. (tt, keep s.log p.0, p.1));
  }

  pub Finds-change : (f : W → W) → ((w : W) → R w → R (f w)) → Finds R I (λ _. Unit {0}) (change f)
  Finds-change f steps = record { contract = Hoare-change f (λ s p. (tt, p.0, steps s.world p.1)) }

  pub Finds-raise_if :
      (test : Bool) (class : Class) → Finds R I (λ _. Unit {0}) (raise_if test class)
  unfolding raise_if
  Finds-raise_if test class = Finds-if test _ _ (λ _. Finds-raise class) (λ _. Finds-pure tt tt)
