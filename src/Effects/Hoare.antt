-- ===== src/Effects/Hoare.antt =====
-- Contracts of computations: what holds after a return, and what after an exception.
use ha_nrf52840_ot_rcp_updat.Base.{
  Bool, true, false, ◌≡◌, refl, Result, ok, err, ◌∷◌, if◌then◌else◌,
}
use ha_nrf52840_ot_rcp_updat.Effects.{
  Class, Failure, raised, Event, St, M, pure, fail, raise, handle, catch, gets, write, change,
  continue, ◌>>=◌,
}

-- How a computation may end.
pub data Ends {W A : Type 0} (Q : A → St W → Type 0) (R : Failure → St W → Type 0)
    : Result Failure A × St W → Type 0 where
  returns : {value : A} {s : St W} → Q value s → Ends Q R (ok value, s)
  raises : {failure : Failure} {s : St W} → R failure s → Ends Q R (err failure, s)

-- Started where `P` holds, `m` returns with `Q` or raises with `R`.
pub record Hoare {W A : Type 0} (P : St W → Type 0) (m : M W A) (Q : A → St W → Type 0)
    (R : Failure → St W → Type 0) : Type 0 where
  pub at : (s : St W) → P s → Ends Q R (m s)

module _ {W A : Type 0} {Q : A → St W → Type 0} {R : Failure → St W → Type 0} where
  Ends-handle :
      {R' : Failure → St W → Type 0} {r : Result Failure A × St W} (handler : Failure → M W A)
      → Ends Q R' r
      → ((failure : Failure) → Hoare (R' failure) (handler failure) Q R)
      → Ends Q R (handle r handler)
  Ends-handle handler (returns q) next = returns q
  Ends-handle handler (raises r) next = (next _).at _ r

  pub Ends-post :
      {Q' : A → St W → Type 0} {R' : Failure → St W → Type 0} {r : Result Failure A × St W}
      → Ends Q R r
      → ((value : A) (s : St W) → Q value s → Q' value s)
      → ((failure : Failure) (s : St W) → R failure s → R' failure s)
      → Ends Q' R' r
  Ends-post (returns q) good bad = returns (good _ _ q)
  Ends-post (raises r) good bad = raises (bad _ _ r)

module _ {W A B : Type 0} {Q : A → St W → Type 0} {Q' : B → St W → Type 0}
    {R : Failure → St W → Type 0} where
  Ends-continue :
      {r : Result Failure A × St W} (next : A → M W B)
      → Ends Q R r
      → ((value : A) → Hoare (Q value) (next value) Q' R)
      → Ends Q' R (continue r next)
  Ends-continue next (returns q) rest = (rest _).at _ q
  Ends-continue next (raises r) rest = raises r

module _ {W A : Type 0} {P : St W → Type 0} {Q : A → St W → Type 0}
    {R : Failure → St W → Type 0} where
  pub Hoare-pure : (value : A) → ((s : St W) → P s → Q value s) → Hoare P (pure value) Q R
  unfolding pure
  Hoare-pure value keep = record { at = λ s p. returns (keep s p) }

  pub Hoare-raise :
      (class : Class) → ((s : St W) → P s → R (raised class false) s) → Hoare P (raise class) Q R
  unfolding raise
  Hoare-raise class keep = record { at = λ s p. raises (keep s p) }

  pub Hoare-fail :
      (failure : Failure) → ((s : St W) → P s → R failure s) → Hoare P (fail failure) Q R
  unfolding fail
  Hoare-fail failure keep = record { at = λ s p. raises (keep s p) }

  pub Hoare-catch :
      (R' : Failure → St W → Type 0) (m : M W A) (handler : Failure → M W A)
      → Hoare P m Q R'
      → ((failure : Failure) → Hoare (R' failure) (handler failure) Q R)
      → Hoare P (catch m handler) Q R
  unfolding catch
  Hoare-catch R' m handler body next = record { at = λ s p. Ends-handle handler (body.at s p) next }

  pub Hoare-if :
      (test : Bool) (m n : M W A)
      → (test ≡ true → Hoare P m Q R)
      → (test ≡ false → Hoare P n Q R)
      → Hoare P (if test then m else n) Q R
  Hoare-if true m n left right = left refl
  Hoare-if false m n left right = right refl

  pub Hoare-pre :
      (P' : St W → Type 0) (m : M W A) → Hoare P' m Q R → ((s : St W) → P s → P' s) → Hoare P m Q R
  Hoare-pre P' m h weaken = record { at = λ s p. h.at s (weaken s p) }

  pub Hoare-post :
      {Q' : A → St W → Type 0} {R' : Failure → St W → Type 0} {m : M W A}
      → Hoare P m Q R
      → ((value : A) (s : St W) → Q value s → Q' value s)
      → ((failure : Failure) (s : St W) → R failure s → R' failure s)
      → Hoare P m Q' R'
  Hoare-post h good bad = record { at = λ s p. Ends-post (h.at s p) good bad }

module _ {W A B : Type 0} {P : St W → Type 0} {Q : A → St W → Type 0} {Q' : B → St W → Type 0}
    {R : Failure → St W → Type 0} where
  pub Hoare-bind :
      (m : M W A) (next : A → M W B)
      → Hoare P m Q R
      → ((value : A) → Hoare (Q value) (next value) Q' R)
      → Hoare P (m >>= next) Q' R
  unfolding ◌>>=◌
  Hoare-bind m next first rest = record { at = λ s p. Ends-continue next (first.at s p) rest }

module _ {W : Type 0} {P : St W → Type 0} {Q : Unit {0} → St W → Type 0}
    {R : Failure → St W → Type 0} where
  pub Hoare-write :
      (event : Event)
      → ((s : St W) → P s → Q tt (record s { log = event ∷ s.log }))
      → Hoare P (write event) Q R
  unfolding write
  Hoare-write event keep = record { at = λ s p. returns (keep s p) }

module _ {W A : Type 0} {P : St W → Type 0} {Q : A → St W → Type 0}
    {R : Failure → St W → Type 0} where
  pub Hoare-gets : (f : W → A) → ((s : St W) → P s → Q (f s.world) s) → Hoare P (gets f) Q R
  unfolding gets
  Hoare-gets f keep = record { at = λ s p. returns (keep s p) }

module _ {W : Type 0} {P : St W → Type 0} {Q : Unit {0} → St W → Type 0}
    {R : Failure → St W → Type 0} where
  pub Hoare-change :
      (f : W → W)
      → ((s : St W) → P s → Q tt (record s { world = f s.world }))
      → Hoare P (change f) Q R
  unfolding change
  Hoare-change f keep = record { at = λ s p. returns (keep s p) }
