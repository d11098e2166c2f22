-- ===== src/Updater/Locking.antt =====
-- The rule for `with update_lock(directory)` of state.py, as updater.py uses it.
use ha_nrf52840_ot_rcp_updat.Base.{List, ◌∷◌, Result, ok, err}
use ha_nrf52840_ot_rcp_updat.Effects.{
  Failure, Event, lock, unlock, St, M, pure, fail, call, write, ◌>>◌,
}
use ha_nrf52840_ot_rcp_updat.Effects.Hoare.{
  Ends, returns, raises, Hoare, Hoare-bind, Hoare-pure, Hoare-fail, Hoare-write, Hoare-post,
}
use ha_nrf52840_ot_rcp_updat.Effects.Keeps.{Keeps-call, Keeps-Hoare}
use ha_nrf52840_ot_rcp_updat.Environment.{Environment}
use ha_nrf52840_ot_rcp_updat.Updater.Transaction.{released, holding, with_lock}

-- What holds outside the lock and inside, and that taking and releasing it leads between the two.
pub record Guards (Outside Inside : List Event → Type 0) : Type 0 where
  pub locking : (log : List Event) → Outside log → Inside (lock ∷ log)
  pub unlocking : (log : List Event) → Inside log → Outside (unlock ∷ log)

module _ {W A : Type 0} (env : Environment W) (Outside Inside : List Event → Type 0)
    (guards : Guards Outside Inside) (V : A → Type 0) where
  leaving :
      {B : Type 0} (m : M W B) (Q : B → St W → Type 0) (R : Failure → St W → Type 0)
      → Hoare (λ s. Outside s.log) m Q R
      → ((failure : Failure) (s : St W) → Outside s.log → R failure s)
      → Hoare (λ s. Inside s.log) (do write unlock; call env.release_lock; m) Q R
  leaving m Q R h fails =
      Hoare-bind {Q = λ _ t. Outside t.log} _ _
        (Hoare-write unlock (λ t q. guards.unlocking t.log q))
        (λ _.
          Hoare-bind _ _
            (Hoare-post (Keeps-Hoare Outside (Keeps-call env.release_lock)) (λ _ t q. q)
              (λ e t q. fails e t q))
            (λ _. h))

  released-Ends :
      (r : Result Failure A × St W)
      → Ends (λ value s. V value × Inside s.log) (λ _ s. Inside s.log) r
      → Ends (λ value s. V value × Outside s.log) (λ _ s. Outside s.log) (released env r)
  released-Ends (ok value, s) (returns (v, q)) =
      (leaving (pure value) _ _ (Hoare-pure value (λ t o. (v, o))) (λ e t o. o)).at s q
  released-Ends (err failure, s) (raises q) =
      (leaving (fail failure) _ _ (Hoare-fail failure (λ t o. o)) (λ e t o. o)).at s q

  pub with_lock-rule :
      (body : M W A)
      → Hoare (λ s. Inside s.log) body (λ value s. V value × Inside s.log) (λ _ s. Inside s.log)
      → Hoare
          (λ s. Outside s.log)
          (with_lock env body)
          (λ value s. V value × Outside s.log)
          (λ _ s. Outside s.log)
  unfolding with_lock holding
  with_lock-rule body h = Hoare-bind _ _ (Keeps-Hoare Outside (Keeps-call env.acquire_lock)) (λ _.
      Hoare-bind {Q = λ _ s. Inside s.log} _ _ (Hoare-write lock (λ s p. guards.locking s.log p))
        (λ _. record { at = λ s p. released-Ends _ (h.at s p) }))
