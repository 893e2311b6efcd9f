-- ===== src/Ephemeral.antt =====
-- pkg/addon/commoncontroller/ephemeral_identity_controller.go: ManagedServiceAccounts that are deleted
-- when their time to live is over.
pub mod Expiry
pub mod Worker
mod Wait
mod Samples
use managed_serviceaccount.Prelude.{ℕ, Bool, true, false, Option, none, some, if◌then◌else◌}
use managed_serviceaccount.Prelude.Int.{ℤ, pos, ltb_ℤ}
use managed_serviceaccount.Gotime.{Time, Duration, second, after, sub, add, times}
use managed_serviceaccount.Errors.{Error, Result, ok, err, is_not_found, message, wrap}
use managed_serviceaccount.Effect.{Call, pure, raise, attempt, wrapf, ◌>>=◌, ◌>>◌}
use managed_serviceaccount.Kube.{Key, key_of, Shelf, Outcome}
use managed_serviceaccount.Api.{ManagedServiceAccount}

-- The cache and the client of the hub, and the clock.
pub record Hub : Type 1 where
  pub State : Type 0
  -- what the hub holds in a state
  pub accounts : State → Shelf ManagedServiceAccount
  pub get_account : Key → Call State ManagedServiceAccount
  pub delete_account : ManagedServiceAccount → Call State (Unit {0})
  pub now : State → Time

abbrev pub no_requeue : Outcome
no_requeue = record { requeue = false; requeue_after = pos 0 }

-- managed.CreationTimestamp.Add(time.Duration(ttl) * time.Second)
unfoldable pub deletion_time : Time → ℤ → Time
unfolding add times
deletion_time created ttl = add created (times ttl second)

module _ (H : Hub) where
  open H use {State}

  -- a ManagedServiceAccount that is due for deletion at a time, at the time that the clock shows
  expire : ManagedServiceAccount → Time → Time → Call State Outcome
  expire managed due now =
      if after now due
      then (do
        wrapf "fail to delete expired ManagedServiceAccount" (H.delete_account managed)
        pure no_requeue)
      else (if ltb_ℤ (sub due now) (pos 0)
          then raise (message "unexpected error, requeue")
          else pure (record { requeue = true; requeue_after = sub due now }))

  check_ttl : ManagedServiceAccount → Option ℤ → Call State Outcome
  unfolding expire
  check_ttl managed none s = pure no_requeue s
  check_ttl managed (some ttl) s =
      expire managed (deletion_time managed.metadata.creation_timestamp ttl) (H.now s) s

  from_reply : Result ManagedServiceAccount → Call State Outcome
  unfolding check_ttl
  from_reply (ok managed) = check_ttl managed managed.spec.ttl_seconds_after_creation
  from_reply (err e) =
      if is_not_found e
      then pure no_requeue
      else raise (wrap "fail to get managed serviceaccount" e)

  unfoldable pub reconcile : Key → Call State Outcome
  unfolding from_reply
  reconcile request = do reply ← attempt (H.get_account request); from_reply reply
