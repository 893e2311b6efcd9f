-- ===== src/Token/Reconcile.antt =====
-- Reconcile of pkg/addon/agent/controller/token.go.
pub mod Report
pub mod Absent
pub mod Present
pub mod Malformed
use managed_serviceaccount.Prelude.{String, ◌==◌, true, false, Option, none, some, if◌then◌else◌}
use managed_serviceaccount.Prelude.Int.{pos}
use managed_serviceaccount.Prelude.Dict.{value_at}
use managed_serviceaccount.Gotime.{Time, Duration}
use managed_serviceaccount.Errors.{Error, Result, ok, err, is_not_found, message, wrap, error_text}
use managed_serviceaccount.Effect.{Call, pure, raise, attempt, wrapf, ◌>>=◌, ◌>>◌}
use managed_serviceaccount.Kube.{Key, ServiceAccount, Condition, Outcome}
use managed_serviceaccount.Api.{
  ManagedServiceAccount, ManagedServiceAccountStatus, SecretRef, Status-discrete,
  condition_type_token_reported, label_key_is_managed_service_account,
}
use managed_serviceaccount.Token.Cluster.{Cluster}
use managed_serviceaccount.Token.Rotation.{check_token_refresh_after}
use managed_serviceaccount.Token.Build.{set_success_status}
use managed_serviceaccount.Token.Sync.{Config, spoke_key, ensure_service_account, sync}

-- reconcile.Result{RequeueAfter: d}
abbrev pub requeue_after : Duration → Outcome
requeue_after d = record { requeue = false; requeue_after = d }

-- reconcile.Result{}
abbrev pub no_requeue : Outcome
no_requeue = requeue_after (pos 0)

module _ (C : Cluster) where
  open C use {State}

  -- Status().Update, where the status changed
  pub update_if_changed :
      ManagedServiceAccountStatus → ManagedServiceAccount → Call State (Unit {0})
  update_if_changed old msa = elim (Status-discrete old msa.status) [
    | yes _ ↦ pure tt
    | no _ ↦ wrapf "failed to update status" (C.update_status msa)
  ]

  pub report_failure : ManagedServiceAccount → Error → Call State Outcome
  report_failure msa e s =
      (do
        wrapf "failed to update status" (
            C.update_status (record msa {
              status = record msa.status {
                conditions = C.set_status_condition s msa.status.conditions (record {
                  condition_type = condition_type_token_reported;
                  status = "False";
                  reason = "TokenReportFailed";
                  text = error_text e;
                  last_transition_time = none;
                });
              };
            }))
        raise (wrap "failed to sync token" e))
        s

  -- the token was refreshed, and expires at the given time
  report_refreshed : ManagedServiceAccount → Time → Call State Outcome
  unfolding set_success_status update_if_changed
  report_refreshed msa expiring s =
      (do
        update_if_changed msa.status
            (set_success_status C s msa (some expiring) (C.now s) (C.now s))
        pure no_requeue)
        s

  -- the token was left as it is
  report_kept : ManagedServiceAccount → Option SecretRef → Option Time → Call State Outcome
  unfolding set_success_status update_if_changed check_token_refresh_after
  report_kept msa (some ref) (some expiring) s =
      (do
        update_if_changed msa.status
            (set_success_status C s msa (some expiring) (C.now s) ref.last_refresh_timestamp)
        pure (
            requeue_after
              (check_token_refresh_after (C.now s) expiring ref.last_refresh_timestamp)))
        s
  report_kept msa _ _ s =
      raise (message "token secret ref or expiration time is nil but token not refreshed") s

  report : ManagedServiceAccount → Result (Option Time) → Call State Outcome
  unfolding report_failure report_refreshed report_kept
  report msa (err e) = report_failure msa e
  report msa (ok (some expiring)) = report_refreshed msa expiring
  report msa (ok none) = report_kept msa msa.status.token_secret_ref msa.status.expiration_timestamp

module _ (C : Cluster) (config : Config) where
  open C use {State}

  deleted : Result (Unit {0}) → Call State Outcome
  deleted (ok _) = pure no_requeue
  deleted (err e) =
      if is_not_found e
      then pure no_requeue
      else raise (wrap "fail to delete related serviceaccount" e)

  -- the service account of a ManagedServiceAccount that is gone, from the reply to its read
  remove_related : String → Result ServiceAccount → Call State Outcome
  unfolding deleted value_at
  remove_related name (err e) =
      if is_not_found e
      then pure no_requeue
      else raise (wrap "fail to get related serviceaccount" e)
  remove_related name (ok sa) =
      if value_at label_key_is_managed_service_account sa.metadata.labels == "true"
      then (do reply ← attempt (C.delete_spoke_account (spoke_key config name)); deleted reply)
      else pure no_requeue

  reconcile_absent : Key → Call State Outcome
  unfolding remove_related
  reconcile_absent request = do
    reply ← attempt (C.get_spoke_account (spoke_key config request.name))
    remove_related request.name reply

  reconcile_present : ManagedServiceAccount → Call State Outcome
  unfolding ensure_service_account sync report
  reconcile_present msa = do
    wrapf "failed to ensure service account" (ensure_service_account C config msa)
    reply ← attempt (sync C config msa)
    report C msa reply

  -- from the reply to the read of the ManagedServiceAccount
  dispatch : Key → Result ManagedServiceAccount → Call State Outcome
  unfolding reconcile_absent reconcile_present
  dispatch request (ok msa) = reconcile_present msa
  dispatch request (err e) =
      if is_not_found e
      then reconcile_absent request
      else raise (wrap "fail to get managed serviceaccount" e)

  unfoldable pub reconcile : Key → Call State Outcome
  unfolding dispatch
  reconcile request = do reply ← attempt (C.get_account request); dispatch request reply
