-- ===== src/Token/Reconcile/Report.antt =====
-- What the token controller writes into the status of a ManagedServiceAccount.
use managed_serviceaccount.Prelude.{
  ◌⊎◌, inl, inr, String, some, List, ◌≡◌, ◌≢◌, refl, ◌∙◌, sym, ap, arith, eq_iff,
}
use managed_serviceaccount.Gotime.{Time}
use managed_serviceaccount.Errors.{Error, wrap, error_text}
use managed_serviceaccount.Effect.{Call, pure, wrapf}
use managed_serviceaccount.Effect.Triple.{
  Ends, Ends-ok, Ends-err, Ends-next, Ends-wrapf, Ends-weaken,
}
use managed_serviceaccount.Kube.{Key, key_of, Condition, put_at, put_at_self}
use managed_serviceaccount.Api.{
  ManagedServiceAccount, ManagedServiceAccountStatus, Status-discrete,
  condition_type_secret_created, condition_type_token_reported,
}
use managed_serviceaccount.Token.Cluster.{Cluster, Objects}
use managed_serviceaccount.Token.Cluster.Laws.{IsLawful, find_condition, with_status}
use managed_serviceaccount.Token.Build.{set_success_status}
use managed_serviceaccount.Token.Reconcile.{update_if_changed, report_failure}

-- The objects with a new status of a ManagedServiceAccount.
abbrev pub with_new_status :
    Key → ManagedServiceAccount → ManagedServiceAccountStatus → Objects → Objects
with_new_status k msa status o = record o {
  accounts = put_at o.accounts k (some (record msa { status = status }));
}

-- The conditions hold a condition of a type with a status, a reason and a text.
pub record Shows (conditions : List Condition) (t status reason text : String) : Type 0 where
  pub condition : Condition
  pub found : find_condition t conditions ≡ some condition
  pub status_eq : condition.status ≡ status
  pub reason_eq : condition.reason ≡ reason
  pub text_eq : condition.text ≡ text

-- A status that reports a token: both conditions are true, and the token's secret, refresh and
-- expiration are recorded.
pub record IsReady (status : ManagedServiceAccountStatus) (name : String)
    (refreshed expiring : Time) : Type 0 where
  pub created : Shows status.conditions condition_type_secret_created "True" "SecretCreated" ""
  pub reported : Shows status.conditions condition_type_token_reported "True" "TokenReported" ""
  pub ref_recorded :
      status.token_secret_ref ≡ some (record { name = name; last_refresh_timestamp = refreshed })
  pub expiring_recorded : status.expiration_timestamp ≡ some expiring

-- A status that reports a failure, and keeps what was recorded of the token.
pub record IsFailed (status old : ManagedServiceAccountStatus) (e : Error) : Type 0 where
  pub reported :
      Shows status.conditions condition_type_token_reported "False" "TokenReportFailed"
        (error_text e)
  pub created :
      find_condition condition_type_secret_created status.conditions
      ≡ find_condition condition_type_secret_created old.conditions
  pub ref_kept : status.token_secret_ref ≡ old.token_secret_ref
  pub expiring_kept : status.expiration_timestamp ≡ old.expiration_timestamp

types_differ : ◌≢◌ {A = String} condition_type_token_reported condition_type_secret_created
types_differ = ground (arith, eq_iff condition_type_token_reported condition_type_secret_created)

module _ (C : Cluster) (L : IsLawful C) where
  open C use {State, objects}

  set-Shows :
      (s : State) (cs : List Condition) (c : Condition)
      → Shows (C.set_status_condition s cs c) c.condition_type c.status c.reason c.text
  set-Shows s cs c =
      let (d, e, same) = L.sets_condition s cs c in
      record {
        condition = d;
        found = e;
        status_eq = same.status;
        reason_eq = same.reason;
        text_eq = same.text;
      }

  set_keeps :
      (s : State) (cs : List Condition) (c : Condition) {t status reason text : String}
      → c.condition_type ≢ t
      → Shows cs t status reason text
      → Shows (C.set_status_condition s cs c) t status reason text
  set_keeps s cs c ne h = record {
    condition = h.condition;
    found = L.keeps_condition s cs c _ ne ∙ h.found;
    status_eq = h.status_eq;
    reason_eq = h.reason_eq;
    text_eq = h.text_eq;
  }

  pub set_success_status-IsReady :
      (s : State) (msa : ManagedServiceAccount) (expiring transition refreshed : Time)
      → IsReady
          (set_success_status C s msa (some expiring) transition refreshed).status
          msa.metadata.name
          refreshed
          expiring
  unfolding set_success_status
  set_success_status-IsReady s msa expiring transition refreshed = record {
    created = set_keeps s _ _ types_differ (set-Shows s msa.status.conditions _);
    reported = set-Shows s _ _;
    ref_recorded = refl;
    expiring_recorded = refl;
  }

  with_new_status_id :
      (k : Key) (msa : ManagedServiceAccount) (o : Objects)
      → o.accounts k ≡ some msa
      → with_new_status k msa msa.status o ≡ o
  with_new_status_id k msa o e =
      ap (λ f. record o { accounts = f })
        (ap (put_at o.accounts k) (sym e) ∙ put_at_self o.accounts k)

  update_status_effect :
      (k : Key) (msa : ManagedServiceAccount) (status : ManagedServiceAccountStatus) (s : State)
      → (objects s).accounts k ≡ some msa
      → key_of msa.metadata ≡ k
      → Ends
          (λ _ u. objects u ≡ with_new_status k msa status (objects s))
          (λ _ u. objects u ≡ objects s)
          (C.update_status (record msa { status = status }) s)
  update_status_effect k msa status s e ke =
      Ends-weaken _ (L.updates_status (record msa { status = status }) s)
        (λ _ u h.
          h
          ∙ ap
              (λ j. record (objects s) {
                accounts =
                    put_at (objects s).accounts j
                      (with_status (record msa { status = status }) ((objects s).accounts j));
              })
              ke
          ∙ ap
              (λ held. record (objects s) {
                accounts =
                    put_at (objects s).accounts k
                      (with_status (record msa { status = status }) held);
              })
              e)
        (λ _ u h. h)

  -- The status of the stored object becomes the new one, whether it had to be written or not.
  pub update_effect :
      (k : Key) (msa : ManagedServiceAccount) (status : ManagedServiceAccountStatus) (s : State)
      → (objects s).accounts k ≡ some msa
      → key_of msa.metadata ≡ k
      → Ends
          (λ _ u. objects u ≡ with_new_status k msa status (objects s))
          (λ _ u. objects u ≡ objects s)
          (update_if_changed C msa.status (record msa { status = status }) s)
  unfolding update_if_changed
  update_effect k msa status s e ke = go (Status-discrete msa.status status)
    where
      go :
          (d : Dec (msa.status ≡ status))
          → Ends
              (λ _ u. objects u ≡ with_new_status k msa status (objects s))
              (λ _ u. objects u ≡ objects s)
              ((elim d as (λ _. Call State (Unit {0})) [
                | yes _ ↦ pure tt
                | no _ ↦
                    wrapf "failed to update status"
                      (C.update_status (record msa { status = status }))
              ])
                s)
      go (yes same) = Ends-ok (
          sym (
            ap (λ x. with_new_status k msa x (objects s)) (sym same)
            ∙ with_new_status_id k msa (objects s) e))
      go (no _) = Ends-wrapf _ _ (update_status_effect k msa status s e ke) (λ _ _ h. h)

  -- A failure that could be reported, or the failure of the report.
  pub failure_effect :
      (k : Key) (msa : ManagedServiceAccount) (e : Error) (s : State)
      → (objects s).accounts k ≡ some msa
      → key_of msa.metadata ≡ k
      → Ends
          (λ _ _. ⊥)
          (λ x t.
            (objects t ≡ objects s)
            ⊎ ((status : ManagedServiceAccountStatus) × (x ≡ wrap "failed to sync token" e)
                × IsFailed status msa.status e
                × (objects t ≡ with_new_status k msa status (objects s))))
          (report_failure C msa e s)
  unfolding report_failure
  failure_effect k msa e s held ke =
      Ends-next _ (Ends-wrapf _ _ (update_status_effect k msa _ s held ke) (λ _ _ h. h))
        (λ _ _ h. inl h)
        (λ _ t h. Ends-err (
          inr (
            _,
            refl,
            record {
              reported = set-Shows s _ _;
              created = L.keeps_condition s _ _ _ types_differ;
              ref_kept = refl;
              expiring_kept = refl;
            },
            h,
          )))
