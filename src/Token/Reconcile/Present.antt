-- ===== src/Token/Reconcile/Present.antt =====
-- A ManagedServiceAccount that is there: what a reconcile leaves on the servers.
use managed_serviceaccount.Prelude.{inl, inr, Option, none, some, ◌≡◌, refl, ◌∙◌, sym, ap, arith}
use managed_serviceaccount.Gotime.{Time}
use managed_serviceaccount.Errors.{Error, ok, err, wrap, is_not_found}
use managed_serviceaccount.Effect.Triple.{
  Ends, Ends-ok, Ends-err, Ends-next, Ends-if, Ends-attempt, Ends-wrapf, Ends-weaken, Ends-run,
}
use managed_serviceaccount.Kube.{Bytes, Key, key_of, Secret, Outcome}
use managed_serviceaccount.Api.{ManagedServiceAccount, ManagedServiceAccountStatus, SecretRef}
use managed_serviceaccount.Token.Cluster.{Cluster, Objects}
use managed_serviceaccount.Token.Cluster.Laws.{IsLawful, IsKeyed}
use managed_serviceaccount.Token.Rotation.{check_token_refresh_after}
use managed_serviceaccount.Token.Rotation.Decision.{Good}
use managed_serviceaccount.Token.Build.{build_secret, set_success_status}
use managed_serviceaccount.Effect.{next, attempted}
use managed_serviceaccount.Token.Sync.{Config, ensure_service_account, sync}
use managed_serviceaccount.Token.Sync.Effects.{
  with_account, with_secret, ensure_effect, Synced, refreshed, kept, sync_effect, read_at, Issued,
}
use managed_serviceaccount.Token.Reconcile.{
  no_requeue, requeue_after, report, report_refreshed, report_kept, reconcile_present, dispatch,
  reconcile,
}
use managed_serviceaccount.Token.Reconcile.Report.{
  with_new_status, IsReady, IsFailed, set_success_status-IsReady, update_effect, failure_effect,
}

module _ (C : Cluster) (config : Config) (k : Key) (msa : ManagedServiceAccount) where
  open C use {State, objects}

  -- The objects `o` with a service account for the ManagedServiceAccount, and with a new token.
  abbrev pub provisioned : Objects → Objects
  provisioned o = with_account config msa.metadata.name o

  abbrev pub renewed : Bytes → Bytes → Objects → Objects
  renewed token ca_data o =
      with_secret k (build_secret msa (o.secrets k) ca_data token) (provisioned o)

  -- The state in which a reconcile from `s` has the service account in place and starts the sync.
  abbrev pub sync_at : State → State
  sync_at s = (ensure_service_account C config msa (C.get_account k s).1).1

  -- A reconcile that succeeded from `s`: either there was no good token, the sync asked for one, which is
  -- in the secret with the CA data, the time at which it expires and the present time are recorded, and
  -- no run was asked for; or the token was good and was left as it is, the record of its refresh was kept, and the
  -- next run was asked for when the token is due.
  pub data Done (s : State) (out : Outcome) (t : State) : Type 0 where
    renewal :
        (token ca_data : Bytes) (expiring : Time) (status : ManagedServiceAccountStatus) (u : State)
        → sync C config msa (sync_at s) ≡ (ok (some expiring), u)
        → Issued C config msa (sync_at s) token ca_data expiring
        → out ≡ no_requeue
        → IsReady status msa.metadata.name (C.now u) expiring
        → objects t ≡ with_new_status k msa status (renewed token ca_data (objects s))
        → Done s out t
    keeping :
        (secret : Secret) (ref : SecretRef) (expiring : Time) (status : ManagedServiceAccountStatus)
        (u : State)
        → sync C config msa (sync_at s) ≡ (ok none, u)
        → (objects s).secrets k ≡ some secret
        → Good C config.spoke_namespace msa (some secret) (read_at C config msa (sync_at s))
        → msa.status.token_secret_ref ≡ some ref
        → msa.status.expiration_timestamp ≡ some expiring
        → out
          ≡ requeue_after (check_token_refresh_after (C.now u) expiring ref.last_refresh_timestamp)
        → IsReady status msa.metadata.name ref.last_refresh_timestamp expiring
        → objects t ≡ with_new_status k msa status (provisioned (objects s))
        → Done s out t

  -- A reconcile that failed from `s`: no object beyond those of a success was touched, and the status
  -- is as it was, or it reports the failure of the synchronisation with its error.
  pub data Undone (s : State) (e : Error) (t : State) : Type 0 where
    untouched : objects t ≡ objects s → Undone s e t
    unreported : objects t ≡ provisioned (objects s) → Undone s e t
    renewed_unreported :
        (token ca_data : Bytes) (expiring : Time)
        → Issued C config msa (sync_at s) token ca_data expiring
        → objects t ≡ renewed token ca_data (objects s)
        → Undone s e t
    reported :
        (inner : Error) (status : ManagedServiceAccountStatus) (u : State)
        → sync C config msa (sync_at s) ≡ (err inner, u)
        → e ≡ wrap "failed to sync token" inner
        → IsFailed status msa.status inner
        → objects t ≡ with_new_status k msa status (provisioned (objects s))
        → Undone s e t

module _ (C : Cluster) (config : Config) (L : IsLawful C) (k : Key) (msa : ManagedServiceAccount)
    (s : C.State) (keyed : IsKeyed (C.objects s)) (held : (C.objects s).accounts k ≡ some msa) where
  open C use {State, objects}

  key_eq : key_of msa.metadata ≡ k
  key_eq = keyed.accounts k msa held

  provisioned-IsKeyed :
      (t : State) → objects t ≡ provisioned C config k msa (objects s) → IsKeyed (objects t)
  provisioned-IsKeyed t e = rw e (
      let h : IsKeyed (provisioned C config k msa (objects s)) = record {
        accounts = keyed.accounts;
        secrets = keyed.secrets;
      } in
      h)

  renewed_eq :
      (token ca_data : Bytes) (t u : State)
      → objects t ≡ provisioned C config k msa (objects s)
      → objects u
        ≡ with_secret
            (key_of msa.metadata)
            (build_secret msa ((objects t).secrets (key_of msa.metadata)) ca_data token)
            (objects t)
      → objects u ≡ renewed C config k msa token ca_data (objects s)
  renewed_eq token ca_data t u e h =
      h
      ∙ ap
          (λ o.
            with_secret (key_of msa.metadata)
              (build_secret msa (o.secrets (key_of msa.metadata)) ca_data token) o)
          e
      ∙ ap
          (λ j.
            with_secret j (build_secret msa ((objects s).secrets j) ca_data token)
              (provisioned C config k msa (objects s)))
          key_eq

  start : State
  start = sync_at C config k msa s

  refreshed_effect :
      (token ca_data : Bytes) (expiring : Time) (u : State)
      → sync C config msa start ≡ (ok (some expiring), u)
      → Issued C config msa start token ca_data expiring
      → objects u ≡ renewed C config k msa token ca_data (objects s)
      → Ends (Done C config k msa s) (Undone C config k msa s) (report_refreshed C msa expiring u)
  unfolding report_refreshed set_success_status start
  refreshed_effect token ca_data expiring u ran issued e =
      Ends-next _ (update_effect C L k msa _ u (ap (λ o. o.accounts k) e ∙ held) key_eq)
        (λ _ t h. renewed_unreported token ca_data expiring issued (h ∙ e))
        (λ _ t h. Ends-ok (
          renewal token ca_data expiring _ u ran issued refl
            (set_success_status-IsReady C L u msa expiring (C.now u) (C.now u))
            (h ∙ ap (with_new_status k msa _) e)))

  kept_effect :
      (secret : Secret) (u : State) (ref : Option SecretRef) (expiring : Option Time)
      → sync C config msa start ≡ (ok none, u)
      → objects u ≡ provisioned C config k msa (objects s)
      → (objects s).secrets k ≡ some secret
      → (good : Good C config.spoke_namespace msa (some secret) (read_at C config msa start))
      → msa.status.token_secret_ref ≡ ref
      → msa.status.expiration_timestamp ≡ expiring
      → Ends (Done C config k msa s) (Undone C config k msa s) (report_kept C msa ref expiring u)
  unfolding report_kept set_success_status start
  kept_effect secret u none expiring ran e x good r r' = absurd (ground (arith, good.ref_recorded))
  kept_effect secret u (some ref) none ran e x good r r' =
      absurd (ground (arith, good.expiring_recorded))
  kept_effect secret u (some ref) (some expiring) ran e x good r r' =
      Ends-next _ (update_effect C L k msa _ u (ap (λ o. o.accounts k) e ∙ held) key_eq)
        (λ _ t h. unreported (h ∙ e))
        (λ _ t h. Ends-ok (
          keeping secret ref expiring _ u ran x good r r' refl
            (set_success_status-IsReady C L u msa expiring (C.now u) ref.last_refresh_timestamp)
            (h ∙ ap (with_new_status k msa _) e)))

  Synced-effect :
      (u : State) (r : Option Time)
      → objects start ≡ provisioned C config k msa (objects s)
      → sync C config msa start ≡ (ok r, u)
      → Synced C config L msa start r u
      → Ends (Done C config k msa s) (Undone C config k msa s) (report C msa (ok r) u)
  unfolding report
  Synced-effect u r e ran (refreshed expiring token ca_data _ issued h) =
      refreshed_effect token ca_data expiring u ran issued (renewed_eq token ca_data start u e h)
  Synced-effect u r e ran (kept secret _ h x good) =
      kept_effect secret u _ _ ran (h ∙ e)
        (ap (objects s).secrets (sym key_eq)
          ∙ ap (λ o. o.secrets (key_of msa.metadata)) (sym e)
          ∙ x)
        good refl refl

  failed_effect :
      (u : State) (inner : Error)
      → objects u ≡ provisioned C config k msa (objects s)
      → sync C config msa start ≡ (err inner, u)
      → Ends (Done C config k msa s) (Undone C config k msa s) (report C msa (err inner) u)
  unfolding report start
  failed_effect u inner e ran =
      Ends-weaken _ (failure_effect C L k msa inner u (ap (λ o. o.accounts k) e ∙ held) key_eq)
        (λ _ _ h. absurd h)
        (λ x v h. elim h [
          | inl same ↦ unreported (same ∙ e)
          | inr (status, x', failed, written) ↦
              reported inner status u ran x' failed (written ∙ ap (with_new_status k msa status) e)
        ])

  -- from the sync on
  synced_effect :
      objects start ≡ provisioned C config k msa (objects s)
      → Ends
          (Done C config k msa s)
          (Undone C config k msa s)
          (next (attempted (sync C config msa start)) (report C msa))
  synced_effect e =
      Ends-attempt _ _ (Ends-run _ (sync_effect C config L msa start (provisioned-IsKeyed start e)))
        (λ x v (g, ran). failed_effect v x (g ∙ e) ran) (λ r v (g, ran). Synced-effect v r e ran g)

  present_effect :
      (t : State)
      → objects t ≡ objects s
      → (C.get_account k s).1 ≡ t
      → Ends (Done C config k msa s) (Undone C config k msa s) (reconcile_present C config msa t)
  unfolding reconcile_present start
  present_effect t e at =
      Ends-next _ (Ends-wrapf _ _ (Ends-run _ (ensure_effect C config L msa t)) (λ _ _ h. h.0))
        (λ _ _ h. untouched (h ∙ e))
        (λ _ u (h, ran).
          let here : start ≡ u =
            ap (λ x. (ensure_service_account C config msa x).1) at ∙ ap (λ r. r.1) ran in
          coe 0 1
            (i.
              Ends (Done C config k msa s) (Undone C config k msa s)
                (next (attempted (sync C config msa (here i))) (report C msa)))
            (synced_effect (ap objects here ∙ h ∙ ap (with_account config msa.metadata.name) e)))

pub reconcile-present :
    (C : Cluster) (config : Config) (L : IsLawful C) (request : Key) (msa : ManagedServiceAccount)
    (s : C.State)
    → IsKeyed (C.objects s)
    → (C.objects s).accounts request ≡ some msa
    → Ends
        (Done C config request msa s)
        (Undone C config request msa s)
        (reconcile C config request s)
unfolding reconcile dispatch
reconcile-present C config L request msa s keyed held =
    Ends-attempt _ _ (Ends-run _ (L.reads_account request s))
      (λ x t (miss, _).
        Ends-if (is_not_found x) _ _ t (λ nf. absurd (ground (arith, miss.0 nf)))
          (λ _. Ends-err (untouched miss.1)))
      (λ m t (found, ran).
        let e : m ≡ msa = cc (found.0, held) in
        rw e (present_effect C config L request msa s keyed held t found.1 (ap (λ r. r.1) ran)))
