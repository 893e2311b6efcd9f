-- ===== src/Event/Requests.antt =====
-- What the requests of the watches are about, and what their reconciles do.
use managed_serviceaccount.Prelude.{String, true, some, [], ◌∷◌, ◌≡◌, refl, ◌∙◌, ap, arith}
use managed_serviceaccount.Effect.Triple.{Ends, Ends-weaken}
use managed_serviceaccount.Kube.{Key, key_of, ServiceAccount, Outcome, put_at_found}
use managed_serviceaccount.Api.{ManagedServiceAccount}
use managed_serviceaccount.Event.{delete, handle_account}
use managed_serviceaccount.Token.Cluster.{Cluster, Objects}
use managed_serviceaccount.Token.Cluster.Laws.{IsLawful, IsKeyed}
use managed_serviceaccount.Token.Sync.{Config, spoke_key}
use managed_serviceaccount.Token.Sync.Effects.{or_managed}
use managed_serviceaccount.Token.Reconcile.{reconcile}
use managed_serviceaccount.Token.Reconcile.Absent.{is_managed}
use managed_serviceaccount.Token.Reconcile.Present.{
  Done, renewal, keeping, Undone, reconcile-present,
}

-- The request for the service account of a name.
abbrev pub request_for : Config → String → Key
request_for config name = record { namespace = config.cluster_name; name = name }

module _ (C : Cluster) (config : Config) (L : IsLawful C) (sa : ServiceAccount)
    (msa : ManagedServiceAccount) (s : C.State) (managed : is_managed sa ≡ true)
    (ours : sa.metadata.namespace ≡ config.spoke_namespace) (keyed : IsKeyed (C.objects s))
    (held : (C.objects s).accounts (request_for config sa.metadata.name) ≡ some msa) where
  open C use {objects}

  own_key : key_of sa.metadata ≡ spoke_key config msa.metadata.name
  own_key = ground (arith, ours, ap (λ (k : Key). k.name) (keyed.accounts _ msa held))

  restored :
      (out : Outcome) (t : C.State)
      → Done C config (request_for config sa.metadata.name) msa s out t
      → (again : ServiceAccount) × ((objects t).spoke_accounts (key_of sa.metadata) ≡ some again)
  restored out t (renewal token ca_data expiring status u ran issued e ready written) = (
    or_managed config msa.metadata.name
        ((objects s).spoke_accounts (spoke_key config msa.metadata.name)),
    ap (objects t).spoke_accounts own_key
        ∙ ap (λ (o : Objects). o.spoke_accounts (spoke_key config msa.metadata.name)) written
        ∙ put_at_found (objects s).spoke_accounts (spoke_key config msa.metadata.name) _,
  )
  restored out t (keeping secret ref expiring status u ran x good r r' e ready written) = (
    or_managed config msa.metadata.name
        ((objects s).spoke_accounts (spoke_key config msa.metadata.name)),
    ap (objects t).spoke_accounts own_key
        ∙ ap (λ (o : Objects). o.spoke_accounts (spoke_key config msa.metadata.name)) written
        ∙ put_at_found (objects s).spoke_accounts (spoke_key config msa.metadata.name) _,
  )

  -- When one of the agent's service accounts is deleted on the managed cluster, its watch enqueues one
  -- request; and if the hub has the ManagedServiceAccount of that request, a reconcile of it that
  -- succeeds leaves a service account where the deleted one was.
  pub deleted_account_restored :
      (handle_account config.cluster_name (delete sa) [] ≡ request_for config sa.metadata.name ∷ [])
      × Ends
          (λ _ t.
            (again : ServiceAccount) × ((objects t).spoke_accounts (key_of sa.metadata)
              ≡ some again))
          (Undone C config (request_for config sa.metadata.name) msa s)
          (reconcile C config (request_for config sa.metadata.name) s)
  unfolding handle_account
  deleted_account_restored = (
    rw managed refl,
    Ends-weaken _
        (reconcile-present C config L (request_for config sa.metadata.name) msa s keyed held)
        restored (λ _ _ h. h),
  )
