-- ===== src/Token/Reconcile/Absent.antt =====
-- A ManagedServiceAccount that is gone: what becomes of its service account on the managed cluster.
use managed_serviceaccount.Prelude.{
  String, ◌==◌, Bool, true, Option, none, some, ◌≡◌, refl, ◌∙◌, sym, ap, arith, if◌then◌else◌,
}
use managed_serviceaccount.Prelude.Dict.{value_at}
use managed_serviceaccount.Errors.{Error, ok, err, is_not_found}
use managed_serviceaccount.Effect.Triple.{Ends, Ends-ok, Ends-err, Ends-if, Ends-attempt}
use managed_serviceaccount.Kube.{Key, ServiceAccount, Outcome, put_at, put_at_self}
use managed_serviceaccount.Api.{label_key_is_managed_service_account}
use managed_serviceaccount.Token.Cluster.{Cluster, Objects}
use managed_serviceaccount.Token.Cluster.Laws.{IsLawful}
use managed_serviceaccount.Token.Sync.{Config, spoke_key}
use managed_serviceaccount.Token.Reconcile.{
  no_requeue, deleted, remove_related, reconcile_absent, dispatch, reconcile,
}

-- Whether a service account bears the label of the agent.
abbrev pub is_managed : ServiceAccount → Bool
is_managed sa = value_at label_key_is_managed_service_account sa.metadata.labels == "true"

-- A service account, if it is not the agent's.
abbrev pub unmanaged : Option ServiceAccount → Option ServiceAccount
unmanaged none = none
unmanaged (some sa) = if is_managed sa then none else some sa

-- The objects without the agent's service account at a key.
abbrev pub without_managed : Objects → Key → Objects
without_managed o k = record o {
  spoke_accounts = put_at o.spoke_accounts k (unmanaged (o.spoke_accounts k));
}

without_managed_id :
    (o : Objects) (k : Key)
    → unmanaged (o.spoke_accounts k) ≡ o.spoke_accounts k
    → without_managed o k ≡ o
without_managed_id o k h =
    ap (λ f. record o { spoke_accounts = f })
      (ap (put_at o.spoke_accounts k) h ∙ put_at_self o.spoke_accounts k)

module _ (C : Cluster) (config : Config) (L : IsLawful C) where
  open C use {State, objects}

  Cleaned : Key → State → Outcome → State → Type 0
  Cleaned k s out t = (out ≡ no_requeue) × (objects t ≡ without_managed (objects s) k)

  Kept : State → Error → State → Type 0
  Kept s e t = objects t ≡ objects s

  remove_related-present :
      (name : String) (sa : ServiceAccount) (s t : State)
      → (objects s).spoke_accounts (spoke_key config name) ≡ some sa
      → objects t ≡ objects s
      → Ends (Cleaned (spoke_key config name) s) (Kept s) (remove_related C config name (ok sa) t)
  unfolding remove_related deleted Cleaned Kept
  remove_related-present name sa s t e u =
      Ends-if (is_managed sa) _ _ t
        (λ managed.
          Ends-attempt _ _ (L.deletes_spoke_account (spoke_key config name) t)
            (λ x v miss.
              Ends-if (is_not_found x) _ _ v
                (λ nf. absurd (
                  ground (
                    arith,
                    miss.0 nf,
                    ap (λ (o : Objects). o.spoke_accounts (spoke_key config name)) u,
                  )))
                (λ _. Ends-err (miss.1 ∙ u)))
            (λ _ v h. Ends-ok (refl, rw (h, u, e, managed))))
        (λ own.
          Ends-ok
            (refl, u ∙ sym (without_managed_id (objects s) (spoke_key config name) (rw (e, own)))))

  remove_related-absent :
      (name : String) (x : Error) (s t : State)
      → (is_not_found x ≡ true → (objects s).spoke_accounts (spoke_key config name) ≡ none)
      → objects t ≡ objects s
      → Ends (Cleaned (spoke_key config name) s) (Kept s) (remove_related C config name (err x) t)
  unfolding remove_related Cleaned Kept
  remove_related-absent name x s t miss u =
      Ends-if (is_not_found x) _ _ t
        (λ nf.
          Ends-ok
            (refl, u ∙ sym (without_managed_id (objects s) (spoke_key config name) (rw (miss nf)))))
        (λ _. Ends-err u)

  reconcile_absent_lem :
      (request : Key) (s t : State)
      → objects t ≡ objects s
      → Ends
          (Cleaned (spoke_key config request.name) s)
          (Kept s)
          (reconcile_absent C config request t)
  unfolding reconcile_absent
  reconcile_absent_lem request s t u =
      Ends-attempt _ _ (L.reads_spoke_account (spoke_key config request.name) t)
        (λ x v miss.
          remove_related-absent request.name x s v (λ nf. rw u at (miss.0 nf)) (miss.1 ∙ u))
        (λ sa v found. remove_related-present request.name sa s v (rw u at found.0) (found.1 ∙ u))

  -- Where the hub has no ManagedServiceAccount of the request, a reconcile that succeeds removes the
  -- service account of that name in the agent's namespace if it bears the agent's label, keeps it if
  -- not, changes no other object and asks for no further run; one that fails changes nothing.
  pub reconcile-absent :
      (request : Key) (s : State)
      → (objects s).accounts request ≡ none
      → Ends
          (λ out t.
            (out ≡ no_requeue)
            × (objects t ≡ without_managed (objects s) (spoke_key config request.name)))
          (λ _ t. objects t ≡ objects s)
          (reconcile C config request s)
  unfolding reconcile dispatch Cleaned Kept
  reconcile-absent request s gone =
      Ends-attempt _ _ (L.reads_account request s)
        (λ x t miss.
          Ends-if (is_not_found x) _ _ t (λ _. reconcile_absent_lem request s t miss.1)
            (λ _. Ends-err miss.1))
        (λ m t found. absurd (ground (arith, found.0)))
