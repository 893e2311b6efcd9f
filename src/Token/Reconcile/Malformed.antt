-- ===== src/Token/Reconcile/Malformed.antt =====
-- A reconcile of a ManagedServiceAccount whose recorded token CheckUserInToken cannot read.
use managed_serviceaccount.Prelude.{some, inl, inr, ◌≡◌, ◌∙◌, ap, arith}
use managed_serviceaccount.Errors.{Error, err, is_not_found}
use managed_serviceaccount.Effect.Triple.{
  Ends, Ends-err, Ends-next, Ends-if, Ends-attempt, Ends-wrapf, Ends-weaken,
}
use managed_serviceaccount.Kube.{Key, key_of, Secret}
use managed_serviceaccount.Api.{ManagedServiceAccount}
use managed_serviceaccount.Token.Cluster.{Cluster, Objects}
use managed_serviceaccount.Token.Cluster.Laws.{IsLawful, IsKeyed}
use managed_serviceaccount.Token.Sync.{Config}
use managed_serviceaccount.Token.Sync.Effects.{with_account, ensure_effect}
use managed_serviceaccount.Token.Sync.Malformed.{IsMalformed, sync_malformed}
use managed_serviceaccount.Token.Reconcile.{report, reconcile_present, dispatch, reconcile}
use managed_serviceaccount.Token.Reconcile.Report.{failure_effect}

module _ (C : Cluster) (config : Config) (L : IsLawful C) (request : Key)
    (msa : ManagedServiceAccount) (held : Secret) (e : Error)
    (bad : IsMalformed C config msa held e) (s : C.State) (keyed : IsKeyed (C.objects s))
    (account : (C.objects s).accounts request ≡ some msa)
    (secret : (C.objects s).secrets request ≡ some held) where
  open C use {State, objects}

  key_eq : key_of msa.metadata ≡ request
  key_eq = keyed.accounts request msa account

  report_effect :
      (x : Error) (u : State)
      → objects u ≡ with_account config msa.metadata.name (objects s)
      → Ends (λ _ _. ⊥) (λ _ t. (objects t).secrets ≡ (objects s).secrets) (report C msa (err x) u)
  unfolding report
  report_effect x u h =
      Ends-weaken _
        (failure_effect C L request msa x u (ap (λ (o : Objects). o.accounts request) h ∙ account)
          key_eq)
        (λ _ _ f. f)
        (λ _ t f. elim f [
          | inl same ↦ ap (λ (o : Objects). o.secrets) (same ∙ h)
          | inr (status, x', failed, written) ↦
              ap (λ (o : Objects). o.secrets) written ∙ ap (λ (o : Objects). o.secrets) h
        ])

  present_malformed :
      (t : State)
      → objects t ≡ objects s
      → Ends
          (λ _ _. ⊥)
          (λ _ u. (objects u).secrets ≡ (objects s).secrets)
          (reconcile_present C config msa t)
  unfolding reconcile_present
  present_malformed t h =
      Ends-next {E = λ _ v. objects v ≡ objects t} _
        (Ends-wrapf _ _ (ensure_effect C config L msa t) (λ _ _ f. f))
        (λ _ _ f. ap (λ (o : Objects). o.secrets) (f ∙ h))
        (λ _ u f.
          let g = f ∙ ap (with_account config msa.metadata.name) h in
          Ends-attempt _ _
            (sync_malformed C config L msa held e bad u (
              ap (λ (o : Objects). o.secrets (key_of msa.metadata)) g
              ∙ ap (objects s).secrets key_eq
              ∙ secret))
            (λ x v k. report_effect x v (k ∙ g)) (λ _ _ k. absurd k))

  -- A recorded token in the secret that CheckUserInToken refuses with an error (one that is not of
  -- three parts, say) is never renewed: every reconcile fails, whichever calls fail, and leaves the
  -- secrets as they are.
  pub reconcile-malformed :
      Ends
        (λ _ _. ⊥)
        (λ _ t. (objects t).secrets ≡ (objects s).secrets)
        (reconcile C config request s)
  unfolding reconcile dispatch
  reconcile-malformed =
      Ends-attempt _ _ (L.reads_account request s)
        (λ x t miss.
          Ends-if (is_not_found x) _ _ t (λ nf. absurd (ground (arith, miss.0 nf, account)))
            (λ _. Ends-err (ap (λ (o : Objects). o.secrets) miss.1)))
        (λ m t found.
          let same : m ≡ msa = cc (found.0, account) in rw same (present_malformed t found.1))
