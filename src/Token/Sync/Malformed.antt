-- ===== src/Token/Sync/Malformed.antt =====
-- sync on a recorded token that CheckUserInToken cannot read.
use managed_serviceaccount.Prelude.{some, ◌≡◌, refl, arith, Bool-cases, inl, inr}
use managed_serviceaccount.Gotime.{Time}
use managed_serviceaccount.Errors.{Error, wrap, err, is_not_found}
use managed_serviceaccount.Effect.{next, wrapped}
use managed_serviceaccount.Effect.Triple.{Ends, Ends-err, Ends-attempt, Ends-weaken}
use managed_serviceaccount.Kube.{key_of, Secret}
use managed_serviceaccount.Api.{ManagedServiceAccount, SecretRef}
use managed_serviceaccount.Token.Cluster.{Cluster}
use managed_serviceaccount.Token.Cluster.Laws.{IsLawful}
use managed_serviceaccount.Token.Jwt.{check_user_in_token}
use managed_serviceaccount.Token.Rotation.{token_of, should_create_update_token_secret}
use managed_serviceaccount.Token.Rotation.Decision.{should_fails}
use managed_serviceaccount.Token.Sync.{Config, settle, current_secret, sync}

-- The status records a token, and the secret's token is refused by CheckUserInToken with an error.
pub record IsMalformed (C : Cluster) (config : Config) (msa : ManagedServiceAccount) (held : Secret)
    (e : Error) : Type 0 where
  pub ref : SecretRef
  pub expiring : Time
  pub ref_recorded : msa.status.token_secret_ref ≡ some ref
  pub expiring_recorded : msa.status.expiration_timestamp ≡ some expiring
  pub refused :
      check_user_in_token C.jwt config.spoke_namespace msa.metadata.name (token_of held) ≡ err e

module _ (C : Cluster) (config : Config) (L : IsLawful C) (msa : ManagedServiceAccount)
    (held : Secret) (e : Error) (bad : IsMalformed C config msa held e) (s : C.State)
    (there : (C.objects s).secrets (key_of msa.metadata) ≡ some held) where
  open C use {State, objects}

  decision_fails :
      (t : State)
      → objects t ≡ objects s
      → Ends
          (λ _ _. ⊥)
          (λ x u.
            (x ≡ wrap "failed to make a decision on token creation" e) × (objects u ≡ objects s))
          (next
            (wrapped "failed to make a decision on token creation"
              (should_create_update_token_secret C config.spoke_namespace msa (some held) t))
            (settle C config msa (some held)))
  unfolding next wrapped
  decision_fails t u =
      rw
        (should_fails C config.spoke_namespace msa bad.ref bad.expiring held e t bad.ref_recorded
          bad.expiring_recorded bad.refused)
        (Ends-err (refl, u))

  -- sync fails, and leaves every object as it is: the token in the secret is never renewed.
  pub sync_malformed : Ends (λ _ _. ⊥) (λ _ t. objects t ≡ objects s) (sync C config msa s)
  unfolding sync current_secret next
  sync_malformed =
      Ends-attempt _ _ (L.reads_secret (key_of msa.metadata) s)
        (λ x t miss. elim (Bool-cases (is_not_found x)) [
          | inl nf ↦ absurd (ground (arith, miss.0 nf, there))
          | inr other ↦ rw other (Ends-err miss.1)
        ])
        (λ secret t found.
          let same : secret ≡ held = cc (found.0, there) in
          rw same (Ends-weaken _ (decision_fails t found.1) (λ _ _ h. h) (λ _ _ h. h.1)))
