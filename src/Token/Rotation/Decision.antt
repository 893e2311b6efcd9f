-- ===== src/Token/Rotation/Decision.antt =====
-- When shouldCreateUpdateTokenSecret leaves the token as it is.
use managed_serviceaccount.Prelude.{
  ◌∙◌, ap, Bool, false, refl, Bool-cases, if◌then◌else◌, String, true, false, Option, some, ◌≡◌,
  ◌↔◌, arith, Option-cases, inl, inr,
}
use managed_serviceaccount.Gotime.{Time}
use managed_serviceaccount.Errors.{Error, Result, err, ok}
use managed_serviceaccount.Effect.{next, pure}
use managed_serviceaccount.Effect.Triple.{Ends, Ends-ok, Ends-err, Ends-next}
use managed_serviceaccount.Token.Cluster.Laws.{IsLawful}
use managed_serviceaccount.Kube.{Secret}
use managed_serviceaccount.Api.{ManagedServiceAccount, SecretRef}
use managed_serviceaccount.Token.Jwt.{check_user_in_token}
use managed_serviceaccount.Token.Cluster.{Cluster}
use managed_serviceaccount.Token.Rotation.{
  exceed_threshold, token_of, soon_expiring, should_renew, is_soon_expiring,
  should_create_update_token_secret,
}

module _ (C : Cluster) (spoke_namespace : String) (msa : ManagedServiceAccount) where
  open C use {State}

  -- What makes the token of a secret good: the status records a refresh and an expiration, the secret
  -- exists, its token names the service account, the threshold of the recorded times has not passed,
  -- and the managed cluster authenticates the token.
  pub record Good (secret : Option Secret) (s : State) : Type 0 where
    pub ref : SecretRef
    pub expiring : Time
    pub held : Secret
    pub ref_recorded : msa.status.token_secret_ref ≡ some ref
    pub expiring_recorded : msa.status.expiration_timestamp ≡ some expiring
    pub secret_exists : secret ≡ some held
    pub names_account :
        check_user_in_token C.jwt spoke_namespace msa.metadata.name (token_of held) ≡ ok true
    pub is_early : (exceed_threshold (C.now s) expiring ref.last_refresh_timestamp).0 ≡ false
    pub is_authenticated : (C.review_token (token_of held) s).0 ≡ ok true

  -- The token is left as it is exactly if it is good.
  pub keeps_Good :
      (secret : Option Secret) (s : State)
      → ((should_create_update_token_secret C spoke_namespace msa secret s).0 ≡ ok false)
        ↔ Good secret s
  unfolding should_create_update_token_secret is_soon_expiring next
  keeps_Good secret s = (
    λ h. elim (Option-cases msa.status.token_secret_ref) [
      | inl e ↦ absurd (ground arith)
      | inr (ref, e) ↦ elim (Option-cases msa.status.expiration_timestamp) [
        | inl e' ↦ absurd (ground arith)
        | inr (expiring, e') ↦ elim (Option-cases secret) [
          | inl e'' ↦ absurd (ground arith)
          | inr (held, e'') ↦ record {
            ref = ref;
            expiring = expiring;
            held = held;
            ref_recorded = e;
            expiring_recorded = e';
            secret_exists = e'';
            names_account = ground arith;
            is_early = ground arith;
            is_authenticated = ground arith;
          }
        ]
      ]
    ],
    λ g. ground arith,
  )

-- A recorded token that CheckUserInToken refuses with an error makes the decision fail.
pub should_fails :
    (C : Cluster) (spoke_namespace : String) (msa : ManagedServiceAccount) (ref : SecretRef)
    (expiring : Time) (held : Secret) (e : Error) (s : C.State)
    → msa.status.token_secret_ref ≡ some ref
    → msa.status.expiration_timestamp ≡ some expiring
    → check_user_in_token C.jwt spoke_namespace msa.metadata.name (token_of held) ≡ err e
    → should_create_update_token_secret C spoke_namespace msa (some held) s ≡ (err e, s)
unfolding should_create_update_token_secret should_renew next
should_fails C spoke_namespace msa ref expiring held e s r x refused =
    ap (λ v. should_renew C spoke_namespace msa v msa.status.expiration_timestamp (some held) s) r
    ∙ ap (λ v. should_renew C spoke_namespace msa (some ref) v (some held) s) x
    ∙ rw refused refl

module _ (C : Cluster) (L : IsLawful C) (s : C.State) where
  Keeps : {A : Type 0} → A → C.State → Type 0
  Keeps _ t = C.objects t ≡ C.objects s

  soon_expiring-Keeps :
      (ref : Option SecretRef) (expiring : Option Time) (secret : Option Secret)
      → Ends Keeps Keeps (soon_expiring C ref expiring secret s)
  unfolding soon_expiring Keeps
  soon_expiring-Keeps (some ref) (some expiring) (some held) =
      elim (Bool-cases (exceed_threshold (C.now s) expiring ref.last_refresh_timestamp).0) [
        | inl due ↦ rw due (Ends-ok refl)
        | inr early ↦
            rw early
              (Ends-next _ (L.reviews_token (token_of held) s) (λ _ _ u. u) (λ _ _ u. Ends-ok u))
      ]
  soon_expiring-Keeps _ _ _ = Ends-ok refl

  should_renew-Keeps :
      (spoke_namespace : String) (msa : ManagedServiceAccount) (ref : Option SecretRef)
      (expiring : Option Time) (secret : Option Secret)
      → Ends Keeps Keeps (should_renew C spoke_namespace msa ref expiring secret s)
  unfolding should_renew is_soon_expiring Keeps next
  should_renew-Keeps spoke_namespace msa (some ref) (some expiring) (some held) =
      matched (check_user_in_token C.jwt spoke_namespace msa.metadata.name (token_of held))
    where
      matched :
          (r : Result Bool)
          → Ends Keeps Keeps
              (next (r, s) (λ b. if b then is_soon_expiring C msa (some held) else pure true))
      matched (err e) = Ends-err refl
      matched (ok true) = soon_expiring-Keeps _ _ (some held)
      matched (ok false) = Ends-ok refl
  should_renew-Keeps spoke_namespace msa _ _ _ = Ends-ok refl

  -- The decision changes no object.
  pub should_keeps :
      (spoke_namespace : String) (msa : ManagedServiceAccount) (secret : Option Secret)
      → Ends
          (λ _ t. C.objects t ≡ C.objects s)
          (λ _ t. C.objects t ≡ C.objects s)
          (should_create_update_token_secret C spoke_namespace msa secret s)
  unfolding should_create_update_token_secret Keeps
  should_keeps spoke_namespace msa secret = should_renew-Keeps spoke_namespace msa _ _ secret
