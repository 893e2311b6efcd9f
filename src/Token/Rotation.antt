-- ===== src/Token/Rotation.antt =====
-- When a token is due: exceedThreshold, checkTokenRefreshAfter, isSoonExpiring and
-- shouldCreateUpdateTokenSecret of pkg/addon/agent/controller/token.go.
pub mod Threshold
pub mod Decision
use managed_serviceaccount.Prelude.{
  ℕ, ◌*◌, String, Bool, true, false, not, Option, none, some, [], if◌then◌else◌,
}
use managed_serviceaccount.Prelude.Int.{ℤ, pos}
use managed_serviceaccount.Prelude.Dict.{lookup}
use managed_serviceaccount.Gotime.{Time, Duration, second, after, sub, add, plus, times, divided}
use managed_serviceaccount.Effect.{Call, pure, lift, ◌>>=◌}
use managed_serviceaccount.Kube.{Bytes, Secret}
use managed_serviceaccount.Api.{ManagedServiceAccount, SecretRef}
use managed_serviceaccount.Token.Jwt.{check_user_in_token}
use managed_serviceaccount.Token.Cluster.{Cluster}

-- exceedThreshold: whether the threshold is passed, and the threshold
unfoldable pub exceed_threshold : Time → Time → Time → Bool × Time
unfolding after add sub times divided
exceed_threshold now expiring last_refresh =
    let threshold = add last_refresh (times (divided (sub expiring last_refresh) 5) 4) in
    (after now threshold, threshold)

-- checkTokenRefreshAfter
unfoldable pub check_token_refresh_after : Time → Time → Time → Duration
unfolding exceed_threshold plus sub
check_token_refresh_after now expiring last_refresh =
    let (exceed, threshold) = exceed_threshold now expiring last_refresh in
    if exceed then pos (5 * second) else plus (sub threshold now) (pos (5 * second))

-- secret.Data[corev1.ServiceAccountTokenKey]: a missing key reads as no bytes.
unfoldable pub token_of : Secret → Bytes
unfolding lookup
token_of secret = elim (lookup "token" secret.content) [ none ↦ [] | some b ↦ b ]

module _ (C : Cluster) where
  open C use {State}

  soon_expiring : Option SecretRef → Option Time → Option Secret → Call State Bool
  unfolding exceed_threshold token_of
  soon_expiring (some ref) (some expiring) (some held) s =
      if (exceed_threshold (C.now s) expiring ref.last_refresh_timestamp).0
      then pure true s
      else (do authenticated ← C.review_token (token_of held); pure (not authenticated)) s
  soon_expiring _ _ _ s = pure true s

  -- isSoonExpiring
  unfoldable pub is_soon_expiring : ManagedServiceAccount → Option Secret → Call State Bool
  unfolding soon_expiring
  is_soon_expiring msa secret =
      soon_expiring msa.status.token_secret_ref msa.status.expiration_timestamp secret

  should_renew :
      String
      → ManagedServiceAccount
      → Option SecretRef
      → Option Time
      → Option Secret
      → Call State Bool
  unfolding is_soon_expiring token_of
  should_renew spoke_namespace msa (some ref) (some expiring) (some held) = do
    matched ← lift (check_user_in_token C.jwt spoke_namespace msa.metadata.name (token_of held))
    if matched then is_soon_expiring msa (some held) else pure true
  should_renew spoke_namespace msa _ _ _ = pure true

  -- shouldCreateUpdateTokenSecret; what it answers beside an error is dropped by its caller
  unfoldable pub should_create_update_token_secret :
      String → ManagedServiceAccount → Option Secret → Call State Bool
  unfolding should_renew
  should_create_update_token_secret spoke_namespace msa secret =
      should_renew spoke_namespace msa msa.status.token_secret_ref msa.status.expiration_timestamp
        secret
