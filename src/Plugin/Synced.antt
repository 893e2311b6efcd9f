-- ===== src/Plugin/Synced.antt =====
-- The syncer and the plugin together: the token that the plugin reads is the one that was synced.
use managed_serviceaccount.Prelude.{
  String, ◌<>◌, ◌==◌, false, some, [], ◌∷◌, ◌≡◌, ◌≢◌, ◌⊎◌, inl, inr, refl, ◌∙◌, ap, arith,
  Bool-cases,
}
use managed_serviceaccount.Prelude.Dict.{lookup}
use managed_serviceaccount.Errors.{Error, ok, wrap, is_not_found}
use managed_serviceaccount.Effect.{next}
use managed_serviceaccount.Effect.Triple.{
  Ends, Ends-ok, Ends-err, Ends-next, Ends-attempt, Ends-weaken,
}
use managed_serviceaccount.Kube.{Bytes, Key, Secret, put_at_found}
use managed_serviceaccount.Api.{ManagedServiceAccount, SecretRef}
use managed_serviceaccount.Profile.Hub.{Hub, ClusterProfile}
use managed_serviceaccount.Profile.Hub.Laws.{IsLawful}
use managed_serviceaccount.Profile.Cred.{synced_name}
use managed_serviceaccount.Profile.Cred.Compare.{NodupKeys}
use managed_serviceaccount.Profile.Sync.{sync_creds}
use managed_serviceaccount.Profile.Sync.Accounts.{HasCopy}
use managed_serviceaccount.Profile.Sync.Copy.{Copied, copy_key, sync_creds-copies}
use managed_serviceaccount.Plugin.{
  Host, ExecCredential, Provider, infer_namespace, token_in, extract, secret_text, read_token,
  with_cluster, with_config, with_client, get_token,
}
use managed_serviceaccount.Plugin.Token.{secret_key}

-- A plugin that is set up for the copies in the namespace of a ClusterProfile: its client reads the
-- secrets of the hub, and its config names the cluster namespace of the account.
pub record IsSetFor (H : Hub) (host : Host H.State) (msa : ManagedServiceAccount)
    (cp : ClusterProfile) (p : Provider H.State) (info : ExecCredential) : Type 0 where
  pub raw : Bytes
  pub has_client : p.kube_client ≡ some H.get_secret
  pub has_config : info.cluster_config ≡ some raw
  pub config_there : raw ≢ []
  pub has_cluster : host.unmarshal_cluster_name raw ≡ ok msa.metadata.namespace
  pub cluster_there : (msa.metadata.namespace == "") ≡ false
  pub account : p.managed_service_account ≡ msa.metadata.name
  pub namespace : infer_namespace host ≡ cp.metadata.namespace

module _ (H : Hub) (L : IsLawful H) (host : Host H.State) (msa : ManagedServiceAccount)
    (cp : ClusterProfile) (source : Secret) (token : Bytes) where
  open H use {State, secrets}

  -- A failure of the API server to read the secret, other than that it is not there.
  pub record Unread (e : Error) : Type 0 where
    pub about : String
    pub cause : Error
    pub wrapped_cause : e ≡ wrap about cause
    pub is_other : is_not_found cause ≡ false

  token_in_lem : (k : Key) (b : Bytes) → b ≢ [] → token_in host k (some b) ≡ ok b
  unfolding token_in
  token_in_lem k [] there = absurd (there refl)
  token_in_lem k (c ∷ b) there = refl

  read_effect :
      (t : State)
      → HasCopy H cp msa source t
      → lookup "token" source.content ≡ some token
      → token ≢ []
      → infer_namespace host ≡ cp.metadata.namespace
      → Ends
          (λ b _. b ≡ token)
          (λ e _. Unread e)
          (read_token host H.get_secret msa.metadata.name msa.metadata.namespace t)
  unfolding read_token extract synced_name
  read_effect t copied held there ns =
      let k = secret_key host msa.metadata.namespace msa.metadata.name in
      let same_key : k ≡ copy_key msa cp =
        ap
          (λ n. record { namespace = n; name = msa.metadata.namespace <> "-" <> msa.metadata.name })
          ns in
      let stored : secrets t k ≡ some copied.copy = ap (secrets t) same_key ∙ copied.held in
      Ends-attempt _ _ (L.reads_secret k t)
        (λ e u miss. Ends-err (record {
          about = "failed to get synced credential secret " <> secret_text host k;
          cause = e;
          wrapped_cause = refl;
          is_other = elim (Bool-cases (is_not_found e)) [
            | inl gone ↦ absurd (ground (arith, miss.0 gone, stored))
            | inr other ↦ other
          ];
        }))
        (λ x u got.
          let same : x ≡ copied.copy = cc (got.0, stored) in
          let found : lookup "token" x.content ≡ some token =
            ap (λ (z : Secret). lookup "token" z.content) same
            ∙ copied.good.same_data "token"
            ∙ held in
          rw (ap (token_in host k) found ∙ token_in_lem k token there) (Ends-ok refl))

  config_effect :
      (raw : Bytes)
      → raw ≢ []
      → host.unmarshal_cluster_name raw ≡ ok msa.metadata.namespace
      → (msa.metadata.namespace == "") ≡ false
      → (t : State) → HasCopy H cp msa source t
      → lookup "token" source.content ≡ some token
      → token ≢ []
      → infer_namespace host ≡ cp.metadata.namespace
      → Ends
          (λ b _. b ≡ token)
          (λ e _. Unread e)
          (with_config host H.get_secret msa.metadata.name (some raw) t)
  unfolding with_config with_cluster
  config_effect [] config_there parsed named t copied held there ns = absurd (config_there refl)
  config_effect (b ∷ raw) config_there parsed named t copied held there ns =
      rw (parsed, named) (read_effect t copied held there ns)

  -- A plugin that is set up for the copies of a ClusterProfile reads the token that was synced to it,
  -- unless the API server fails to answer.
  pub get_token_effect :
      (p : Provider State) (info : ExecCredential) (t : State)
      → IsSetFor H host msa cp p info
      → HasCopy H cp msa source t
      → lookup "token" source.content ≡ some token
      → token ≢ []
      → Ends (λ b _. b ≡ token) (λ e _. Unread e) (get_token host p info t)
  unfolding get_token with_client
  get_token_effect p info t set copied held there =
      coe 1 0
        (i.
          Ends (λ b _. b ≡ token) (λ e _. Unread e)
            (with_client host (set.has_client i) (set.account i) (set.has_config i) t))
        (config_effect set.raw set.config_there set.has_cluster set.cluster_there t copied held
          there set.namespace)

  Copied-HasCopy : (s t : State) → Copied H L msa cp source s t → HasCopy H cp msa source t
  Copied-HasCopy s t copied = record {
    copy = copied.copy;
    held =
        ap (λ f. f (copy_key msa cp)) copied.written
        ∙ put_at_found (secrets s) (copy_key msa cp) (some copied.copy);
    good = copied.good;
  }

  -- For an account with a token secret, with each key once in the data of the secrets: syncCreds and
  -- then GetToken, in a plugin that is set up for the ClusterProfile and the account, give back the token
  -- of the token secret if they succeed. If they fail, either no secret was changed, or the copy was
  -- made and the API server failed to answer the read of it.
  pub sync_creds-get_token :
      (p : Provider State) (info : ExecCredential) (s : State) (ref : SecretRef)
      → IsSetFor H host msa cp p info
      → msa.status.token_secret_ref ≡ some ref
      → secrets s (record { namespace = msa.metadata.namespace; name = ref.name }) ≡ some source
      → NodupKeys source.content
      → ((current : Secret)
          → secrets s (copy_key msa cp) ≡ some current
          → NodupKeys current.content)
      → lookup "token" source.content ≡ some token
      → token ≢ []
      → Ends
          (λ b _. b ≡ token)
          (λ e t. (secrets t ≡ secrets s) ⊎ Unread e)
          (next (sync_creds H msa cp s) (λ _. get_token host p info))
  sync_creds-get_token p info s ref set has_ref held nodup nodup' has_token there =
      Ends-next (sync_creds H msa cp s)
        (sync_creds-copies H L msa cp source s ref has_ref held nodup nodup') (λ e t same. inl same)
        (λ _ t copied.
          Ends-weaken _ (get_token_effect p info t set (Copied-HasCopy s t copied) has_token there)
            (λ _ _ h. h) (λ _ _ h. inr h))
