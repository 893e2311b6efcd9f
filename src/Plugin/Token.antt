-- ===== src/Plugin/Token.antt =====
-- When GetToken answers, and with which token.
use managed_serviceaccount.Prelude.{
  String, ◌<>◌, ◌==◌, false, Option, none, some, [], ◌∷◌, ◌≡◌, ◌≢◌, ◌↔◌, refl, ◌∙◌, sym, ap,
  Bool-cases, inl, inr,
}
use managed_serviceaccount.Prelude.Dict.{lookup}
use managed_serviceaccount.Errors.{Error, Result, ok, err}
use managed_serviceaccount.Effect.{Call, next, attempted}
use managed_serviceaccount.Kube.{Bytes, Key, Secret}
use managed_serviceaccount.Plugin.{
  Host, ExecCredential, Provider, infer_namespace, token_in, extract, read_token, with_cluster,
  with_config, with_client, get_token,
}

module _ {S : Type 0} (host : Host S) where
  -- The key of the secret for a cluster and an account.
  abbrev pub secret_key : String → String → Key
  secret_key cluster_name msa_name = record {
    namespace = infer_namespace host;
    name = cluster_name <> "-" <> msa_name;
  }

  -- The secret that a client reads has a token.
  pub record Reads (client : Key → Call S Secret) (k : Key) (s : S) (token : Bytes) : Type 0 where
    pub secret : Secret
    pub answered : (client k s).0 ≡ ok secret
    pub held : lookup "token" secret.content ≡ some token
    pub is_there : token ≢ []

  -- All that GetToken needs is there, with a token.
  pub record Answers (p : Provider S) (info : ExecCredential) (s : S) (token : Bytes) : Type 0 where
    pub client : Key → Call S Secret
    pub config : Bytes
    pub cluster_name : String
    pub has_client : p.kube_client ≡ some client
    pub has_config : info.cluster_config ≡ some config
    pub config_there : config ≢ []
    pub has_cluster : host.unmarshal_cluster_name config ≡ ok cluster_name
    pub cluster_there : cluster_name == "" ≡ false
    pub reads : Reads client (secret_key cluster_name p.managed_service_account) s token

  token_in_iff :
      (k : Key) (o : Option Bytes) (token : Bytes)
      → (token_in host k o ≡ ok token) ↔ ((o ≡ some token) × (token ≢ []))
  unfolding token_in
  token_in_iff k none token = (λ h. cc (h), λ h. cc (h.0))
  token_in_iff k (some []) token = (λ h. cc (h), λ h. absurd (h.1 (cc (h.0))))
  token_in_iff k (some (b ∷ t)) token =
      (λ h. let e : b ∷ t ≡ token = cc (h) in (ap some e, λ z. cc (e, z)), λ h. ap ok (cc (h.0)))

  extract_iff :
      (k : Key) (r : Result Secret × S) (token : Bytes)
      → ((next (attempted r) (extract host k)).0 ≡ ok token) ↔ (
          (secret : Secret) × (r.0 ≡ ok secret)
          × (lookup "token" secret.content ≡ some token)
          × (token ≢ []))
  unfolding extract next attempted
  extract_iff k (err e, s) token = (λ h. cc (h), λ h. cc (h.1))
  extract_iff k (ok secret, s) token = (
    λ h.
        let (held, there) = (token_in_iff k (lookup "token" secret.content) token).0 h in
        (secret, refl, held, there),
    λ (x, answered, held, there).
        let same : secret ≡ x = cc (answered) in
        (token_in_iff k (lookup "token" secret.content) token).1
          (ap (λ (z : Secret). lookup "token" z.content) same ∙ held, there),
  )

  read_token_iff :
      (client : Key → Call S Secret) (msa_name cluster_name : String) (s : S) (token : Bytes)
      → ((read_token host client msa_name cluster_name s).0 ≡ ok token)
        ↔ Reads client (secret_key cluster_name msa_name) s token
  unfolding read_token
  read_token_iff client msa_name cluster_name s token =
      let k = secret_key cluster_name msa_name in
      (
        λ h.
            let (secret, answered, held, there) = (extract_iff k (client k s) token).0 h in
            record { secret = secret; answered = answered; held = held; is_there = there },
        λ h. (extract_iff k (client k s) token).1 (h.secret, h.answered, h.held, h.is_there),
      )

  refused : {e : Error} {token : Bytes} → ◌≡◌ {A = Result Bytes} (err e) (ok token) → ⊥
  refused h = cc (h)

  -- GetToken, from the reply to the parsing of the config on
  with_cluster_iff :
      (client : Key → Call S Secret) (msa_name : String) (r : Result String) (s : S) (token : Bytes)
      → ((with_cluster host client msa_name r s).0 ≡ ok token) ↔ (
          (name : String) × (r ≡ ok name)
          × ((name == "") ≡ false)
          × Reads client (secret_key name msa_name) s token)
  unfolding with_cluster
  with_cluster_iff client msa_name (err e) s token = (λ h. cc (h), λ h. cc (h.1))
  with_cluster_iff client msa_name (ok name) s token = (
    λ h. elim (Bool-cases (name == "")) [
      | inl empty ↦ absurd (refused (rw empty at h))
      | inr named ↦
          (name, refl, named, (read_token_iff client msa_name name s token).0 (rw named at h))
    ],
    λ (x, e, named, reads).
        let same : x ≡ name = cc (e) in
        rw (ap (λ z. z == "") (sym same) ∙ named)
          ((read_token_iff client msa_name name s token).1 (rw same at reads)),
  )

  with_config_iff :
      (client : Key → Call S Secret) (msa_name : String) (o : Option Bytes) (s : S) (token : Bytes)
      → ((with_config host client msa_name o s).0 ≡ ok token) ↔ (
          (config : Bytes) × (o ≡ some config)
          × (config ≢ [])
          × ((with_cluster host client msa_name (host.unmarshal_cluster_name config) s).0
              ≡ ok token))
  unfolding with_config
  with_config_iff client msa_name none s token = (λ h. cc (h), λ h. cc (h.1))
  with_config_iff client msa_name (some []) s token = (λ h. cc (h), λ h. absurd (h.2 (cc (h.1))))
  with_config_iff client msa_name (some (b ∷ raw)) s token = (
    λ h. (b ∷ raw, refl, λ e. cc (e), h),
    λ (config, e, there, h). let same : config ≡ b ∷ raw = cc (e) in rw same at h,
  )

  with_client_iff :
      (o : Option (Key → Call S Secret)) (msa_name : String) (config : Option Bytes) (s : S)
      (token : Bytes)
      → ((with_client host o msa_name config s).0 ≡ ok token) ↔ (
          (client : Key → Call S Secret) × (o ≡ some client)
          × ((with_config host client msa_name config s).0 ≡ ok token))
  unfolding with_client
  with_client_iff none msa_name config s token = (λ h. cc (h), λ h. cc (h.1))
  with_client_iff (some c) msa_name config s token =
      (λ h. (c, refl, h), λ (client, e, h). let same : client ≡ c = cc (e) in rw same at h)

  -- GetToken answers a token exactly if there is a client and a config with a cluster name, and the
  -- secret of the cluster and the account in the inferred namespace can be read and has this token,
  -- which is not empty.
  pub get_token_iff :
      (p : Provider S) (info : ExecCredential) (s : S) (token : Bytes)
      → ((get_token host p info s).0 ≡ ok token) ↔ Answers p info s token
  unfolding get_token
  get_token_iff p info s token =
      let name = p.managed_service_account in
      (
        λ h.
            let (client, e, h₁) =
              (with_client_iff p.kube_client name info.cluster_config s token).0 h in
            let (config, e₁, there, h₂) =
              (with_config_iff client name info.cluster_config s token).0 h₁ in
            let (cluster, e₂, named, reads) = (with_cluster_iff client name _ s token).0 h₂ in
            record {
              client = client;
              config = config;
              cluster_name = cluster;
              has_client = e;
              has_config = e₁;
              config_there = there;
              has_cluster = e₂;
              cluster_there = named;
              reads = reads;
            },
        λ a. (with_client_iff p.kube_client name info.cluster_config s token).1 (
          a.client,
          a.has_client,
          (with_config_iff a.client name info.cluster_config s token).1 (
            a.config,
            a.has_config,
            a.config_there,
            (with_cluster_iff a.client name _ s token).1
                (a.cluster_name, a.has_cluster, a.cluster_there, a.reads),
          ),
        ),
      )
