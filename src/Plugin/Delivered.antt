-- ===== src/Plugin/Delivered.antt =====
-- The agent, the syncer and the plugin one after the other: reconcile of pkg/addon/agent/controller/token.go,
-- syncCreds of the manager's clusterprofile_cred_syncer.go, and GetToken of
-- cmd/clusterprofile-credentials-plugin/main.go, over one hub.
use managed_serviceaccount.Prelude.{
  String, true, Option, none, some, [], ◌∷◌, ◌≡◌, ◌≢◌, ◌⊎◌, inl, inr, refl, ◌∙◌, sym, ap,
  Bool-cases,
}
use managed_serviceaccount.Prelude.Dict.{lookup}
use managed_serviceaccount.Errors.{ok}
use managed_serviceaccount.Effect.{next}
use managed_serviceaccount.Effect.Triple.{Ends}
use managed_serviceaccount.Kube.{
  Bytes, Key, key_of, Secret, Outcome, Shelf, put_at, put_at_found, same_key,
}
use managed_serviceaccount.Api.{ManagedServiceAccount, ManagedServiceAccountStatus, SecretRef}
use managed_serviceaccount.Token.Jwt.{Library, check_user_in_token}
use managed_serviceaccount.Token.Cluster.{Cluster, Objects}
use managed_serviceaccount.Token.Cluster.Laws as ClusterLaws
use managed_serviceaccount.Token.Cluster.Laws.{IsKeyed}
use managed_serviceaccount.Token.Build.{build_secret}
use managed_serviceaccount.Token.Rotation.{token_of}
use managed_serviceaccount.Token.Sync.{Config}
use managed_serviceaccount.Token.Reconcile.{reconcile}
use managed_serviceaccount.Token.Reconcile.Present.{
  Done, Undone, renewal, keeping, reconcile-present,
}
use managed_serviceaccount.Profile.Hub.{Hub, ClusterProfile}
use managed_serviceaccount.Profile.Hub.Laws as HubLaws
use managed_serviceaccount.Profile.Cred.Compare.{NodupKeys}
use managed_serviceaccount.Profile.Sync.{sync_creds}
use managed_serviceaccount.Profile.Sync.Copy.{copy_key}
use managed_serviceaccount.Plugin.{Host, ExecCredential, Provider, get_token}
use managed_serviceaccount.Plugin.Synced.{IsSetFor, Unread, sync_creds-get_token}

-- Secrets whose data have each key once, as maps do.
abbrev pub AreMaps : Shelf Secret → Type 0
AreMaps secrets = (k : Key) (x : Secret) → secrets k ≡ some x → NodupKeys x.content

put_at-AreMaps :
    (secrets : Shelf Secret) (k : Key) (x : Secret)
    → AreMaps secrets
    → NodupKeys x.content
    → AreMaps (put_at secrets k (some x))
put_at-AreMaps secrets k x maps once j y h = elim (Bool-cases (same_key k j)) [
  | inl same ↦ let e : x ≡ y = cc (rw same at h) in coe 0 1 (i. NodupKeys (e i).content) once
  | inr differ ↦ maps j y (rw differ at h)
]

-- The data of a secret that buildSecret fills.
build_secret-NodupKeys :
    (msa : ManagedServiceAccount) (current : Option Secret) (ca_data token : Bytes)
    → NodupKeys (build_secret msa current ca_data token).content
unfolding build_secret lookup
build_secret-NodupKeys msa current ca_data token = (refl, (refl, tt))

build_secret-token :
    (msa : ManagedServiceAccount) (current : Option Secret) (ca_data token : Bytes)
    → lookup "token" (build_secret msa current ca_data token).content ≡ some token
unfolding build_secret lookup
build_secret-token msa current ca_data token = refl

-- No bytes are no token of anybody.
empty_is_nobody :
    (lib : Library) (namespace name : String) → check_user_in_token lib namespace name [] ≢ ok true
unfolding check_user_in_token
empty_is_nobody lib namespace name h = cc (h)

-- A token that names an account is there.
named_token :
    (lib : Library) (namespace name : String) (x : Secret) (v : Option Bytes)
    → lookup "token" x.content ≡ v
    → check_user_in_token lib namespace name (token_of x) ≡ ok true
    → (token : Bytes) × (lookup "token" x.content ≡ some token) × (token ≢ [])
unfolding token_of
named_token lib namespace name x none e h =
    absurd (empty_is_nobody lib namespace name (rw (token_of, e) at h))
named_token lib namespace name x (some []) e h =
    absurd (empty_is_nobody lib namespace name (rw (token_of, e) at h))
named_token lib namespace name x (some (c ∷ token)) e h = (c ∷ token, e, λ p. cc (p))

module _ (k : Key) (o : Objects) where
  -- The hub holds an account that reports a token, and the secret with that token.
  record Reported (msa : ManagedServiceAccount) : Type 0 where
    status : ManagedServiceAccountStatus
    account_held : o.accounts k ≡ some (record msa { status = status })
    refreshed : SecretRef
    ref_recorded : status.token_secret_ref ≡ some refreshed
    ref_named : refreshed.name ≡ msa.metadata.name
    source : Secret
    source_held : o.secrets k ≡ some source
    token : Bytes
    has_token : lookup "token" source.content ≡ some token
    there : token ≢ []
    maps : AreMaps o.secrets

module _ (C : Cluster) (config : Config) (k : Key) (msa : ManagedServiceAccount) (s : C.State)
    (maps : AreMaps (C.objects s).secrets) where
  open C use {State, objects}

  Done-Reported :
      (out : Outcome) (t : State) → Done C config k msa s out t → Reported k (objects t) msa
  Done-Reported out t (renewal token ca_data expiring status u ran issued e ready written) =
      rw written (record {
        status = status;
        account_held = put_at_found (objects s).accounts k _;
        refreshed = _;
        ref_recorded = ready.ref_recorded;
        ref_named = refl;
        source = build_secret msa ((objects s).secrets k) ca_data token;
        source_held = put_at_found (objects s).secrets k _;
        token = token;
        has_token = build_secret-token msa _ ca_data token;
        there = issued.there;
        maps =
            put_at-AreMaps (objects s).secrets k _ maps
              (build_secret-NodupKeys msa _ ca_data token);
      })
  Done-Reported out t (keeping secret ref expiring status u ran x good r r' e ready written) =
      let same : good.held ≡ secret = cc (good.secret_exists) in
      let (token, has_token, there) =
        named_token C.jwt config.spoke_namespace msa.metadata.name good.held _ refl
          good.names_account in
      rw written (record {
        status = status;
        account_held = put_at_found (objects s).accounts k _;
        refreshed = _;
        ref_recorded = ready.ref_recorded;
        ref_named = refl;
        source = good.held;
        source_held = x ∙ ap some (sym same);
        token = token;
        has_token = has_token;
        there = there;
        maps = maps;
      })

-- What the plugin reads for an account that the hub reports: the token of its secret.
pub record Delivered (k : Key) (o : Objects) (msa : ManagedServiceAccount) (H : Hub)
    (L : HubLaws.IsLawful H) (h : H.State) (cp : ClusterProfile) (host : Host H.State)
    (p : Provider H.State) (info : ExecCredential) : Type 0 where
  pub account : ManagedServiceAccount
  pub account_held : o.accounts k ≡ some account
  pub same_spec : account.spec ≡ msa.spec
  pub source : Secret
  pub source_held : o.secrets k ≡ some source
  pub token : Bytes
  pub has_token : lookup "token" source.content ≡ some token
  pub there : token ≢ []
  pub reads :
      Ends
        (λ b _. b ≡ token)
        (λ e v. (H.secrets v ≡ H.secrets h) ⊎ Unread H L host account cp source token e)
        (next (sync_creds H account cp h) (λ _. get_token host p info))

module _ (k : Key) (o : Objects) (msa : ManagedServiceAccount) (H : Hub) (L : HubLaws.IsLawful H)
    (h : H.State) (cp : ClusterProfile) (host : Host H.State) (p : Provider H.State)
    (info : ExecCredential) where
  IsSetFor-reported :
      (status : ManagedServiceAccountStatus)
      → IsSetFor H host msa cp p info
      → IsSetFor H host (record msa { status = status }) cp p info
  IsSetFor-reported status set = record {
    raw = set.raw;
    has_client = set.has_client;
    has_config = set.has_config;
    config_there = set.config_there;
    has_cluster = set.has_cluster;
    cluster_there = set.cluster_there;
    account = set.account;
    namespace = set.namespace;
  }

  Reported-Delivered :
      Reported k o msa
      → key_of msa.metadata ≡ k
      → H.secrets h ≡ o.secrets
      → IsSetFor H host msa cp p info
      → Delivered k o msa H L h cp host p info
  Reported-Delivered r keyed same set =
      let account = record msa { status = r.status } in
      let at : record { namespace = msa.metadata.namespace; name = r.refreshed.name } ≡ k =
        ap (λ n. record { namespace = msa.metadata.namespace; name = n }) r.ref_named ∙ keyed in
      record {
        account = account;
        account_held = r.account_held;
        same_spec = refl;
        source = r.source;
        source_held = r.source_held;
        token = r.token;
        has_token = r.has_token;
        there = r.there;
        reads =
            sync_creds-get_token H L host account cp r.source r.token p info h r.refreshed
              (IsSetFor-reported r.status set) r.ref_recorded
              (ap (λ f. f (record { namespace = msa.metadata.namespace; name = r.refreshed.name }))
                  same
                ∙ ap o.secrets at
                ∙ r.source_held)
              (r.maps k r.source r.source_held)
              (λ current held.
                r.maps _ current (sym (ap (λ f. f (copy_key account cp)) same) ∙ held))
              r.has_token r.there;
      }

-- After a reconcile of the agent that succeeded, for a ManagedServiceAccount that the hub has, the hub
-- has its token secret with a token that is not empty. Over any hub state with these secrets,
-- syncCreds for the ManagedServiceAccount as the hub has it then, followed by GetToken in a plugin that
-- is set up for it and the ClusterProfile, gives back that token if both succeed; if they fail, either
-- no secret was changed, or the API server failed to answer the plugin's read.
pub reconcile-Delivered :
    (C : Cluster) (config : Config) (LC : ClusterLaws.IsLawful C) (request : Key)
    (msa : ManagedServiceAccount) (s t : C.State) (out : Outcome) (H : Hub) (L : HubLaws.IsLawful H)
    (h : H.State) (cp : ClusterProfile) (host : Host H.State) (p : Provider H.State)
    (info : ExecCredential)
    → IsKeyed (C.objects s)
    → AreMaps (C.objects s).secrets
    → (C.objects s).accounts request ≡ some msa
    → reconcile C config request s ≡ (ok out, t)
    → H.secrets h ≡ (C.objects t).secrets
    → IsSetFor H host msa cp p info
    → Delivered request (C.objects t) msa H L h cp host p info
reconcile-Delivered C config LC request msa s t out H L h cp host p info keyed maps held ran same
      set =
    let done : Done C config request msa s out t =
      (coe 0 1 (i. Ends (Done C config request msa s) (Undone C config request msa s) (ran i))
        (reconcile-present C config LC request msa s keyed held)).holds in
    Reported-Delivered request (C.objects t) msa H L h cp host p info
      (Done-Reported C config request msa s maps out t done) (keyed.accounts request msa held) same
      set
