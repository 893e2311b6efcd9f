-- ===== src/Token/Sync/Effects.antt =====
-- What ensureServiceAccount and sync leave on the servers.
use managed_serviceaccount.Prelude.{
  String, Bool, true, false, Option, none, some, [], ◌∷◌, ◌≡◌, ◌≢◌, refl, ◌∙◌, sym, ap, arith,
  Option-cases, Bool-cases, inl, inr,
}
use managed_serviceaccount.Gotime.{Time}
use managed_serviceaccount.Errors.{Error, ok, err, is_not_found, is_already_exists}
use managed_serviceaccount.Effect.{next, wrapped}
use managed_serviceaccount.Effect.Triple.{
  Ends, Ends-ok, Ends-err, Ends-if, Ends-next, Ends-attempt, Ends-wrapf, Ends-run,
}
use managed_serviceaccount.Kube.{Bytes, Key, key_of, Secret, ServiceAccount, put_at, put_at_self}
use managed_serviceaccount.Api.{ManagedServiceAccount}
use managed_serviceaccount.Token.Cluster.{Cluster, Objects}
use managed_serviceaccount.Token.Cluster.Laws.{IsLawful, IsKeyed}
use managed_serviceaccount.Token.Rotation.{should_create_update_token_secret}
use managed_serviceaccount.Token.Rotation.Decision.{Good, keeps_Good, should_keeps}
use managed_serviceaccount.Token.Build.{build_secret}
use managed_serviceaccount.Token.Sync.{
  Config, spoke_key, managed_account, ensured, ensure_service_account, create_token, current_secret,
  read_ca, write_secret, refresh, settle, sync,
}

-- The service account at a key: the one that is there, or a new one of the agent.
abbrev pub or_managed : Config → String → Option ServiceAccount → ServiceAccount
or_managed config name none = managed_account config name
or_managed config name (some sa) = sa

-- The objects with a service account for a name.
abbrev pub with_account : Config → String → Objects → Objects
with_account config name o = record o {
  spoke_accounts =
      put_at o.spoke_accounts (spoke_key config name)
        (some (or_managed config name (o.spoke_accounts (spoke_key config name))));
}

-- The objects with a secret at a key.
abbrev pub with_secret : Key → Secret → Objects → Objects
with_secret k secret o = record o { secrets = put_at o.secrets k (some secret) }

with_account_id :
    (config : Config) (name : String) (o : Objects)
    → o.spoke_accounts (spoke_key config name) ≢ none
    → with_account config name o ≡ o
with_account_id config name o h = elim (Option-cases (o.spoke_accounts (spoke_key config name))) [
  | inl e ↦ absurd (h e)
  | inr (sa, e) ↦
      ap (λ f. record o { spoke_accounts = f })
        (ap (λ x. put_at o.spoke_accounts (spoke_key config name) (some (or_managed config name x)))
            e
          ∙ ap (put_at o.spoke_accounts (spoke_key config name)) (sym e)
          ∙ put_at_self o.spoke_accounts (spoke_key config name))
]

module _ (C : Cluster) (config : Config) (msa : ManagedServiceAccount) where
  open C use {State, objects}

  -- The state in which a sync from `s` has read the token secret, and that in which it has decided.
  abbrev pub read_at : State → State
  read_at s = (C.get_secret (key_of msa.metadata) s).1

  abbrev pub decided_at : State → State
  decided_at s =
      (should_create_update_token_secret C config.spoke_namespace msa
        ((objects s).secrets (key_of msa.metadata)) (read_at s)).1

  -- No token that is good is in the secret.
  abbrev pub IsNeeded : State → Type 0
  IsNeeded s =
      (secret : Secret)
      → (objects s).secrets (key_of msa.metadata) ≡ some secret
      → Good C config.spoke_namespace msa (some secret) (read_at s)
      → ⊥

  -- The token and the CA data that a sync from `s` gets as there is no good token, and the time at which
  -- the token expires.
  pub record Issued (s : State) (token ca_data : Bytes) (expiring : Time) : Type 0 where
    pub needed : IsNeeded s
    pub after_token : State
    pub after_ca : State
    pub created : create_token C config msa (decided_at s) ≡ (ok (token, expiring), after_token)
    pub there : token ≢ []
    pub read : read_ca C config config.ca_data after_token ≡ (ok ca_data, after_ca)

module _ (C : Cluster) (config : Config) (L : IsLawful C) (msa : ManagedServiceAccount) where
  open C use {State, objects}

  pub ensure_effect :
      (s : State)
      → Ends
          (λ _ t. objects t ≡ with_account config msa.metadata.name (objects s))
          (λ _ t. objects t ≡ objects s)
          (ensure_service_account C config msa s)
  unfolding ensure_service_account ensured
  ensure_effect s =
      Ends-attempt _ _ (L.creates_spoke_account (managed_account config msa.metadata.name) s)
        (λ e t old.
          Ends-if (is_already_exists e) _ _ t
            (λ there.
              Ends-ok
                (old.1 ∙ sym (with_account_id config msa.metadata.name (objects s) (old.0 there))))
            (λ _. Ends-err old.1))
        (λ _ t new. Ends-ok (new.1 ∙ rw new.0 refl))

  -- What sync leaves: a new token in the secret, or a good token left as it is.
  pub data Synced (s : State) : Option Time → State → Type 0 where
    refreshed :
        (expiring : Time) (token ca_data : Bytes) (t : State)
        → Issued C config msa s token ca_data expiring
        → objects t
          ≡ with_secret
              (key_of msa.metadata)
              (build_secret msa ((objects s).secrets (key_of msa.metadata)) ca_data token)
              (objects s)
        → Synced s (some expiring) t
    kept :
        (secret : Secret) (t : State)
        → objects t ≡ objects s
        → (objects s).secrets (key_of msa.metadata) ≡ some secret
        → Good C config.spoke_namespace msa (some secret) (read_at C config msa s)
        → Synced s none t

  Wrote : (s : State) → Secret → Unit {0} → State → Type 0
  Wrote s secret _ t = objects t ≡ with_secret (key_of secret.metadata) secret (objects s)

  Kept : (s : State) → Error → State → Type 0
  Kept s _ t = objects t ≡ objects s

  read_ca_effect :
      (data_left : Bytes) (s : State)
      → Ends (λ _ t. objects t ≡ objects s) (Kept s) (read_ca C config data_left s)
  unfolding Kept
  read_ca_effect [] s = Ends-wrapf _ _ (L.reads_file config.ca_file s) (λ _ _ u. u)
  read_ca_effect (b ∷ data_left) s = Ends-ok refl

  write_secret_effect :
      (current : Option Secret) (secret : Secret) (s : State)
      → Ends (Wrote s secret) (Kept s) (write_secret C config current secret s)
  unfolding Wrote Kept
  write_secret_effect (some _) secret s = Ends-wrapf _ _ (L.updates_secret secret s) (λ _ _ u. u)
  write_secret_effect none secret s = Ends-wrapf _ _ (L.creates_secret secret s) (λ _ _ u. u)

  key_of-build_secret :
      (current : Option Secret) (ca_data token : Bytes) (s : State)
      → (objects s).secrets (key_of msa.metadata) ≡ current
      → ((secret : Secret) → current ≡ some secret → key_of secret.metadata ≡ key_of msa.metadata)
      → key_of (build_secret msa current ca_data token).metadata ≡ key_of msa.metadata
  unfolding build_secret
  key_of-build_secret none ca_data token s e k = refl
  key_of-build_secret (some secret) ca_data token s e k = k secret refl

  refresh_effect :
      (current : Option Secret) (s t : State)
      → (objects s).secrets (key_of msa.metadata) ≡ current
      → ((secret : Secret) → current ≡ some secret → key_of secret.metadata ≡ key_of msa.metadata)
      → objects t ≡ objects s
      → t ≡ decided_at C config msa s
      → IsNeeded C config msa s
      → Ends (Synced s) (Kept s) (refresh C config msa current t)
  unfolding refresh create_token Kept Wrote
  refresh_effect current s t e k u a needed =
      Ends-next _ (Ends-wrapf _ _ (Ends-run _ (L.creates_token _ _ t)) (λ _ _ h. h.0))
        (λ _ _ h. h ∙ u)
        (λ (token, expiring) t₁ ((there, h₁), created).
          Ends-next _ (Ends-run _ (read_ca_effect config.ca_data t₁)) (λ _ _ h. h.0 ∙ h₁ ∙ u)
            (λ ca_data t₂ (h₂, read).
              let issued : Issued C config msa s token ca_data expiring = record {
                needed = needed;
                after_token = t₁;
                after_ca = t₂;
                created = ap (create_token C config msa) (sym a) ∙ created;
                there = there;
                read = read;
              } in
              Ends-next _ (write_secret_effect current _ t₂) (λ _ _ h. h ∙ h₂ ∙ h₁ ∙ u)
                (λ _ t₃ h₃. Ends-ok (
                  refreshed expiring token ca_data t₃ issued (
                    h₃
                    ∙ ap (λ k. with_secret k (build_secret msa current ca_data token) (objects t₂))
                        (key_of-build_secret current ca_data token s e k)
                    ∙ ap
                        (with_secret (key_of msa.metadata) (build_secret msa current ca_data token))
                        (h₂ ∙ h₁ ∙ u)
                    ∙ ap
                        (λ x.
                          with_secret (key_of msa.metadata) (build_secret msa x ca_data token)
                            (objects s))
                        (sym e))))))

  decided :
      (current : Option Secret) (s t : State) (should : Bool)
      → (objects s).secrets (key_of msa.metadata) ≡ current
      → should_create_update_token_secret C config.spoke_namespace msa current
          (read_at C config msa s)
        ≡ (ok should, t)
      → t ≡ decided_at C config msa s
  decided current s t should e r =
      sym (ap (λ x. x.1) r)
      ∙ ap
          (λ o.
            (should_create_update_token_secret C config.spoke_namespace msa o
              (read_at C config msa s)).1)
          (sym e)

  -- A token that is to be renewed is not good.
  decided-IsNeeded :
      (current : Option Secret) (s t : State)
      → (objects s).secrets (key_of msa.metadata) ≡ current
      → should_create_update_token_secret C config.spoke_namespace msa current
          (read_at C config msa s)
        ≡ (ok true, t)
      → IsNeeded C config msa s
  decided-IsNeeded current s t e r secret there good =
      let kept =
        (keeps_Good C config.spoke_namespace msa (some secret) (read_at C config msa s)).1 good in
      let same : current ≡ some secret = sym e ∙ there in
      let replied =
        sym (ap (λ x. x.0) r)
        ∙ ap
            (λ o.
              (should_create_update_token_secret C config.spoke_namespace msa o
                (read_at C config msa s)).0)
            same
        ∙ kept in
      absurd (cc (replied))

  settle_effect :
      (current : Option Secret) (should : Bool) (s t : State)
      → (objects s).secrets (key_of msa.metadata) ≡ current
      → ((secret : Secret) → current ≡ some secret → key_of secret.metadata ≡ key_of msa.metadata)
      → objects t ≡ objects s
      → should_create_update_token_secret C config.spoke_namespace msa current
          (read_at C config msa s)
        ≡ (ok should, t)
      → Ends (Synced s) (Kept s) (settle C config msa current should t)
  unfolding settle
  settle_effect none should s t e k h r =
      refresh_effect none s t e k h (decided none s t should e r)
        (λ secret there good. absurd (ground (arith, e, there)))
  settle_effect (some secret) true s t e k h r =
      refresh_effect (some secret) s t e k h (decided (some secret) s t true e r)
        (decided-IsNeeded (some secret) s t e r)
  settle_effect (some secret) false s t e k h r = Ends-ok (
      kept secret t h e (
        (keeps_Good C config.spoke_namespace msa (some secret) (read_at C config msa s)).0
          (ap (λ x. x.0) r)))

  -- from the current secret on
  decide_effect :
      (current : Option Secret) (s t : State)
      → (objects s).secrets (key_of msa.metadata) ≡ current
      → ((secret : Secret) → current ≡ some secret → key_of secret.metadata ≡ key_of msa.metadata)
      → objects t ≡ objects s
      → read_at C config msa s ≡ t
      → Ends (Synced s) (Kept s) (
          next
            (wrapped "failed to make a decision on token creation"
              (should_create_update_token_secret C config.spoke_namespace msa current t))
            (settle C config msa current))
  unfolding Kept
  decide_effect current s t e k u a =
      Ends-next _
        (Ends-wrapf _ _ (Ends-run _ (should_keeps C L t config.spoke_namespace msa current))
          (λ _ _ h. h.0))
        (λ _ _ h. h ∙ u)
        (λ should v (h, ran).
          settle_effect current should s v e k (h ∙ u)
            (ap (should_create_update_token_secret C config.spoke_namespace msa current) a ∙ ran))

  missing_effect :
      (e : Error) (s t : State)
      → (is_not_found e ≡ true → (objects s).secrets (key_of msa.metadata) ≡ none)
      → objects t ≡ objects s
      → read_at C config msa s ≡ t
      → Ends (Synced s) (Kept s) (
          next
            (current_secret (err e), t)
            (λ current s'.
              next
                (wrapped "failed to make a decision on token creation"
                  (should_create_update_token_secret C config.spoke_namespace msa current s'))
                (settle C config msa current)))
  unfolding current_secret next Kept
  missing_effect e s t miss u a = elim (Bool-cases (is_not_found e)) [
    | inl nf ↦ rw nf (decide_effect none s t (miss nf) (λ secret h. absurd (ground (arith, h))) u a)
    | inr other ↦ rw other (Ends-err u)
  ]

  -- sync leaves a new token in the secret or a good one as it is; if it fails, no object has changed.
  pub sync_effect :
      (s : State)
      → IsKeyed (objects s)
      → Ends (Synced s) (λ _ t. objects t ≡ objects s) (sync C config msa s)
  unfolding sync Kept
  sync_effect s keyed =
      Ends-attempt _ _ (Ends-run _ (L.reads_secret (key_of msa.metadata) s))
        (λ e t (miss, ran). missing_effect e s t miss.0 miss.1 (ap (λ r. r.1) ran))
        (λ secret t (found, ran).
          unfold next in
          decide_effect (some secret) s t found.0
            (λ x h. keyed.secrets (key_of msa.metadata) x (found.0 ∙ h)) found.1
            (ap (λ r. r.1) ran))
