-- ===== src/Profile/Sync/Copy.antt =====
-- What syncCreds writes.
use managed_serviceaccount.Prelude.{not, Option, none, some, ◌≡◌, refl, ◌∙◌, sym, ap, arith}
use managed_serviceaccount.Prelude.Dict.{lookup, value_at}
use managed_serviceaccount.Errors.{Error, ok, err, is_not_found}
use managed_serviceaccount.Effect.Triple.{
  Ends, Ends-ok, Ends-err, Ends-if, Ends-attempt, Ends-weaken, Ends-wrapf,
}
use managed_serviceaccount.Kube.{Key, Secret, key_of, put_at, put_at_self}
use managed_serviceaccount.Api.{ManagedServiceAccount, SecretRef}
use managed_serviceaccount.Profile.Hub.{Hub, ClusterProfile}
use managed_serviceaccount.Profile.Hub.Laws.{Put, IsLawful}
use managed_serviceaccount.Profile.Cred.{
  label_key_synced_from, synced_name, build_synced_cred, secret_needs_update,
}
use managed_serviceaccount.Profile.Cred.Compare.{NodupKeys, SameData}
use managed_serviceaccount.Profile.Cred.Update.{content-build_synced_cred, secret_needs_update_iff}
use managed_serviceaccount.Profile.Sync.{write_cred, copy_cred, sync_ref, sync_creds}

-- The key of the copy for an account.
abbrev pub copy_key : ManagedServiceAccount → ClusterProfile → Key
copy_key msa cp = record {
  namespace = cp.metadata.namespace;
  name = synced_name msa.metadata.namespace msa.metadata.name;
}

-- A secret with the data of the source that names its account.
pub record IsCopy (msa : ManagedServiceAccount) (source copy : Secret) : Type 0 where
  pub same_data : SameData copy.content source.content
  pub names_account :
      value_at label_key_synced_from copy.metadata.labels
      ≡ synced_name msa.metadata.namespace msa.metadata.name

module _ (H : Hub) (L : IsLawful H) (msa : ManagedServiceAccount) (cp : ClusterProfile)
    (source : Secret) (s : H.State) where
  open H use {State, secrets}

  -- Exactly the copy was written, or was there.
  pub record Copied (t : State) : Type 0 where
    pub copy : Secret
    pub good : IsCopy msa source copy
    pub written : secrets t ≡ put_at (secrets s) (copy_key msa cp) (some copy)

  abbrev pub Failed : Error → State → Type 0
  Failed e t = secrets t ≡ secrets s

  abbrev desired : Secret
  desired = build_synced_cred H msa cp (synced_name msa.metadata.namespace msa.metadata.name) source

  IsCopy-of :
      (x : Secret)
      → x.content ≡ desired.content
      → x.metadata.labels ≡ desired.metadata.labels
      → IsCopy msa source x
  unfolding build_synced_cred value_at lookup
  IsCopy-of x c l = record {
    same_data = λ k.
        ap (λ m. lookup k m)
          (c
            ∙ content-build_synced_cred H msa cp
                (synced_name msa.metadata.namespace msa.metadata.name) source source);
    names_account = rw l refl;
  }

  Put-Copied :
      (x : Secret) (t v : State)
      → key_of x.metadata ≡ copy_key msa cp
      → x.content ≡ desired.content
      → x.metadata.labels ≡ desired.metadata.labels
      → secrets t ≡ secrets s
      → Put H x t v
      → Copied v
  Put-Copied x t v key c l u h = record {
    copy = h.held;
    good = IsCopy-of h.held (h.stored.content ∙ c) (h.stored.labels ∙ l);
    written =
        h.written
        ∙ ap (λ f. put_at f (key_of x.metadata) (some h.held)) u
        ∙ ap (λ k. put_at (secrets s) k (some h.held)) key;
  }

  missing_effect :
      (e : Error) (t : State)
      → secrets t ≡ secrets s
      → Ends
          (λ _. Copied)
          Failed
          (write_cred H msa cp source
            (synced_name msa.metadata.namespace msa.metadata.name)
            (err e)
            t)
  unfolding write_cred build_synced_cred
  missing_effect e t u =
      Ends-if (not (is_not_found e)) _ _ t (λ _. Ends-err u)
        (λ _.
          Ends-weaken _ (Ends-wrapf _ _ (L.creates_secret desired t) (λ _ _ h. h ∙ u))
            (λ _ v h. Put-Copied desired t v refl refl refl u h) (λ _ _ h. h))

  present_effect :
      (current : Secret) (t : State)
      → secrets s (copy_key msa cp) ≡ some current
      → NodupKeys source.content
      → NodupKeys current.content
      → secrets t ≡ secrets s
      → Ends
          (λ _. Copied)
          Failed
          (write_cred H msa cp source
            (synced_name msa.metadata.namespace msa.metadata.name)
            (ok current)
            t)
  unfolding write_cred build_synced_cred
  present_effect current t held nodup nodup' u =
      Ends-if (secret_needs_update current desired) _ _ t
        (λ _.
          Ends-weaken _ (Ends-wrapf _ _ (L.updates_secret _ t) (λ _ _ h. h ∙ u))
            (λ _ v h. Put-Copied _ t v (L.keyed (copy_key msa cp) current s held) refl refl u h)
            (λ _ _ h. h))
        (λ same.
          let (d, n) =
            (secret_needs_update_iff H msa cp (synced_name msa.metadata.namespace msa.metadata.name)
                source current nodup' nodup).0
              same in
          Ends-ok (record {
            copy = current;
            good = record { same_data = d; names_account = n };
            written =
                u
                ∙ sym (
                    ap (put_at (secrets s) (copy_key msa cp)) (sym held)
                    ∙ put_at_self (secrets s) (copy_key msa cp));
          }))

  copy_effect :
      (k : Key) (t : State)
      → NodupKeys source.content
      → ((current : Secret)
          → secrets s (copy_key msa cp) ≡ some current
          → NodupKeys current.content)
      → secrets t ≡ secrets s
      → Ends (λ _. Copied) Failed (copy_cred H msa cp k (ok source) t)
  unfolding copy_cred
  copy_effect k t nodup nodup' u =
      Ends-attempt _ _ (L.reads_secret (copy_key msa cp) t)
        (λ e v miss. missing_effect e v (miss.1 ∙ u))
        (λ current v found.
          let held = ap (λ f. f (copy_key msa cp)) (sym u) ∙ found.0 in
          present_effect current v held nodup (nodup' current held) (found.1 ∙ u))

  pub ref_effect :
      (o : Option SecretRef) (ref : SecretRef)
      → o ≡ some ref
      → secrets s (record { namespace = msa.metadata.namespace; name = ref.name }) ≡ some source
      → NodupKeys source.content
      → ((current : Secret)
          → secrets s (copy_key msa cp) ≡ some current
          → NodupKeys current.content)
      → Ends (λ _. Copied) Failed (sync_ref H msa cp o s)
  unfolding sync_ref copy_cred
  ref_effect none ref e held nodup nodup' = absurd (ground (arith, e))
  ref_effect (some r) ref e held nodup nodup' =
      let source_key : Key = record { namespace = msa.metadata.namespace; name = r.name } in
      let same_ref : r ≡ ref = ground (arith, e) in
      let there : secrets s source_key ≡ some source =
        ap
          (λ (x : SecretRef).
            secrets s (record { namespace = msa.metadata.namespace; name = x.name }))
          same_ref
        ∙ held in
      Ends-attempt _ _ (L.reads_secret source_key s)
        (λ x t miss.
          Ends-if (is_not_found x) _ _ t (λ nf. absurd (ground (arith, miss.0 nf, there)))
            (λ _. Ends-err miss.1))
        (λ x t found.
          let same : x ≡ source = cc (found.0, there) in
          rw same (copy_effect source_key t nodup nodup' found.1))

  -- For an account whose status names a token secret that the hub holds, with each key once in the
  -- data of the secrets: if syncCreds succeeds, the secret of the copy's key has the same data as the
  -- token secret and names the account, and no other secret changed; if it fails, no secret changed.
  pub sync_creds-copies :
      (ref : SecretRef)
      → msa.status.token_secret_ref ≡ some ref
      → secrets s (record { namespace = msa.metadata.namespace; name = ref.name }) ≡ some source
      → NodupKeys source.content
      → ((current : Secret)
          → secrets s (copy_key msa cp) ≡ some current
          → NodupKeys current.content)
      → Ends (λ _ t. Copied t) (λ _ t. secrets t ≡ secrets s) (sync_creds H msa cp s)
  unfolding sync_creds
  sync_creds-copies ref e held nodup nodup' =
      ref_effect msa.status.token_secret_ref ref e held nodup nodup'
