-- ===== src/Profile/Sync/Confined.antt =====
-- Which secrets a reconcile of a ClusterProfile leaves alone.
use managed_serviceaccount.Prelude.{
  String, not, Option, none, some, List, [], ◌∷◌, ◌≡◌, ◌≢◌, inl, inr, refl, ◌∙◌, sym, ap,
  Bool-cases,
}
use managed_serviceaccount.Errors.{Result, ok, err, is_not_found}
use managed_serviceaccount.Effect.Triple.{
  Ends, Ends-ok, Ends-err, Ends-if, Ends-next, Ends-attempt, Ends-weaken, Ends-wrapf,
}
use managed_serviceaccount.Kube.{Key, Secret, key_of, same_key, same_key_eq}
use managed_serviceaccount.Api.{ManagedServiceAccount, SecretRef}
use managed_serviceaccount.Profile.Hub.{Hub, ClusterProfile}
use managed_serviceaccount.Profile.Hub.Laws.{Put, IsLawful}
use managed_serviceaccount.Profile.Cred.{build_synced_cred, secret_needs_update, synced_name}
use managed_serviceaccount.Profile.Sync.{
  write_cred, copy_cred, sync_ref, sync_creds, sync_all, sync_profile, reconcile,
}
use managed_serviceaccount.Profile.Sync.Cleanup.{
  Fate, kept, removed, aggregate_effect, cleanup_orphaned_creds-Fate,
}

module _ (H : Hub) (L : IsLawful H) where
  open H use {State, secrets}

  -- The secrets of all other namespaces are the same.
  abbrev pub IsOutside : String → State → State → Type 0
  IsOutside namespace s t = (k : Key) → k.namespace ≢ namespace → secrets t k ≡ secrets s k

  abbrev pub Confined : {A : Type 0} → String → State → Result A × State → Type 0
  Confined namespace s r = Ends (λ _ t. IsOutside namespace s t) (λ _ t. IsOutside namespace s t) r

  unchanged : (namespace : String) (s t : State) → secrets t ≡ secrets s → IsOutside namespace s t
  unchanged namespace s t e k other = ap (λ f. f k) e

  Confined-after :
      {A : Type 0} (namespace : String) (s t : State) (r : Result A × State)
      → IsOutside namespace s t
      → Confined namespace t r
      → Confined namespace s r
  Confined-after namespace s t r before h =
      Ends-weaken r h (λ _ _ o k other. o k other ∙ before k other)
        (λ _ _ o k other. o k other ∙ before k other)

  Put-IsOutside :
      (namespace : String) (x : Secret) (s t : State)
      → x.metadata.namespace ≡ namespace
      → Put H x s t
      → IsOutside namespace s t
  Put-IsOutside namespace x s t within put k other =
      elim (Bool-cases (same_key (key_of x.metadata) k)) [
        | inl same ↦
            absurd (other (ap (λ (j : Key). j.namespace) (sym (same_key_eq _ _ same)) ∙ within))
        | inr differ ↦ ap (λ f. f k) put.written ∙ rw differ refl
      ]

  module _ (cp : ClusterProfile) where
    write_cred-Confined :
        (msa : ManagedServiceAccount) (source : Secret) (name : String) (s : State)
        (reply : Result Secret)
        → ((x : Secret) → reply ≡ ok x → x.metadata.namespace ≡ cp.metadata.namespace)
        → Confined cp.metadata.namespace s (write_cred H msa cp source name reply s)
    unfolding write_cred build_synced_cred
    write_cred-Confined msa source name s (err e) within =
        let desired = build_synced_cred H msa cp name source in
        Ends-if (not (is_not_found e)) _ _ s (λ _. Ends-err (unchanged _ s s refl))
          (λ _.
            Ends-weaken _
              (Ends-wrapf _ _ (L.creates_secret desired s)
                (λ _ t h. unchanged cp.metadata.namespace s t h))
              (λ _ t put. Put-IsOutside cp.metadata.namespace desired s t refl put) (λ _ _ h. h))
    write_cred-Confined msa source name s (ok synced) within =
        Ends-if (secret_needs_update synced (build_synced_cred H msa cp name source)) _ _ s
          (λ _.
            Ends-weaken _
              (Ends-wrapf _ _ (L.updates_secret _ s)
                (λ _ t h. unchanged cp.metadata.namespace s t h))
              (λ _ t put. Put-IsOutside cp.metadata.namespace _ s t (within synced refl) put)
              (λ _ _ h. h))
          (λ _. Ends-ok (unchanged _ s s refl))

    copy_cred-Confined :
        (msa : ManagedServiceAccount) (k : Key) (s : State) (reply : Result Secret)
        → Confined cp.metadata.namespace s (copy_cred H msa cp k reply s)
    unfolding copy_cred
    copy_cred-Confined msa k s (err e) =
        Ends-if (is_not_found e) _ _ s (λ _. Ends-ok (unchanged _ s s refl))
          (λ _. Ends-err (unchanged _ s s refl))
    copy_cred-Confined msa k s (ok source) =
        let name = synced_name msa.metadata.namespace msa.metadata.name in
        let copy : Key = record { namespace = cp.metadata.namespace; name = name } in
        Ends-attempt _ _ (L.reads_secret copy s)
          (λ e t miss.
            Confined-after _ s t _ (unchanged _ s t miss.1)
              (write_cred-Confined msa source name t (err e) (λ x h. absurd (cc (h)))))
          (λ x t found. Confined-after _ s t _ (unchanged _ s t found.1) (
            write_cred-Confined msa source name t (ok x) (λ y h.
              let same : x ≡ y = cc (h) in
              ap (λ (z : Secret). z.metadata.namespace) (sym same)
              ∙ ap (λ (j : Key). j.namespace) (L.keyed copy x s found.0))))

    sync_ref-Confined :
        (msa : ManagedServiceAccount) (s : State) (o : Option SecretRef)
        → Confined cp.metadata.namespace s (sync_ref H msa cp o s)
    unfolding sync_ref
    sync_ref-Confined msa s none = Ends-ok (unchanged _ s s refl)
    sync_ref-Confined msa s (some ref) =
        let source : Key = record { namespace = msa.metadata.namespace; name = ref.name } in
        Ends-attempt _ _ (L.reads_secret source s)
          (λ e t miss.
            Confined-after _ s t _ (unchanged _ s t miss.1)
              (copy_cred-Confined msa source t (err e)))
          (λ x t found.
            Confined-after _ s t _ (unchanged _ s t found.1)
              (copy_cred-Confined msa source t (ok x)))

    pub sync_all-Confined :
        (msas : List ManagedServiceAccount) (s : State)
        → Confined cp.metadata.namespace s (sync_all H cp msas s)
    unfolding sync_all sync_creds
    sync_all-Confined [] s = Ends-ok (unchanged _ s s refl)
    sync_all-Confined (msa ∷ msas) s =
        let rest : (t : State)
            → IsOutside cp.metadata.namespace s t
            → Confined cp.metadata.namespace s (sync_all H cp msas t) =
          λ t before. Confined-after _ s t _ before (sync_all-Confined msas t) in
        Ends-attempt _ _ (sync_ref-Confined msa s msa.status.token_secret_ref)
          (λ e t before. Ends-next _ (rest t before) (λ _ _ h. h) (λ _ _ h. Ends-ok h))
          (λ _ t before. Ends-next _ (rest t before) (λ _ _ h. h) (λ _ _ h. Ends-ok h))

    Fate-IsOutside :
        (msas : List ManagedServiceAccount) (s t : State) (k : Key)
        → Fate H cp msas s t k
        → k.namespace ≢ cp.metadata.namespace
        → secrets t k ≡ secrets s k
    Fate-IsOutside msas s t k (kept h) other = h
    Fate-IsOutside msas s t k (removed x held listed orphan gone) other = absurd (
        other
          (ap (λ (j : Key). j.namespace) (sym (L.keyed_cached k x s held)) ∙ listed.in_namespace))

    sync_profile-Confined :
        (s : State) → Confined cp.metadata.namespace s (sync_profile H (ok cp) s)
    unfolding sync_profile
    sync_profile-Confined s =
        Ends-next _
          (Ends-wrapf _ _ (L.lists_accounts cp.metadata.name _ _ s)
            (λ _ t h. unchanged cp.metadata.namespace s t h))
          (λ _ _ h. h)
          (λ msas t (_, same). Confined-after _ s t _ (unchanged _ s t same) (
            Ends-next _ (sync_all-Confined msas t) (λ _ _ h. h)
              (λ errs u before. Confined-after _ t u _ before (
                Ends-attempt _ _ (cleanup_orphaned_creds-Fate H cp msas L u)
                  (λ e v fates.
                    aggregate_effect H cp msas L _ _ v
                      (λ _ k other. Fate-IsOutside msas u v k (fates k) other)
                      (λ _ k other. Fate-IsOutside msas u v k (fates k) other))
                  (λ _ v done.
                    aggregate_effect H cp msas L _ _ v
                      (λ _ k other. Fate-IsOutside msas u v k (done.0 k) other)
                      (λ _ k other. Fate-IsOutside msas u v k (done.0 k) other))))))

  -- A reconcile of a ClusterProfile, whichever calls fail, changes no secret of another namespace than
  -- that of the ClusterProfile.
  pub reconcile-IsOutside :
      (request : Key) (s : State)
      → Ends
          (λ _ t. IsOutside request.namespace s t)
          (λ _ t. IsOutside request.namespace s t)
          (reconcile H request s)
  unfolding reconcile sync_profile
  reconcile-IsOutside request s =
      Ends-attempt _ _ (L.reads_profile request s)
        (λ e t same.
          Ends-if (is_not_found e) _ _ t (λ _. Ends-ok (unchanged _ s t same))
            (λ _. Ends-err (unchanged _ s t same)))
        (λ cp t (keyed, same).
          let here : cp.metadata.namespace ≡ request.namespace =
            ap (λ (j : Key). j.namespace) keyed in
          Confined-after _ s t _ (unchanged _ s t same) (
            Ends-weaken _ (sync_profile-Confined cp t)
              (λ _ u h k other. h k (λ e. other (e ∙ here)))
              (λ _ u h k other. h k (λ e. other (e ∙ here)))))
