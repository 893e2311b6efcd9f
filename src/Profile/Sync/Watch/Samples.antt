-- ===== src/Profile/Sync/Watch/Samples.antt =====
-- The watches over the hub in memory: an account that loses the label for syncing.
use managed_serviceaccount.Prelude.{none, [], ◌∷◌, ◌≡◌, refl}
use managed_serviceaccount.Prelude.Dict.{value_at, lookup}
use managed_serviceaccount.Errors.{ok}
use managed_serviceaccount.Effect.{next, attempted}
use managed_serviceaccount.Kube.{key_of}
use managed_serviceaccount.Api.{ManagedServiceAccount}
use managed_serviceaccount.Event.{create, update, delete, generic}
use managed_serviceaccount.Profile.Cred.{label_key_cluster_profile_sync}
use managed_serviceaccount.Profile.Memory.{meta, account, source, profile, hub}
use managed_serviceaccount.Profile.Sync.Watch.{Wiring, watch_accounts, watch_profiles}
use managed_serviceaccount.Profile.Sync.Watch.Notices.{latest, IsWiring, Notices, watch-Notices}

abbrev wiring : Wiring
wiring = record {
  passes = λ f e. f (latest e);
  mapped = λ e. elim e [
    | create x ↦ x ∷ []
    | update old new ↦ old ∷ new ∷ []
    | delete x ↦ x ∷ []
    | generic x ↦ x ∷ []
  ];
  for_object = λ e. key_of (latest e).metadata ∷ [];
}

wiring-IsWiring : IsWiring wiring
wiring-IsWiring = record {
  filters = λ _ _. refl;
  maps_create = λ _. refl;
  maps_update = λ _ _. refl;
  maps_delete = λ _. refl;
  maps_generic = λ _. refl;
}

abbrev labelled : ManagedServiceAccount
labelled = record account {
  metadata = meta "c1" "m" ((label_key_cluster_profile_sync, "true") ∷ []);
}

created : (watch_accounts wiring hub (create labelled) none).0 ≡ ok (key_of profile.metadata ∷ [])
unfolding watch_accounts next attempted value_at lookup
created = refl

label_lost : (watch_accounts wiring hub (update labelled account) none).0 ≡ ok []
unfolding watch_accounts value_at lookup
label_lost = refl

-- The sample profile lacks the labels of the manager.
no_profile : (watch_profiles wiring hub (create profile) none).0 ≡ ok []
unfolding watch_profiles value_at lookup
no_profile = refl

watch-Notices_example :
    Notices wiring wiring-IsWiring hub
      (profile ∷ [])
      (λ s. (s, refl))
      (update labelled account)
      (create source)
      none
watch-Notices_example =
    watch-Notices wiring wiring-IsWiring hub (profile ∷ []) (λ s. (s, refl))
      (update labelled account) (create source) none refl tt
