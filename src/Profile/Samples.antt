-- ===== src/Profile/Samples.antt =====
-- Runs of the syncer over the hub in memory, and its theorems at concrete data.
use managed_serviceaccount.Prelude.{◌≢◌, true, false, Option, none, some, [], ◌∷◌, ◌≡◌, ◌↔◌, refl}
use managed_serviceaccount.Prelude.Dict.{lookup, value_at}
use managed_serviceaccount.Prelude.Int.{pos}
use managed_serviceaccount.Errors.{Result, ok, is_not_found}
use managed_serviceaccount.Effect.{next, attempted, wrapped}
use managed_serviceaccount.Effect.Triple.{Ends}
use managed_serviceaccount.Kube.{Key, key_of, Secret, Outcome}
use managed_serviceaccount.Profile.Hub.{Hub}
use managed_serviceaccount.Profile.Hub.Laws.{IsListed}
use managed_serviceaccount.Profile.Cred.{
  label_key_synced_from, synced_name, build_synced_cred, data_equal, secret_needs_update,
}
use managed_serviceaccount.Profile.Cred.Compare.{NodupKeys, SameData, data_equal_iff}
use managed_serviceaccount.Profile.Cred.Update.{secret_needs_update_iff}
use managed_serviceaccount.Profile.Sync.{sync_creds, cleanup_orphaned_creds, reconcile}
use managed_serviceaccount.Profile.Sync.Confined.{IsOutside, reconcile-IsOutside}
use managed_serviceaccount.Profile.Sync.Copy.{Copied, sync_creds-copies}
use managed_serviceaccount.Profile.Sync.Cleanup.{Fate, IsOrphan, cleanup_orphaned_creds-Fate}
use managed_serviceaccount.Profile.Memory.Lawful.{hub-IsLawful, absent, ref, source-NodupKeys}
use managed_serviceaccount.Profile.Memory.{
  source, copy, account, profile, held_at, hub, entries, keep, listed,
}

abbrev orphan : Secret
orphan = record copy {
  metadata = record copy.metadata {
    name = "c1-gone";
    labels = (label_key_synced_from, "c1-gone") ∷ [];
    owner_references =
        record {
          api_version = "v1alpha1";
          kind = "ClusterProfile";
          name = "c1";
          uid = "u";
          is_controller = true;
        }
        ∷ [];
  };
}

abbrev request : Key
request = record { namespace = "fleet"; name = "c1" }

run : Option Secret → Result Outcome × Option Secret
unfolding reconcile next attempted wrapped is_not_found keep listed lookup value_at
run s = reconcile hub request s

-- a run without a copy makes one, and a run with one leaves it
run_creates : (run (run none).1).1 ≡ (run none).1
unfolding run
run_creates = refl

run_succeeds : (run none).0 ≡ ok (record { requeue = false; requeue_after = pos 0 })
unfolding run
run_succeeds = refl

-- an orphan is removed
run_removes : (run (some orphan)).1 ≡ none
unfolding run
run_removes = refl

-- a copy whose label someone has changed
abbrev mislabelled : Secret
mislabelled = record orphan { metadata = record orphan.metadata { name = "c1-m" } }

-- the hub with a cache whose lists are behind, and show that copy as it was
abbrev stale_hub : Hub
stale_hub = record hub {
  cached = λ _. held_at (some mislabelled);
  list_secrets = λ namespace label s. (ok (keep namespace label (entries (some mislabelled))), s);
}

stale_run : Option Secret → Result Outcome × Option Secret
unfolding reconcile next attempted wrapped is_not_found keep listed lookup value_at
stale_run s = reconcile stale_hub request s

-- the run repairs the label, and its cleanup then removes the copy
stale_run_removes :
    stale_run (some mislabelled) ≡ (ok (record { requeue = false; requeue_after = pos 0 }), none)
unfolding stale_run
stale_run_removes = refl

-- with a list that is not behind, the copy stays
run_repairs : (run (some mislabelled)).1 ≢ none
unfolding run
run_repairs h = absurd (cc (h))

copy-NodupKeys : NodupKeys copy.content
unfolding lookup
copy-NodupKeys = (refl, (refl, tt))

data_equal_iff_example :
    (data_equal source.content copy.content ≡ true) ↔ SameData source.content copy.content
data_equal_iff_example = data_equal_iff source.content copy.content source-NodupKeys copy-NodupKeys

secret_needs_update_iff_example :
    (secret_needs_update copy (build_synced_cred hub account profile "c1-m" source) ≡ false) ↔ (
      SameData copy.content source.content
      × (value_at label_key_synced_from copy.metadata.labels ≡ synced_name "c1" "m"))
secret_needs_update_iff_example =
    secret_needs_update_iff hub account profile "c1-m" source copy copy-NodupKeys source-NodupKeys

sync_creds-copies_example :
    Ends
      (λ _ t. Copied hub hub-IsLawful account profile source none t)
      (λ _ t. held_at t ≡ held_at none)
      (sync_creds hub account profile none)
sync_creds-copies_example =
    sync_creds-copies hub hub-IsLawful account profile source none ref refl refl source-NodupKeys
      absent

cleanup_orphaned_creds-Fate_example :
    Ends
      (λ _ t.
        ((k : Key) → Fate hub profile (account ∷ []) (some orphan) t k)
        × ((x : Secret)
            → hub.cached (some orphan) (key_of x.metadata) ≡ some x
            → IsListed "fleet" label_key_synced_from x
            → IsOrphan profile (account ∷ []) x
            → held_at t (key_of x.metadata) ≡ none))
      (λ _ t. (k : Key) → Fate hub profile (account ∷ []) (some orphan) t k)
      (cleanup_orphaned_creds hub profile (account ∷ []) (some orphan))
cleanup_orphaned_creds-Fate_example =
    cleanup_orphaned_creds-Fate hub profile (account ∷ []) hub-IsLawful (some orphan)

reconcile-IsOutside_example :
    Ends
      (λ _ t. IsOutside hub hub-IsLawful "fleet" (some orphan) t)
      (λ _ t. IsOutside hub hub-IsLawful "fleet" (some orphan) t)
      (reconcile hub request (some orphan))
reconcile-IsOutside_example = reconcile-IsOutside hub hub-IsLawful request (some orphan)
