-- ===== src/Event/Samples.antt =====
-- The theorems of the watches at concrete data.
use managed_serviceaccount.Prelude.{some, [], ◌∷◌, ◌≡◌, refl, true}
use managed_serviceaccount.Prelude.Dict.{value_at}
use managed_serviceaccount.Effect.Triple.{Ends}
use managed_serviceaccount.Kube.{key_of, ServiceAccount}
use managed_serviceaccount.Event.{delete, handle_account}
use managed_serviceaccount.Event.Requests.{request_for, deleted_account_restored}
use managed_serviceaccount.Token.Memory.{memory, memory-IsLawful}
use managed_serviceaccount.Token.Reconcile.{reconcile}
use managed_serviceaccount.Token.Reconcile.Present.{Undone}
use managed_serviceaccount.Token.Reconcile.Absent.{is_managed}
use managed_serviceaccount.Token.Samples.{
  config, meta, recorded, world, world-IsKeyed, user, good_token,
}

abbrev own : ServiceAccount
own = record { metadata = meta "agent" "m" }

own-is_managed : is_managed own ≡ true
unfolding value_at
own-is_managed = refl

deleted_account_restored_example :
    (handle_account "c1" (delete own) [] ≡ request_for config "m" ∷ [])
    × Ends
        (λ _ t.
          (again : ServiceAccount) × (t.held.spoke_accounts (key_of own.metadata) ≡ some again))
        (Undone
          (memory user good_token)
          config
          (request_for config "m")
          recorded
          (world good_token))
        (reconcile (memory user good_token) config (request_for config "m") (world good_token))
deleted_account_restored_example =
    deleted_account_restored (memory user good_token) config (memory-IsLawful user good_token) own
      recorded (world good_token) own-is_managed refl (world-IsKeyed good_token) refl
