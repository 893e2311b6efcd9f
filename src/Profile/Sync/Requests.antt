-- ===== src/Profile/Sync/Requests.antt =====
-- Which ClusterProfiles the event of an account or of a token secret is about.
use managed_serviceaccount.Prelude.{
  Has, String, ◌==◌, eq_iff, some, List, [], ◌∷◌, ◌≡◌, ◌↔◌, inl, inr, refl, ◌∙◌, sym, ap,
  Bool-cases,
}
use managed_serviceaccount.Errors.{Result, ok}
use managed_serviceaccount.Effect.{next, attempted}
use managed_serviceaccount.Kube.{Key, Secret, key_of}
use managed_serviceaccount.Api.{ManagedServiceAccount}
use managed_serviceaccount.Profile.Hub.{Hub, ClusterProfile}
use managed_serviceaccount.Profile.Sync.{requests_for, requests_of, map_account, map_secret}

-- Some profile of a list has a key, and bears the name of a cluster namespace.
abbrev pub IsAbout : String → List ClusterProfile → Key → Type 0
IsAbout namespace cps k =
    (cp : ClusterProfile) × Has cp cps × (cp.metadata.name ≡ namespace) × (k ≡ key_of cp.metadata)

requests_for_sound :
    (namespace : String) (cps : List ClusterProfile) (k : Key)
    → Has k (requests_for namespace cps)
    → IsAbout namespace cps k
unfolding requests_for
requests_for_sound namespace [] k i = absurd i
requests_for_sound namespace (cp ∷ cps) k i = elim (Bool-cases (cp.metadata.name == namespace)) [
  | inl named ↦ elim (rw named at i) [
    | inl same ↦ (cp, inl refl, (eq_iff _ _).0 named, same)
    | inr later ↦ let (x, j, n, e) = requests_for_sound namespace cps k later in (x, inr j, n, e)
  ]
  | inr other ↦
      let (x, j, n, e) = requests_for_sound namespace cps k (rw other at i) in (x, inr j, n, e)
]

requests_for_complete :
    (namespace : String) (cps : List ClusterProfile) (k : Key)
    → IsAbout namespace cps k
    → Has k (requests_for namespace cps)
unfolding requests_for
requests_for_complete namespace [] k (cp, i, n, e) = absurd i
requests_for_complete namespace (x ∷ cps) k (cp, inl same, n, e) =
    let named : x.metadata.name ≡ namespace =
      ap (λ (c : ClusterProfile). c.metadata.name) (sym same) ∙ n in
    rw ((eq_iff x.metadata.name namespace).1 named)
      (inl (e ∙ ap (λ (c : ClusterProfile). key_of c.metadata) same))
requests_for_complete namespace (x ∷ cps) k (cp, inr later, n, e) =
    let rest = requests_for_complete namespace cps k (cp, later, n, e) in
    elim (Bool-cases (x.metadata.name == namespace)) [
      | inl named ↦ rw named (inr rest)
      | inr other ↦ rw other rest
    ]

module _ (H : Hub) where
  open H use {State}

  -- The requests that a call answers are exactly the keys of the profiles that bear a name.
  abbrev pub Enqueues : String → List ClusterProfile → State → Result (List Key) × State → Type 0
  Enqueues namespace cps t r =
      (keys : List Key) × (r ≡ (ok keys, t)) × ((k : Key) → Has k keys ↔ IsAbout namespace cps k)

  requests_of-Enqueues :
      (namespace : String) (cps : List ClusterProfile) (t : State)
      → Enqueues namespace cps t (requests_of H namespace (ok cps) t)
  unfolding requests_of
  requests_of-Enqueues namespace cps t = (
    requests_for namespace cps,
    refl,
    λ k. (requests_for_sound namespace cps k, requests_for_complete namespace cps k),
  )

  pub map_account-Enqueues :
      (msa : ManagedServiceAccount) (cps : List ClusterProfile) (s t : State)
      → H.list_profiles s ≡ (ok cps, t)
      → Enqueues msa.metadata.namespace cps t (map_account H (some msa) s)
  unfolding map_account attempted next
  map_account-Enqueues msa cps s t listed =
      rw listed (requests_of-Enqueues msa.metadata.namespace cps t)

  pub map_secret-Enqueues :
      (secret : Secret) (cps : List ClusterProfile) (s t : State)
      → H.list_profiles s ≡ (ok cps, t)
      → Enqueues secret.metadata.namespace cps t (map_secret H (some secret) s)
  unfolding map_secret attempted next
  map_secret-Enqueues secret cps s t listed =
      rw listed (requests_of-Enqueues secret.metadata.namespace cps t)
