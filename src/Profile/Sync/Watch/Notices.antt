-- ===== src/Profile/Sync/Watch/Notices.antt =====
-- Which events of accounts and token secrets the syncer notices.
use managed_serviceaccount.Prelude.{
  Has, String, Bool, true, Option, some, List, [], ◌∷◌, ◌++◌, ◌≡◌, ◌↔◌, ◌⊎◌, inl, inr, refl, arith,
  Bool-cases,
}
use managed_serviceaccount.Errors.{Result, ok}
use managed_serviceaccount.Effect.{Call, next}
use managed_serviceaccount.Kube.{Key, Secret}
use managed_serviceaccount.Api.{ManagedServiceAccount}
use managed_serviceaccount.Event.{Event, create, update, delete, generic}
use managed_serviceaccount.Profile.Hub.{Hub, ClusterProfile}
use managed_serviceaccount.Profile.Cred.{msa_filter, secret_filter}
use managed_serviceaccount.Profile.Sync.{map_account, map_secret}
use managed_serviceaccount.Profile.Sync.Requests.{
  IsAbout, Enqueues, map_account-Enqueues, map_secret-Enqueues,
}
use managed_serviceaccount.Profile.Sync.Watch.{
  Wiring, map_all, watch, watch_accounts, watch_secrets,
}

-- The object as an event leaves it.
abbrev pub latest : {A : Type 0} → Event A → A
latest (create x) = x
latest (update old new) = new
latest (delete x) = x
latest (generic x) = x

-- An update does not move an object to another namespace.
abbrev pub StaysIn : {A : Type 0} → (A → String) → Event A → Type 0
StaysIn namespace (update old new) = namespace old ≡ namespace new
StaysIn namespace e = Unit

-- What controller-runtime documents: a filter looks at the new object of an update, and the requests are
-- those of the old object and of the new one.
pub record IsWiring (W : Wiring) : Type 1 where
  pub filters : {A : Type 0} (f : A → Bool) (e : Event A) → W.passes f e ≡ f (latest e)
  pub maps_create : {A : Type 0} (x : A) → W.mapped (create x) ≡ x ∷ []
  pub maps_update : {A : Type 0} (old new : A) → W.mapped (update old new) ≡ old ∷ new ∷ []
  pub maps_delete : {A : Type 0} (x : A) → W.mapped (delete x) ≡ x ∷ []
  pub maps_generic : {A : Type 0} (x : A) → W.mapped (generic x) ≡ x ∷ []

Has-++ : (k : Key) (xs ys : List Key) → Has k (xs ++ ys) ↔ (Has k xs ⊎ Has k ys)
Has-++ k [] ys = (λ i. inr i, λ i. elim i [ inl j ↦ absurd j | inr j ↦ j ])
Has-++ k (x ∷ xs) ys = (
  λ i. elim i [
    | inl e ↦ inl (inl e)
    | inr j ↦ elim ((Has-++ k xs ys).0 j) [ inl l ↦ inl (inr l) | inr l ↦ inr l ]
  ],
  λ i. elim i [
    | inl j ↦ elim j [ inl e ↦ inl e | inr l ↦ inr ((Has-++ k xs ys).1 (inl l)) ]
    | inr j ↦ inr ((Has-++ k xs ys).1 (inr j))
  ],
)

module _ (W : Wiring) (L : IsWiring W) (H : Hub) (cps : List ClusterProfile)
    (listed : (s : H.State) → (t : H.State) × (H.list_profiles s ≡ (ok cps, t))) where
  open H use {State}

  -- The requests of a reply are those that a predicate describes.
  pub record Gives (P : Key → Type 0) (r : Result (List Key) × State) : Type 0 where
    pub keys : List Key
    pub after : State
    pub replied : r ≡ (ok keys, after)
    pub exact : (k : Key) → Has k keys ↔ P k

  module _ {A : Type 0} (filter : A → Bool) (namespace : A → String)
      (map_func : Option A → Call State (List Key))
      (maps : (x : A) (s t : State)
        → H.list_profiles s ≡ (ok cps, t)
        → Enqueues H (namespace x) cps t (map_func (some x) s)) where
    map_one :
        (x : A) (s : State) → Gives (IsAbout (namespace x) cps) (map_all W H map_func (x ∷ []) s)
    unfolding next
    map_one x s =
        let (t, e) = listed s in
        let (keys, replied, exact) = maps x s t e in
        record {
          keys = keys ++ [];
          after = t;
          replied = rw replied refl;
          exact = λ k. (
            λ i. elim ((Has-++ k keys []).0 i) [ inl j ↦ (exact k).0 j | inr j ↦ absurd j ],
            λ about. (Has-++ k keys []).1 (inl ((exact k).1 about)),
          );
        }

    map_two :
        (x y : A) (s : State)
        → namespace x ≡ namespace y
        → Gives (IsAbout (namespace y) cps) (map_all W H map_func (x ∷ y ∷ []) s)
    unfolding next
    map_two x y s same =
        let (t, e) = listed s in
        let (keys, replied, exact) = maps x s t e in
        let rest = map_one y t in
        record {
          keys = keys ++ rest.keys;
          after = rest.after;
          replied = rw (replied, rest.replied) refl;
          exact = λ k. (
            λ i. elim ((Has-++ k keys rest.keys).0 i) [
              | inl j ↦ coe 0 1 (i. IsAbout (same i) cps k) ((exact k).0 j)
              | inr j ↦ (rest.exact k).0 j
            ],
            λ about. (Has-++ k keys rest.keys).1 (inr ((rest.exact k).1 about)),
          );
        }

    map_event :
        (e : Event A) (s : State)
        → StaysIn namespace e
        → Gives (IsAbout (namespace (latest e)) cps) (map_all W H map_func (W.mapped e) s)
    map_event (create x) s h = rw (L.maps_create x) (map_one x s)
    map_event (update old new) s h = rw (L.maps_update old new) (map_two old new s h)
    map_event (delete x) s h = rw (L.maps_delete x) (map_one x s)
    map_event (generic x) s h = rw (L.maps_generic x) (map_one x s)

    watch_event :
        (e : Event A) (s : State)
        → StaysIn namespace e
        → Gives
            (λ k. (filter (latest e) ≡ true) × IsAbout (namespace (latest e)) cps k)
            (watch W H filter map_func e s)
    watch_event e s h = elim (Bool-cases (filter (latest e))) [
      | inl pass ↦
          let g = map_event e s h in
          rw (L.filters filter e, pass)
            (record {
              keys = g.keys;
              after = g.after;
              replied = g.replied;
              exact = λ k. (λ i. (refl, (g.exact k).0 i), λ (_, about). (g.exact k).1 about);
            })
      | inr fail ↦
          rw (L.filters filter e, fail)
            (record {
              keys = [];
              after = s;
              replied = refl;
              exact = λ k. (λ i. absurd i, λ (yes_pass, _). absurd (ground (arith, yes_pass)));
            })
    ]

  -- The requests of an event of an account and of one of a secret, by the latest object.
  pub record Notices (account_event : Event ManagedServiceAccount) (secret_event : Event Secret)
      (s : State) : Type 0 where
    pub of_account :
        Gives
          (λ k.
            (msa_filter (latest account_event) ≡ true)
            × IsAbout (latest account_event).metadata.namespace cps k)
          (watch_accounts W H account_event s)
    pub of_secret :
        Gives
          (λ k.
            (secret_filter (latest secret_event) ≡ true)
            × IsAbout (latest secret_event).metadata.namespace cps k)
          (watch_secrets W H secret_event s)

  -- Where the ClusterProfiles can be listed and do not change: an event of an account, and one of a
  -- secret, enqueues exactly the ClusterProfiles that bear the name of the object's namespace if the
  -- object passes the filter as the event leaves it, and none if it does not, whatever an update found.
  pub watch-Notices :
      (account_event : Event ManagedServiceAccount) (secret_event : Event Secret) (s : State)
      → StaysIn (λ (m : ManagedServiceAccount). m.metadata.namespace) account_event
      → StaysIn (λ (x : Secret). x.metadata.namespace) secret_event
      → Notices account_event secret_event s
  unfolding watch_accounts watch_secrets
  watch-Notices account_event secret_event s here here' = record {
    of_account =
        watch_event msa_filter (λ (m : ManagedServiceAccount). m.metadata.namespace) (map_account H)
          (λ m u v e. map_account-Enqueues H m cps u v e) account_event s here;
    of_secret =
        watch_event secret_filter (λ (x : Secret). x.metadata.namespace) (map_secret H)
          (λ x u v e. map_secret-Enqueues H x cps u v e) secret_event s here';
  }
