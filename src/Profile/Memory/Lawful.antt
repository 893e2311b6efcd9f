-- ===== src/Profile/Memory/Lawful.antt =====
-- The hub in memory meets what the syncer relies on.
use managed_serviceaccount.Prelude.{
  String, eq_iff, true, false, Option, none, some, [], ◌∷◌, ◌≡◌, inl, inr, refl, ◌∙◌, sym, ap,
  Bool-cases, on_if, ◌==◌, if◌then◌else◌,
}
use mathlib.Core.Path.{fun_ext}
use managed_serviceaccount.Prelude.Dict.{lookup}
use managed_serviceaccount.Errors.{Result, is_not_found}
use managed_serviceaccount.Effect.Triple.{Ends, Ends-ok, Ends-err}
use managed_serviceaccount.Kube.{Key, key_of, same_key, same_key_eq, Secret, put_at}
use managed_serviceaccount.Prelude.Int.{pos}
use managed_serviceaccount.Api.{ManagedServiceAccount, SecretRef}
use managed_serviceaccount.Profile.Cred.{synced_name}
use managed_serviceaccount.Profile.Cred.Compare.{NodupKeys}
use managed_serviceaccount.Profile.Hub.Laws.{AreListed, Put, IsLawful}
use managed_serviceaccount.Profile.Memory.{
  profile, account, source, fetch, held_at, store_free, store, drop_free, drop, hub,
}
use managed_serviceaccount.Profile.Memory.Listed.{none-some, list_lem}

fetch_lem :
    (v : Option Secret) (s : Option Secret)
    → Ends
        (λ x t. (v ≡ some x) × (held_at t ≡ held_at s))
        (λ e t. (is_not_found e ≡ true → v ≡ none) × (held_at t ≡ held_at s))
        (fetch v s)
fetch_lem none s = Ends-err (λ _. refl, refl)
fetch_lem (some a) s = Ends-ok (refl, refl)

other_key_lem :
    (k : Key) (x y : Secret)
    → same_key (key_of y.metadata) k ≡ true
    → Path (Option Secret) (some y) (some x)
    → key_of x.metadata ≡ k
other_key_lem k x y same h =
    let e : y ≡ x = cc (h) in ap (λ (z : Secret). key_of z.metadata) (sym e) ∙ same_key_eq _ _ same

source_key_lem :
    (k : Key) (x : Secret)
    → same_key (key_of source.metadata) k ≡ true
    → Path (Option Secret) (some source) (some x)
    → key_of x.metadata ≡ k
source_key_lem k x same h = other_key_lem k x source same h

keyed_lem :
    (k : Key) (x : Secret) (s : Option Secret) → held_at s k ≡ some x → key_of x.metadata ≡ k
keyed_lem k x none h = elim (Bool-cases (same_key (key_of source.metadata) k)) [
  | inl same ↦ source_key_lem k x same (rw same at h)
  | inr differ ↦ absurd (none-some x (rw differ at h))
]
keyed_lem k x (some y) h = elim (Bool-cases (same_key (key_of source.metadata) k)) [
  | inl same ↦ source_key_lem k x same (rw same at h)
  | inr differ ↦ elim (Bool-cases (same_key (key_of y.metadata) k)) [
    | inl same ↦ other_key_lem k x y same (rw (differ, same) at h)
    | inr differ' ↦ absurd (none-some x (rw (differ, differ') at h))
  ]
]

-- Two keys that compare equal compare alike with a third.
same_key-swap : (a b j : Key) → same_key a b ≡ true → same_key a j ≡ same_key b j
same_key-swap a b j same = ap (λ k. same_key k j) (same_key_eq a b same)

-- No key of another secret is the key of the source.
not_source :
    (x : Secret) (j : Key)
    → same_key (key_of source.metadata) (key_of x.metadata) ≡ false
    → same_key (key_of x.metadata) j ≡ true
    → same_key (key_of source.metadata) j ≡ false
not_source x j differ same =
    ap (same_key (key_of source.metadata)) (sym (same_key_eq (key_of x.metadata) j same)) ∙ differ

store_written :
    (x : Secret) (s : Option Secret)
    → same_key (key_of source.metadata) (key_of x.metadata) ≡ false
    → ((j : Key) → same_key (key_of x.metadata) j ≡ false → held_at s j ≡ held_at none j)
    → held_at (some x) ≡ put_at (held_at s) (key_of x.metadata) (some x)
store_written x s differ others = fun_ext (λ j. elim (Bool-cases (same_key (key_of x.metadata) j)) [
  | inl same ↦ rw (not_source x j differ same, same) refl
  | inr another ↦ rw another (sym (others j another))
])

drop_written :
    (x : Secret) (s : Option Secret)
    → same_key (key_of source.metadata) (key_of x.metadata) ≡ false
    → ((j : Key) → same_key (key_of x.metadata) j ≡ false → held_at s j ≡ held_at none j)
    → held_at none ≡ put_at (held_at s) (key_of x.metadata) none
drop_written x s differ others = fun_ext (λ j. elim (Bool-cases (same_key (key_of x.metadata) j)) [
  | inl same ↦ rw (not_source x j differ same, same) refl
  | inr another ↦ rw another (sym (others j another))
])

others_lem :
    (x y : Secret)
    → same_key (key_of y.metadata) (key_of x.metadata) ≡ true
    → (j : Key) → same_key (key_of x.metadata) j ≡ false
    → held_at (some y) j ≡ held_at none j
others_lem x y same j another =
    rw (same_key-swap (key_of y.metadata) (key_of x.metadata) j same, another) refl

Put-of :
    (x : Secret) (s : Option Secret)
    → held_at (some x) ≡ put_at (held_at s) (key_of x.metadata) (some x)
    → Put hub x s (some x)
Put-of x s e = record {
  held = x;
  stored = record { same_key = refl; labels = refl; owner_references = refl; content = refl };
  written = e;
}

store_free-Put :
    (x : Secret) (s : Option Secret)
    → same_key (key_of source.metadata) (key_of x.metadata) ≡ false
    → Ends (λ _ t. Put hub x s t) (λ _ t. held_at t ≡ held_at s) (store_free x s)
store_free-Put x none differ = Ends-ok (Put-of x none (store_written x none differ (λ _ _. refl)))
store_free-Put x (some y) differ =
    elim (Bool-cases (same_key (key_of y.metadata) (key_of x.metadata))) [
      | inl same ↦
          rw same
            (Ends-ok (Put-of x (some y) (store_written x (some y) differ (others_lem x y same))))
      | inr another ↦ rw another (Ends-err refl)
    ]

store-Put :
    (x : Secret) (s : Option Secret)
    → Ends (λ _ t. Put hub x s t) (λ _ t. held_at t ≡ held_at s) (store x s)
store-Put x s = elim (Bool-cases (same_key (key_of source.metadata) (key_of x.metadata))) [
  | inl same ↦ rw same (Ends-err refl)
  | inr differ ↦ rw differ (store_free-Put x s differ)
]

Dropped : Secret → Option Secret → Result (Unit {0}) × Option Secret → Type 0
Dropped x s r =
    Ends (λ _ t. held_at t ≡ put_at (held_at s) (key_of x.metadata) none)
      (λ e t.
        (is_not_found e ≡ true → held_at s (key_of x.metadata) ≡ none) × (held_at t ≡ held_at s))
      r

drop_free-Dropped :
    (x : Secret) (s : Option Secret)
    → same_key (key_of source.metadata) (key_of x.metadata) ≡ false
    → Dropped x s (drop_free x s)
unfolding Dropped
drop_free-Dropped x none differ = Ends-err (λ _. rw differ refl, refl)
drop_free-Dropped x (some y) differ =
    on_if (Dropped x (some y)) (same_key (key_of y.metadata) (key_of x.metadata)) _ _
      (λ same. Ends-ok (drop_written x (some y) differ (others_lem x y same)))
      (λ another. Ends-err (λ _. rw (differ, another) refl, refl))

drop-Dropped : (x : Secret) (s : Option Secret) → Dropped x s (drop x s)
unfolding Dropped is_not_found
drop-Dropped x s =
    on_if (Dropped x s) (same_key (key_of source.metadata) (key_of x.metadata)) _ _
      (λ same. Ends-err (λ p. absurd (cc (p)), refl)) (λ differ. drop_free-Dropped x s differ)

profile_lem :
    (k : Key) (s : Option Secret)
    → Ends
        (λ cp t. (key_of cp.metadata ≡ k) × (held_at t ≡ held_at s))
        (λ _ t. held_at t ≡ held_at s)
        (hub.get_profile k s)
profile_lem k s = elim (Bool-cases (same_key (key_of profile.metadata) k)) [
  | inl same ↦ rw same (Ends-ok (same_key_eq _ _ same, refl))
  | inr differ ↦ rw differ (Ends-err refl)
]

accounts_lem :
    (namespace : String) → AreListed namespace (if "c1" == namespace then account ∷ [] else [])
accounts_lem namespace = elim (Bool-cases ("c1" == namespace)) [
  | inl here ↦ rw here (record {
    in_namespace = λ m i. elim i [
      | inl same ↦
          ap (λ (x : ManagedServiceAccount). x.metadata.namespace) same
          ∙ (eq_iff "c1" namespace).0 here
      | inr later ↦ absurd later
    ];
    distinct = (λ n i. absurd i, tt);
  })
  | inr elsewhere ↦ rw elsewhere (record { in_namespace = λ m i. absurd i; distinct = tt })
]

pub hub-IsLawful : IsLawful hub
unfolding Dropped
hub-IsLawful = record {
  reads_profile = profile_lem;
  lists_accounts = λ namespace label text s. Ends-ok (accounts_lem namespace, refl);
  keyed = keyed_lem;
  keyed_cached = keyed_lem;
  reads_secret = λ k s. fetch_lem (held_at s k) s;
  lists_secrets = λ namespace label s.
      let (sound, complete) = list_lem namespace label s in Ends-ok (sound, complete, refl);
  creates_secret = store-Put;
  updates_secret = store-Put;
  deletes_secret = drop-Dropped;
  aggregates_none = refl;
  aggregates_some = λ e es h. cc (h);
}

-- The key of the copy is free in a hub that holds the source only.
pub absent :
    (current : Secret)
    → held_at none (record { namespace = "fleet"; name = synced_name "c1" "m" }) ≡ some current
    → NodupKeys current.content
absent current h = absurd (cc (h))

abbrev pub ref : SecretRef
ref = record { name = "m"; last_refresh_timestamp = pos 0 }

pub source-NodupKeys : NodupKeys source.content
unfolding lookup
source-NodupKeys = (refl, (refl, tt))
