-- ===== src/Profile/Sync/Accounts.antt =====
-- What syncCreds leaves of one account: a copy of its token secret, if there is one.
pub mod Loop
use managed_serviceaccount.Prelude.{
  Has, String, false, Option, none, some, List, [], ◌∷◌, ◌≡◌, ◌≢◌, inl, inr, refl, ◌∙◌, sym, ap,
  arith, Bool-cases, Option-cases,
}
use managed_serviceaccount.Errors.{Error, is_not_found}
use managed_serviceaccount.Effect.Triple.{
  Ends, Ends-ok, Ends-err, Ends-if, Ends-next, Ends-attempt, Ends-weaken,
}
use managed_serviceaccount.Kube.{Key, Secret, put_at_found, same_key, same_key_eq, same_key_refl}
use managed_serviceaccount.Api.{ManagedServiceAccount, SecretRef}
use managed_serviceaccount.Profile.Hub.{Hub, ClusterProfile}
use managed_serviceaccount.Profile.Hub.Laws.{AreDistinct, IsLawful}
use managed_serviceaccount.Profile.Cred.{synced_name}
use managed_serviceaccount.Profile.Cred.Compare.{NodupKeys}
use managed_serviceaccount.Profile.Cred.Names.{synced_name_injective}
use managed_serviceaccount.Profile.Sync.{copy_cred, sync_ref, sync_creds, sync_collected, sync_all}
use managed_serviceaccount.Profile.Sync.Copy.{copy_key, IsCopy, Copied, ref_effect}

-- The key of an account's token secret.
abbrev pub source_key : ManagedServiceAccount → SecretRef → Key
source_key msa ref = record { namespace = msa.metadata.namespace; name = ref.name }

pub other_namespace : (a b : Key) → a.namespace ≢ b.namespace → same_key a b ≡ false
other_namespace a b differ = elim (Bool-cases (same_key a b)) [
  | inl same ↦ absurd (differ (ap (λ (k : Key). k.namespace) (same_key_eq a b same)))
  | inr other ↦ other
]

pub same_key-flip : (a b : Key) → same_key a b ≡ false → same_key b a ≡ false
same_key-flip a b h = elim (Bool-cases (same_key b a)) [
  | inl same ↦ absurd (ground (arith, h, same_key_refl a, ap (same_key a) (same_key_eq b a same)))
  | inr differ ↦ differ
]

module _ (H : Hub) (cp : ClusterProfile) where
  open H use {State, secrets}

  -- The hub holds a copy of a secret for an account.
  pub record HasCopy (msa : ManagedServiceAccount) (source : Secret) (t : State) : Type 0 where
    pub copy : Secret
    pub held : secrets t (copy_key msa cp) ≡ some copy
    pub good : IsCopy msa source copy

  -- If an account's token secret was held in `s`, its copy is held in `t`.
  abbrev pub IsMirrored : State → State → ManagedServiceAccount → Type 0
  IsMirrored s t msa =
      (ref : SecretRef) (source : Secret)
      → msa.status.token_secret_ref ≡ some ref
      → secrets s (source_key msa ref) ≡ some source
      → HasCopy msa source t

  -- Only the copies of some accounts may have changed.
  abbrev pub Frame : List ManagedServiceAccount → State → State → Type 0
  Frame msas s t =
      (k : Key)
      → ((m : ManagedServiceAccount) → Has m msas → same_key (copy_key m cp) k ≡ false)
      → secrets t k ≡ secrets s k

  -- Every secret has each key of its data once, as a map does.
  abbrev pub AreMaps : State → Type 0
  AreMaps s = (k : Key) (x : Secret) → secrets s k ≡ some x → NodupKeys x.content

  module _ (L : IsLawful H) (msa : ManagedServiceAccount) (t : State)
      (current_map : (x : Secret) → secrets t (copy_key msa cp) ≡ some x → NodupKeys x.content)
      (source_map : (ref : SecretRef) (x : Secret)
        → secrets t (source_key msa ref) ≡ some x
        → NodupKeys x.content) where
    pub record OneSynced (v : State) : Type 0 where
      pub frame : Frame (msa ∷ []) t v
      pub mirrored : IsMirrored t v msa

    unfoldable pub Kept : Error → State → Type 0
    Kept e v = secrets v ≡ secrets t

    unmoved : (v : State) → secrets v ≡ secrets t → Frame (msa ∷ []) t v
    unmoved v same k others = ap (λ f. f k) same

    Copied-OneSynced :
        (ref : SecretRef) (source : Secret) (v : State)
        → msa.status.token_secret_ref ≡ some ref
        → secrets t (source_key msa ref) ≡ some source
        → Copied H L msa cp source t v
        → OneSynced v
    Copied-OneSynced ref source v e held copied = record {
      frame = λ k others. ap (λ f. f k) copied.written ∙ rw (others msa (inl refl)) refl;
      mirrored = λ ref' source' there held'.
          let same_ref : ref' ≡ ref = cc (there, e) in
          let same : source ≡ source' =
            cc (held, held', ap (λ (r : SecretRef). secrets t (source_key msa r)) same_ref) in
          record {
            copy = copied.copy;
            held =
                ap (λ f. f (copy_key msa cp)) copied.written
                ∙ put_at_found (secrets t) (copy_key msa cp) (some copied.copy);
            good = coe 0 1 (i. IsCopy msa (same i) copied.copy) copied.good;
          };
    }

    missing_effect :
        (ref : SecretRef)
        → msa.status.token_secret_ref ≡ some ref
        → secrets t (source_key msa ref) ≡ none
        → Ends (λ _ v. OneSynced v) Kept (sync_ref H msa cp (some ref) t)
    unfolding sync_ref Kept copy_cred
    missing_effect ref e missing =
        let k : Key = source_key msa ref in
        Ends-attempt _ _ (L.reads_secret k t)
          (λ x v miss.
            Ends-if (is_not_found x) _ _ v
              (λ _. Ends-ok (record {
                frame = unmoved v miss.1;
                mirrored = λ ref' source there held.
                    let same : ref ≡ ref' = cc (there, e) in
                    absurd (
                      ground (
                        arith,
                        held,
                        missing,
                        ap (λ (r : SecretRef). secrets t (source_key msa r)) same,
                      ));
              }))
              (λ _. Ends-err miss.1))
          (λ x v found. absurd (ground (arith, found.0, missing)))

    by_ref :
        (o : Option SecretRef)
        → msa.status.token_secret_ref ≡ o
        → Ends (λ _ v. OneSynced v) Kept (sync_ref H msa cp o t)
    unfolding sync_ref Kept
    by_ref none e = Ends-ok (record {
      frame = unmoved t refl;
      mirrored = λ ref source there. absurd (ground (arith, e, there));
    })
    by_ref (some ref) e = elim (Option-cases (secrets t (source_key msa ref))) [
      | inl missing ↦ missing_effect ref e missing
      | inr (source, held) ↦
          Ends-weaken _
            (ref_effect H L msa cp source t (some ref) ref refl held (source_map ref source held)
              current_map)
            (λ _ v copied. Copied-OneSynced ref source v e held copied) (λ _ _ h. h)
    ]

    pub one_effect : Ends (λ _ v. OneSynced v) Kept (sync_creds H msa cp t)
    unfolding sync_creds
    one_effect = by_ref msa.status.token_secret_ref refl
