-- ===== src/Profile/Sync/Accounts/Loop.antt =====
-- What the loop of Reconcile over the accounts leaves: a copy for each account.
use managed_serviceaccount.Prelude.{
  Has, String, false, some, List, [], ◌∷◌, ◌≡◌, ◌≢◌, inl, inr, refl, ◌∙◌, sym, ap, Bool-cases,
}
use managed_serviceaccount.Errors.{Error}
use managed_serviceaccount.Effect.Triple.{Ends, Ends-ok, Ends-next, Ends-attempt}
use managed_serviceaccount.Kube.{Key, Secret, same_key, same_key_eq}
use managed_serviceaccount.Api.{ManagedServiceAccount}
use managed_serviceaccount.Profile.Hub.{Hub, ClusterProfile}
use managed_serviceaccount.Profile.Hub.Laws.{AreDistinct, IsLawful}
use managed_serviceaccount.Profile.Cred.{synced_name}
use managed_serviceaccount.Profile.Cred.Compare.{NodupKeys}
use managed_serviceaccount.Profile.Cred.Names.{synced_name_injective}
use managed_serviceaccount.Profile.Sync.{sync_collected, sync_all}
use managed_serviceaccount.Profile.Sync.Copy.{copy_key}
use managed_serviceaccount.Profile.Sync.Accounts.{
  source_key, other_namespace, same_key-flip, HasCopy, IsMirrored, Frame, Kept, one_effect,
}

module _ (H : Hub) (cp : ClusterProfile) where
  open H use {State, secrets}

  -- What the loop needs of the secrets in a state: those at the copies' keys and the token secrets of
  -- the accounts are maps.
  pub record Before (msas : List ManagedServiceAccount) (t : State) : Type 0 where
    pub currents :
        (m : ManagedServiceAccount)
        → Has m msas
        → (x : Secret) → secrets t (copy_key m cp) ≡ some x
        → NodupKeys x.content
    pub sources :
        (k : Key) (x : Secret)
        → k.namespace ≢ cp.metadata.namespace
        → secrets t k ≡ some x
        → NodupKeys x.content

  pub record Looped (msas : List ManagedServiceAccount) (t : State) (errs : List Error) (u : State)
      : Type 0 where
    pub frame : Frame H cp msas t u
    pub mirrored : errs ≡ [] → (m : ManagedServiceAccount) → Has m msas → IsMirrored H cp t u m

  abbrev pub Never : Error → State → Type 0
  Never e t = ⊥

  -- The accounts of one namespace, which is not that of the copies.
  pub record AreApart (msas : List ManagedServiceAccount) : Type 0 where
    pub distinct : AreDistinct msas
    pub namespace : String
    pub in_namespace : (m : ManagedServiceAccount) → Has m msas → m.metadata.namespace ≡ namespace
    pub apart : namespace ≢ cp.metadata.namespace

  AreApart-rest :
      (m : ManagedServiceAccount) (ms : List ManagedServiceAccount)
      → AreApart (m ∷ ms)
      → AreApart ms
  AreApart-rest m ms a = record {
    distinct = a.distinct.1;
    namespace = a.namespace;
    in_namespace = λ n i. a.in_namespace n (inr i);
    apart = a.apart;
  }

  -- Two accounts of a list have two keys of copies.
  other_copy :
      (m n : ManagedServiceAccount) (ms : List ManagedServiceAccount)
      → AreApart (m ∷ ms)
      → Has n ms
      → same_key (copy_key m cp) (copy_key n cp) ≡ false
  other_copy m n ms a i = elim (Bool-cases (same_key (copy_key m cp) (copy_key n cp))) [
    | inl same ↦
        let names : synced_name m.metadata.namespace m.metadata.name
            ≡ synced_name n.metadata.namespace n.metadata.name =
          ap (λ (k : Key). k.name) (same_key_eq _ _ same) in
        absurd (
          a.distinct.0 n i (
            synced_name_injective a.namespace _ _ (
              ap (λ ns. synced_name ns m.metadata.name) (sym (a.in_namespace m (inl refl)))
              ∙ names
              ∙ ap (λ ns. synced_name ns n.metadata.name) (a.in_namespace n (inr i)))))
    | inr differ ↦ differ
  ]

  -- A frame leaves the secrets of other namespaces alone.
  source_kept :
      (msas : List ManagedServiceAccount) (t v : State) (k : Key)
      → Frame H cp msas t v
      → k.namespace ≢ cp.metadata.namespace
      → secrets v k ≡ secrets t k
  source_kept msas t v k frame other =
      frame k (λ n i. other_namespace (copy_key n cp) k (λ e. other (sym e)))

  Before-rest :
      (m : ManagedServiceAccount) (ms : List ManagedServiceAccount) (t v : State)
      → AreApart (m ∷ ms)
      → Frame H cp (m ∷ []) t v
      → Before (m ∷ ms) t
      → Before ms v
  Before-rest m ms t v a frame b = record {
    currents = λ n i x held. b.currents n (inr i) x (
        sym (
          frame (copy_key n cp) (λ o j. elim j [
            | inl same ↦
                ap (λ (z : ManagedServiceAccount). same_key (copy_key z cp) (copy_key n cp)) same
                ∙ other_copy m n ms a i
            | inr none_left ↦ absurd none_left
          ]))
        ∙ held);
    sources =
        λ k x other held. b.sources k x other (sym (source_kept (m ∷ []) t v k frame other) ∙ held);
  }

  HasCopy-Frame :
      (m : ManagedServiceAccount) (ms : List ManagedServiceAccount) (v u : State) (source : Secret)
      → AreApart (m ∷ ms)
      → Frame H cp ms v u
      → HasCopy H cp m source v
      → HasCopy H cp m source u
  HasCopy-Frame m ms v u source a frame h = record {
    copy = h.copy;
    held =
        frame (copy_key m cp)
          (λ n i. same_key-flip (copy_key m cp) (copy_key n cp) (other_copy m n ms a i))
        ∙ h.held;
    good = h.good;
  }

  Looped-cons :
      (m : ManagedServiceAccount) (ms : List ManagedServiceAccount) (t v u : State)
      (errs rest : List Error)
      → AreApart (m ∷ ms)
      → Frame H cp (m ∷ []) t v
      → (errs ≡ [] → IsMirrored H cp t v m × (rest ≡ []))
      → Looped ms v rest u
      → Looped (m ∷ ms) t errs u
  Looped-cons m ms t v u errs rest a frame done h = record {
    frame = λ k others.
        h.frame k (λ n i. others n (inr i))
        ∙ frame k
            (λ n i. elim i [ inl same ↦ others n (inl same) | inr none_left ↦ absurd none_left ]);
    mirrored = λ e n i ref source there held.
        let apart : n.metadata.namespace ≢ cp.metadata.namespace =
          λ p. a.apart (sym (a.in_namespace n i) ∙ p) in
        elim i [
          | inl same ↦
              let first =
                (done e).0 ref source
                  (ap (λ (z : ManagedServiceAccount). z.status.token_secret_ref) (sym same) ∙ there)
                  (ap (λ (z : ManagedServiceAccount). secrets t (source_key z ref)) (sym same)
                    ∙ held) in
              coe 1 0 (j. HasCopy H cp (same j) source u)
                (HasCopy-Frame m ms v u source a h.frame first)
          | inr later ↦
              h.mirrored (done e).1 n later ref source there
                (source_kept (m ∷ []) t v (source_key n ref) frame apart ∙ held)
        ];
  }

  pub loop_effect :
      (L : IsLawful H) (msas : List ManagedServiceAccount) (t : State)
      → AreApart msas
      → Before msas t
      → Ends (Looped msas t) Never (sync_all H cp msas t)
  unfolding sync_all Kept
  loop_effect L [] t a b =
      Ends-ok (record { frame = λ k others. refl; mirrored = λ e m i. absurd i })
  loop_effect L (m ∷ ms) t a b =
      let apart : m.metadata.namespace ≢ cp.metadata.namespace =
        λ p. a.apart (sym (a.in_namespace m (inl refl)) ∙ p) in
      Ends-attempt _ _
        (one_effect H cp L m t (b.currents m (inl refl)) (λ ref x held. b.sources _ x apart held))
        (λ e v same.
          let frame : Frame H cp (m ∷ []) t v = λ k others. ap (λ f. f k) same in
          Ends-next _ (loop_effect L ms v (AreApart-rest m ms a) (Before-rest m ms t v a frame b))
            (λ _ _ h. h)
            (λ errs u h. Ends-ok (
              unfold sync_collected in
              Looped-cons m ms t v u _ errs a frame (λ p. absurd (cc (p))) h)))
        (λ _ v one.
          Ends-next _
            (loop_effect L ms v (AreApart-rest m ms a) (Before-rest m ms t v a one.frame b))
            (λ _ _ h. h)
            (λ errs u h. Ends-ok (
              unfold sync_collected in
              Looped-cons m ms t v u errs errs a one.frame (λ p. (one.mirrored, p)) h)))
