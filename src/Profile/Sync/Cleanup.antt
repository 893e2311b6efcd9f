-- ===== src/Profile/Sync/Cleanup.antt =====
-- What cleanupOrphanedCreds deletes.
use managed_serviceaccount.Prelude.{
  Has, String, ◌<>◌, ◌==◌, eq_iff, true, false, not, none, some, List, [], ◌∷◌, ◌≡◌, ◌≢◌, inl, inr,
  refl, Option-cases, ◌∙◌, sym, ap, arith, Bool-cases,
}
use managed_serviceaccount.Prelude.Dict.{value_at}
use managed_serviceaccount.Errors.{Error, ok, err, is_not_found, wrap}
use managed_serviceaccount.Effect.Triple.{
  Ends, Ends-ok, Ends-err, Ends-if, Ends-next, Ends-attempt, Ends-weaken, Ends-wrapf,
}
use managed_serviceaccount.Effect.{next, attempted}
use managed_serviceaccount.Kube.{Key, Secret, key_of, put_at, put_at_found, same_key, same_key_eq}
use managed_serviceaccount.Api.{ManagedServiceAccount}
use managed_serviceaccount.Profile.Hub.{Hub, ClusterProfile}
use managed_serviceaccount.Profile.Hub.Laws.{IsListed, IsLawful}
use managed_serviceaccount.Profile.Cred.{
  label_key_synced_from, synced_name, is_owned_by_cluster_profile,
}
use managed_serviceaccount.Profile.Sync.{
  is_valid, collected, aggregate, delete_orphans, cleanup_orphaned_creds,
}

-- A copy that the ClusterProfile owns and that no account accounts for.
pub record IsOrphan (cp : ClusterProfile) (msas : List ManagedServiceAccount) (x : Secret)
    : Type 0 where
  pub owned : is_owned_by_cluster_profile x cp ≡ true
  pub unclaimed :
      (msa : ManagedServiceAccount)
      → Has msa msas
      → synced_name msa.metadata.namespace msa.metadata.name
        ≢ value_at label_key_synced_from x.metadata.labels

pub is_valid_claimed :
    (msas : List ManagedServiceAccount) (from : String)
    → is_valid msas from ≡ true
    → (msa : ManagedServiceAccount) × Has msa msas
      × (synced_name msa.metadata.namespace msa.metadata.name ≡ from)
unfolding is_valid
is_valid_claimed [] from h = absurd (cc (h))
is_valid_claimed (m ∷ msas) from h =
    elim (Bool-cases (synced_name m.metadata.namespace m.metadata.name == from)) [
      | inl same ↦ (m, inl refl, (eq_iff _ _).0 same)
      | inr differ ↦
          let (x, i, e) = is_valid_claimed msas from (ground (arith, h, differ)) in (x, inr i, e)
    ]

pub is_valid_unclaimed :
    (msas : List ManagedServiceAccount) (from : String)
    → is_valid msas from ≡ false
    → (msa : ManagedServiceAccount) → Has msa msas
    → synced_name msa.metadata.namespace msa.metadata.name ≢ from
unfolding is_valid
is_valid_unclaimed [] from h msa i e = absurd i
is_valid_unclaimed (m ∷ msas) from h msa (inl same) e =
    let claimed : synced_name m.metadata.namespace m.metadata.name ≡ from =
      ap (λ (a : ManagedServiceAccount). synced_name a.metadata.namespace a.metadata.name)
        (sym same)
      ∙ e in
    ground (arith, h, (eq_iff (synced_name m.metadata.namespace m.metadata.name) from).1 claimed)
is_valid_unclaimed (m ∷ msas) from h msa (inr i) e =
    is_valid_unclaimed msas from (ground (arith, h)) msa i e

module _ (H : Hub) (cp : ClusterProfile) (msas : List ManagedServiceAccount) where
  open H use {State, secrets}

  -- What became of the secret at a key: only one under whose key the cache showed an orphan went.
  pub data Fate (s t : State) (k : Key) : Type 0 where
    kept : secrets t k ≡ secrets s k → Fate s t k
    removed :
        (x : Secret)
        → H.cached s k ≡ some x
        → IsListed cp.metadata.namespace label_key_synced_from x
        → IsOrphan cp msas x
        → secrets t k ≡ none
        → Fate s t k

  -- Secrets that a list before the loop showed.
  Known : State → List Secret → Type 0
  Known s xs =
      (x : Secret)
      → Has x xs
      → (H.cached s (key_of x.metadata) ≡ some x)
        × IsListed cp.metadata.namespace label_key_synced_from x

  Fate-same : (s t u : State) (k : Key) → secrets u ≡ secrets t → Fate s t k → Fate s u k
  Fate-same s t u k e (kept h) = kept (ap (λ f. f k) e ∙ h)
  Fate-same s t u k e (removed x held listed orphan gone) =
      removed x held listed orphan (ap (λ f. f k) e ∙ gone)

  Fate-put :
      (s t u : State) (x : Secret) (k : Key)
      → H.cached s (key_of x.metadata) ≡ some x
      → IsListed cp.metadata.namespace label_key_synced_from x
      → IsOrphan cp msas x
      → secrets u ≡ put_at (secrets t) (key_of x.metadata) none
      → Fate s t k
      → Fate s u k
  Fate-put s t u x k held listed orphan e fate =
      elim (Bool-cases (same_key (key_of x.metadata) k)) [
        | inl same ↦
            removed x (ap (H.cached s) (sym (same_key_eq _ _ same)) ∙ held) listed orphan
              (ap (λ f. f k) e ∙ rw same refl)
        | inr differ ↦ elim fate [
          | kept h ↦ kept (ap (λ f. f k) e ∙ rw differ h)
          | removed y held' listed' orphan' gone ↦
              removed y held' listed' orphan' (ap (λ f. f k) e ∙ rw differ gone)
        ]
      ]

  none-put :
      (t u : State) (x : Secret) (k : Key)
      → secrets u ≡ put_at (secrets t) (key_of x.metadata) none
      → secrets t k ≡ none
      → secrets u k ≡ none
  none-put t u x k e h = elim (Bool-cases (same_key (key_of x.metadata) k)) [
    | inl same ↦ ap (λ f. f k) e ∙ rw same refl
    | inr differ ↦ ap (λ f. f k) e ∙ rw differ h
  ]

  -- What the loop over some secrets guarantees, from the world `t` on.
  record Looped (s t : State) (xs : List Secret) (errs : List Error) (u : State) : Type 0 where
    fates : (k : Key) → Fate s u k
    absent : (k : Key) → secrets t k ≡ none → secrets u k ≡ none
    gone :
        errs ≡ []
        → (x : Secret) → Has x xs
        → IsOrphan cp msas x
        → secrets u (key_of x.metadata) ≡ none

  Never : Error → State → Type 0
  Never e t = ⊥

  Looped-skip :
      (s t : State) (x : Secret) (xs : List Secret) (errs : List Error) (u : State)
      → (IsOrphan cp msas x → ⊥)
      → Looped s t xs errs u
      → Looped s t (x ∷ xs) errs u
  Looped-skip s t x xs errs u no_orphan h = record {
    fates = h.fates;
    absent = h.absent;
    gone = λ e y i orphan. elim i [
      | inl same ↦ absurd (no_orphan (coe 0 1 (j. IsOrphan cp msas (same j)) orphan))
      | inr later ↦ h.gone e y later orphan
    ];
  }

  Looped-delete :
      (s t v : State) (x : Secret) (xs : List Secret) (errs : List Error) (u : State)
      → ((k : Key) → secrets t k ≡ none → secrets v k ≡ none)
      → secrets v (key_of x.metadata) ≡ none
      → Looped s v xs errs u
      → Looped s t (x ∷ xs) errs u
  Looped-delete s t v x xs errs u mono now_gone h = record {
    fates = h.fates;
    absent = λ k e. h.absent k (mono k e);
    gone = λ e y i orphan. elim i [
      | inl same ↦ ap (λ (z : Secret). secrets u (key_of z.metadata)) same ∙ h.absent _ now_gone
      | inr later ↦ h.gone e y later orphan
    ];
  }

  Looped-fail :
      (s t v : State) (x : Secret) (xs : List Secret) (e : Error) (errs : List Error) (u : State)
      → ((k : Key) → secrets t k ≡ none → secrets v k ≡ none)
      → Looped s v xs errs u
      → Looped s t (x ∷ xs) (e ∷ errs) u
  Looped-fail s t v x xs e errs u mono h = record {
    fates = h.fates;
    absent = λ k p. h.absent k (mono k p);
    gone = λ p. absurd (cc (p));
  }

  Looped-collected :
      (s t v : State) (x : Secret) (xs : List Secret) (text : String) (e : Error)
      (errs : List Error) (u : State)
      → secrets v ≡ secrets t
      → (is_not_found e ≡ true → secrets t (key_of x.metadata) ≡ none)
      → Looped s v xs errs u
      → Looped s t (x ∷ xs) (collected text (err e) errs) u
  unfolding collected
  Looped-collected s t v x xs text e errs u same miss h = elim (Bool-cases (is_not_found e)) [
    | inl nf ↦ rw nf (
        Looped-delete s t v x xs errs u (λ k p. ap (λ f. f k) same ∙ p)
          (ap (λ f. f (key_of x.metadata)) same ∙ miss nf) h)
    | inr other ↦
        rw other (Looped-fail s t v x xs (wrap text e) errs u (λ k p. ap (λ f. f k) same ∙ p) h)
  ]

  module _ (L : IsLawful H) where
    loop_effect :
        (xs : List Secret) (s t : State)
        → Known s xs
        → ((k : Key) → Fate s t k)
        → Ends (Looped s t xs) Never (delete_orphans H cp msas xs t)
    unfolding delete_orphans Never Known
    loop_effect [] s t known fates =
        Ends-ok (record { fates = fates; absent = λ _ h. h; gone = λ _ x i. absurd i })
    loop_effect (x ∷ xs) s t known fates =
        let later : Known s xs = λ y i. known y (inr i) in
        let skip : (IsOrphan cp msas x → ⊥)
            → Ends (Looped s t (x ∷ xs)) Never (delete_orphans H cp msas xs t) =
          λ no.
            Ends-weaken _ (loop_effect xs s t later fates)
              (λ errs u h. Looped-skip s t x xs errs u no h) (λ _ _ h. h) in
        let delete_effect : IsOrphan cp msas x
            → Ends (Looped s t (x ∷ xs)) Never (
                next (attempted (H.delete_secret x t)) (λ reply v.
                  next (delete_orphans H cp msas xs v) (λ errs u. (
                    ok (
                        collected ("failed to delete orphaned secret " <> x.metadata.name) reply
                          errs),
                    u,
                  )))) =
          λ orphan.
            let (held, listed) = known x (inl refl) in
            Ends-attempt _ _ (L.deletes_secret x t)
              (λ e v miss.
                Ends-next _ (loop_effect xs s v later (λ k. Fate-same s t v k miss.1 (fates k)))
                  (λ _ _ h. absurd h)
                  (λ errs u h. Ends-ok (Looped-collected s t v x xs _ e errs u miss.1 miss.0 h)))
              (λ _ v e.
                Ends-next _
                  (loop_effect xs s v later
                    (λ k. Fate-put s t v x k held listed orphan e (fates k)))
                  (λ _ _ h. absurd h)
                  (λ errs u h. Ends-ok (
                    unfold collected in
                    Looped-delete s t v x xs errs u (λ k p. none-put t v x k e p)
                      (ap (λ f. f (key_of x.metadata)) e
                        ∙ put_at_found (secrets t) (key_of x.metadata) none)
                      h))) in
        Ends-if (not (is_owned_by_cluster_profile x cp)) _ _ t
          (λ foreign. skip (λ orphan. ground (arith, foreign, orphan.owned)))
          (λ own.
            Ends-if (not (is_valid msas (value_at label_key_synced_from x.metadata.labels))) _ _ t
              (λ unclaimed.
                let orphan : IsOrphan cp msas x = record {
                  owned = ground (arith, own);
                  unclaimed = is_valid_unclaimed msas _ (ground (arith, unclaimed));
                } in
                delete_effect orphan)
              (λ claimed. skip (λ orphan.
                let (msa, i, e) = is_valid_claimed msas _ (ground (arith, claimed)) in
                orphan.unclaimed msa i e)))

    pub aggregate_effect :
        {A : Type 0} {Q : A → State → Type 0} {E : Error → State → Type 0} (a : A)
        (errs : List Error) (t : State)
        → (errs ≡ [] → Q a t)
        → ((e : Error) → E e t)
        → Ends Q E (aggregate H a errs t)
    unfolding aggregate
    aggregate_effect a [] t good bad = rw (aggregate, L.aggregates_none) (Ends-ok (good refl))
    aggregate_effect a (e ∷ es) t good bad = elim (Option-cases (H.new_aggregate (e ∷ es))) [
      | inl nil ↦ absurd (L.aggregates_some e es nil)
      | inr (x, some_error) ↦ rw (aggregate, some_error) (Ends-err (bad x))
    ]

    -- Whatever fails, the cleanup deletes no secret but under the keys of copies that the cache shows in
    -- the namespace of the ClusterProfile, that it owns and that none of the accounts accounts for, and
    -- changes no other secret; if the cleanup succeeds, there is no secret under any of these keys.
    pub cleanup_orphaned_creds-Fate :
        (s : State)
        → Ends
            (λ _ t.
              ((k : Key) → Fate s t k)
              × ((x : Secret)
                  → H.cached s (key_of x.metadata) ≡ some x
                  → IsListed cp.metadata.namespace label_key_synced_from x
                  → IsOrphan cp msas x
                  → secrets t (key_of x.metadata) ≡ none))
            (λ _ t. (k : Key) → Fate s t k)
            (cleanup_orphaned_creds H cp msas s)
    unfolding cleanup_orphaned_creds Never
    cleanup_orphaned_creds-Fate s =
        let unchanged : (t : State) → secrets t ≡ secrets s → (k : Key) → Fate s t k =
          λ t e k. Fate-same s s t k e (kept refl) in
        Ends-next _
          (Ends-wrapf _ _ (L.lists_secrets cp.metadata.namespace label_key_synced_from s)
            (λ _ t e. unchanged t e))
          (λ _ _ h. h)
          (λ xs t (sound, complete, same).
            Ends-next _ (loop_effect xs s t (unfold Known in sound) (unchanged t same))
              (λ _ _ h. absurd h)
              (λ errs u h.
                aggregate_effect tt errs u
                  (λ e.
                    (h.fates, λ x held listed orphan. h.gone e x (complete x held listed) orphan))
                  (λ _. h.fates)))
