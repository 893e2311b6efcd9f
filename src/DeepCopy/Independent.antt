-- ===== src/DeepCopy/Independent.antt =====
-- That a copy shows the same object, and shares nothing with the original.
use managed_serviceaccount.Prelude.{
  ℕ, Has, Option, none, some, List, [], ◌∷◌, ◌++◌, ◌≡◌, inl, inr, refl, ◌∙◌, ap,
}
use managed_serviceaccount.Kube.{Condition}
use managed_serviceaccount.Api.{ManagedServiceAccount}
use managed_serviceaccount.DeepCopy.Cells.{
  AccountCell, Cell, metadata, int32, conditions, time, secret_ref, Store, pure, copy_cell, write,
  grown, IsBounded, Keeps, Keeps-trans, grown-Copies, free_before, write-Keeps, copy_cell_lem,
  >>=-returns,
}
use managed_serviceaccount.DeepCopy.{copy_pointer, copy_spec, copy_status, copy_account, deep_copy}

-- A pointer that leads to a value, or nil for no value.
abbrev pub Points : {A : Type 0} → (A → Cell) → Store → Option ℕ → Option A → Type 0
Points make h none none = Unit
Points make h (some p) (some v) = h.cell p ≡ some (make v)
Points make h _ _ = ⊥

-- The conditions of a status; there are none behind nil.
abbrev pub or_empty : Option (List Condition) → List Condition
or_empty none = []
or_empty (some cs) = cs

-- The object that stands in a store.
pub record Shows (h : Store) (c : AccountCell) (m : ManagedServiceAccount) : Type 0 where
  pub metadata_shown : h.cell c.metadata ≡ some (metadata m.metadata)
  pub rotation_same : c.spec.rotation ≡ m.spec.rotation
  pub ttl_shown : Points int32 h c.spec.ttl_seconds_after_creation m.spec.ttl_seconds_after_creation
  pub condition_array : Option (List Condition)
  pub conditions_same : or_empty condition_array ≡ m.status.conditions
  pub conditions_shown : Points conditions h c.status.conditions condition_array
  pub expiration_shown : Points time h c.status.expiration_timestamp m.status.expiration_timestamp
  pub ref_shown : Points secret_ref h c.status.token_secret_ref m.status.token_secret_ref

abbrev pub pointer : Option ℕ → List ℕ
pointer none = []
pointer (some p) = p ∷ []

-- The addresses that an object reaches.
abbrev pub pointers : AccountCell → List ℕ
pointers c =
    c.metadata
    ∷ (pointer c.spec.ttl_seconds_after_creation
        ++ (pointer c.status.conditions
            ++ (pointer c.status.expiration_timestamp ++ pointer c.status.token_secret_ref)))

pub Points-Keeps :
    {A : Type 0} (make : A → Cell) (h g : Store) (o : Option ℕ) (v : Option A)
    → Keeps h g
    → Points make h o v
    → Points make g o v
Points-Keeps make h g none none keeps e = tt
Points-Keeps make h g (some p) (some v) keeps e = keeps p (make v) e
Points-Keeps make h g none (some v) keeps e = absurd e
Points-Keeps make h g (some p) none keeps e = absurd e

pub Shows-Keeps :
    (h g : Store) (c : AccountCell) (m : ManagedServiceAccount)
    → Keeps h g
    → Shows h c m
    → Shows g c m
Shows-Keeps h g c m keeps s = record {
  metadata_shown = keeps c.metadata (metadata m.metadata) s.metadata_shown;
  rotation_same = s.rotation_same;
  ttl_shown = Points-Keeps int32 h g _ _ keeps s.ttl_shown;
  condition_array = s.condition_array;
  conditions_same = s.conditions_same;
  conditions_shown = Points-Keeps conditions h g _ _ keeps s.conditions_shown;
  expiration_shown = Points-Keeps time h g _ _ keeps s.expiration_shown;
  ref_shown = Points-Keeps secret_ref h g _ _ keeps s.ref_shown;
}

-- What a copied pointer is.
pub record Pointed {A : Type 0} (make : A → Cell) (h : Store) (o : Option ℕ) (v : Option A)
    : Type 0 where
  pub out : Option ℕ
  pub after : Store
  pub returns : copy_pointer o h ≡ some (out, after)
  pub bounded : IsBounded after
  pub keeps : Keeps h after
  pub shown : Points make after out v
  pub is_fresh : (q : ℕ) → Has q (pointer out) → h.cell q ≡ none

pub copy_pointer-Pointed :
    {A : Type 0} (make : A → Cell) (h : Store) (o : Option ℕ) (v : Option A)
    → IsBounded h
    → Points make h o v
    → Pointed make h o v
unfolding copy_pointer
copy_pointer-Pointed make h none none b e = record {
  out = none;
  after = h;
  returns = refl;
  bounded = b;
  keeps = λ p v x. x;
  shown = tt;
  is_fresh = λ q i. absurd i;
}
copy_pointer-Pointed make h (some p) (some v) b e =
    let c = grown-Copies h (make v) b in
    record {
      out = some h.next;
      after = grown (make v) h;
      returns = >>=-returns (copy_cell p) _ h _ _ (copy_cell_lem h p (make v) e);
      bounded = c.bounded;
      keeps = c.keeps;
      shown = c.filled;
      is_fresh = λ q i. elim i [
        | inl same ↦ ap h.cell same ∙ c.is_fresh
        | inr none_left ↦ absurd none_left
      ];
    }
copy_pointer-Pointed make h none (some v) b e = absurd e
copy_pointer-Pointed make h (some p) none b e = absurd e

-- A copy of an object: it shows the same, and every address that it reaches was free before.
pub record IsCopy (h : Store) (m : ManagedServiceAccount) (out : AccountCell) (after : Store)
    : Type 0 where
  pub bounded : IsBounded after
  pub keeps : Keeps h after
  pub shown : Shows after out m
  pub is_fresh : (q : ℕ) → Has q (pointers out) → h.cell q ≡ none

pub Has-append :
    (q : ℕ) (xs ys : List ℕ) {P : Type 0} → (Has q xs → P) → (Has q ys → P) → Has q (xs ++ ys) → P
Has-append q [] ys f g i = g i
Has-append q (x ∷ xs) ys f g (inl same) = f (inl same)
Has-append q (x ∷ xs) ys f g (inr later) = Has-append q xs ys (λ j. f (inr j)) g later

copy_account_returns :
    (c : AccountCell) (h h₁ h₂ h₃ h₄ h₅ : Store) {p : ℕ} {ttl conds expiration ref : Option ℕ}
    → copy_cell c.metadata h ≡ some (p, h₁)
    → copy_pointer c.spec.ttl_seconds_after_creation h₁ ≡ some (ttl, h₂)
    → copy_pointer c.status.conditions h₂ ≡ some (conds, h₃)
    → copy_pointer c.status.expiration_timestamp h₃ ≡ some (expiration, h₄)
    → copy_pointer c.status.token_secret_ref h₄ ≡ some (ref, h₅)
    → copy_account c h
      ≡ some (
        record {
          metadata = p;
          spec = record { rotation = c.spec.rotation; ttl_seconds_after_creation = ttl };
          status = record {
            conditions = conds;
            expiration_timestamp = expiration;
            token_secret_ref = ref;
          };
        },
        h₅,
      )
unfolding copy_account copy_spec copy_status
copy_account_returns c h h₁ h₂ h₃ h₄ h₅ e e₁ e₂ e₃ e₄ =
    let spec =
      >>=-returns (copy_pointer c.spec.ttl_seconds_after_creation)
        (λ ttl. pure (record { rotation = c.spec.rotation; ttl_seconds_after_creation = ttl })) h₁
        h₂ _ e₁ in
    let status =
      >>=-returns (copy_pointer c.status.conditions) _ h₂ h₃ _ e₂
      ∙ >>=-returns (copy_pointer c.status.expiration_timestamp) _ h₃ h₄ _ e₃
      ∙ >>=-returns (copy_pointer c.status.token_secret_ref) _ h₄ _ _ e₄ in
    >>=-returns (copy_cell c.metadata) _ h h₁ _ e
    ∙ >>=-returns (copy_spec c.spec) _ h₁ h₂ _ spec
    ∙ >>=-returns (copy_status c.status) _ h₂ _ _ status

-- DeepCopyInto of an object that a store shows makes a copy of it.
pub copy_account-IsCopy :
    (h : Store) (c : AccountCell) (m : ManagedServiceAccount)
    → IsBounded h
    → Shows h c m
    → (out : AccountCell) × (after : Store) × (copy_account c h ≡ some (out, after))
      × IsCopy h m out after
copy_account-IsCopy h c m b s =
    let first = grown-Copies h (metadata m.metadata) b in
    let h₁ = grown (metadata m.metadata) h in
    let s₁ = Shows-Keeps h h₁ c m first.keeps s in
    let ttl = copy_pointer-Pointed int32 h₁ _ _ first.bounded s₁.ttl_shown in
    let k₁ = Keeps-trans h h₁ ttl.after first.keeps ttl.keeps in
    let s₂ = Shows-Keeps h ttl.after c m k₁ s in
    let conds = copy_pointer-Pointed conditions ttl.after _ _ ttl.bounded s₂.conditions_shown in
    let k₂ = Keeps-trans h ttl.after conds.after k₁ conds.keeps in
    let s₃ = Shows-Keeps h conds.after c m k₂ s in
    let expiration = copy_pointer-Pointed time conds.after _ _ conds.bounded s₃.expiration_shown in
    let k₃ = Keeps-trans h conds.after expiration.after k₂ expiration.keeps in
    let s₄ = Shows-Keeps h expiration.after c m k₃ s in
    let ref =
      copy_pointer-Pointed secret_ref expiration.after _ _ expiration.bounded s₄.ref_shown in
    let back₁ =
      Keeps-trans ttl.after conds.after ref.after conds.keeps
        (Keeps-trans conds.after expiration.after ref.after expiration.keeps ref.keeps) in
    (
      record {
        metadata = h.next;
        spec = record { rotation = c.spec.rotation; ttl_seconds_after_creation = ttl.out };
        status = record {
          conditions = conds.out;
          expiration_timestamp = expiration.out;
          token_secret_ref = ref.out;
        };
      },
      ref.after,
      copy_account_returns c h h₁ ttl.after conds.after expiration.after ref.after
          (copy_cell_lem h c.metadata (metadata m.metadata) s.metadata_shown) ttl.returns
          conds.returns expiration.returns ref.returns,
      record {
        bounded = ref.bounded;
        keeps = Keeps-trans h expiration.after ref.after k₃ ref.keeps;
        shown = record {
          metadata_shown = back₁ _ _ (ttl.keeps _ _ first.filled);
          rotation_same = s.rotation_same;
          ttl_shown = Points-Keeps int32 ttl.after ref.after _ _ back₁ ttl.shown;
          condition_array = s₂.condition_array;
          conditions_same = s₂.conditions_same;
          conditions_shown =
              Points-Keeps conditions conds.after ref.after _ _
                (Keeps-trans conds.after expiration.after ref.after expiration.keeps ref.keeps)
                conds.shown;
          expiration_shown =
              Points-Keeps time expiration.after ref.after _ _ ref.keeps expiration.shown;
          ref_shown = ref.shown;
        };
        is_fresh = λ q i. elim i [
          | inl same ↦ ap h.cell same ∙ first.is_fresh
          | inr rest ↦
              Has-append q _ _ (λ j. free_before h h₁ q first.keeps (ttl.is_fresh q j))
                (Has-append q _ _ (λ j. free_before h ttl.after q k₁ (conds.is_fresh q j))
                  (Has-append q _ _ (λ j. free_before h conds.after q k₂ (expiration.is_fresh q j))
                    (λ j. free_before h expiration.after q k₃ (ref.is_fresh q j))))
                rest
        ];
      },
    )

-- DeepCopy of an object: it succeeds, the copy shows the same, the original shows what it did, and a
-- write at any address that the copy reaches changes nothing of what the original shows.
pub deep_copy_independent :
    (h : Store) (c : AccountCell) (m : ManagedServiceAccount)
    → IsBounded h
    → Shows h c m
    → (out : AccountCell) × (after : Store) × (deep_copy (some c) h ≡ some (some out, after))
      × Shows after out m
      × Shows after c m
      × ((p : ℕ) (x : Cell) → Has p (pointers out) → Shows (write p x after) c m)
unfolding deep_copy
deep_copy_independent h c m b s =
    let (out, after, returned, copy) = copy_account-IsCopy h c m b s in
    (
      out,
      after,
      >>=-returns (copy_account c) _ h after out returned,
      copy.shown,
      Shows-Keeps h after c m copy.keeps s,
      λ p x i.
          Shows-Keeps h (write p x after) c m
            (write-Keeps h after p x copy.keeps (copy.is_fresh p i)) s,
    )
