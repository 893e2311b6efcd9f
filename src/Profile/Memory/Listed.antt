-- ===== src/Profile/Memory/Listed.antt =====
-- The secrets that the hub in memory lists.
use managed_serviceaccount.Prelude.{
  Has, String, eq_iff, true, Option, none, some, List, [], ◌∷◌, ◌≡◌, ◌↔◌, inl, inr, refl, ◌∙◌, sym,
  ap, arith, Bool-cases, Option-cases,
}
use managed_serviceaccount.Prelude.Dict.{lookup}
use managed_serviceaccount.Kube.{key_of, same_key, same_key_refl, Secret}
use managed_serviceaccount.Profile.Hub.Laws.{IsListed}
use managed_serviceaccount.Profile.Memory.{source, held_at, listed, keep, entries}

pub none-some : (x : Secret) → Path (Option Secret) none (some x) → ⊥
none-some x h = cc (h)

listed_iff :
    (namespace label : String) (x : Secret)
    → (listed namespace label x ≡ true) ↔ IsListed namespace label x
unfolding listed
listed_iff namespace label x = (
  λ h. record {
    in_namespace = ground (arith, eq_iff x.metadata.namespace namespace, h);
    labelled = λ e. ground (arith, h, e);
  },
  λ h. elim (Option-cases (lookup label x.metadata.labels)) [
    | inl e ↦ absurd (h.labelled e)
    | inr (v, e) ↦ rw (e, (eq_iff x.metadata.namespace namespace).1 h.in_namespace) refl
  ],
)

Has-keep :
    (namespace label : String) (x : Secret) (xs : List Secret)
    → Has x (keep namespace label xs)
    → Has x xs × (listed namespace label x ≡ true)
unfolding keep
Has-keep namespace label x [] i = absurd i
Has-keep namespace label x (y ∷ ys) i = elim (Bool-cases (listed namespace label y)) [
  | inl yes_listed ↦ elim (rw yes_listed at i) [
    | inl same ↦ (inl same, ap (listed namespace label) same ∙ yes_listed)
    | inr later ↦ let (j, l) = Has-keep namespace label x ys later in (inr j, l)
  ]
  | inr not_listed ↦ let (j, l) = Has-keep namespace label x ys (rw not_listed at i) in (inr j, l)
]

keep-Has :
    (namespace label : String) (x : Secret) (xs : List Secret)
    → Has x xs
    → listed namespace label x ≡ true
    → Has x (keep namespace label xs)
unfolding keep
keep-Has namespace label x [] i l = absurd i
keep-Has namespace label x (y ∷ ys) i l = elim (Bool-cases (listed namespace label y)) [
  | inl yes_listed ↦
      rw yes_listed
        (elim i [ inl same ↦ inl same | inr later ↦ inr (keep-Has namespace label x ys later l) ])
  | inr not_listed ↦ rw not_listed (elim i [
    | inl same ↦ absurd (ground (arith, not_listed, l, ap (listed namespace label) same))
    | inr later ↦ keep-Has namespace label x ys later l
  ])
]

source-held : (x : Secret) (s : Option Secret) → x ≡ source → held_at s (key_of x.metadata) ≡ some x
source-held x s e = ap (λ (z : Secret). held_at s (key_of z.metadata)) e ∙ ap some (sym e)

source-Has : (x : Secret) (s : Option Secret) → x ≡ source → Has x (entries s)
source-Has x none e = inl e
source-Has x (some y) e =
    elim (Bool-cases (same_key (key_of source.metadata) (key_of y.metadata))) [
      | inl same ↦ rw same (inl e)
      | inr differ ↦ rw differ (inl e)
    ]

pub some_eq : (x y : Secret) → Path (Option Secret) (some y) (some x) → x ≡ y
some_eq x y h = cc (h)

entries-Has :
    (x : Secret) (s : Option Secret) → Has x (entries s) → held_at s (key_of x.metadata) ≡ some x
entries-Has x none i = elim i [ inl e ↦ source-held x none e | inr later ↦ absurd later ]
entries-Has x (some y) i =
    elim (Bool-cases (same_key (key_of source.metadata) (key_of y.metadata))) [
      | inl same ↦ elim (rw same at i) [
        | inl e ↦ source-held x (some y) e
        | inr later ↦ absurd later
      ]
      | inr differ ↦ elim (rw differ at i) [
        | inl e ↦ source-held x (some y) e
        | inr later ↦ elim later [
          | inl e ↦
              ap (λ (z : Secret). held_at (some y) (key_of z.metadata)) e
              ∙ rw (differ, same_key_refl (key_of y.metadata)) (ap some (sym e))
          | inr none_left ↦ absurd none_left
        ]
      ]
    ]

Has-entries :
    (x : Secret) (s : Option Secret) → held_at s (key_of x.metadata) ≡ some x → Has x (entries s)
Has-entries x none h = elim (Bool-cases (same_key (key_of source.metadata) (key_of x.metadata))) [
  | inl same ↦ inl (some_eq x source (rw same at h))
  | inr differ ↦ absurd (none-some x (rw differ at h))
]
Has-entries x (some y) h =
    elim (Bool-cases (same_key (key_of source.metadata) (key_of x.metadata))) [
      | inl same ↦ source-Has x (some y) (some_eq x source (rw same at h))
      | inr differ ↦ elim (Bool-cases (same_key (key_of y.metadata) (key_of x.metadata))) [
        | inl same ↦
            let e = some_eq x y (rw (differ, same) at h) in
            let apart =
              ap (λ (z : Secret). same_key (key_of source.metadata) (key_of z.metadata)) (sym e)
              ∙ differ in
            rw apart (inr (inl e))
        | inr another ↦ absurd (none-some x (rw (differ, another) at h))
      ]
    ]

pub list_lem :
    (namespace label : String) (s : Option Secret)
    → ((x : Secret)
        → Has x (keep namespace label (entries s))
        → (held_at s (key_of x.metadata) ≡ some x) × IsListed namespace label x)
      × ((x : Secret)
          → held_at s (key_of x.metadata) ≡ some x
          → IsListed namespace label x
          → Has x (keep namespace label (entries s)))
list_lem namespace label s = (
  λ x i.
      let (j, l) = Has-keep namespace label x (entries s) i in
      (entries-Has x s j, (listed_iff namespace label x).0 l),
  λ x h l.
      keep-Has namespace label x (entries s) (Has-entries x s h)
        ((listed_iff namespace label x).1 l),
)
