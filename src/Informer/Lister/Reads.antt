-- ===== src/Informer/Lister/Reads.antt =====
-- What a lister reads of a cache with the documented behaviour.
use managed_serviceaccount.Prelude.{
  Has, String, ◌<>◌, Bool, true, ◌&&◌, Option, none, some, List, [], ◌∷◌, ◌≡◌, ◌↔◌, ◌⊎◌, inl, inr,
  refl, ◌∙◌, sym, ap, arith, eq_iff, ◌==◌, if◌then◌else◌, Bool-cases,
}
use managed_serviceaccount.Errors.{Error, Result, ok, err, not_found, is_not_found}
use managed_serviceaccount.Api.{ManagedServiceAccount}
use managed_serviceaccount.Informer.Lister.{Indexer, append, list, namespace_list, found, get}

-- The key of an object: MetaNamespaceKeyFunc.
abbrev pub key_text : ManagedServiceAccount → String
key_text m =
    if m.metadata.namespace == ""
    then m.metadata.name
    else m.metadata.namespace <> "/" <> m.metadata.name

-- Whether a list of a namespace covers an object: NamespaceAll, which is "", covers them all.
abbrev pub covers : String → ManagedServiceAccount → Bool
covers namespace m = if namespace == "" then true else m.metadata.namespace == namespace

covers_iff :
    (namespace : String) (m : ManagedServiceAccount)
    → (covers namespace m ≡ true) ↔ ((namespace ≡ "") ⊎ (m.metadata.namespace ≡ namespace))
covers_iff namespace m = elim (Bool-cases (namespace == "")) [
  | inl all ↦ rw all (λ _. inl ((eq_iff namespace "").0 all), λ _. refl)
  | inr one ↦ rw one (
    λ h. inr ((eq_iff m.metadata.namespace namespace).0 h),
    λ h. elim h [
      | inl e ↦ absurd (ground (arith, one, (eq_iff namespace "").1 e))
      | inr e ↦ (eq_iff m.metadata.namespace namespace).1 e
    ],
  )
]

-- One call after another on the objects that pass a test.
abbrev pub visit :
    (ManagedServiceAccount → Bool)
    → (List ManagedServiceAccount → ManagedServiceAccount → List ManagedServiceAccount)
    → List ManagedServiceAccount
    → List ManagedServiceAccount
    → List ManagedServiceAccount
visit test f ret [] = ret
visit test f ret (m ∷ ms) = visit test f (if test m then f ret m else ret) ms

module _ (I : Indexer) where
  open I use {Selector}

  -- What the cache documents: the objects it holds, each under its key and once; the walks over those
  -- that a selector matches; and the read of one by its key.
  pub record IsIndex : Type 0 where
    pub items : List ManagedServiceAccount
    pub matches : Selector → ManagedServiceAccount → Bool
    pub lists :
        (selector : Selector)
        (f : List ManagedServiceAccount → ManagedServiceAccount → List ManagedServiceAccount)
        (ret : List ManagedServiceAccount)
        → I.list_all selector f ret ≡ (visit (matches selector) f ret items, none)
    pub lists_namespace :
        (namespace : String) (selector : Selector)
        (f : List ManagedServiceAccount → ManagedServiceAccount → List ManagedServiceAccount)
        (ret : List ManagedServiceAccount)
        → I.list_all_by_namespace namespace selector f ret
          ≡ (visit (λ m. covers namespace m && matches selector m) f ret items, none)
    pub reads :
        (key : String)
        → ((m : ManagedServiceAccount)
            → (I.get_by_key key ≡ ok (some m)) ↔ (Has m items × (key_text m ≡ key)))
    pub answers : (key : String) → (o : Option ManagedServiceAccount) × (I.get_by_key key ≡ ok o)

Has-append :
    (x m : ManagedServiceAccount) (ms : List ManagedServiceAccount)
    → Has x (append ms m) ↔ (Has x ms ⊎ (x ≡ m))
Has-append x m [] = (
  λ i. elim i [ inl e ↦ inr e | inr i ↦ inl i ],
  λ i. elim i [ inl i ↦ absurd i | inr e ↦ inl e ],
)
Has-append x m (y ∷ ys) = (
  λ i. elim i [
    | inl e ↦ inl (inl e)
    | inr j ↦ elim ((Has-append x m ys).0 j) [ inl k ↦ inl (inr k) | inr e ↦ inr e ]
  ],
  λ i. elim i [
    | inl j ↦ elim j [ inl e ↦ inl e | inr k ↦ inr ((Has-append x m ys).1 (inl k)) ]
    | inr e ↦ inr ((Has-append x m ys).1 (inr e))
  ],
)

-- The walk appends the objects that pass the test.
Has-visit :
    (test : ManagedServiceAccount → Bool) (x : ManagedServiceAccount)
    (ret ms : List ManagedServiceAccount)
    → Has x (visit test append ret ms) ↔ (Has x ret ⊎ (Has x ms × (test x ≡ true)))
Has-visit test x ret [] = (λ i. inl i, λ i. elim i [ inl j ↦ j | inr k ↦ absurd k.0 ])
Has-visit test x ret (m ∷ ms) = elim (Bool-cases (test m)) [
  | inl pass ↦
      let rest = Has-visit test x (append ret m) ms in
      rw pass (
        λ i. elim (rest.0 i) [
          | inl j ↦ elim ((Has-append x m ret).0 j) [
            | inl k ↦ inl k
            | inr e ↦ inr (inl e, ap test e ∙ pass)
          ]
          | inr k ↦ inr (inr k.0, k.1)
        ],
        λ i. rest.1 (elim i [
          | inl j ↦ inl ((Has-append x m ret).1 (inl j))
          | inr k ↦ elim k.0 [
            | inl e ↦ inl ((Has-append x m ret).1 (inr e))
            | inr later ↦ inr (later, k.1)
          ]
        ]),
      )
  | inr fail ↦
      let rest = Has-visit test x ret ms in
      rw fail (
        λ i. elim (rest.0 i) [ inl j ↦ inl j | inr k ↦ inr (inr k.0, k.1) ],
        λ i. rest.1 (elim i [
          | inl j ↦ inl j
          | inr k ↦ elim k.0 [
            | inl e ↦ absurd (ground (arith, fail, k.1, ap test e))
            | inr later ↦ inr (later, k.1)
          ]
        ]),
      )
]

visited :
    (test : ManagedServiceAccount → Bool) (x : ManagedServiceAccount)
    (ms : List ManagedServiceAccount)
    → Has x (visit test append [] ms) ↔ (Has x ms × (test x ≡ true))
visited test x ms = (
  λ i. elim ((Has-visit test x [] ms).0 i) [ inl j ↦ absurd j | inr k ↦ k ],
  λ k. (Has-visit test x [] ms).1 (inr k),
)

module _ (I : Indexer) (N : IsIndex I) where
  open I use {Selector}

  list_iff :
      (selector : Selector) (m : ManagedServiceAccount)
      → Has m (list I selector).0 ↔ (Has m N.items × (N.matches selector m ≡ true))
  unfolding list
  list_iff selector m = rw (N.lists selector append []) (visited (N.matches selector) m N.items)

  -- The list of a namespace holds what the list of all namespaces has in that namespace, and all of it
  -- where the namespace is "".
  namespace_list_iff :
      (namespace : String) (selector : Selector) (m : ManagedServiceAccount)
      → Has m (namespace_list I namespace selector).0
        ↔ (Has m (list I selector).0 × ((namespace ≡ "") ⊎ (m.metadata.namespace ≡ namespace)))
  unfolding namespace_list
  namespace_list_iff namespace selector m =
      let of_all = list_iff selector m in
      let here = visited (λ x. covers namespace x && N.matches selector x) m N.items in
      let covered = covers_iff namespace m in
      rw (N.lists_namespace namespace selector append []) (
        λ i.
            let (j, both) = here.0 i in
            (of_all.1 (j, ground (arith, both)), covered.0 (ground (arith, both))),
        λ (i, same).
            let (j, matched) = of_all.0 i in here.1 (j, ground (arith, matched, covered.1 same)),
      )

  found_iff :
      (name : String) (r : Result (Option ManagedServiceAccount)) (m : ManagedServiceAccount)
      → (found I name r ≡ ok m) ↔ (r ≡ ok (some m))
  found_iff name (err e) m = (λ h. absurd (ground (arith, h)), λ h. absurd (ground (arith, h)))
  found_iff name (ok none) m = (λ h. absurd (ground (arith, h)), λ h. absurd (ground (arith, h)))
  found_iff name (ok (some n)) m = (λ h. cc (h), λ h. cc (h))

  -- The reads of a lister agree with each other.
  pub record ReadsCache (namespace name : String) (everything : Selector) : Type 0 where
    pub gets :
        (m : ManagedServiceAccount)
        → (get I namespace name ≡ ok m)
          ↔ (Has m (list I everything).0 × (key_text m ≡ namespace <> "/" <> name))
    pub misses : (e : Error) → get I namespace name ≡ err e → is_not_found e ≡ true
    pub lists_namespace :
        (selector : Selector) (m : ManagedServiceAccount)
        → Has m (namespace_list I namespace selector).0
          ↔ (Has m (list I selector).0 × ((namespace ≡ "") ⊎ (m.metadata.namespace ≡ namespace)))

  misses_lem :
      (name : String) (r : Result (Option ManagedServiceAccount)) (o : Option ManagedServiceAccount)
      (e : Error)
      → r ≡ ok o
      → found I name r ≡ err e
      → is_not_found e ≡ true
  misses_lem name r none e answered h =
      let same : not_found (I.not_found_text "managedserviceaccount" name) ≡ e =
        cc (rw answered at h) in
      ap is_not_found (sym same) ∙ unfold is_not_found in refl
  misses_lem name r (some m) e answered h = absurd (ground (arith, rw answered at h))

  -- Over a cache with the documented behaviour, and for a selector that matches everything: Get answers
  -- with an object exactly if the list of everything holds it under the key that is asked for, and
  -- otherwise with an error that says not found; and the list of a namespace holds exactly what the list
  -- of all namespaces has in that namespace, and everything where the namespace is "".
  pub lister-ReadsCache :
      (namespace name : String) (everything : Selector)
      → ((m : ManagedServiceAccount) → N.matches everything m ≡ true)
      → ReadsCache namespace name everything
  unfolding get
  lister-ReadsCache namespace name everything all = record {
    gets = λ m.
        let key = namespace <> "/" <> name in
        let read = N.reads key m in
        let step = found_iff name (I.get_by_key key) m in
        let listed = list_iff everything m in
        (
          λ h. let (i, same) = read.0 (step.0 h) in (listed.1 (i, all m), same),
          λ (i, same). step.1 (read.1 ((listed.0 i).0, same)),
        );
    misses = λ e h.
        let (o, answered) = N.answers (namespace <> "/" <> name) in
        misses_lem name _ o e answered h;
    lists_namespace = namespace_list_iff namespace;
  }
