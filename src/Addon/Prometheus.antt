-- ===== src/Addon/Prometheus.antt =====
-- What the customized variables of a deployment config set.
use managed_serviceaccount.Prelude.{
  Has, String, ◌==◌, eq_iff, Bool, true, false, not, ◌&&◌, Option, none, some, List, [], ◌∷◌, ◌≡◌,
  inl, inr, refl, ◌∙◌, sym, ap, arith, if◌then◌else◌, Bool-cases, Option-cases,
}
use managed_serviceaccount.Prelude.Dict.{Dict}
use managed_serviceaccount.Errors.{Error, Result, ok, err, wrap, Result-cases}
use managed_serviceaccount.Addon.{
  Variable, PrometheusValues, prometheus_enabled_variable_name,
  prometheus_service_monitor_labels_variable_name, parse_bool, no_labels, with_enabled, with_labels,
  assign, assign_all, nested, to_add_on_prometheus_values,
}

-- The value of the last variable of a name.
abbrev pub last_value : String → List Variable → Option String
last_value name [] = none
last_value name (v ∷ vs) = elim (last_value name vs) [
  | some value ↦ some value
  | none ↦ if v.name == name then some v.value else none
]

-- The switch as it stands in the values: off where nothing is set.
abbrev pub is_enabled : Option PrometheusValues → Bool
is_enabled none = false
is_enabled (some prometheus) = prometheus.enabled

-- `after` is what the variables make of `before`.
record Sets (vs : List Variable) (before after : Bool) : Type 0 where
  named :
      (s : String)
      → last_value prometheus_enabled_variable_name vs ≡ some s
      → parse_bool s ≡ ok after
  unnamed : last_value prometheus_enabled_variable_name vs ≡ none → after ≡ before

module _ (unmarshal : String → Dict String → Result (Dict String)) where
  with_enabled_lem :
      (r : Result Bool) (p q : PrometheusValues)
      → with_enabled unmarshal p r ≡ ok q
      → r ≡ ok q.enabled
  unfolding with_enabled
  with_enabled_lem (ok b) p q h =
      let e : record p { enabled = b } ≡ q = cc (h) in ap (λ (x : PrometheusValues). ok x.enabled) e
  with_enabled_lem (err e) p q h = cc (h)

  with_labels_lem :
      (r : Result (Dict String)) (p q : PrometheusValues)
      → with_labels unmarshal p r ≡ ok q
      → q.enabled ≡ p.enabled
  unfolding with_labels
  with_labels_lem (ok l) p q h =
      let e : record p { labels = l } ≡ q = cc (h) in
      ap (λ (x : PrometheusValues). x.enabled) (sym e)
  with_labels_lem (err e) p q h = cc (h)

  assign-named :
      (v : Variable) (p q : PrometheusValues)
      → assign unmarshal v p ≡ ok q
      → (v.name == prometheus_enabled_variable_name) ≡ true
      → parse_bool v.value ≡ ok q.enabled
  unfolding assign
  assign-named v p q h e = with_enabled_lem (parse_bool v.value) p q (rw e at h)

  assign-unnamed :
      (v : Variable) (p q : PrometheusValues)
      → assign unmarshal v p ≡ ok q
      → (v.name == prometheus_enabled_variable_name) ≡ false
      → q.enabled ≡ p.enabled
  unfolding assign
  assign-unnamed v p q h e =
      elim (Bool-cases (v.name == prometheus_service_monitor_labels_variable_name)) [
        | inl labels ↦ with_labels_lem (unmarshal v.value p.labels) p q (rw (e, labels) at h)
        | inr other ↦
            let same : p ≡ q = cc ((rw (e, other) at h)) in
            ap (λ (x : PrometheusValues). x.enabled) (sym same)
      ]

  Sets-cons :
      (v : Variable) (vs : List Variable) (p next q : PrometheusValues)
      → assign unmarshal v p ≡ ok next
      → Sets vs next.enabled q.enabled
      → Sets (v ∷ vs) p.enabled q.enabled
  Sets-cons v vs p next q h rest =
      elim (Option-cases (last_value prometheus_enabled_variable_name vs)) [
        | inl e ↦ elim (Bool-cases (v.name == prometheus_enabled_variable_name)) [
          | inl here ↦ record {
            named = λ s i.
                let same : v.value ≡ s = cc ((rw (e, here) at i)) in
                ap parse_bool (sym same)
                ∙ assign-named v p next h here
                ∙ ap ok (sym (rest.unnamed e));
            unnamed = λ i. cc ((rw (e, here) at i));
          }
          | inr other ↦ record {
            named = λ s i. cc ((rw (e, other) at i));
            unnamed = λ _. rest.unnamed e ∙ assign-unnamed v p next h other;
          }
        ]
        | inr (x, e) ↦ record {
          named = λ s i. rest.named s (e ∙ (rw e at i));
          unnamed = λ i. cc ((rw e at i));
        }
      ]

  assign_all-Sets :
      (vs : List Variable) (p q : PrometheusValues)
      → assign_all unmarshal vs p ≡ ok q
      → Sets vs p.enabled q.enabled
  unfolding assign_all
  assign_all-Sets [] p q h =
      let same : p ≡ q = cc (h) in
      record {
        named = λ s i. cc (i);
        unnamed = λ _. ap (λ (x : PrometheusValues). x.enabled) (sym same);
      }
  assign_all-Sets (v ∷ vs) p q h = elim (Result-cases (assign unmarshal v p)) [
    | inl (next, e) ↦
        Sets-cons v vs p next q e (assign_all-Sets vs next q (rw (assign_all, e) at h))
    | inr (x, e) ↦ cc ((rw (assign_all, e) at h))
  ]

  refused : (x : Error) (out : Option PrometheusValues) → nested unmarshal (err x) ≡ ok out → ⊥
  unfolding nested
  refused x out h = cc (h)

  is_enabled-nested :
      (q : PrometheusValues) (out : Option PrometheusValues)
      → nested unmarshal (ok q) ≡ ok out
      → is_enabled out ≡ q.enabled
  unfolding nested
  is_enabled-nested q out h = elim (Bool-cases (not q.enabled && no_labels q.labels)) [
    | inl empty ↦
        let same : none ≡ out = cc ((rw empty at h)) in
        ap is_enabled (sym same) ∙ ground (arith, empty)
    | inr full ↦ let same : some q ≡ out = cc ((rw full at h)) in ap is_enabled (sym same)
  ]

  -- Where the variables are accepted, the last one that is named prometheusEnabled has a truth value,
  -- and Prometheus is enabled as it says; without such a variable it is not enabled.
  pub to_add_on_prometheus_values-enabled :
      (vs : List Variable) (out : Option PrometheusValues)
      → to_add_on_prometheus_values unmarshal vs ≡ ok out
      → ((s : String)
          → last_value prometheus_enabled_variable_name vs ≡ some s
          → parse_bool s ≡ ok (is_enabled out))
        × (last_value prometheus_enabled_variable_name vs ≡ none → is_enabled out ≡ false)
  unfolding to_add_on_prometheus_values
  to_add_on_prometheus_values-enabled vs out h =
      let start : PrometheusValues = record { enabled = false; labels = [] } in
      elim (Result-cases (assign_all unmarshal vs start)) [
        | inl (q, e) ↦
            let same = is_enabled-nested q out (rw e at h) in
            let sets = assign_all-Sets vs start q e in
            (λ s i. sets.named s i ∙ ap ok (sym same), λ i. same ∙ sets.unnamed i)
        | inr (x, e) ↦ absurd (refused x out (rw e at h))
      ]

  assign-refused :
      (v : Variable) (p : PrometheusValues) (x : Error)
      → v.name ≡ prometheus_enabled_variable_name
      → parse_bool v.value ≡ err x
      → (y : Error) × (assign unmarshal v p ≡ err y)
  unfolding assign with_enabled
  assign-refused v p x named bad = (
    wrap "invalid prometheusEnabled" x,
    rw ((eq_iff v.name prometheus_enabled_variable_name).1 named, bad) refl,
  )

  assign_all-refused :
      (vs : List Variable) (p : PrometheusValues) (v : Variable) (x : Error)
      → Has v vs
      → v.name ≡ prometheus_enabled_variable_name
      → parse_bool v.value ≡ err x
      → (y : Error) × (assign_all unmarshal vs p ≡ err y)
  unfolding assign_all
  assign_all-refused [] p v x i named bad = absurd i
  assign_all-refused (w ∷ vs) p v x (inl same) named bad =
      let (y, e) =
        assign-refused w p x (ap (λ (z : Variable). z.name) (sym same) ∙ named)
          (ap (λ (z : Variable). parse_bool z.value) (sym same) ∙ bad) in
      (y, rw (assign_all, e) refl)
  assign_all-refused (w ∷ vs) p v x (inr later) named bad =
      elim (Result-cases (assign unmarshal w p)) [
        | inl (next, e) ↦
            let (y, r) = assign_all-refused vs next v x later named bad in (y, rw (assign_all, e) r)
        | inr (y, e) ↦ (y, rw (assign_all, e) refl)
      ]

  -- A variable that is named prometheusEnabled and has no truth value is refused, wherever it stands.
  pub to_add_on_prometheus_values-refused :
      (vs : List Variable) (v : Variable) (x : Error)
      → Has v vs
      → v.name ≡ prometheus_enabled_variable_name
      → parse_bool v.value ≡ err x
      → (y : Error) × (to_add_on_prometheus_values unmarshal vs ≡ err y)
  unfolding to_add_on_prometheus_values nested
  to_add_on_prometheus_values-refused vs v x i named bad =
      let (y, e) =
        assign_all-refused vs (record { enabled = false; labels = [] }) v x i named bad in
      (y, rw e refl)
