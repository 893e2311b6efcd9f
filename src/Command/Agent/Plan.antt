-- ===== src/Command/Agent/Plan.antt =====
-- What the agent sets going, and when.
use managed_serviceaccount.Prelude.{
  String, ◌==◌, Bool, true, false, not, List, [], ◌∷◌, ◌++◌, ◌≡◌, ◌⊎◌, inl, inr, refl, ◌∙◌, ap,
  arith, if◌then◌else◌, Bool-cases,
}
use managed_serviceaccount.Prelude.Dict.{Dict}
use managed_serviceaccount.Errors.{Result, ok, message, Result-cases}
use managed_serviceaccount.Effect.{pure, raise}
use managed_serviceaccount.Effect.Triple.{Ends, Ends-ok, Ends-err, Ends-if, Ends-next, Ends-weaken}
use managed_serviceaccount.Api.{label_key_is_managed_service_account, addon_name}
use managed_serviceaccount.Command.{is_on, ephemeral_identity}
use managed_serviceaccount.Command.Trace.{
  IsPart, Performs, required-Performs, begin-Performs, then-Performs, pure-Performs, if-Performs,
  step-Performs, required-keeps,
}
use managed_serviceaccount.Command.Agent.{
  AgentOptions, Action, spoke_cache, ephemeral_controller, token_controller, lease_updates, probes,
  manager, Host, has_token_request, config_checker_paths, spoke_config, spoke_namespace, discover,
  prepare, set_up_lease, set_up_ephemeral, launch, run,
}

-- All that a start-up sets going, in this order.
abbrev pub ephemeral_part : Dict Bool → List Action
ephemeral_part gates = if is_on gates ephemeral_identity then ephemeral_controller ∷ [] else []

abbrev pub lease_part : AgentOptions → String → List Action
lease_part o namespace =
    if o.lease_health_check then lease_updates addon_name o.cluster_name namespace ∷ [] else []

abbrev pub plan : Host → AgentOptions → Dict Bool → String → List Action
plan host o gates namespace =
    spoke_cache namespace label_key_is_managed_service_account "true"
    ∷ (ephemeral_part gates
        ++ (token_controller namespace o.cluster_name
            ∷ (lease_part o namespace
                ++ (probes ":8000" (config_checker_paths host o) ∷ manager ∷ []))))

module _ (host : Host) (o : AgentOptions) where
  open host use {Config}

  -- The config of the managed cluster: that of --spoke-kubeconfig, or else that of the pod.
  abbrev pub spoke_source : Result Config
  spoke_source =
      if o.spoke_kubeconfig == ""
      then host.in_cluster_config
      else host.config_from_flags "" o.spoke_kubeconfig

  -- What has to hold before anything is set going.
  pub record IsReady (gates : Dict Bool) (namespace : String) : Type 0 where
    pub gates_set : host.set_from_map o.feature_gates_flags ≡ ok gates
    pub has_cluster : (o.cluster_name == "") ≡ false
    pub has_namespace : spoke_namespace host ≡ ok namespace
    pub spoke : Config
    pub configured : spoke_source ≡ ok spoke
    pub kinds : List String
    pub discovered : host.server_kinds spoke ≡ ok kinds
    pub issues_tokens : has_token_request kinds ≡ true

  set_up_ephemeral-Performs :
      (gates : Dict Bool) (s : List Action)
      → Performs (ephemeral_part gates) s (set_up_ephemeral host gates s)
  unfolding set_up_ephemeral
  set_up_ephemeral-Performs gates s =
      if-Performs (is_on gates ephemeral_identity) (ephemeral_controller ∷ []) s _ _
        (step-Performs _ _ ephemeral_controller s) (pure-Performs tt s)

  set_up_lease-Performs :
      (spoke : Config) (namespace : String) (s : List Action)
      → Performs (lease_part o namespace) s (set_up_lease host o spoke namespace s)
  unfolding set_up_lease
  set_up_lease-Performs spoke namespace s =
      let updates = lease_updates addon_name o.cluster_name namespace in
      if-Performs o.lease_health_check (updates ∷ []) s _ _ (step-Performs _ _ updates s)
        (pure-Performs tt s)

  launch-Performs :
      (gates : Dict Bool) (spoke : Config) (namespace : String) (s : List Action)
      → Performs (plan host o gates namespace) s (launch host o gates spoke namespace s)
  unfolding launch
  launch-Performs gates spoke namespace s =
      let token = token_controller namespace o.cluster_name in
      let paths = config_checker_paths host o in
      then-Performs [] _ s _ (required-Performs _ _ s) (λ _ s₁.
        then-Performs [] _ s₁ _ (required-Performs _ _ s₁) (λ _ s₂.
          then-Performs (spoke_cache namespace label_key_is_managed_service_account "true" ∷ []) _
            s₂ _ (begin-Performs _ s₂)
            (λ _ s₃.
              then-Performs (ephemeral_part gates) _ s₃ _ (set_up_ephemeral-Performs gates s₃)
                (λ _ s₄. then-Performs [] _ s₄ _ (required-Performs _ _ s₄) (λ _ s₅.
                  then-Performs (token ∷ []) _ s₅ _ (begin-Performs token s₅) (λ _ s₆.
                    then-Performs (lease_part o namespace) _ s₆ _
                      (set_up_lease-Performs spoke namespace s₆)
                      (λ _ s₇. then-Performs [] _ s₇ _ (required-Performs _ _ s₇) (λ _ s₈.
                        then-Performs (probes ":8000" paths ∷ []) (manager ∷ []) s₈ _
                          (begin-Performs _ s₈)
                          (λ _ s₉.
                            then-Performs (manager ∷ []) [] s₉ _ (begin-Performs manager s₉)
                              (λ _ s₁₀. required-Performs _ _ s₁₀))))))))))

  discover-keeps :
      (kinds : List String) (s : List Action)
      → Ends
          (λ _ t. (has_token_request kinds ≡ true) × (t ≡ s))
          (λ _ t. t ≡ s)
          (discover host kinds s)
  unfolding discover
  discover-keeps kinds s =
      Ends-if (not (has_token_request kinds)) _ _ s (λ _. Ends-err refl)
        (λ found. Ends-ok (ground (arith, found), refl))

  named-keeps :
      (s : List Action)
      → Ends
          (λ _ t. ((o.cluster_name == "") ≡ false) × (t ≡ s))
          (λ _ t. t ≡ s)
          ((if o.cluster_name == "" then raise (message "missing --cluster-name") else pure tt) s)
  named-keeps s =
      Ends-if (o.cluster_name == "") _ _ s (λ _. Ends-err refl) (λ named. Ends-ok (named, refl))

  spoke_config-keeps :
      (s : List Action)
      → Ends
          (λ spoke t. (spoke_source ≡ ok spoke) × (t ≡ s))
          (λ _ t. t ≡ s)
          (spoke_config host o.spoke_kubeconfig s)
  unfolding spoke_config
  spoke_config-keeps s = elim (Bool-cases (o.spoke_kubeconfig == "")) [
    | inl unset ↦ rw unset (required-keeps _ _ s)
    | inr set ↦ rw set (required-keeps _ _ s)
  ]

  lift-keeps :
      (s : List Action)
      → Ends
          (λ n t. (spoke_namespace host ≡ ok n) × (t ≡ s))
          (λ _ t. t ≡ s)
          (spoke_namespace host, s)
  lift-keeps s = elim (Result-cases (spoke_namespace host)) [
    | inl (n, e) ↦ rw e (Ends-ok (refl, refl))
    | inr (x, e) ↦ rw e (Ends-err refl)
  ]

  prepare-IsReady :
      (s : List Action)
      → Ends (λ found t. (t ≡ s) × IsReady found.0 found.2) (λ _ t. t ≡ s) (prepare host o s)
  unfolding prepare
  prepare-IsReady s =
      Ends-next _ (required-keeps _ _ s) (λ _ _ h. h)
        (λ gates s₁ (gates_set, e₁).
          Ends-next _ (named-keeps s₁) (λ _ _ h. h ∙ e₁)
            (λ _ s₂ (named, e₂).
              Ends-next _ (spoke_config-keeps s₂) (λ _ _ h. h ∙ e₂ ∙ e₁)
                (λ spoke s₃ (configured, e₃).
                  Ends-next _ (required-keeps _ _ s₃) (λ _ _ h. h ∙ e₃ ∙ e₂ ∙ e₁)
                    (λ hub s₄ (_, e₄).
                      Ends-next _ (required-keeps _ _ s₄) (λ _ _ h. h ∙ e₄ ∙ e₃ ∙ e₂ ∙ e₁)
                        (λ _ s₅ (_, e₅).
                          Ends-next _ (required-keeps _ _ s₅) (λ _ _ h. h ∙ e₅ ∙ e₄ ∙ e₃ ∙ e₂ ∙ e₁)
                            (λ _ s₆ (_, e₆).
                              let all = e₆ ∙ e₅ ∙ e₄ ∙ e₃ ∙ e₂ ∙ e₁ in
                              Ends-next _ (required-keeps _ _ s₆) (λ _ _ h. h ∙ all)
                                (λ kinds s₇ (discovered, e₇).
                                  Ends-next _ (discover-keeps kinds s₇) (λ _ _ h. h ∙ e₇ ∙ all)
                                    (λ _ s₈ (issues, e₈).
                                      Ends-next _ (lift-keeps s₈) (λ _ _ h. h ∙ e₈ ∙ e₇ ∙ all)
                                        (λ namespace s₉ (resolved, e₉). Ends-ok (
                                          e₉ ∙ e₈ ∙ e₇ ∙ all,
                                          record {
                                            gates_set = gates_set;
                                            has_cluster = named;
                                            has_namespace = resolved;
                                            spoke = spoke;
                                            configured = configured;
                                            kinds = kinds;
                                            discovered = discovered;
                                            issues_tokens = issues;
                                          },
                                        ))))))))))

  -- The agent sets going, in this order, the cache of its service accounts, the controller of ephemeral
  -- identities if its gate is on, the token controller for its namespace and cluster, the lease updates
  -- if they are asked for, the probes, and at last the manager. It begins only where the gates, a
  -- cluster name and a namespace are settled and the managed cluster issues tokens. If it succeeds all
  -- was set going; if it fails, a first part of it.
  pub agent_run-plan :
      (s : List Action)
      → Ends
          (λ _ t.
            (gates : Dict Bool) × (namespace : String) × IsReady gates namespace
            × (t ≡ s ++ plan host o gates namespace))
          (λ _ t.
            (t ≡ s)
            ⊎ ((gates : Dict Bool) × (namespace : String) × IsReady gates namespace
                × IsPart (plan host o gates namespace) s t))
          (run host o s)
  unfolding run
  agent_run-plan s =
      Ends-next _ (prepare-IsReady s) (λ _ _ h. inl h)
        (λ (gates, spoke, namespace) t (same, ready).
          Ends-weaken _ (launch-Performs gates spoke namespace t)
            (λ _ u e.
              (gates, namespace, ready, e ∙ ap (λ x. x ++ plan host o gates namespace) same))
            (λ _ u part. inr (
              gates,
              namespace,
              ready,
              coe 0 1 (i. IsPart (plan host o gates namespace) (same i) u) part,
            )))
