-- ===== src/Command/Manager/Plan.antt =====
-- What the manager sets going, and when.
use mathlib.Core.List.{append_assoc, append-nil}
use managed_serviceaccount.Prelude.{
  String, Bool, true, Option, none, List, [], ◌∷◌, ◌++◌, ◌≡◌, ◌⊎◌, inl, inr, refl, ◌∙◌, sym, ap,
  if◌then◌else◌, Bool-cases,
}
use managed_serviceaccount.Prelude.Dict.{Dict}
use managed_serviceaccount.Errors.{ok, Result-cases}
use managed_serviceaccount.Effect.{next}
use managed_serviceaccount.Effect.Triple.{Ends, Ends-ok, Ends-err, Ends-next, Ends-weaken}
use managed_serviceaccount.Kube.{Secret}
use managed_serviceaccount.Api.{addon_name}
use managed_serviceaccount.Command.{required, begin, is_on, ephemeral_identity, cluster_profile}
use managed_serviceaccount.Command.Trace.{
  IsPart, IsPart-before, IsPart-after, Performs, required-Performs, begin-Performs, then-Performs,
  pure-Performs, if-Performs, step-Performs, required-keeps,
}
use managed_serviceaccount.Command.Manager.{
  HubManagerOptions, Action, agent_addon, ephemeral_controller, cred_syncer, addon_manager, manager,
  Host, get_agent_image_pull_secret, runs_addon_manager, hub_namespace, pull_secret_name,
  set_up_ephemeral, prepare_addon, register_addon, set_up_addon, set_up_syncer, start_addons,
  prepare, run,
}

module _ (host : Host) (o : HubManagerOptions) where
  abbrev pub ephemeral_part : Dict Bool → List Action
  ephemeral_part gates = if is_on gates ephemeral_identity then ephemeral_controller ∷ [] else []

  abbrev pub addon_part : Dict Bool → Option Secret → List Action
  addon_part gates pull_secret =
      if runs_addon_manager host o
      then agent_addon addon_name o.addon_agent_image_name pull_secret o.enable_network_policies
        ∷ ephemeral_part gates
      else []

  abbrev pub syncer_part : Dict Bool → List Action
  syncer_part gates = if is_on gates cluster_profile then cred_syncer ∷ [] else []

  abbrev pub start_part : List Action
  start_part = (if runs_addon_manager host o then addon_manager ∷ [] else []) ++ manager ∷ []

  -- All that a start-up sets going, in this order.
  abbrev pub plan : Dict Bool → Option Secret → List Action
  plan gates pull_secret = addon_part gates pull_secret ++ (syncer_part gates ++ start_part)

  -- The pull secret of the agent, where the add-on manager runs.
  pub record IsPulled (pull_secret : Option Secret) : Type 0 where
    pub namespace : String
    pub has_namespace : hub_namespace host ≡ ok namespace
    pub found :
        get_agent_image_pull_secret host.get_secret namespace (pull_secret_name host o)
        ≡ ok pull_secret

  -- What has to hold before anything is set going.
  pub record IsReady (gates : Dict Bool) (pull_secret : Option Secret) : Type 0 where
    pub gates_set : host.set_from_map o.feature_gates_flags ≡ ok gates
    pub has_resource : host.resource_for ≡ ok tt
    pub pulled : runs_addon_manager host o ≡ true → IsPulled pull_secret

  set_up_ephemeral-Performs :
      (gates : Dict Bool) (s : List Action)
      → Performs (ephemeral_part gates) s (set_up_ephemeral host gates s)
  unfolding set_up_ephemeral
  set_up_ephemeral-Performs gates s =
      if-Performs (is_on gates ephemeral_identity) (ephemeral_controller ∷ []) s _ _
        (step-Performs _ _ ephemeral_controller s) (pure-Performs tt s)

  set_up_syncer-Performs :
      (gates : Dict Bool) (s : List Action)
      → Performs (syncer_part gates) s (set_up_syncer host gates s)
  unfolding set_up_syncer
  set_up_syncer-Performs gates s =
      if-Performs (is_on gates cluster_profile) (cred_syncer ∷ []) s _ _
        (step-Performs _ _ cred_syncer s) (pure-Performs tt s)

  start_addons-Performs :
      (s : List Action)
      → Performs
          (if runs_addon_manager host o then addon_manager ∷ [] else [])
          s
          (start_addons host o s)
  unfolding start_addons
  start_addons-Performs s =
      if-Performs (runs_addon_manager host o) (addon_manager ∷ []) s _ _
        (then-Performs (addon_manager ∷ []) [] s _ (begin-Performs addon_manager s)
          (λ _ t. required-Performs _ _ t))
        (pure-Performs tt s)

  -- Run from the syncer on
  rest-Performs :
      (gates : Dict Bool) (s : List Action)
      → Performs (syncer_part gates ++ start_part) s (
          next (set_up_syncer host gates s) (λ _ s₁. next (start_addons host o s₁) (λ _ s₂.
            next (begin manager s₂) (λ _. required "problem running manager" host.start_manager))))
  rest-Performs gates s =
      then-Performs (syncer_part gates) start_part s _ (set_up_syncer-Performs gates s) (λ _ s₁.
        then-Performs _ (manager ∷ []) s₁ _ (start_addons-Performs s₁) (λ _ s₂.
          then-Performs (manager ∷ []) [] s₂ _ (begin-Performs manager s₂)
            (λ _ s₃. required-Performs _ _ s₃)))

  hub_namespace-keeps :
      (s : List Action)
      → Ends (λ n t. (hub_namespace host ≡ ok n) × (t ≡ s)) (λ _ t. t ≡ s) (hub_namespace host, s)
  hub_namespace-keeps s = elim (Result-cases (hub_namespace host)) [
    | inl (n, e) ↦ rw e (Ends-ok (refl, refl))
    | inr (x, e) ↦ rw e (Ends-err refl)
  ]

  prepare_addon-IsPulled :
      (s : List Action)
      → Ends
          (λ pull_secret t. (t ≡ s) × IsPulled pull_secret)
          (λ _ t. t ≡ s)
          (prepare_addon host o s)
  unfolding prepare_addon
  prepare_addon-IsPulled s =
      Ends-next _ (required-keeps _ _ s) (λ _ _ h. h)
        (λ _ s₁ (_, e₁).
          Ends-next _ (required-keeps _ _ s₁) (λ _ _ h. h ∙ e₁)
            (λ _ s₂ (_, e₂).
              Ends-next _ (required-keeps _ _ s₂) (λ _ _ h. h ∙ e₂ ∙ e₁)
                (λ _ s₃ (_, e₃).
                  let all = e₃ ∙ e₂ ∙ e₁ in
                  Ends-next _ (hub_namespace-keeps s₃) (λ _ _ h. h ∙ all)
                    (λ namespace s₄ (resolved, e₄).
                      Ends-weaken _ (required-keeps _ _ s₄)
                        (λ pull_secret s₅ h. (
                          h.1 ∙ e₄ ∙ all,
                          record { namespace = namespace; has_namespace = resolved; found = h.0 },
                        ))
                        (λ _ _ h. h ∙ e₄ ∙ all)))))

  register_addon-Performs :
      (gates : Dict Bool) (pull_secret : Option Secret) (s : List Action)
      → Performs
          (agent_addon addon_name o.addon_agent_image_name pull_secret o.enable_network_policies
            ∷ ephemeral_part gates)
          s
          (register_addon host o gates pull_secret s)
  unfolding register_addon
  register_addon-Performs gates pull_secret s =
      let added =
        agent_addon addon_name o.addon_agent_image_name pull_secret o.enable_network_policies in
      then-Performs [] _ s _ (required-Performs _ _ s) (λ _ s₁.
        then-Performs [] _ s₁ _ (required-Performs _ _ s₁) (λ _ s₂.
          then-Performs (added ∷ []) (ephemeral_part gates) s₂ _ (begin-Performs added s₂)
            (λ _ s₃. set_up_ephemeral-Performs gates s₃)))

  -- The add-on part of a start-up, with the pull secret that it found.
  AddonDone : Dict Bool → List Action → List Action → Type 0
  AddonDone gates s t =
      (pull_secret : Option Secret) × (runs_addon_manager host o ≡ true → IsPulled pull_secret)
      × (t ≡ s ++ addon_part gates pull_secret)

  AddonFailed : Dict Bool → List Action → List Action → Type 0
  AddonFailed gates s t =
      (t ≡ s)
      ⊎ ((pull_secret : Option Secret) × (runs_addon_manager host o ≡ true → IsPulled pull_secret)
          × IsPart (addon_part gates pull_secret) s t)

  set_up_addon_effect :
      (gates : Dict Bool) (s : List Action)
      → Ends
          (λ _ t. AddonDone gates s t)
          (λ _ t. AddonFailed gates s t)
          (set_up_addon host o gates s)
  unfolding set_up_addon AddonDone AddonFailed
  set_up_addon_effect gates s = elim (Bool-cases (runs_addon_manager host o)) [
    | inl runs ↦ rw runs (
        Ends-next _ (prepare_addon-IsPulled s) (λ _ _ h. inl h)
          (λ pull_secret t (same, pulled).
            Ends-weaken _ (register_addon-Performs gates pull_secret t)
              (λ _ u e. (
                pull_secret,
                λ _. pulled,
                e
                    ∙ ap
                        (λ x.
                          x
                          ++ (agent_addon addon_name o.addon_agent_image_name pull_secret
                                o.enable_network_policies
                              ∷ ephemeral_part gates))
                        same,
              ))
              (λ _ u part. inr (
                pull_secret,
                λ _. pulled,
                coe 0 1
                    (i.
                      IsPart
                        (agent_addon addon_name o.addon_agent_image_name pull_secret
                            o.enable_network_policies
                          ∷ ephemeral_part gates)
                        (same i) u)
                    part,
              ))))
    | inr template ↦ rw template (Ends-ok (none, λ h. cc (h), sym (append-nil s)))
  ]

  prepare-IsSet :
      (s : List Action)
      → Ends
          (λ gates t.
            ((host.set_from_map o.feature_gates_flags ≡ ok gates) × (host.resource_for ≡ ok tt))
            × (t ≡ s))
          (λ _ t. t ≡ s)
          (prepare host o s)
  unfolding prepare
  prepare-IsSet s =
      Ends-next _ (required-keeps _ _ s) (λ _ _ h. h)
        (λ gates s₁ (gates_set, e₁).
          Ends-next _ (required-keeps _ _ s₁) (λ _ _ h. h ∙ e₁)
            (λ _ s₂ (_, e₂).
              Ends-next _ (required-keeps _ _ s₂) (λ _ _ h. h ∙ e₂ ∙ e₁)
                (λ _ s₃ (installed, e₃). Ends-ok ((gates_set, installed), e₃ ∙ e₂ ∙ e₁))))

  -- The add-on part and then the rest, after the gates.
  continue_effect :
      (gates : Dict Bool) (s : List Action)
      → (host.set_from_map o.feature_gates_flags ≡ ok gates) × (host.resource_for ≡ ok tt)
      → Ends
          (λ _ t.
            (pull_secret : Option Secret) × IsReady gates pull_secret
            × (t ≡ s ++ plan gates pull_secret))
          (λ _ t.
            (t ≡ s)
            ⊎ ((pull_secret : Option Secret) × IsReady gates pull_secret
                × IsPart (plan gates pull_secret) s t))
          (next (set_up_addon host o gates s) (λ _ s₀. next (set_up_syncer host gates s₀) (λ _ s₁.
            next (start_addons host o s₁) (λ _ s₂.
              next
                (begin manager s₂)
                (λ _. required "problem running manager" host.start_manager)))))
  unfolding AddonDone AddonFailed
  continue_effect gates s (gates_set, installed) =
      let ready : (x : Option Secret)
          → (runs_addon_manager host o ≡ true → IsPulled x)
          → IsReady gates x =
        λ x pulled. record { gates_set = gates_set; has_resource = installed; pulled = pulled } in
      let rest = syncer_part gates ++ start_part in
      Ends-next _ (set_up_addon_effect gates s)
        (λ _ t failed. elim failed [
          | inl same ↦ inl same
          | inr (pull_secret, pulled, part) ↦ inr (
            pull_secret,
            ready pull_secret pulled,
            IsPart-before (addon_part gates pull_secret) rest s t part,
          )
        ])
        (λ _ t (pull_secret, pulled, e).
          Ends-weaken _ (rest-Performs gates t)
            (λ _ u e₁. (
              pull_secret,
              ready pull_secret pulled,
              e₁ ∙ ap (λ x. x ++ rest) e ∙ append_assoc s (addon_part gates pull_secret) rest,
            ))
            (λ _ u part. inr (
              pull_secret,
              ready pull_secret pulled,
              IsPart-after (addon_part gates pull_secret) rest s t u e part,
            )))

  -- Unless the deployment mode is AddOnTemplate, the manager registers the agent's add-on, with the pull
  -- secret it found, and then, if its gate is on, the controller of ephemeral identities; in every mode it
  -- registers the credential syncer if the gate of cluster profiles is on; it starts the add-on manager,
  -- unless the mode is AddOnTemplate, and at last the manager. It begins only where the gates are set,
  -- the hub has the resource and, for an add-on manager, the namespace and the pull secret are found. If
  -- it succeeds all was set going, in this order; if it fails, nothing or a first part of it.
  pub manager_run-plan :
      (s : List Action)
      → Ends
          (λ _ t.
            (gates : Dict Bool) × (pull_secret : Option Secret) × IsReady gates pull_secret
            × (t ≡ s ++ plan gates pull_secret))
          (λ _ t.
            (t ≡ s)
            ⊎ ((gates : Dict Bool) × (pull_secret : Option Secret) × IsReady gates pull_secret
                × IsPart (plan gates pull_secret) s t))
          (run host o s)
  unfolding run
  manager_run-plan s =
      Ends-next _ (prepare-IsSet s) (λ _ _ h. inl h)
        (λ gates t (settled, same).
          Ends-weaken _ (continue_effect gates t settled)
            (λ _ u (pull_secret, ready, e).
              (gates, pull_secret, ready, e ∙ ap (λ x. x ++ plan gates pull_secret) same))
            (λ _ u failed. elim failed [
              | inl e ↦ inl (e ∙ same)
              | inr (pull_secret, ready, part) ↦ inr (
                gates,
                pull_secret,
                ready,
                coe 0 1 (i. IsPart (plan gates pull_secret) (same i) u) part,
              )
            ]))
