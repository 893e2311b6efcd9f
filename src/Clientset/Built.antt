-- ===== src/Clientset/Built.antt =====
-- What a client set is made of: the clients of both versions and of discovery share one HTTP client,
-- one limiter and one user agent.
use managed_serviceaccount.Prelude.{
  String, ◌==◌, true, Option, none, some, ◌≡◌, ◌↔◌, refl, ◌∙◌, sym, ap, arith, inl, inr, Bool-cases,
  if◌then◌else◌,
}
use managed_serviceaccount.Prelude.Int.{ℤ, pos, ltb_ℤ, ◌<ℤ◌}
use managed_serviceaccount.Errors.{Result, ok}
use managed_serviceaccount.Api.{group_version}
use managed_serviceaccount.Clientset.Rest.{Kinds, Config, Library}
use managed_serviceaccount.Clientset.Alpha
use managed_serviceaccount.Clientset.Beta
use managed_serviceaccount.Clientset.{
  Clientset, with_limiter, clients, new_for_config, new_for_config_and_client,
}
use managed_serviceaccount.Clientset.Steps.{>>=-ok, ok->>=, three_iff, one}

module _ (K : Kinds) (L : Library K) where
  -- The user agent and the limiter that all the clients of a set use.
  abbrev pub user_agent : Config K → String
  user_agent c = if c.user_agent == "" then L.default_kubernetes_user_agent else c.user_agent

  abbrev limiter_or : Option K.Limiter → K.Qps → ℤ → Option K.Limiter
  limiter_or (some limiter) qps burst = some limiter
  limiter_or none qps burst =
      if K.above_zero qps then some (L.new_token_bucket_rate_limiter qps burst) else none

  abbrev pub limiter : Config K → Option K.Limiter
  limiter c = limiter_or c.rate_limiter c.qps c.burst

  -- The config of the client of an API version.
  abbrev pub versioned : String → Config K → Config K
  versioned version c = record c {
    user_agent = user_agent c;
    rate_limiter = limiter c;
    group_version = some version;
    api_path = "/apis";
    negotiated_serializer = some L.codecs;
  }

  -- A client set that is built of a config.
  pub record IsBuilt (c : Config K) (cs : Clientset K) : Type 0 where
    pub http_client : K.HttpClient
    pub http_made : L.http_client_for (record c { user_agent = user_agent c }) ≡ ok http_client
    pub burst_given : (c.rate_limiter ≡ none) × (K.above_zero c.qps ≡ true) → pos 0 <ℤ c.burst
    pub alpha_made :
        L.rest_client_for_config_and_client (versioned Alpha.group_version c) http_client
        ≡ ok cs.authentication_v1alpha1.rest_client
    pub beta_made :
        L.rest_client_for_config_and_client (versioned group_version c) http_client
        ≡ ok cs.authentication_v1beta1.rest_client
    pub discovery_made :
        L.new_discovery_client_for_config_and_client
          (record c { user_agent = user_agent c; rate_limiter = limiter c })
          http_client
        ≡ ok cs.discovery_client

  user_agent_twice :
      (c : Config K) → user_agent (record c { user_agent = user_agent c }) ≡ user_agent c
  user_agent_twice c = elim (Bool-cases (c.user_agent == "")) [
    | inl blank ↦ rw blank (elim (Bool-cases (L.default_kubernetes_user_agent == "")) [
      | inl none_at_all ↦ rw none_at_all refl
      | inr given ↦ rw given refl
    ])
    | inr given ↦ rw given (rw given refl)
  ]

  BurstGiven : Option K.Limiter → Config K → Type 0
  BurstGiven o c = (o ≡ none) × (K.above_zero c.qps ≡ true) → pos 0 <ℤ c.burst

  kept_limiter :
      (c : Config K) (o : Option K.Limiter) → c.rate_limiter ≡ o → c ≡ record c { rate_limiter = o }
  kept_limiter c o e = ap (λ x. record c { rate_limiter = x }) e

  -- What with_limiter makes, if the burst is given where it is needed.
  with_limiter_iff :
      (c d : Config K) (o : Option K.Limiter)
      → c.rate_limiter ≡ o
      → (with_limiter K L c o ≡ ok d)
        ↔ (BurstGiven o c × (record c { rate_limiter = limiter_or o c.qps c.burst } ≡ d))
  unfolding BurstGiven
  with_limiter_iff c d (some limiter) e = (
    λ h. (λ p. absurd (ground (arith, p.0)), sym (kept_limiter c (some limiter) e) ∙ cc (h)),
    λ h. cc (kept_limiter c (some limiter) e, h.1),
  )
  with_limiter_iff c d none e = elim (Bool-cases (K.above_zero c.qps)) [
    | inl limited ↦ elim (Bool-cases (ltb_ℤ (pos 0) c.burst)) [
      | inl burst ↦ rw (limited, burst) (λ h. (λ _. ground (arith, burst), cc (h)), λ h. cc (h.1))
      | inr no_burst ↦
          rw (limited, no_burst)
            (
              λ h. absurd (ground (arith, h)),
              λ h. absurd (ground (arith, no_burst, h.0 (refl, refl))),
            )
    ]
    | inr unlimited ↦ rw unlimited (
      λ h. (λ p. absurd (ground (arith, p.1)), sym (kept_limiter c none e) ∙ cc (h)),
      λ h. cc (kept_limiter c none e, h.1),
    )
  ]

  alpha_iff :
      (c : Config K) (h : K.HttpClient) (client : Alpha.Client K)
      → (Alpha.new_for_config_and_client K L c h ≡ ok client) ↔ (
          L.rest_client_for_config_and_client
            (record c {
              user_agent = user_agent c;
              group_version = some Alpha.group_version;
              api_path = "/apis";
              negotiated_serializer = some L.codecs;
            })
            h
          ≡ ok client.rest_client)
  unfolding Alpha.new_for_config_and_client Alpha.set_config_defaults
  alpha_iff c h client = (
    λ e.
        one _ (λ x. record { rest_client = x }) (λ (x : Alpha.Client K). x.rest_client) client
          (λ _. refl) e,
    λ e. rw e refl,
  )

  beta_iff :
      (c : Config K) (h : K.HttpClient) (client : Beta.Client K)
      → (Beta.new_for_config_and_client K L c h ≡ ok client) ↔ (
          L.rest_client_for_config_and_client
            (record c {
              user_agent = user_agent c;
              group_version = some group_version;
              api_path = "/apis";
              negotiated_serializer = some L.codecs;
            })
            h
          ≡ ok client.rest_client)
  unfolding Beta.new_for_config_and_client Beta.set_config_defaults
  beta_iff c h client = (
    λ e.
        one _ (λ x. record { rest_client = x }) (λ (x : Beta.Client K). x.rest_client) client
          (λ _. refl) e,
    λ e. rw e refl,
  )

  -- The config when the clients of the versions get it.
  abbrev settled : Config K → Config K
  settled c = record c { user_agent = user_agent c; rate_limiter = limiter c }

  defaults : String → String → Config K → Config K
  defaults agent version c = record c {
    user_agent = agent;
    rate_limiter = limiter c;
    group_version = some version;
    api_path = "/apis";
    negotiated_serializer = some L.codecs;
  }

  -- The defaults of a version change nothing of the user agent any more.
  defaults_settled :
      (version : String) (c : Config K)
      → defaults (user_agent (settled c)) version c ≡ versioned version c
  unfolding defaults
  defaults_settled version c = ap (λ t. defaults t version c) (user_agent_twice c)

  made_for :
      (version : String) (c : Config K) (h : K.HttpClient) (r : Result K.RestClient)
      → (L.rest_client_for_config_and_client (defaults (user_agent (settled c)) version c) h ≡ r)
        ↔ (L.rest_client_for_config_and_client (versioned version c) h ≡ r)
  made_for version c h r =
      let e = ap (λ d. L.rest_client_for_config_and_client d h) (defaults_settled version c) in
      (λ p. sym e ∙ p, λ p. e ∙ p)

  IsMade : Config K → K.HttpClient → Clientset K → Type 0
  IsMade c h cs =
      (L.rest_client_for_config_and_client (versioned Alpha.group_version c) h
        ≡ ok cs.authentication_v1alpha1.rest_client)
      × (L.rest_client_for_config_and_client (versioned group_version c) h
          ≡ ok cs.authentication_v1beta1.rest_client)
      × (L.new_discovery_client_for_config_and_client (settled c) h ≡ ok cs.discovery_client)

  clients_iff :
      (c : Config K) (h : K.HttpClient) (cs : Clientset K)
      → (clients K L h (settled c) ≡ ok cs) ↔ IsMade c h cs
  unfolding clients IsMade defaults
  clients_iff c h cs =
      let steps =
        three_iff (Alpha.new_for_config_and_client K L (settled c) h)
          (Beta.new_for_config_and_client K L (settled c) h)
          (L.new_discovery_client_for_config_and_client (settled c) h)
          (λ alpha beta disc. record {
            discovery_client = disc;
            authentication_v1alpha1 = alpha;
            authentication_v1beta1 = beta;
          })
          cs in
      (
        λ e.
            let (alpha, beta, disc, a, b, d, made) = steps.0 e in
            (
              (made_for Alpha.group_version c h _).0 ((alpha_iff (settled c) h _).0 a)
                  ∙ ap (λ (x : Clientset K). ok x.authentication_v1alpha1.rest_client) made,
              (made_for group_version c h _).0 ((beta_iff (settled c) h _).0 b)
                  ∙ ap (λ (x : Clientset K). ok x.authentication_v1beta1.rest_client) made,
              d ∙ ap (λ (x : Clientset K). ok x.discovery_client) made,
            ),
        λ (a, b, d). steps.1 (
          cs.authentication_v1alpha1,
          cs.authentication_v1beta1,
          cs.discovery_client,
          (alpha_iff (settled c) h _).1 ((made_for Alpha.group_version c h _).1 a),
          (beta_iff (settled c) h _).1 ((made_for group_version c h _).1 b),
          d,
          refl,
        ),
      )

  -- NewForConfig gives a client set exactly if the HTTP client can be made of the config with the user
  -- agent, a burst is given where a limiter has to be made, and the two clients and that of discovery
  -- can be made with this HTTP client, of configs with the same user agent and the same limiter, each
  -- with its own API version; the set holds these clients.
  pub new_for_config_iff :
      (c : Config K) (cs : Clientset K) → (new_for_config K L c ≡ ok cs) ↔ IsBuilt c cs
  unfolding new_for_config new_for_config_and_client IsMade BurstGiven
  new_for_config_iff c cs = (
    λ e.
        let (http, http_made, e') =
          >>=-ok (L.http_client_for (record c { user_agent = user_agent c }))
            (new_for_config_and_client K L (record c { user_agent = user_agent c })) cs e in
        let (d, limited, e'') =
          >>=-ok (with_limiter K L (record c { user_agent = user_agent c }) c.rate_limiter)
            (clients K L http) cs e' in
        let (burst, same) =
          (with_limiter_iff (record c { user_agent = user_agent c }) d c.rate_limiter refl).0
            limited in
        let (alpha, beta, disc) = (clients_iff c http cs).0 (ap (clients K L http) same ∙ e'') in
        record {
          http_client = http;
          http_made = http_made;
          burst_given = burst;
          alpha_made = alpha;
          beta_made = beta;
          discovery_made = disc;
        },
    λ b.
        ok->>= (L.http_client_for (record c { user_agent = user_agent c }))
          (new_for_config_and_client K L (record c { user_agent = user_agent c })) b.http_client cs
          b.http_made
          (ok->>= (with_limiter K L (record c { user_agent = user_agent c }) c.rate_limiter)
            (clients K L b.http_client) (settled c) cs
            ((with_limiter_iff (record c { user_agent = user_agent c }) (settled c) c.rate_limiter
                refl).1
              (b.burst_given, refl))
            ((clients_iff c b.http_client cs).1 (b.alpha_made, b.beta_made, b.discovery_made))),
  )
