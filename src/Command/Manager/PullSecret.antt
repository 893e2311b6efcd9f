-- ===== src/Command/Manager/PullSecret.antt =====
-- When the manager has a pull secret for the agent.
use managed_serviceaccount.Prelude.{
  String, ◌==◌, eq_iff, Option, none, some, ◌≡◌, ◌≢◌, ◌↔◌, inl, inr, ◌∙◌, sym, ap, Bool-cases,
}
use managed_serviceaccount.Errors.{Error, Result, ok, err}
use managed_serviceaccount.Kube.{Key, Secret, differ_ne}
use managed_serviceaccount.Command.Manager.{docker_secret, get_agent_image_pull_secret}

refused : {e : Error} (x : Secret) → ◌≡◌ {A = Result (Option Secret)} (err e) (ok (some x)) → ⊥
refused x h = cc (h)

unset : (x : Secret) → ◌≡◌ {A = Result (Option Secret)} (ok none) (ok (some x)) → ⊥
unset x h = cc (h)

docker_secret_iff :
    (r : Result Secret) (x : Secret)
    → (docker_secret r ≡ ok (some x))
      ↔ ((r ≡ ok x) × (x.secret_type ≡ "kubernetes.io/dockerconfigjson"))
unfolding docker_secret
docker_secret_iff (err e) x = (λ h. cc (h), λ h. cc (h.0))
docker_secret_iff (ok y) x = (
  λ h. elim (Bool-cases (y.secret_type == "kubernetes.io/dockerconfigjson")) [
    | inl docker ↦
        let same : y ≡ x = cc ((rw docker at h)) in
        (ap ok same, ap (λ (z : Secret). z.secret_type) (sym same) ∙ (eq_iff _ _).0 docker)
    | inr other ↦ absurd (refused x (rw other at h))
  ],
  λ (e, docker).
      let same : y ≡ x = cc (e) in
      rw
        ((eq_iff y.secret_type "kubernetes.io/dockerconfigjson").1
          (ap (λ (z : Secret). z.secret_type) same ∙ docker))
        (ap (λ z. ok (some z)) same),
)

-- A pull secret is given exactly if a name is set and the hub holds a secret of that name with the type
-- of docker configs.
pub get_agent_image_pull_secret_iff :
    (get_secret : Key → Result Secret) (namespace name : String) (secret : Secret)
    → (get_agent_image_pull_secret get_secret namespace name ≡ ok (some secret)) ↔ (
        (name ≢ "")
        × (get_secret (record { namespace = namespace; name = name }) ≡ ok secret)
        × (secret.secret_type ≡ "kubernetes.io/dockerconfigjson"))
unfolding get_agent_image_pull_secret
get_agent_image_pull_secret_iff get_secret namespace name secret = elim (Bool-cases (name == "")) [
  | inl unnamed ↦
      (λ h. absurd (unset secret (rw unnamed at h)), λ h. absurd (h.0 ((eq_iff name "").0 unnamed)))
  | inr named ↦ (
    λ h.
        let (held, docker) = (docker_secret_iff _ secret).0 (rw named at h) in
        (differ_ne name "" named, held, docker),
    λ h. rw named ((docker_secret_iff _ secret).1 (h.1, h.2)),
  )
]
