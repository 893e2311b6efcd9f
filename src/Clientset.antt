-- ===== src/Clientset.antt =====
-- pkg/generated/clientset/versioned/clientset.go: the clients of both API versions and of discovery,
-- made from one config.
pub mod Rest
pub mod Alpha
pub mod Beta
pub mod Built
mod Steps
mod Samples
use managed_serviceaccount.Prelude.{
  ◌==◌, ◌&&◌, Bool, true, false, Option, none, some, if◌then◌else◌,
}
use managed_serviceaccount.Prelude.Int.{ℤ, pos, ltb_ℤ}
use managed_serviceaccount.Errors.{Error, Result, ok, err, message}
use managed_serviceaccount.Clientset.Rest.{Kinds, Config, Library, ◌>>=◌, OrPanic, or_panic}
use managed_serviceaccount.Clientset.Alpha
use managed_serviceaccount.Clientset.Beta

module _ (K : Kinds) where
  -- Clientset
  pub record Clientset : Type 0 where
    pub discovery_client : K.DiscoveryClient
    pub authentication_v1alpha1 : Alpha.Client K
    pub authentication_v1beta1 : Beta.Client K

  -- Discovery; a nil client set is none
  unfoldable pub discovery : Option Clientset → Option K.DiscoveryClient
  discovery none = none
  discovery (some cs) = some cs.discovery_client

  module _ (L : Library K) where
    -- the limiter of the copied config
    abbrev with_limiter : Config K → Option K.Limiter → Result (Config K)
    with_limiter c (some limiter) = ok c
    with_limiter c none =
        if K.above_zero c.qps
        then (if ltb_ℤ (pos 0) c.burst
            then ok
                (record c { rate_limiter = some (L.new_token_bucket_rate_limiter c.qps c.burst) })
            else err (
                message
                  "burst is required to be greater than 0 when RateLimiter is not set and QPS is set to greater than 0"))
        else ok c

    -- the clients of a config whose limiter is settled
    unfoldable pub clients : K.HttpClient → Config K → Result Clientset
    unfolding Alpha.new_for_config_and_client Beta.new_for_config_and_client
    clients http_client config = do
      alpha ← Alpha.new_for_config_and_client K L config http_client
      beta ← Beta.new_for_config_and_client K L config http_client
      discovery_client ← L.new_discovery_client_for_config_and_client config http_client
      ok (record {
        discovery_client = discovery_client;
        authentication_v1alpha1 = alpha;
        authentication_v1beta1 = beta;
      })

    unfoldable pub new_for_config_and_client : Config K → K.HttpClient → Result Clientset
    unfolding clients
    new_for_config_and_client c http_client = do
      config ← with_limiter c c.rate_limiter
      clients http_client config

    unfoldable pub new_for_config : Config K → Result Clientset
    unfolding new_for_config_and_client
    new_for_config c =
        let config = record c {
          user_agent = if c.user_agent == "" then L.default_kubernetes_user_agent else c.user_agent;
        } in
        do http_client ← L.http_client_for config; new_for_config_and_client config http_client

    unfoldable pub new_for_config_or_die : Config K → OrPanic Clientset
    unfolding new_for_config
    new_for_config_or_die c = or_panic (new_for_config c)

    -- New
    unfoldable pub new : K.RestClient → Clientset
    unfolding Alpha.new Beta.new
    new c = record {
      discovery_client = L.new_discovery_client c;
      authentication_v1alpha1 = Alpha.new K c;
      authentication_v1beta1 = Beta.new K c;
    }
