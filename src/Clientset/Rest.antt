-- ===== src/Clientset/Rest.antt =====
-- What the client sets call of k8s.io/client-go: configs, HTTP and REST clients, limiters, discovery.
use managed_serviceaccount.Prelude.{String, Bool, Option}
use managed_serviceaccount.Prelude.Int.{ℤ}
use managed_serviceaccount.Errors.{Error, Result, ok, err}

infixl 5 ◌>>=◌
abbrev pub ◌>>=◌ : {A B : Type 0} → Result A → (A → Result B) → Result B
ok a >>= f = f a
err e >>= f = err e

-- The types; Qps is a float32 of which only the sign is looked at, Codecs a NegotiatedSerializer, and
-- Rest what a rest.Config has besides the fields of `Config`.
pub record Kinds : Type 1 where
  pub Limiter : Type 0
  pub Qps : Type 0
  pub Codecs : Type 0
  pub Rest : Type 0
  pub HttpClient : Type 0
  pub RestClient : Type 0
  pub DiscoveryClient : Type 0
  pub above_zero : Qps → Bool

-- rest.Config; none is nil
pub record Config (K : Kinds) : Type 0 where
  pub user_agent : String
  pub qps : K.Qps
  pub burst : ℤ
  pub rate_limiter : Option K.Limiter
  pub group_version : Option String
  pub api_path : String
  pub negotiated_serializer : Option K.Codecs
  pub rest : K.Rest

pub record Library (K : Kinds) : Type 0 where
  -- rest.DefaultKubernetesUserAgent(), rest.HTTPClientFor, rest.RESTClientForConfigAndClient
  pub default_kubernetes_user_agent : String
  pub http_client_for : Config K → Result K.HttpClient
  pub rest_client_for_config_and_client : Config K → K.HttpClient → Result K.RestClient
  -- flowcontrol.NewTokenBucketRateLimiter
  pub new_token_bucket_rate_limiter : K.Qps → ℤ → K.Limiter
  -- discovery.NewDiscoveryClientForConfigAndClient and NewDiscoveryClient
  pub new_discovery_client_for_config_and_client :
      Config K → K.HttpClient → Result K.DiscoveryClient
  pub new_discovery_client : K.RestClient → K.DiscoveryClient
  -- scheme.Codecs.WithoutConversion()
  pub codecs : K.Codecs

-- A function that panics instead of an error.
pub data OrPanic (A : Type 0) : Type 0 where
  returns : A → OrPanic A
  panics : Error → OrPanic A

-- if err != nil { panic(err) }
abbrev pub or_panic : {A : Type 0} → Result A → OrPanic A
or_panic (ok a) = returns a
or_panic (err e) = panics e
