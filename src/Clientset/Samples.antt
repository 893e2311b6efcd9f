-- ===== src/Clientset/Samples.antt =====
-- A library of clients that show what they are made of, and the theorem at a config with a rate.
use managed_serviceaccount.Prelude.{ℕ, String, ltb, Option, none, some, ◌≡◌, ◌↔◌, refl}
use managed_serviceaccount.Prelude.Int.{pos}
use managed_serviceaccount.Errors.{ok, message}
use managed_serviceaccount.Api.{group_version}
use managed_serviceaccount.Clientset.Rest.{Kinds, Config, Library, returns, panics}
use managed_serviceaccount.Clientset.Alpha
use managed_serviceaccount.Clientset.Beta
use managed_serviceaccount.Clientset.Built.{IsBuilt, new_for_config_iff}
use managed_serviceaccount.Clientset.{
  Clientset, discovery, new, new_for_config, new_for_config_and_client, new_for_config_or_die,
}

-- A limiter is its rate; a client is its user agent, limiter and API version.
abbrev kinds : Kinds
kinds = record {
  Limiter = ℕ;
  Qps = ℕ;
  Codecs = Unit;
  Rest = Unit;
  HttpClient = String;
  RestClient = String × Option ℕ × Option String;
  DiscoveryClient = String × Option ℕ;
  above_zero = λ q. ltb 0 q;
}

abbrev library : Library kinds
library = record {
  default_kubernetes_user_agent = "agent";
  http_client_for = λ c. ok c.user_agent;
  rest_client_for_config_and_client = λ c h. ok (h, c.rate_limiter, c.group_version);
  new_token_bucket_rate_limiter = λ q _. q;
  new_discovery_client_for_config_and_client = λ c h. ok (h, c.rate_limiter);
  new_discovery_client = λ r. (r.0, r.1);
  codecs = tt;
}

abbrev config : Option ℕ → ℕ → Config kinds
config limiter burst = record {
  user_agent = "";
  qps = 20;
  burst = pos burst;
  rate_limiter = limiter;
  group_version = none;
  api_path = "";
  negotiated_serializer = none;
  rest = tt;
}

abbrev built : Clientset kinds
built = record {
  discovery_client = ("agent", some 20);
  authentication_v1alpha1 = record { rest_client = ("agent", some 20, some Alpha.group_version) };
  authentication_v1beta1 = record { rest_client = ("agent", some 20, some group_version) };
}

built_run : new_for_config kinds library (config none 40) ≡ ok built
unfolding new_for_config
built_run = refl

without_burst :
    new_for_config_or_die kinds library (config none 0)
    ≡ panics (
        message
          "burst is required to be greater than 0 when RateLimiter is not set and QPS is set to greater than 0")
unfolding new_for_config_or_die
without_burst = refl

-- With a limiter the burst does not matter.
limiter_given :
    new_for_config_and_client kinds library (config (some 5) 0) "h"
    ≡ ok (record {
      discovery_client = ("h", some 5);
      authentication_v1alpha1 = record { rest_client = ("h", some 5, some Alpha.group_version) };
      authentication_v1beta1 = record { rest_client = ("h", some 5, some group_version) };
    })
unfolding new_for_config_and_client
limiter_given = refl

-- A typed client that is made alone has no limiter of its own.
beta_alone :
    Beta.new_for_config_or_die kinds library (config none 0)
    ≡ returns (record { rest_client = ("agent", none, some group_version) })
unfolding Beta.new_for_config_or_die
beta_alone = refl

alpha_alone :
    Alpha.new_for_config_or_die kinds library (config none 0)
    ≡ returns (record { rest_client = ("agent", none, some Alpha.group_version) })
unfolding Alpha.new_for_config_or_die
alpha_alone = refl

of_rest_client : discovery kinds (some (new kinds library ("h", none, none))) ≡ some ("h", none)
unfolding discovery new
of_rest_client = refl

new_for_config_iff_example :
    (new_for_config kinds library (config none 40) ≡ ok built)
    ↔ IsBuilt kinds library (config none 40) built
new_for_config_iff_example = new_for_config_iff kinds library (config none 40) built
