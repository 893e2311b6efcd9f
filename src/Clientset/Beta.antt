-- ===== src/Clientset/Beta.antt =====
-- pkg/generated/clientset/versioned/typed/authentication/v1beta1/authentication_client.go: how the client
-- of API version v1beta1 is made.
use managed_serviceaccount.Prelude.{◌==◌, Option, none, some, if◌then◌else◌}
use managed_serviceaccount.Errors.{Result, ok}
use managed_serviceaccount.Api.{group_version}
use managed_serviceaccount.Clientset.Rest.{Kinds, Config, Library, ◌>>=◌, OrPanic, or_panic}

module _ (K : Kinds) where
  -- AuthenticationV1beta1Client
  pub record Client : Type 0 where
    pub rest_client : K.RestClient

  -- New
  unfoldable pub new : K.RestClient → Client
  new c = record { rest_client = c }

  -- RESTClient; a nil client is none
  unfoldable pub rest_client_of : Option Client → Option K.RestClient
  rest_client_of none = none
  rest_client_of (some c) = some c.rest_client

  module _ (L : Library K) where
    unfoldable pub set_config_defaults : Config K → Result (Config K)
    set_config_defaults config = ok (record config {
      group_version = some group_version;
      api_path = "/apis";
      negotiated_serializer = some L.codecs;
      user_agent =
          if config.user_agent == "" then L.default_kubernetes_user_agent else config.user_agent;
    })

    unfoldable pub new_for_config_and_client : Config K → K.HttpClient → Result Client
    unfolding set_config_defaults
    new_for_config_and_client c h = do
      config ← set_config_defaults c
      client ← L.rest_client_for_config_and_client config h
      ok (record { rest_client = client })

    unfoldable pub new_for_config : Config K → Result Client
    unfolding set_config_defaults new_for_config_and_client
    new_for_config c = do
      config ← set_config_defaults c
      http_client ← L.http_client_for config
      new_for_config_and_client config http_client

    unfoldable pub new_for_config_or_die : Config K → OrPanic Client
    unfolding new_for_config
    new_for_config_or_die c = or_panic (new_for_config c)
