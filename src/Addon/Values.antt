-- ===== src/Addon/Values.antt =====
-- The values of the image pull secret.
use managed_serviceaccount.Prelude.{
  String, Bool, Option, none, some, [], ◌∷◌, ◌≡◌, ◌≢◌, refl, ◌∙◌, ap, arith,
}
use managed_serviceaccount.Prelude.Dict.{lookup}
use managed_serviceaccount.Errors.{ok}
use managed_serviceaccount.Kube.{Bytes, Secret}
use managed_serviceaccount.Addon.{DefaultValues, with_docker_config, get_default_values}
use managed_serviceaccount.Addon.Base64.{AreBytes, encode_std, decode_std, decode_std-encode_std}

-- The values of an image and a switch, with a docker config that is the reading of its encoded text.
pub record Carries (image : String) (policies : Bool) (config : Bytes) (values : DefaultValues)
    : Type 0 where
  pub encoded : Bytes
  pub same_image : values.image ≡ image
  pub same_policies : values.network_policies_enabled ≡ policies
  pub is_set : values.image_pull_secret_data ≡ some encoded
  pub reads_back : decode_std encoded ≡ config

with_docker_config_lem :
    (image : String) (policies : Bool) (secret : Secret) (o : Option Bytes) (config : Bytes)
    → AreBytes config
    → o ≡ some config
    → config ≢ []
    → (values : DefaultValues) × (with_docker_config image policies secret o ≡ ok values)
      × Carries image policies config values
unfolding with_docker_config
with_docker_config_lem image policies secret none config bytes e there = absurd (ground (arith, e))
with_docker_config_lem image policies secret (some []) config bytes e there =
    absurd (there (cc (e)))
with_docker_config_lem image policies secret (some (b ∷ rest)) config bytes e there =
    let same : b ∷ rest ≡ config = cc (e) in
    (
      record {
        image = image;
        network_policies_enabled = policies;
        image_pull_secret_data = some (encode_std (b ∷ rest));
      },
      refl,
      record {
        encoded = encode_std (b ∷ rest);
        same_image = refl;
        same_policies = refl;
        is_set = refl;
        reads_back = ap (λ s. decode_std (encode_std s)) same ∙ decode_std-encode_std config bytes;
      },
    )

-- An image pull secret with a docker config of bytes that is not empty is accepted, and the text that
-- the values carry for it reads back as that config.
pub get_default_values-Carries :
    (image : String) (policies : Bool) (secret : Secret) (config : Bytes)
    → AreBytes config
    → lookup ".dockerconfigjson" secret.content ≡ some config
    → config ≢ []
    → (values : DefaultValues) × (get_default_values image (some secret) policies ≡ ok values)
      × Carries image policies config values
unfolding get_default_values
get_default_values-Carries image policies secret config bytes held there =
    with_docker_config_lem image policies secret (lookup ".dockerconfigjson" secret.content) config
      bytes held there
