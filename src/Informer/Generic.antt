-- ===== src/Informer/Generic.antt =====
-- pkg/generated/informers/externalversions/generic.go: informers by the name of their resource.
pub mod Located
mod Samples
use managed_serviceaccount.Prelude.{
  String, ◌==◌, ◌&&◌, ◌<>◌, Bool, true, false, Option, if◌then◌else◌,
}
use managed_serviceaccount.Gotime.{Duration}
use managed_serviceaccount.Errors.{Result, ok, err, message}
use managed_serviceaccount.Informer.{Kinds, Informer, Factory, msa_informer}

-- schema.GroupVersionResource and schema.GroupResource
pub record GroupVersionResource : Type 0 where
  pub group : String
  pub version : String
  pub resource : String

pub record GroupResource : Type 0 where
  pub group : String
  pub resource : String

-- resource.GroupResource()
abbrev pub group_resource : GroupVersionResource → GroupResource
group_resource r = record { group = r.group; resource = r.resource }

-- v1beta1.SchemeGroupVersion.WithResource("managedserviceaccounts")
abbrev pub accounts_resource : GroupVersionResource
accounts_resource = record {
  group = "authentication.open-cluster-management.io";
  version = "v1beta1";
  resource = "managedserviceaccounts";
}

abbrev pub same_resource : GroupVersionResource → GroupVersionResource → Bool
same_resource a b = a.group == b.group && a.version == b.version && a.resource == b.resource

module _ (K : Kinds) where
  -- genericInformer
  pub record GenericInformer : Type 0 where
    pub informer : Informer K
    pub resource : GroupResource

  -- ForResource; `text` prints a resource
  unfoldable pub for_resource :
      (String → Option K.Tweak → K.Client → Duration → Informer K)
      → (GroupVersionResource → String)
      → GroupVersionResource
      → Factory K
      → Result GenericInformer × Factory K
  unfolding msa_informer
  for_resource default_informer text resource f =
      let (informer, g) = msa_informer K default_informer f in
      if same_resource resource accounts_resource
      then (ok (record { informer = informer; resource = group_resource resource }), g)
      else (err (message ("no informer found for " <> text resource)), f)
