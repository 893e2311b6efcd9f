-- ===== src/Informer/Generic/Samples.antt =====
-- ForResource on the factory of the other samples.
use managed_serviceaccount.Prelude.{String, Option, ◌≡◌, refl}
use managed_serviceaccount.Gotime.{Duration}
use managed_serviceaccount.Errors.{err, message}
use managed_serviceaccount.Informer.{Informer, begun, here, next, msa_informer, start}
use managed_serviceaccount.Informer.Samples.{kinds, made, fresh}
use managed_serviceaccount.Informer.Generic.{GroupVersionResource, accounts_resource, for_resource}
use managed_serviceaccount.Informer.Generic.Located.{Located, for_resource-Located}

abbrev default_informer : String → Option (Unit {0}) → Unit {0} → Duration → Informer kinds
default_informer namespace tweak = made namespace

abbrev text : GroupVersionResource → String
text r = r.resource

abbrev pods : GroupVersionResource
pods = record { group = ""; version = "v1"; resource = "pods" }

no_pods :
    for_resource kinds default_informer text pods fresh
    ≡ (err (message "no informer found for pods"), fresh)
unfolding for_resource
no_pods = refl

for_resource-Located_example :
    Located kinds fresh accounts_resource
      (msa_informer kinds default_informer
        (start kinds (for_resource kinds default_informer text accounts_resource fresh).1)).0
      (for_resource kinds default_informer text accounts_resource fresh)
for_resource-Located_example =
    for_resource-Located kinds default_informer default_informer text accounts_resource fresh
      (start kinds (for_resource kinds default_informer text accounts_resource fresh).1)
      (next here (begun (for_resource kinds default_informer text accounts_resource fresh).1))
