-- ===== src/Informer/Generic/Located.antt =====
-- The informer that ForResource finds, and the one that the typed accessor gives.
use managed_serviceaccount.Prelude.{
  String, true, false, Option, ◌≡◌, ◌≢◌, ap, arith, inl, inr, eq_iff, Bool-cases,
}
use managed_serviceaccount.Gotime.{Duration}
use managed_serviceaccount.Errors.{Error, Result, ok, err}
use managed_serviceaccount.Informer.{Kinds, Informer, Factory, Reach, msa_informer}
use managed_serviceaccount.Informer.Sharing.{informer_for_shared}
use managed_serviceaccount.Informer.Generic.{
  GroupVersionResource, accounts_resource, same_resource, group_resource, GenericInformer,
  for_resource,
}

same_resource_eq : (a b : GroupVersionResource) → same_resource a b ≡ true → a ≡ b
same_resource_eq a b h =
    ground (arith, eq_iff a.group b.group, eq_iff a.version b.version, eq_iff a.resource b.resource)

same_resource_ne : (a b : GroupVersionResource) → same_resource a b ≡ false → a ≢ b
same_resource_ne a b h e = ground (
  arith,
  h,
  e,
  eq_iff a.group b.group,
  eq_iff a.version b.version,
  eq_iff a.resource b.resource,
  ap (λ (r : GroupVersionResource). r.group) e,
  ap (λ (r : GroupVersionResource). r.version) e,
  ap (λ (r : GroupVersionResource). r.resource) e,
)

module _ (K : Kinds) where
  -- What ForResource answers, where a typed accessor gives an informer later.
  pub data Located (f : Factory K) (resource : GroupVersionResource) (typed : Informer K)
      : Result (GenericInformer K) × Factory K → Type 0 where
    known :
        (g : Factory K)
        → resource ≡ accounts_resource
        → Located f resource typed
            (ok (record { informer = typed; resource = group_resource resource }), g)
    unknown : (e : Error) → resource ≢ accounts_resource → Located f resource typed (err e, f)

  module _ (default_informer later : String → Option K.Tweak → K.Client → Duration → Informer K)
      (text : GroupVersionResource → String) where
    -- ForResource finds the informer of the ManagedServiceAccounts of version v1beta1, the same that the
    -- typed accessor gives whatever the factory does in between, and has an error for every other
    -- resource, with the factory as it was.
    pub for_resource-Located :
        (resource : GroupVersionResource) (f g : Factory K)
        → Reach K (for_resource K default_informer text resource f).1 g
        → Located f resource
            (msa_informer K later g).0
            (for_resource K default_informer text resource f)
    unfolding for_resource msa_informer
    for_resource-Located resource f g r =
        elim (Bool-cases (same_resource resource accounts_resource)) [
          | inl same ↦
              let shared =
                informer_for_shared K "v1beta1.ManagedServiceAccount"
                  (default_informer f.namespace f.tweak_list_options)
                  (later g.namespace g.tweak_list_options) f g (rw same at r) in
              rw same (rw shared (known _ (same_resource_eq resource accounts_resource same)))
          | inr differ ↦ rw differ (unknown _ (same_resource_ne resource accounts_resource differ))
        ]
