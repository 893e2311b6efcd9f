-- ===== src/Profile/Cred/Update.antt =====
-- When a synced secret is left as it is.
use managed_serviceaccount.Prelude.{
  String, ◌==◌, eq_iff, eqb, Bool, true, false, not, [], ◌∷◌, ◌≡◌, ◌≢◌, ◌↔◌, refl, ◌∙◌, sym, ap,
  arith, if◌then◌else◌,
}
use managed_serviceaccount.Prelude.Dict.{Dict, lookup, value_at}
use managed_serviceaccount.Kube.{Bytes, Secret}
use managed_serviceaccount.Api.{ManagedServiceAccount}
use managed_serviceaccount.Profile.Hub.{Hub, ClusterProfile}
use managed_serviceaccount.Profile.Cred.{
  label_key_synced_from, synced_name, copy_data, build_synced_cred, data_equal, secret_needs_update,
  labels_differ, length,
}
use managed_serviceaccount.Profile.Cred.Compare.{NodupKeys, SameData, data_equal_iff}
use managed_serviceaccount.Profile.Cred.Names.{synced_name_ne}

copy_data_id : (m : Dict Bytes) → copy_data m ≡ m
unfolding copy_data
copy_data_id [] = refl
copy_data_id ((k, v) ∷ m) = ap (λ r. (k, v) ∷ r) (copy_data_id m)

module _ (H : Hub) (msa : ManagedServiceAccount) (cp : ClusterProfile) (name : String)
    (source current : Secret) where
  desired : Secret
  desired = build_synced_cred H msa cp name source

  pub content-build_synced_cred : (build_synced_cred H msa cp name source).content ≡ source.content
  unfolding build_synced_cred
  content-build_synced_cred = copy_data_id source.content

  label_lem :
      (labels : Dict String) (from : String)
      → from ≢ ""
      → (if eqb (length {A = String × String} labels) 0
          then true
          else labels_differ labels ((label_key_synced_from, from) ∷ []))
        ≡ not (value_at label_key_synced_from labels == from)
  unfolding labels_differ value_at lookup
  label_lem [] from ne = ground (arith, eq_iff "" from)
  label_lem ((k, v) ∷ labels) from ne = ground arith

  both_iff : (d l : Bool) → ((if not d then true else not l) ≡ false) ↔ ((d ≡ true) × (l ≡ true))
  both_iff true true = (λ _. (refl, refl), λ _. refl)
  both_iff true false = (λ h. cc (h), λ h. cc (h.1))
  both_iff false l = (λ h. cc (h), λ h. cc (h.0))

  secret_needs_update_lem : secret_needs_update current (build_synced_cred H msa cp name source) ≡ (
      if not (data_equal current.content source.content)
      then true
      else not (
          value_at label_key_synced_from current.metadata.labels
          == synced_name msa.metadata.namespace msa.metadata.name))
  unfolding secret_needs_update build_synced_cred
  secret_needs_update_lem = rw (
    copy_data_id source.content,
    label_lem current.metadata.labels (synced_name msa.metadata.namespace msa.metadata.name)
        (synced_name_ne msa.metadata.namespace msa.metadata.name),
  )

  -- With each key once in the data of both, a synced secret is left as it is exactly if it holds the
  -- data of the source and
  -- names the account that it was synced from; other labels, and its owner, do not matter.
  pub secret_needs_update_iff :
      NodupKeys current.content
      → NodupKeys source.content
      → (secret_needs_update current (build_synced_cred H msa cp name source) ≡ false) ↔ (
          SameData current.content source.content
          × (value_at label_key_synced_from current.metadata.labels
              ≡ synced_name msa.metadata.namespace msa.metadata.name))
  secret_needs_update_iff u u' =
      let from = synced_name msa.metadata.namespace msa.metadata.name in
      let label = value_at label_key_synced_from current.metadata.labels in
      let both = both_iff (data_equal current.content source.content) (label == from) in
      let same = data_equal_iff current.content source.content u u' in
      let named = eq_iff label from in
      (
        λ h. let hs = both.0 (sym secret_needs_update_lem ∙ h) in (same.0 hs.0, named.0 hs.1),
        λ h. secret_needs_update_lem ∙ both.1 (same.1 h.0, named.1 h.1),
      )
