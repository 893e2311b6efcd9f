-- ===== src/Client/Granted.antt =====
-- Which requests of the client the role of the agent grants.
use managed_serviceaccount.Prelude.{
  String, ◌<>◌, ◌==◌, ◌||◌, ◌&&◌, not, eq_iff, eq_refl, Bool, true, false, Bool-cases, none, [],
  ◌∷◌, ◌≡◌, ◌≢◌, ◌↔◌, refl, ap, ◌∙◌, inl, inr, arith,
}
use managed_serviceaccount.Addon.{agent_role}
use managed_serviceaccount.Addon.Permission.{accounts_group, allows}
use text.Mathlib.TextLemmas.{append_cancel_left}
use managed_serviceaccount.Client.{Rest}
use managed_serviceaccount.Client.Requests.{
  http_get, Attributes, api_verb, api_resource, IsBuilder, Method, get, list, watch, create, update,
  update_status, delete, delete_collection, patch, sent, asked, shape, IsSendable, sent-shape,
}

module _ {S : Type 0} (R : Rest S) where
  -- The calls that are granted.
  abbrev pub IsForAgent : Method R → Type 0
  IsForAgent (get name options) = Unit {0}
  IsForAgent (list opts) = Unit {0}
  IsForAgent (watch opts) = Unit {0}
  IsForAgent (create msa opts) = ⊥
  IsForAgent (update msa opts) = ⊥
  IsForAgent (update_status msa opts) = Unit {0}
  IsForAgent (delete name opts) = ⊥
  IsForAgent (delete_collection opts list_opts) = ⊥
  IsForAgent (patch name t content opts []) = ⊥
  IsForAgent (patch name t content opts (part ∷ parts)) = part ≡ "status"

  abbrev pub is_in_rules : Attributes → Bool
  unfolding allows
  is_in_rules a =
      allows agent_role (api_verb a.http_verb a.name a.watching) accounts_group
        (api_resource a.resource a.sub_resources)

  -- Whether the role of the agent, which stands in the namespace of its cluster, grants a request with
  -- some attributes: it does so in that namespace only, and never for all namespaces.
  abbrev pub is_granted : String → Attributes → Bool
  is_granted cluster a = not (a.namespace == "") && (a.namespace == cluster && is_in_rules a)

  placed :
      (cluster ns : String) (b : Bool) {P : Type 0}
      → (b ≡ true) ↔ P
      → ((not (ns == "") && (ns == cluster && b)) ≡ true) ↔ ((ns ≢ "") × (ns ≡ cluster) × P)
  placed cluster ns b h = (
    λ g. (
      λ e. ground (arith, g, (eq_iff ns "").1 e),
      (eq_iff ns cluster).0 (ground (arith, g)),
      h.0 (ground (arith, g)),
    ),
    λ (there, same, p). elim (Bool-cases (ns == "")) [
      | inl blank_ns ↦ absurd (there ((eq_iff ns "").0 blank_ns))
      | inr set ↦ ground (arith, set, (eq_iff ns cluster).1 same, h.1 p)
    ],
  )

  yes : {b : Bool} → b ≡ true → (b ≡ true) ↔ Unit {0}
  yes e = (λ _. tt, λ _. e)

  no : {b : Bool} → b ≡ false → (b ≡ true) ↔ ⊥
  no e = (λ h. cc (e, h), λ h. absurd h)

  list_granted : (ns : String) (b : Bool) → is_in_rules (asked R ns http_get none [] b) ≡ true
  unfolding allows
  list_granted ns true = refl
  list_granted ns false = refl

  status_part :
      (part : String)
      → (("managedserviceaccounts" <> "/" <> part == "managedserviceaccounts/status") ≡ true)
        ↔ (part ≡ "status")
  status_part part = (
    λ h. append_cancel_left "/" part "status" (
        append_cancel_left "managedserviceaccounts" ("/" <> part) ("/" <> "status")
          ((eq_iff _ _).0 h)),
    λ e. rw e (eq_refl "managedserviceaccounts/status"),
  )

  or_false : (b : Bool) {P : Type 0} → (b ≡ true) ↔ P → ((b || false) ≡ true) ↔ P
  or_false true h = h
  or_false false h = h

  shape_granted : (ns : String) (m : Method R) → (is_in_rules (shape R ns m) ≡ true) ↔ IsForAgent m
  unfolding allows
  shape_granted ns (get name options) = yes refl
  shape_granted ns (list opts) = yes (list_granted ns opts.watch)
  shape_granted ns (watch opts) = yes refl
  shape_granted ns (create msa opts) = no refl
  shape_granted ns (update msa opts) = no refl
  shape_granted ns (update_status msa opts) = yes refl
  shape_granted ns (delete name opts) = no refl
  shape_granted ns (delete_collection opts list_opts) = no refl
  shape_granted ns (patch name t content opts []) = no refl
  shape_granted ns (patch name t content opts (part ∷ parts)) =
      or_false _ (or_false _ (status_part part))

  shape_place :
      (ns : String) (m : Method R)
      → ((shape R ns m).namespace ≡ ns) × ((shape R ns m).resource ≡ "managedserviceaccounts")
  shape_place ns (get name options) = (refl, refl)
  shape_place ns (list opts) = (refl, refl)
  shape_place ns (watch opts) = (refl, refl)
  shape_place ns (create msa opts) = (refl, refl)
  shape_place ns (update msa opts) = (refl, refl)
  shape_place ns (update_status msa opts) = (refl, refl)
  shape_place ns (delete name opts) = (refl, refl)
  shape_place ns (delete_collection opts list_opts) = (refl, refl)
  shape_place ns (patch name t content opts parts) = (refl, refl)

  -- Every request of the client, with arguments that name segments of a path, stays with the
  -- ManagedServiceAccounts of its namespace; and the role of the agent of a cluster grants it exactly if
  -- the namespace is that of the cluster, and the call is get, list, watch, update_status or a patch
  -- whose first subresource is the status.
  pub sent-IsForAgent :
      (L : IsBuilder R) (cluster ns : String) (m : Method R)
      → IsSendable R L ns m
      → ((L.attributes (sent R ns m)).namespace ≡ ns)
        × ((L.attributes (sent R ns m)).resource ≡ "managedserviceaccounts")
        × ((is_granted cluster (L.attributes (sent R ns m)) ≡ true)
            ↔ ((ns ≢ "") × (ns ≡ cluster) × IsForAgent m))
  sent-IsForAgent L cluster ns m sendable =
      let e = sent-shape R L ns m sendable in
      let (same_namespace, same_resource) = shape_place ns m in
      (
        ap (λ (a : Attributes). a.namespace) e ∙ same_namespace,
        ap (λ (a : Attributes). a.resource) e ∙ same_resource,
        rw (e, same_namespace) (placed cluster ns _ (shape_granted ns m)),
      )
