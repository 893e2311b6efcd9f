-- ===== src/Profile/Cred/Names.antt =====
-- The names of synced secrets.
use managed_serviceaccount.Prelude.{String, ◌<>◌, ◌≡◌, ◌≢◌}
use text.Mathlib.TextLemmas.{append_cancel_left, append-eq-nil_iff}
use managed_serviceaccount.Profile.Cred.{synced_name}

-- Within the namespace of one cluster, two accounts have two names of synced secrets.
pub synced_name_injective :
    (namespace a b : String) → synced_name namespace a ≡ synced_name namespace b → a ≡ b
unfolding synced_name
synced_name_injective namespace a b h =
    append_cancel_left "-" a b (append_cancel_left namespace ("-" <> a) ("-" <> b) h)

pub synced_name_ne : (namespace name : String) → synced_name namespace name ≢ ""
unfolding synced_name
synced_name_ne namespace name h =
    let dash : "-" ≡ "" = (append-eq-nil_iff.0 (append-eq-nil_iff.0 h).1).0 in cc (dash)
