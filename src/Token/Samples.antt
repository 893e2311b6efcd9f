-- ===== src/Token/Samples.antt =====
-- Runs of the token controller over the cluster in memory, and its theorems at concrete data.
use managed_serviceaccount.Prelude.{
  ◌+◌, ◌-◌, ◌*◌, ◌/◌, ◌%◌, String, ◌==◌, true, false, Option, none, some, [], ◌∷◌, ◌≡◌, ◌↔◌, refl,
  arith, ltb, eq_iff, if◌then◌else◌,
}
use managed_serviceaccount.Prelude.Int.{pos, ◌+ℤ◌, ◌-ℤ◌, wrap64, scale, quo, saturate64}
use managed_serviceaccount.Prelude.Dict.{lookup}
use managed_serviceaccount.Gotime.{second, add}
use managed_serviceaccount.Errors.{Result, ok, err, message, is_not_found, is_already_exists}
use managed_serviceaccount.Effect.{next, attempted, wrapped}
use managed_serviceaccount.Effect.Triple.{Ends}
use managed_serviceaccount.Kube.{Bytes, Key, ObjectMeta, Secret, Outcome}
use managed_serviceaccount.Api.{
  ManagedServiceAccount, Status-discrete, label_key_is_managed_service_account,
}
use managed_serviceaccount.Token.Cluster.Laws.{IsKeyed}
use managed_serviceaccount.Token.Memory.{Memory, put_condition, memory, memory-IsLawful, library}
use managed_serviceaccount.Token.Jwt.{text, check_user_in_token, decode_raw_url, username}
use managed_serviceaccount.Token.Jwt.Tokens.{join, check_user_in_token_iff}
use managed_serviceaccount.Token.Rotation.{
  token_of, exceed_threshold, check_token_refresh_after, should_create_update_token_secret,
}
use managed_serviceaccount.Token.Rotation.Threshold.{
  exceed_threshold-fifth, check_token_refresh_after-due,
}
use managed_serviceaccount.Token.Rotation.Decision.{Good, keeps_Good}
use managed_serviceaccount.Token.Sync.{Config, spoke_key}
use managed_serviceaccount.Token.Sync.Malformed.{IsMalformed}
use managed_serviceaccount.Token.Reconcile.{no_requeue, reconcile}
use managed_serviceaccount.Token.Reconcile.Absent.{without_managed, reconcile-absent}
use managed_serviceaccount.Token.Reconcile.Malformed.{reconcile-malformed}

abbrev pub config : Config
config = record { spoke_namespace = "agent"; cluster_name = "c1"; ca_data = 7 ∷ []; ca_file = "" }

abbrev pub request : Key
request = record { namespace = "c1"; name = "m" }

abbrev pub meta : String → String → ObjectMeta
meta namespace name = record {
  namespace = namespace;
  name = name;
  uid = "u";
  labels = (label_key_is_managed_service_account, "true") ∷ [];
  owner_references = [];
  creation_timestamp = pos 0;
}

-- refreshed at 0 for 100 seconds
abbrev pub recorded : ManagedServiceAccount
recorded = record {
  metadata = meta "c1" "m";
  spec = record {
    rotation = record { enabled = true; validity = pos (100 * second) };
    ttl_seconds_after_creation = none;
  };
  status = record {
    conditions = [];
    expiration_timestamp = some (pos (100 * second));
    token_secret_ref = some (record { name = "m"; last_refresh_timestamp = pos 0 });
  };
}

abbrev pub secret_with : Bytes → Secret
secret_with token = record {
  metadata = meta "c1" "m";
  secret_type = "Opaque";
  content = ("token", token) ∷ [];
}

-- "h.e30.s", whose payload is "{}"
abbrev pub good_token : Bytes
good_token = b'h' ∷ b'.' ∷ b'e' ∷ b'3' ∷ b'0' ∷ b'.' ∷ b's' ∷ []

abbrev pub only {ℓ} : {A : Type ℓ} → Key → A → Key → Option A
only k a j =
    if j.namespace == k.namespace then (if j.name == k.name then some a else none) else none

abbrev pub world : Bytes → Memory
world token = record {
  held = record {
    accounts = only request recorded;
    secrets = only request (secret_with token);
    spoke_accounts = λ _. none;
  };
  clock = pos (10 * second);
}

-- The ManagedServiceAccount is gone, its service account is left.
abbrev orphaned : Memory
orphaned = record {
  held = record {
    accounts = λ _. none;
    secrets = λ _. none;
    spoke_accounts = only (spoke_key config "m") (record { metadata = meta "agent" "m" });
  };
  clock = pos 0;
}

abbrev pub user : String
user = username "agent" "m"

payload : decode_raw_url (b'e' ∷ b'3' ∷ b'0' ∷ []) ≡ some (b'{' ∷ b'}' ∷ [])
unfolding decode_raw_url
payload = refl

pub world-IsKeyed : (token : Bytes) → IsKeyed (world token).held
world-IsKeyed token = record {
  accounts = λ k x h. ground (arith, eq_iff k.namespace "c1", eq_iff k.name "m", h);
  secrets = λ k x h. ground (arith, eq_iff k.namespace "c1", eq_iff k.name "m", h);
}

run : Memory → Result Outcome × Memory
unfolding reconcile Status-discrete next attempted wrapped is_not_found is_already_exists
    check_user_in_token ◌+ℤ◌ ◌-ℤ◌ wrap64 scale quo saturate64 put_condition
run = reconcile (memory user good_token) config request

run_absent : (run orphaned).1.held.spoke_accounts (spoke_key config "m") ≡ none
unfolding run
run_absent = refl

-- Due 80 seconds after the refresh, checked at 10 seconds: the next check is 75 seconds later.
run_good :
    (run (world good_token)).0 ≡ ok (record { requeue = false; requeue_after = pos (75 * second) })
unfolding run
run_good = refl

reconcile-absent_example :
    Ends
      (λ out t.
        (out ≡ no_requeue) × (t.held ≡ without_managed orphaned.held (spoke_key config "m")))
      (λ _ t. t.held ≡ orphaned.held)
      (reconcile (memory user good_token) config request orphaned)
reconcile-absent_example =
    reconcile-absent (memory user good_token) config (memory-IsLawful user good_token) request
      orphaned refl

abbrev bad_token : Bytes
bad_token = b'x' ∷ []

bad_is_refused :
    check_user_in_token (memory user good_token).jwt "agent" "m" bad_token
    ≡ err (message "invalid JWT token format")
unfolding check_user_in_token
bad_is_refused = refl

bad-IsMalformed :
    IsMalformed
      (memory user good_token)
      config
      recorded
      (secret_with bad_token)
      (message "invalid JWT token format")
unfolding token_of
bad-IsMalformed = record {
  ref = record { name = "m"; last_refresh_timestamp = pos 0 };
  expiring = pos (100 * second);
  ref_recorded = refl;
  expiring_recorded = refl;
  refused = bad_is_refused;
}

reconcile-malformed_example :
    Ends
      (λ _ _. ⊥)
      (λ _ t. t.held.secrets ≡ (world bad_token).held.secrets)
      (reconcile (memory user good_token) config request (world bad_token))
reconcile-malformed_example =
    reconcile-malformed (memory user good_token) config (memory-IsLawful user good_token) request
      recorded (secret_with bad_token) (message "invalid JWT token format") bad-IsMalformed
      (world bad_token) (world-IsKeyed bad_token) refl refl

keeps_Good_example :
    ((should_create_update_token_secret
        (memory user good_token)
        "agent"
        recorded
        (some (secret_with good_token))
        (world good_token)).0
      ≡ ok false)
    ↔ Good
        (memory user good_token)
        "agent"
        recorded
        (some (secret_with good_token))
        (world good_token)
keeps_Good_example =
    keeps_Good (memory user good_token) "agent" recorded (some (secret_with good_token))
      (world good_token)

exceed_threshold-fifth_example :
    (exceed_threshold (pos 81) (pos 0 +ℤ pos 100) (pos 0)).0 ≡ ltb 19 (100 / 5 + 100 % 5)
exceed_threshold-fifth_example =
    exceed_threshold-fifth (pos 81) (pos 0) 100 19 (omega arith) (unfold ◌+ℤ◌ in refl)

check_token_refresh_after-due_example :
    (check_token_refresh_after (pos 0 +ℤ pos 10) (pos 0 +ℤ pos 100) (pos 0)
      ≡ pos (100 / 5 * 4 - 10 + 5 * second))
    × ((exceed_threshold
          (add
            (pos 0 +ℤ pos 10)
            (check_token_refresh_after (pos 0 +ℤ pos 10) (pos 0 +ℤ pos 100) (pos 0)))
          (pos 0 +ℤ pos 100)
          (pos 0)).0
        ≡ true)
check_token_refresh_after-due_example = check_token_refresh_after-due (pos 0) 100 10 (omega arith)

check_user_in_token_iff_example :
    (check_user_in_token
        (library user)
        "agent"
        "m"
        (join (b'h' ∷ []) (b'e' ∷ b'3' ∷ b'0' ∷ []) (b's' ∷ []))
      ≡ ok true)
    ↔ (user ≡ username "agent" "m")
check_user_in_token_iff_example =
    check_user_in_token_iff (library user)
      (record { matches_iff = λ namespace name u. eq_iff u (username namespace name) }) "agent" "m"
      (b'h' ∷ []) (b'e' ∷ b'3' ∷ b'0' ∷ []) (b's' ∷ []) (b'{' ∷ b'}' ∷ []) (("sub", text user) ∷ [])
      user (refl, tt) (refl, (refl, (refl, tt))) (refl, tt) payload refl (unfold lookup in refl)
