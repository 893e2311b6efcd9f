-- ===== src/Token/Jwt.antt =====
-- CheckUserInToken of pkg/addon/agent/controller/token.go, with the parts of Go's strings and
-- encoding/base64 that it calls. JSON and the user name test of k8s.io/apiserver are parameters.
pub mod Tokens
use managed_serviceaccount.Prelude.{
  ℕ, ◌+◌, ◌-◌, ◌*◌, ◌/◌, ◌%◌, String, ◌<>◌, ◌≡◌, ◌↔◌, Bool, true, ◌&&◌, ◌||◌,
}
use managed_serviceaccount.Prelude.{Option, none, some, List, [], ◌∷◌, leb, eqb, if◌then◌else◌}
use managed_serviceaccount.Prelude.Dict.{Dict, lookup}
use managed_serviceaccount.Errors.{Result, ok, err, message, wrap}
use managed_serviceaccount.Kube.{Bytes}

-- A value of a map[string]interface{}: a string, or anything else.
pub data Claim : Type 0 where
  text : String → Claim
  other : Claim

-- json.Unmarshal into a map[string]interface{}, and serviceaccount.MatchesUsername.
pub record Library : Type 0 where
  pub unmarshal : Bytes → Result (Dict Claim)
  pub matches_username : String → String → String → Bool

-- The user name of a service account, as the API server spells it.
abbrev pub username : String → String → String
username namespace name = "system:serviceaccount:" <> namespace <> ":" <> name

-- MatchesUsername accepts exactly the user name of the service account.
pub record IsLawful (lib : Library) : Type 0 where
  pub matches_iff :
      (namespace name user : String)
      → (lib.matches_username namespace name user ≡ true) ↔ (user ≡ username namespace name)

abbrev onto : ℕ → List Bytes → List Bytes
onto c [] = (c ∷ []) ∷ []
onto c (part ∷ parts) = (c ∷ part) ∷ parts

-- strings.Split with a separator of one byte
unfoldable pub split : ℕ → Bytes → List Bytes
split sep [] = [] ∷ []
split sep (c ∷ s) = let rest = split sep s in if eqb c sep then [] ∷ rest else onto c rest

-- The value of a digit of the URL alphabet.
unfoldable pub sextet : ℕ → Option ℕ
sextet c =
    if leb b'A' c && leb c b'Z'
    then some (c - b'A')
    else if leb b'a' c && leb c b'z'
    then some (c - b'a' + 26)
    else if leb b'0' c && leb c b'9'
    then some (c - b'0' + 52)
    else if eqb c b'-'
    then some 62
    else if eqb c b'_'
    then some 63
    else none

abbrev both : Option ℕ → Option (List ℕ) → Option (List ℕ)
both (some d) (some ds) = some (d ∷ ds)
both _ _ = none

-- The digits of a text; line ends are passed over.
sextets : Bytes → Option (List ℕ)
unfolding sextet
sextets [] = some []
sextets (c ∷ s) =
    let rest = sextets s in if eqb c 10 || eqb c 13 then rest else both (sextet c) rest

-- Four digits make three bytes; two or three digits at the end make one or two, and one is refused.
octets : List ℕ → Option Bytes
octets [] = some []
octets (a ∷ []) = none
octets (a ∷ b ∷ []) = some ((a * 4 + b / 16) ∷ [])
octets (a ∷ b ∷ c ∷ []) = some ((a * 4 + b / 16) ∷ (b % 16 * 16 + c / 4) ∷ [])
octets (a ∷ b ∷ c ∷ d ∷ s) = elim (octets s) [
  | none ↦ none
  | some rest ↦ some ((a * 4 + b / 16) ∷ (b % 16 * 16 + c / 4) ∷ (c % 4 * 64 + d) ∷ rest)
]

-- base64.RawURLEncoding.DecodeString
unfoldable pub decode_raw_url : Bytes → Option Bytes
unfolding sextets octets
decode_raw_url s = elim (sextets s) [ none ↦ none | some ds ↦ octets ds ]

module _ (lib : Library) (namespace name : String) where
  -- claims["sub"].(string)
  abbrev check_claim : Option Claim → Result Bool
  check_claim (some (text sub)) = ok (lib.matches_username namespace name sub)
  check_claim _ = err (message "sub claim not found in token claims")

  abbrev check_claims : Result (Dict Claim) → Result Bool
  check_claims (err e) = err (wrap "failed to unmarshal claims" e)
  check_claims (ok claims) = check_claim (lookup "sub" claims)

  abbrev check_payload : Option Bytes → Result Bool
  check_payload none = err (wrap "failed to decode payload" (message "illegal base64 data"))
  check_payload (some payload) = check_claims (lib.unmarshal payload)

  abbrev check_parts : List Bytes → Result Bool
  check_parts (header ∷ payload ∷ signature ∷ []) = check_payload (decode_raw_url payload)
  check_parts _ = err (message "invalid JWT token format")

  unfoldable pub check_user_in_token : Bytes → Result Bool
  unfolding split decode_raw_url lookup
  check_user_in_token token = check_parts (split b'.' token)
