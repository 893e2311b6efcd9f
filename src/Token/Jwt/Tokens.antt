-- ===== src/Token/Jwt/Tokens.antt =====
-- What CheckUserInToken accepts.
use managed_serviceaccount.Prelude.{
  ℕ, String, true, false, some, [], ◌∷◌, ◌++◌, ◌≡◌, ◌↔◌, refl, ◌∙◌, ap, arith, eqb,
}
use managed_serviceaccount.Prelude.Dict.{Dict, lookup}
use managed_serviceaccount.Errors.{ok}
use managed_serviceaccount.Kube.{Bytes}
use managed_serviceaccount.Token.Jwt.{
  Library, IsLawful, Claim, text, username, split, decode_raw_url, check_parts, check_user_in_token,
}

-- No byte of the text is the separator.
abbrev pub Avoids : ℕ → Bytes → Type 0
Avoids sep [] = Unit
Avoids sep (c ∷ s) = (eqb c sep ≡ false) × Avoids sep s

-- The text of a token from its three parts.
abbrev pub join : Bytes → Bytes → Bytes → Bytes
join header payload signature = header ++ (b'.' ∷ (payload ++ (b'.' ∷ signature)))

split_whole : (sep : ℕ) (s : Bytes) → Avoids sep s → split sep s ≡ s ∷ []
unfolding split
split_whole sep [] h = refl
split_whole sep (c ∷ s) h = ground (arith, split_whole sep s h.1)

split-append :
    (sep : ℕ) (s rest : Bytes) → Avoids sep s → split sep (s ++ (sep ∷ rest)) ≡ s ∷ split sep rest
unfolding split
split-append sep [] rest h = ground arith
split-append sep (c ∷ s) rest h = ground (arith, split-append sep s rest h.1)

split-join :
    (header payload signature : Bytes)
    → Avoids b'.' header
    → Avoids b'.' payload
    → Avoids b'.' signature
    → split b'.' (join header payload signature) ≡ header ∷ payload ∷ signature ∷ []
split-join header payload signature h p s =
    split-append b'.' header (payload ++ (b'.' ∷ signature)) h
    ∙ ap (λ r. header ∷ r)
        (split-append b'.' payload signature p
          ∙ ap (λ r. payload ∷ r) (split_whole b'.' signature s))

-- A token of three parts whose payload is the encoding of JSON claims with a textual `sub` names the
-- service account exactly if `sub` is the user name of the service account, whatever the header, the
-- signature and the other claims are.
pub check_user_in_token_iff :
    (lib : Library) (lawful : IsLawful lib) (namespace name : String)
    (header payload signature json : Bytes) (claims : Dict Claim) (sub : String)
    → Avoids b'.' header
    → Avoids b'.' payload
    → Avoids b'.' signature
    → decode_raw_url payload ≡ some json
    → lib.unmarshal json ≡ ok claims
    → lookup "sub" claims ≡ some (text sub)
    → (check_user_in_token lib namespace name (join header payload signature) ≡ ok true)
      ↔ (sub ≡ username namespace name)
check_user_in_token_iff lib lawful namespace name header payload signature json claims sub h p s d u
      l =
    let e : check_parts lib namespace name (split b'.' (join header payload signature))
        ≡ ok (lib.matches_username namespace name sub) =
      ap (check_parts lib namespace name) (split-join header payload signature h p s)
      ∙ rw (d, u, l) refl in
    unfold check_user_in_token in ground (arith, e, lawful.matches_iff namespace name sub)
