-- ===== src/Addon/Base64.antt =====
-- base64.StdEncoding.EncodeToString, and that its texts can be read back.
use managed_serviceaccount.Prelude.{
  ℕ, ◌&&◌, ◌+◌, ◌-◌, ◌*◌, ◌/◌, ◌%◌, ◌<◌, false, [], ◌∷◌, ◌≡◌, refl, ap, arith, leb, eqb,
  if◌then◌else◌,
}
use managed_serviceaccount.Kube.{Bytes}

-- The character of a digit of the standard alphabet.
unfoldable pub letter : ℕ → ℕ
letter d =
    if leb d 25
    then d + b'A'
    else if leb d 51
    then d - 26 + b'a'
    else if leb d 61
    then d - 52 + b'0'
    else if eqb d 62
    then b'+'
    else b'/'

-- Three bytes make four letters; one or two at the end are filled up by `=`.
unfoldable pub encode_std : Bytes → Bytes
unfolding letter
encode_std [] = []
encode_std (a ∷ []) = letter (a / 4) ∷ letter (a % 4 * 16) ∷ b'=' ∷ b'=' ∷ []
encode_std (a ∷ b ∷ []) =
    letter (a / 4) ∷ letter (a % 4 * 16 + b / 16) ∷ letter (b % 16 * 4) ∷ b'=' ∷ []
encode_std (a ∷ b ∷ c ∷ s) =
    letter (a / 4)
    ∷ letter (a % 4 * 16 + b / 16)
    ∷ letter (b % 16 * 4 + c / 64)
    ∷ letter (c % 64)
    ∷ encode_std s

-- The digit of a letter.
abbrev pub digit : ℕ → ℕ
digit c =
    if leb b'A' c && leb c b'Z'
    then c - b'A'
    else if leb b'a' c && leb c b'z'
    then c - b'a' + 26
    else if leb b'0' c && leb c b'9'
    then c - b'0' + 52
    else if eqb c b'+'
    then 62
    else 63

-- The bytes of four letters: one or two for letters that end in `=`.
abbrev pub four : ℕ → ℕ → ℕ → ℕ → Bytes → Bytes
four a b c d rest =
    if eqb c b'='
    then (digit a * 4 + digit b / 16) ∷ []
    else if eqb d b'='
    then (digit a * 4 + digit b / 16) ∷ (digit b % 16 * 16 + digit c / 4) ∷ []
    else (digit a * 4 + digit b / 16)
      ∷ (digit b % 16 * 16 + digit c / 4)
      ∷ (digit c % 4 * 64 + digit d)
      ∷ rest

-- The reading of a text of letters in fours, as RFC 4648 describes it.
pub decode_std : Bytes → Bytes
decode_std (a ∷ b ∷ c ∷ d ∷ s) = four a b c d (decode_std s)
decode_std _ = []

abbrev pub AreBytes : Bytes → Type 0
AreBytes [] = Unit
AreBytes (c ∷ s) = (c < 256) × AreBytes s

digit-letter : (d : ℕ) → d < 64 → digit (letter d) ≡ d
unfolding letter
digit-letter d h = ground arith

letter-ne-pad : (d : ℕ) → eqb (letter d) b'=' ≡ false
unfolding letter
letter-ne-pad d = ground arith

pair_eq :
    {a b a' b' : ℕ} {s s' : Bytes}
    → a ≡ a'
    → b ≡ b'
    → s ≡ s'
    → ◌≡◌ {A = Bytes} (a ∷ b ∷ s) (a' ∷ b' ∷ s')
pair_eq e f g i = e i ∷ f i ∷ g i

-- The text of an encoding reads back as the bytes that were encoded.
pub decode_std-encode_std : (s : Bytes) → AreBytes s → decode_std (encode_std s) ≡ s
unfolding encode_std decode_std
decode_std-encode_std [] h = refl
decode_std-encode_std (a ∷ []) h =
    rw (digit-letter (a / 4) (omega arith), digit-letter (a % 4 * 16) (omega arith))
      (ap (λ n. n ∷ []) (omega arith))
decode_std-encode_std (a ∷ b ∷ []) h =
    rw
      (
        letter-ne-pad (b % 16 * 4),
        digit-letter (a / 4) (omega arith),
        digit-letter (a % 4 * 16 + b / 16) (omega arith),
        digit-letter (b % 16 * 4) (omega arith),
      )
      (pair_eq (omega arith) (omega arith) refl)
decode_std-encode_std (a ∷ b ∷ c ∷ s) h =
    rw
      (
        letter-ne-pad (b % 16 * 4 + c / 64),
        letter-ne-pad (c % 64),
        digit-letter (a / 4) (omega arith),
        digit-letter (a % 4 * 16 + b / 16) (omega arith),
        digit-letter (b % 16 * 4 + c / 64) (omega arith),
        digit-letter (c % 64) (omega arith),
        decode_std-encode_std s h.1.1.1,
      )
      (pair_eq (omega arith) (omega arith) (ap (λ n. n ∷ s) (omega arith)))
