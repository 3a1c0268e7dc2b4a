-- ===== src/Service/Ids.antt =====
-- internal/service/ids.go: resource identifiers.
use nephos.Base.{
  ℕ, ◌+◌, ◌-◌, ◌/◌, ◌%◌, ◌≡◌, refl, Bool, false, not, ◌&&◌, ◌||◌, Option, none, some, [], ◌∷◌, ◌++◌,
  ltb, leb, ◌==◌, if◌then◌else◌, length, take, Str, codes, Result, ok, err,
}
use nephos.Errors.{Error, failure, invalid_parameter}

abbrev pub id_char : ℕ → Bool
id_char c = (leb b'a' c && leb c b'z') || ((leb b'0' c && leb c b'9') || c == b'-')

-- the last byte is a dash, and those before it are letters, digits and dashes
unfoldable pub body_then_dash : Str → Bool
body_then_dash [] = false
body_then_dash (c ∷ []) = c == b'-'
body_then_dash (c ∷ d ∷ s) = id_char c && body_then_dash (d ∷ s)

abbrev pub starts_with_letter : Str → Bool
starts_with_letter [] = false
starts_with_letter (c ∷ s) = leb b'a' c && leb c b'z'

-- validIDPrefix
unfoldable pub valid_id_prefix : Str → Bool
unfolding body_then_dash
valid_id_prefix prefix =
    not (ltb (length prefix) 2) && (body_then_dash prefix && starts_with_letter prefix)

abbrev pub hex_digit : ℕ → ℕ
hex_digit d = if ltb d 10 then b'0' + d else b'a' + (d - 10)

-- hex.EncodeToString
unfoldable pub hex_encode : Str → Str
hex_encode [] = []
hex_encode (b ∷ s) = hex_digit (b / 16) ∷ hex_digit (b % 16) ∷ hex_encode s

-- NewID; the reader gives nine bytes or fails
unfoldable pub new_id : Str → Option Str → Result Error Str
unfolding hex_encode
new_id prefix random = if not (valid_id_prefix prefix) then err invalid_parameter else elim random [
  | none ↦ err failure
  | some entropy ↦ ok (prefix ++ take 17 (hex_encode entropy))
]

id_test :
    new_id (codes "i-") (some (0 ∷ 1 ∷ 2 ∷ 3 ∷ 4 ∷ 5 ∷ 6 ∷ 7 ∷ 255 ∷ []))
    ≡ ok (codes "i-0001020304050607f")
unfolding new_id valid_id_prefix
id_test = refl
