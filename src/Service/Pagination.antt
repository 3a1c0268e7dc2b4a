-- ===== src/Service/Pagination.antt =====
-- internal/service/pagination.go: page sizes and cursors. The body of a token is base64url text.
pub mod Base64
pub mod Tokens
use nephos.Base.{
  ℕ, zero, suc, Bool, false, ◌&&◌, ◌||◌, Option, none, some, [], ◌∷◌, ◌++◌, ltb, leb, ◌==◌,
  if◌then◌else◌, length, all, Str, codes, str_eq, cut_prefix, Result, ok, err,
}
use nephos.Errors.{Error, invalid_parameter}
use nephos.Service.Pagination.Base64.{encode, decode}

-- pageSize; a limit is an int, of which the negative ones are `none`
unfoldable pub page_size : Option ℕ → Result Error ℕ
page_size none = err invalid_parameter
page_size (some limit) =
    if limit == 0
    then ok 50
    else if ltb limit 1 || ltb 100 limit
    then err invalid_parameter
    else ok limit

-- encodePageToken
unfoldable pub encode_page_token : Str → Str → Str
encode_page_token kind last_id = encode (kind ++ b':' ∷ last_id)

abbrev pub hex_char : ℕ → Bool
hex_char c = (leb b'0' c && leb c b'9') || (leb b'a' c && leb c b'f')

abbrev pub id_prefix : Str → Str
id_prefix kind = if str_eq kind (codes "instance") then codes "i-" else kind ++ b'-' ∷ []

abbrev pub valid_suffix : Option Str → Bool
valid_suffix none = false
valid_suffix (some rest) = (length rest == 17) && all hex_char rest

-- validPageID
unfoldable pub valid_page_id : Str → Str → Bool
valid_page_id kind id = valid_suffix (cut_prefix (id_prefix kind) id)

abbrev pub checked_id : Str → Option Str → Result Error Str
checked_id kind none = err invalid_parameter
checked_id kind (some id) = if valid_page_id kind id then ok id else err invalid_parameter

abbrev pub decoded_id : Str → Option Str → Result Error Str
decoded_id kind none = err invalid_parameter
decoded_id kind (some value) = checked_id kind (cut_prefix (kind ++ b':' ∷ []) value)

-- decodePageToken
unfoldable pub decode_page_token : Str → Str → Result Error Str
decode_page_token kind [] = ok []
decode_page_token kind (c ∷ token) = decoded_id kind (decode (c ∷ token))
