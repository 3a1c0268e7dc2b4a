-- ===== src/Service/Names.antt =====
-- ValidateName of internal/service/validate.go and validateIdempotencyKey of
-- internal/service/idempotency.go, with Go's utf8 decoding and the unicode classes that they use.
use nephos.Base.{
  ℕ, ◌+◌, ◌-◌, ◌*◌, ◌≡◌, refl, Bool, not, ◌&&◌, ◌||◌, Option, none, some, List, [], ◌∷◌, ◌++◌, ltb,
  leb, ◌==◌, if◌then◌else◌, length, any, Str, codes, Result, ok, err,
}
use mathlib.Core.List.{reverse}
use nephos.Errors.{Error, invalid_parameter}

-- a code point and the bytes that encode it
pub record Rune : Type 0 where
  pub value : ℕ
  pub bytes : Str

-- a sequence that has begun: the continuation bytes it wants, and the range of the next one
record Partial : Type 0 where
  need : ℕ
  low : ℕ
  high : ℕ
  value : ℕ
  bytes : Str

abbrev idle : Partial
idle = record { need = 0; low = 0; high = 0; value = 0; bytes = [] }

abbrev begin : ℕ → ℕ → ℕ → ℕ → ℕ → Option Partial
begin need low high value c =
    some (record { need = need; low = low; high = high; value = value; bytes = c ∷ [] })

-- the first byte of a sequence of two, three or four
lead_byte : ℕ → Option Partial
lead_byte c =
    if leb 0xc2 c && leb c 0xdf
    then begin 1 0x80 0xbf (c - 0xc0) c
    else if c == 0xe0
    then begin 2 0xa0 0xbf 0 c
    else if c == 0xed
    then begin 2 0x80 0x9f 13 c
    else if leb 0xe1 c && leb c 0xef
    then begin 2 0x80 0xbf (c - 0xe0) c
    else if c == 0xf0
    then begin 3 0x90 0xbf 0 c
    else if leb 0xf1 c && leb c 0xf3
    then begin 3 0x80 0xbf (c - 0xf0) c
    else if c == 0xf4
    then begin 3 0x80 0x8f 4 c
    else none

abbrev take_byte : ℕ → Partial → Partial
take_byte c p = record {
  need = p.need - 1;
  low = 0x80;
  high = 0xbf;
  value = p.value * 64 + (c - 0x80);
  bytes = p.bytes ++ c ∷ [];
}

abbrev push_rune : ℕ → Str → Option (List Rune) → Option (List Rune)
push_rune v b none = none
push_rune v b (some rs) = some (record { value = v; bytes = b } ∷ rs)

-- the code points of valid UTF-8, or none
scan_utf8 : Str → Partial → Option (List Rune)
unfolding lead_byte
scan_utf8 [] p = if p.need == 0 then some [] else none
scan_utf8 (c ∷ s) p =
    let single = push_rune c (c ∷ []) (scan_utf8 s idle) in
    let opened : Option (List Rune) = elim (lead_byte c) [ none ↦ none | some q ↦ scan_utf8 s q ] in
    let whole = push_rune (take_byte c p).value (take_byte c p).bytes (scan_utf8 s idle) in
    let more = scan_utf8 s (take_byte c p) in
    if p.need == 0
    then (if ltb c 0x80 then single else opened)
    else if not (leb p.low c && leb c p.high)
    then none
    else if p.need == 1
    then whole
    else more

-- utf8.ValidString and the `range` over a string
pub runes : Str → Option (List Rune)
unfolding scan_utf8
runes s = scan_utf8 s idle

-- unicode.IsSpace
is_space : ℕ → Bool
is_space v =
    (leb 9 v && leb v 13)
    || (v == 0x20
        || (v == 0x85
            || (v == 0xa0
                || (v == 0x1680
                    || ((leb 0x2000 v && leb v 0x200a)
                        || (v == 0x2028
                            || (v == 0x2029 || (v == 0x202f || (v == 0x205f || v == 0x3000)))))))))

-- unicode.IsControl
unfoldable pub is_control : ℕ → Bool
is_control v = ltb v 0x20 || (leb 0x7f v && ltb v 0xa0)

drop_spaces : List Rune → List Rune
unfolding is_space
drop_spaces [] = []
drop_spaces (r ∷ rs) = let rest = drop_spaces rs in if is_space r.value then rest else r ∷ rs

-- strings.TrimSpace
pub trim_space : List Rune → List Rune
unfolding drop_spaces
trim_space rs = reverse (drop_spaces (reverse (drop_spaces rs)))

pub bytes_of : List Rune → Str
bytes_of [] = []
bytes_of (r ∷ rs) = r.bytes ++ bytes_of rs

-- the checks on the trimmed name
check_name : List Rune → Result Error Str
unfolding bytes_of is_control
check_name rs =
    if ltb (length rs) 1 || ltb 255 (length rs)
    then err invalid_parameter
    else if any (λ r. is_control r.value) rs
    then err invalid_parameter
    else ok (bytes_of rs)

abbrev check_runes : Option (List Rune) → Result Error Str
unfolding check_name trim_space
check_runes none = err invalid_parameter
check_runes (some rs) = check_name (trim_space rs)

-- ValidateName
unfoldable pub validate_name : Str → Result Error Str
unfolding check_runes runes
validate_name raw = check_runes (runes raw)

abbrev check_key_runes : Option (List Rune) → Result Error (Unit {0})
unfolding is_control
check_key_runes none = err invalid_parameter
check_key_runes (some rs) =
    if any (λ r. is_control r.value) rs then err invalid_parameter else ok tt

-- validateIdempotencyKey
unfoldable pub validate_idempotency_key : Str → Result Error (Unit {0})
unfolding check_key_runes runes
validate_idempotency_key [] = ok tt
validate_idempotency_key (c ∷ s) =
    if ltb 255 (length (c ∷ s)) then err invalid_parameter else check_key_runes (runes (c ∷ s))

name_test : validate_name (codes "  web-1 ") ≡ ok (codes "web-1")
unfolding validate_name
name_test = refl
