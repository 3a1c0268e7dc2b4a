-- ===== src/Netmac.antt =====
-- net.HardwareAddr of Go's standard library: net.ParseMAC and String.
use nephos.Base.{
  ℕ, ◌+◌, ◌-◌, ◌*◌, ◌/◌, ◌%◌, ◌<◌, ◌≡◌, ap, ◌∙◌, ◌&&◌, ◌||◌, Option, none, some, [], ◌∷◌, arith,
  ltb, leb, ◌==◌, if◌then◌else◌, length, All, Str,
}
use mathlib.Core.Path.{ap₂}

-- a hexadecimal digit of either case
unfoldable pub hex_value : ℕ → Option ℕ
hex_value c =
    if leb b'0' c && leb c b'9'
    then some (c - b'0')
    else if leb b'a' c && leb c b'f'
    then some (c - b'a' + 10)
    else if leb b'A' c && leb c b'F'
    then some (c - b'A' + 10)
    else none

abbrev pub octet_of : Option ℕ → Option ℕ → Option ℕ
octet_of (some h) (some l) = some (h * 16 + l)
octet_of _ _ = none

abbrev pub push_octet : Option ℕ → Option Str → Option Str
push_octet (some o) (some rest) = some (o ∷ rest)
push_octet _ _ = none

-- two digits an octet, with one separator between octets
unfoldable pub parse_pairs : ℕ → Str → Option Str
unfolding hex_value
parse_pairs sep [] = none
parse_pairs sep (h ∷ []) = none
parse_pairs sep (h ∷ l ∷ []) = push_octet (octet_of (hex_value h) (hex_value l)) (some [])
parse_pairs sep (h ∷ l ∷ c ∷ s) =
    let rest = parse_pairs sep s in
    if c == sep then push_octet (octet_of (hex_value h) (hex_value l)) rest else none

-- four digits a group, with dots between groups
unfoldable pub parse_quads : Str → Option Str
unfolding hex_value
parse_quads [] = none
parse_quads (a ∷ []) = none
parse_quads (a ∷ b ∷ []) = none
parse_quads (a ∷ b ∷ c ∷ []) = none
parse_quads (a ∷ b ∷ c ∷ d ∷ []) =
    push_octet (octet_of (hex_value a) (hex_value b))
      (push_octet (octet_of (hex_value c) (hex_value d)) (some []))
parse_quads (a ∷ b ∷ c ∷ d ∷ e ∷ s) =
    let rest = parse_quads s in
    if e == b'.'
    then push_octet (octet_of (hex_value a) (hex_value b))
        (push_octet (octet_of (hex_value c) (hex_value d)) rest)
    else none

abbrev pub known_length : Option Str → Option Str
known_length none = none
known_length (some mac) =
    if length mac == 6 || (length mac == 8 || length mac == 20) then some mac else none

abbrev pub third : Str → ℕ
third (a ∷ b ∷ c ∷ s) = c
third s = 0

-- net.ParseMAC
unfoldable pub parse_mac : Str → Option Str
unfolding parse_pairs parse_quads
parse_mac s =
    if third s == b':' || third s == b'-'
    then known_length (parse_pairs (third s) s)
    else known_length (parse_quads s)

abbrev pub hex_char : ℕ → ℕ
hex_char d = if ltb d 10 then b'0' + d else b'a' + (d - 10)

-- HardwareAddr.String
unfoldable pub print_mac : Str → Str
print_mac [] = []
print_mac (o ∷ []) = hex_char (o / 16) ∷ hex_char (o % 16) ∷ []
print_mac (o ∷ p ∷ mac) = hex_char (o / 16) ∷ hex_char (o % 16) ∷ b':' ∷ print_mac (p ∷ mac)

digit_back : (d : ℕ) → d < 16 → hex_value (hex_char d) ≡ some d
unfolding hex_value
digit_back d h = ground arith

octet_back :
    (o : ℕ)
    → o < 256
    → octet_of (hex_value (hex_char (o / 16))) (hex_value (hex_char (o % 16))) ≡ some o
octet_back o h =
    ap₂ octet_of (digit_back (o / 16) (omega arith)) (digit_back (o % 16) (omega arith))
    ∙ ap some (omega arith)

pairs_back :
    (o : ℕ) (mac : Str)
    → All (λ b. b < 256) (o ∷ mac)
    → parse_pairs b':' (print_mac (o ∷ mac)) ≡ some (o ∷ mac)
unfolding parse_pairs print_mac
pairs_back o [] (h, _) = rw (octet_back o h)
pairs_back o (p ∷ mac) (h, r) = rw (octet_back o h) (ap (push_octet (some o)) (pairs_back p mac r))

-- An address of six octets is read back from its text.
pub parse_mac-print_mac :
    (a b c d e f : ℕ)
    → All (λ o. o < 256) (a ∷ b ∷ c ∷ d ∷ e ∷ f ∷ [])
    → parse_mac (print_mac (a ∷ b ∷ c ∷ d ∷ e ∷ f ∷ [])) ≡ some (a ∷ b ∷ c ∷ d ∷ e ∷ f ∷ [])
unfolding parse_mac print_mac
parse_mac-print_mac a b c d e f h = ap known_length (pairs_back a (b ∷ c ∷ d ∷ e ∷ f ∷ []) h)
