-- ===== src/Netip/Text.antt =====
-- netip.ParseAddr, netip.ParsePrefix and their String methods on IPv4 text. Text that Go reads as
-- IPv6 is `none` here: every caller rejects such an address as it rejects unreadable text.
pub mod RoundTrip
use nephos.Base.{
  ℕ, ◌+◌, ◌-◌, ◌*◌, ◌/◌, ◌%◌, Bool, true, false, ◌&&◌, ◌||◌, [], ◌∷◌, ◌++◌, Option, none, some, Str,
  leb, ltb, ◌==◌, if◌then◌else◌,
}
use nephos.Netip.Defs.{Addr, v4, Prefix, bits}

abbrev pub is_digit : ℕ → Bool
is_digit c = leb b'0' c && leb c b'9'

abbrev pub is_empty : Str → Bool
is_empty [] = true
is_empty (c ∷ s) = false

-- parseIPv4Fields: `val` and `dig` are the value and the digits of the current octet, `pos` the
-- octets before it and `acc` their number; `dig == 0` is "at the start or after a dot"
scan_v4 : Str → ℕ → ℕ → ℕ → ℕ → Option ℕ
scan_v4 [] val dig pos acc = if ltb pos 3 then none else some (acc * 256 + val)
scan_v4 (c ∷ s) val dig pos acc =
    let val' = val * 10 + (c - b'0') in
    let digit = scan_v4 s val' (dig + 1) pos acc in
    let dot = scan_v4 s 0 0 (pos + 1) (acc * 256 + val) in
    if is_digit c
    then (if (dig == 1 && val == 0) || ltb 255 val' then none else digit)
    else if c == b'.'
    then (if dig == 0 || is_empty s || pos == 3 then none else dot)
    else none

abbrev pub as_v4 : Option ℕ → Option Addr
as_v4 none = none
as_v4 (some a) = some (v4 a)

unfoldable pub parse_addr : Str → Option Addr
unfolding scan_v4
parse_addr s = as_v4 (scan_v4 s 0 0 0 0)

abbrev pub split_before : ℕ → Str → Option (Str × Str) → Option (Str × Str)
split_before c s (some (a, b)) = some (c ∷ a, b)
split_before c s none = if c == b'/' then some ([], s) else none

-- the text before and after the last slash
split_slash : Str → Option (Str × Str)
split_slash [] = none
split_slash (c ∷ s) = split_before c s (split_slash s)

decimal : Str → ℕ → Option ℕ
decimal [] n = some n
decimal (c ∷ s) n = let rest = decimal s (n * 10 + (c - b'0')) in if is_digit c then rest else none

-- the length: one digit, or more that do not begin with 0
parse_bits : Str → Option ℕ
unfolding decimal
parse_bits [] = none
parse_bits (c ∷ []) = decimal (c ∷ []) 0
parse_bits (c ∷ d ∷ s) = if leb b'1' c && leb c b'9' then decimal (c ∷ d ∷ s) 0 else none

abbrev pub make_prefix : Option Addr → Option ℕ → Option Prefix
make_prefix (some a) (some n) =
    if leb n 32 then some (record { addr = a; bits_plus_one = n + 1 }) else none
make_prefix _ _ = none

abbrev pub both_parts : Option (Str × Str) → Option Prefix
unfolding parse_addr parse_bits
both_parts none = none
both_parts (some (ip, len)) = make_prefix (parse_addr ip) (parse_bits len)

unfoldable pub parse_prefix : Str → Option Prefix
unfolding split_slash both_parts
parse_prefix s = both_parts (split_slash s)

-- appendDecimal of a uint8
print_u8 : ℕ → Str
print_u8 n =
    if leb 100 n
    then (b'0' + n / 100) ∷ (b'0' + n / 10 % 10) ∷ (b'0' + n % 10) ∷ []
    else if leb 10 n
    then (b'0' + n / 10 % 10) ∷ (b'0' + n % 10) ∷ []
    else (b'0' + n % 10) ∷ []

print_v4 : ℕ → Str
unfolding print_u8
print_v4 a =
    print_u8 (a / 16777216)
    ++ b'.'
      ∷ (print_u8 (a / 65536 % 256)
          ++ b'.' ∷ (print_u8 (a / 256 % 256) ++ b'.' ∷ print_u8 (a % 256)))

-- Addr.String of an IPv4 address (no caller prints another)
unfoldable pub print_addr : Addr → Str
unfolding print_v4
print_addr (v4 a) = print_v4 a
print_addr _ = []

-- Prefix.String
unfoldable pub print_prefix : Prefix → Str
unfolding print_addr bits
print_prefix p = print_addr p.addr ++ b'/' ∷ print_u8 (bits p)
