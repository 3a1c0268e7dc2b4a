-- ===== src/Kernel/Decimals.antt =====
-- strconv.FormatInt and strconv.ParseInt in base 10, on 64 bits.
pub mod RoundTrip
use nephos.Base.{
  ℕ, zero, suc, ◌+◌, ◌-◌, ◌*◌, ◌/◌, ◌%◌, Bool, ◌&&◌, List, [], ◌∷◌, ◌++◌, Option, none, some, Str,
  leb, ltb, ◌==◌, if◌then◌else◌,
}
use nephos.Netip.Text.{is_digit}

-- an int64
pub data ℤ : Type 0 where
  pos : ℕ → ℤ
  negsuc : ℕ → ℤ

-- the digits of a number below 10 ^ digits
unfoldable pub format_digits : ℕ → ℕ → Str
format_digits zero n = []
format_digits (suc digits) n =
    let high = format_digits digits (n / 10) in
    if ltb n 10 then (b'0' + n) ∷ [] else high ++ (b'0' + n % 10) ∷ []

-- FormatInt: a 64-bit number has at most 20 digits
unfoldable pub format_int : ℤ → Str
format_int (pos n) = format_digits 20 n
format_int (negsuc n) = b'-' ∷ format_digits 20 (n + 1)

-- the value of the digits that follow `n`
unfoldable pub parse_digits : Str → ℕ → Option ℕ
parse_digits [] n = some n
parse_digits (c ∷ s) n =
    let rest = parse_digits s (n * 10 + (c - b'0')) in if is_digit c then rest else none

abbrev pub unsigned : Str → Option ℕ
unsigned [] = none
unsigned (c ∷ s) = parse_digits (c ∷ s) 0

abbrev pub positive : Option ℕ → Option ℤ
positive none = none
positive (some n) = if ltb n 9223372036854775808 then some (pos n) else none

abbrev pub negated : ℕ → ℤ
negated zero = pos 0
negated (suc n) = negsuc n

abbrev pub negative : Option ℕ → Option ℤ
negative none = none
negative (some n) = if leb n 9223372036854775808 then some (negated n) else none

-- ParseInt
unfoldable pub parse_int : Str → Option ℤ
parse_int [] = none
parse_int (c ∷ s) =
    if c == b'-'
    then negative (unsigned s)
    else if c == b'+'
    then positive (unsigned s)
    else positive (unsigned (c ∷ s))
