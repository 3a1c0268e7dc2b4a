-- ===== src/Service/Pagination/Base64.antt =====
-- encoding/base64, RawURLEncoding: groups of three bytes as four characters, no padding. The decoder
-- skips line breaks and ignores the unused bits of the last character.
use nephos.Base.{
  ℕ, ◌+◌, ◌-◌, ◌*◌, ◌/◌, ◌%◌, ◌<◌, ◌≡◌, refl, ap, ◌∙◌, false, ◌&&◌, ◌||◌, Option, none, some, List,
  [], ◌∷◌, arith, ltb, leb, ◌==◌, if◌then◌else◌, All, Str, codes,
}

char_of : ℕ → ℕ
char_of n =
    if ltb n 26
    then b'A' + n
    else if ltb n 52
    then b'a' + (n - 26)
    else if ltb n 62
    then b'0' + (n - 52)
    else if n == 62
    then b'-'
    else b'_'

sextet_of : ℕ → Option ℕ
sextet_of c =
    if leb b'A' c && leb c b'Z'
    then some (c - b'A')
    else if leb b'a' c && leb c b'z'
    then some (c - b'a' + 26)
    else if leb b'0' c && leb c b'9'
    then some (c - b'0' + 52)
    else if c == b'-'
    then some 62
    else if c == b'_'
    then some 63
    else none

unfoldable pub encode : Str → Str
unfolding char_of
encode [] = []
encode (a ∷ []) = char_of (a / 4) ∷ char_of (a % 4 * 16) ∷ []
encode (a ∷ b ∷ []) = char_of (a / 4) ∷ char_of (a % 4 * 16 + b / 16) ∷ char_of (b % 16 * 4) ∷ []
encode (a ∷ b ∷ c ∷ s) =
    char_of (a / 4)
    ∷ char_of (a % 4 * 16 + b / 16)
    ∷ char_of (b % 16 * 4 + c / 64)
    ∷ char_of (c % 64)
    ∷ encode s

abbrev push_sextet : Option ℕ → Option (List ℕ) → Option (List ℕ)
push_sextet (some n) (some ns) = some (n ∷ ns)
push_sextet _ _ = none

sextets : Str → Option (List ℕ)
unfolding sextet_of
sextets [] = some []
sextets (c ∷ s) =
    let rest = sextets s in if c == 10 || c == 13 then rest else push_sextet (sextet_of c) rest

abbrev push_three : ℕ → ℕ → ℕ → Option Str → Option Str
push_three a b c none = none
push_three a b c (some s) = some (a ∷ b ∷ c ∷ s)

-- a single character at the end is an error
group : List ℕ → Option Str
group [] = some []
group (p ∷ []) = none
group (p ∷ q ∷ []) = some ((p * 4 + q / 16) ∷ [])
group (p ∷ q ∷ r ∷ []) = some ((p * 4 + q / 16) ∷ (q % 16 * 16 + r / 4) ∷ [])
group (p ∷ q ∷ r ∷ t ∷ s) =
    push_three (p * 4 + q / 16) (q % 16 * 16 + r / 4) (r % 4 * 64 + t) (group s)

abbrev group_all : Option (List ℕ) → Option Str
unfolding group
group_all none = none
group_all (some ns) = group ns

unfoldable pub decode : Str → Option Str
unfolding sextets group_all
decode s = group_all (sextets s)

base64_test : encode (codes "vpc:vpc-1") ≡ codes "dnBjOnZwYy0x"
unfolding encode
base64_test = refl

char_of_back :
    (n : ℕ)
    → n < 64
    → (sextet_of (char_of n) ≡ some n) × ((char_of n == 10 || char_of n == 13) ≡ false)
unfolding char_of sextet_of
char_of_back n h = (ground arith, ground arith)

sextets-char :
    (n : ℕ) (s : Str) {ns : List ℕ}
    → n < 64
    → sextets s ≡ some ns
    → sextets (char_of n ∷ s) ≡ some (n ∷ ns)
unfolding sextets
sextets-char n s h e = let (p, q) = char_of_back n h in rw (q, p, e)

sextets-nil : sextets [] ≡ some []
unfolding sextets
sextets-nil = refl

-- every element is a byte
abbrev pub IsBytes : Str → Type 0
IsBytes s = All (λ b. b < 256) s

-- The sextets of encoded text, and the bytes that they stand for.
sextets-encode :
    (s : Str) → IsBytes s → (ns : List ℕ) × (sextets (encode s) ≡ some ns) × (group ns ≡ some s)
unfolding encode group
sextets-encode [] h = ([], sextets-nil, refl)
sextets-encode (a ∷ []) (ha, _) = (
  a / 4 ∷ a % 4 * 16 ∷ [],
  sextets-char (a / 4) (char_of (a % 4 * 16) ∷ []) (omega arith)
      (sextets-char (a % 4 * 16) [] (omega arith) sextets-nil),
  ground arith,
)
sextets-encode (a ∷ b ∷ []) (ha, (hb, _)) =
    let p = a / 4 in
    let q = a % 4 * 16 + b / 16 in
    let r = b % 16 * 4 in
    (
      p ∷ q ∷ r ∷ [],
      sextets-char p (char_of q ∷ char_of r ∷ []) (omega arith) (
          sextets-char q (char_of r ∷ []) (omega arith)
            (sextets-char r [] (omega arith) sextets-nil)),
      ground arith,
    )
sextets-encode (a ∷ b ∷ c ∷ s) (ha, (hb, (hc, hs))) =
    let p = a / 4 in
    let q = a % 4 * 16 + b / 16 in
    let r = b % 16 * 4 + c / 64 in
    let t = c % 64 in
    let (ns, e, f) = sextets-encode s hs in
    (
      p ∷ q ∷ r ∷ t ∷ ns,
      sextets-char p (char_of q ∷ char_of r ∷ char_of t ∷ encode s) (omega arith) (
          sextets-char q (char_of r ∷ char_of t ∷ encode s) (omega arith) (
            sextets-char r (char_of t ∷ encode s) (omega arith)
              (sextets-char t (encode s) (omega arith) e))),
      ground arith,
    )

-- What is encoded is decoded again.
pub decode-encode : (s : Str) → IsBytes s → decode (encode s) ≡ some s
unfolding decode
decode-encode s h = let (ns, p, q) = sextets-encode s h in ap group_all p ∙ q

pub decode_nil : decode [] ≡ some []
unfolding decode
decode_nil = refl
