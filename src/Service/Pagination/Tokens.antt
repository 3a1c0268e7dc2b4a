-- ===== src/Service/Pagination/Tokens.antt =====
-- internal/service/pagination.go: page tokens of kinds of resources.
use nephos.Base.{
  ℕ, ◌<◌, ◌≤◌, ◌≡◌, refl, sym, ap, ◌∙◌, ◌≢◌, ◌⊎◌, ◌↔◌, inl, inr, true, Option, none, some, [], ◌∷◌,
  ◌++◌, arith, ◌==◌, ==_iff, &&-split, Bool-cases, length, all, All, All-append, Str, codes, str_eq,
  str_eq_sound, str_eq_iff, cut_prefix, cut_prefix-append, cut_prefix_sound, ok, err,
}
use nephos.Errors.{invalid_parameter}
use nephos.Service.Pagination.{
  encode_page_token, decode_page_token, valid_page_id, decoded_id, checked_id, hex_char, id_prefix,
  valid_suffix,
}
use mathlib.Core.List.{append_assoc}
use nephos.Service.Pagination.Base64.{decode_nil, IsBytes, encode, decode, decode-encode}

decode_nonempty :
    (kind token : Str) → token ≢ [] → decode_page_token kind token ≡ decoded_id kind (decode token)
unfolding decode_page_token
decode_nonempty kind [] h = absurd (h refl)
decode_nonempty kind (c ∷ token) h = refl

-- Text that is not empty has a token that is not empty.
encode-ne-nil : (s : Str) → IsBytes s → s ≢ [] → encode s ≢ []
unfolding decode
encode-ne-nil s h n e = n (cc (decode-encode s h, ap decode e, decode_nil))

cursor : Str → Str → Str
cursor kind id = kind ++ b':' ∷ id

cursor-ne-nil : (kind id : Str) → cursor kind id ≢ []
unfolding cursor
cursor-ne-nil [] id e = cc
cursor-ne-nil (c ∷ kind) id e = cc

cursor-IsBytes : (kind id : Str) → IsBytes kind → IsBytes id → IsBytes (cursor kind id)
unfolding cursor
cursor-IsBytes kind id hk hi = All-append (λ b. b < 256) kind (b':' ∷ id) hk (omega arith, hi)

token_means :
    (kind kind' id : Str)
    → IsBytes kind
    → IsBytes id
    → decode_page_token kind' (encode_page_token kind id) ≡ decoded_id kind' (some (cursor kind id))
unfolding encode_page_token cursor
token_means kind kind' id hk hi =
    let h = cursor-IsBytes kind id hk hi in
    decode_nonempty kind' (encode (kind ++ b':' ∷ id))
      (encode-ne-nil (kind ++ b':' ∷ id) h (cursor-ne-nil kind id))
    ∙ ap (decoded_id kind') (decode-encode (kind ++ b':' ∷ id) h)

cut-cursor : (kind id : Str) → cut_prefix (kind ++ b':' ∷ []) (cursor kind id) ≡ some id
unfolding cursor
cut-cursor kind id =
    ap (cut_prefix (kind ++ b':' ∷ [])) (sym (append_assoc kind (b':' ∷ []) id))
    ∙ cut_prefix-append (kind ++ b':' ∷ []) id

checked : (kind id : Str) → valid_page_id kind id ≡ true → checked_id kind (some id) ≡ ok id
checked kind id v = ground arith

-- A page token that was made for a kind and an ID of bytes, the ID being well formed for the
-- kind, is decoded for that kind as the ID.
pub decode-encode_page_token :
    (kind id : Str)
    → IsBytes kind
    → IsBytes id
    → valid_page_id kind id ≡ true
    → decode_page_token kind (encode_page_token kind id) ≡ ok id
decode-encode_page_token kind id hk hi v =
    token_means kind kind id hk hi ∙ ap (checked_id kind) (cut-cursor kind id) ∙ checked kind id v

abbrev pub NoColon : Str → Type 0
NoColon s = All (λ c. c ≢ b':') s

cut-other :
    (k k' id : Str)
    → NoColon k
    → NoColon k'
    → k ≢ k'
    → cut_prefix (k' ++ b':' ∷ []) (cursor k id) ≡ none
unfolding cut_prefix cursor
cut-other [] [] id h h' n = absurd (n refl)
cut-other [] (d ∷ k') id h (hd, h') n = ground arith
cut-other (c ∷ k) [] id (hc, h) h' n = ground arith
cut-other (c ∷ k) (d ∷ k') id (hc, h) (hd, h') n = elim (Bool-cases (d == c)) [
  | inl same ↦ rw same (cut-other k k' id h h' (λ e. n (cc ((==_iff d c).0 same, e))))
  | inr other ↦ rw other
]

-- A page token of bytes that was made for one kind is refused as InvalidParameter for every
-- other kind, when neither kind has a colon.
pub decode_page_token-other :
    (kind kind' id : Str)
    → IsBytes kind
    → IsBytes id
    → NoColon kind
    → NoColon kind'
    → kind ≢ kind'
    → decode_page_token kind' (encode_page_token kind id) ≡ err invalid_parameter
decode_page_token-other kind kind' id hk hi h h' n =
    token_means kind kind' id hk hi ∙ ap (checked_id kind') (cut-other kind kind' id h h' n)

abbrev pub IsHexDigit : ℕ → Type 0
IsHexDigit c = ((48 ≤ c) × (c ≤ 57)) ⊎ ((97 ≤ c) × (c ≤ 102))

-- the kind, or `i` for an instance, and a dash, and 17 lower-case hexadecimal digits
pub record IsPageId (kind id : Str) : Type 0 where
  pub digits : Str
  pub written :
      ((kind ≡ codes "instance") × (id ≡ codes "i-" ++ digits))
      ⊎ ((kind ≢ codes "instance") × (id ≡ kind ++ codes "-" ++ digits))
  pub many : length digits ≡ 17
  pub hexadecimal : All IsHexDigit digits

hexadecimal-all : (s : Str) → (all hex_char s ≡ true) ↔ All IsHexDigit s
hexadecimal-all [] = (λ h. tt, λ h. refl)
hexadecimal-all (c ∷ s) = (
  λ h.
      let (a, b) = &&-split (hex_char c) (all hex_char s) h in
      (ground arith, (hexadecimal-all s).0 b),
  λ (a, b). let rest = (hexadecimal-all s).1 b in ground arith,
)

kind-cases :
    (kind : Str)
    → ((kind ≡ codes "instance") × (id_prefix kind ≡ codes "i-"))
      ⊎ ((kind ≢ codes "instance") × (id_prefix kind ≡ kind ++ codes "-"))
kind-cases kind = elim (Bool-cases (str_eq kind (codes "instance"))) [
  | inl e ↦ inl (str_eq_sound kind (codes "instance") e, rw e refl)
  | inr e ↦ inr ((λ p. cc ((str_eq_iff kind (codes "instance")).1 p, e)), rw e refl)
]

suffix_of :
    (o : Option Str)
    → valid_suffix o ≡ true
    → (digits : Str) × (o ≡ some digits) × (length digits ≡ 17) × All IsHexDigit digits
suffix_of none h = absurd (ground arith)
suffix_of (some digits) h =
    let (a, b) = &&-split (length digits == 17) (all hex_char digits) h in
    (digits, refl, (==_iff (length digits) 17).0 a, (hexadecimal-all digits).0 b)

valid_page_id_iff : (kind id : Str) → (valid_page_id kind id ≡ true) ↔ IsPageId kind id
unfolding valid_page_id
valid_page_id_iff kind id = (to, from)
  where
    to : valid_suffix (cut_prefix (id_prefix kind) id) ≡ true → IsPageId kind id
    to h =
        let (digits, cut, many, hexadecimal) = suffix_of _ h in
        let written = cut_prefix_sound (id_prefix kind) id cut in
        record {
          digits = digits;
          written = elim (kind-cases kind) [
            | inl (k, e) ↦ inl (k, written ∙ ap (λ p. p ++ digits) e)
            | inr (k, e) ↦ inr (k, written ∙ ap (λ p. p ++ digits) e)
          ];
          many = many;
          hexadecimal = hexadecimal;
        }

    shown :
        (p digits : Str)
        → length digits ≡ 17
        → All IsHexDigit digits
        → id ≡ p ++ digits
        → id_prefix kind ≡ p
        → valid_suffix (cut_prefix (id_prefix kind) id) ≡ true
    shown p digits many hexadecimal e f =
        ap (λ x. valid_suffix (cut_prefix x id)) f
        ∙ ap (λ x. valid_suffix (cut_prefix p x)) e
        ∙ ap valid_suffix (cut_prefix-append p digits)
        ∙ (let h = (hexadecimal-all digits).1 hexadecimal in ground arith)

    from : IsPageId kind id → valid_suffix (cut_prefix (id_prefix kind) id) ≡ true
    from p = elim (p.written) [
      | inl (k, e) ↦ elim (kind-cases kind) [
        | inl (_, f) ↦ shown (codes "i-") p.digits p.many p.hexadecimal e f
        | inr (n, f) ↦ absurd (n k)
      ]
      | inr (n, e) ↦ elim (kind-cases kind) [
        | inl (k, f) ↦ absurd (n k)
        | inr (_, f) ↦ shown (kind ++ codes "-") p.digits p.many p.hexadecimal e f
      ]
    ]

-- what a token says
abbrev pub Says : Str → Str → Option Str → Type 0
Says kind id o = (o ≡ some (kind ++ b':' ∷ id)) × IsPageId kind id

decoded_id_sound : (kind id : Str) (o : Option Str) → decoded_id kind o ≡ ok id → Says kind id o
decoded_id_sound kind id none h = absurd (ground arith)
decoded_id_sound kind id (some value) h = go (cut_prefix (kind ++ b':' ∷ []) value) refl h
  where
    go :
        (o : Option Str)
        → cut_prefix (kind ++ b':' ∷ []) value ≡ o
        → checked_id kind o ≡ ok id
        → Says kind id (some value)
    go none e h = absurd (ground arith)
    go (some rest) e h =
        let same : rest ≡ id = ground arith in
        let valid : valid_page_id kind rest ≡ true = ground arith in
        (
          ap some (
              cut_prefix_sound (kind ++ b':' ∷ []) value e
              ∙ append_assoc kind (b':' ∷ []) rest
              ∙ ap (λ x. kind ++ b':' ∷ x) same),
          (valid_page_id_iff kind id).0 (ap (valid_page_id kind) (sym same) ∙ valid),
        )

decoded_id_complete : (kind id : Str) (o : Option Str) → Says kind id o → decoded_id kind o ≡ ok id
unfolding cursor
decoded_id_complete kind id o (e, p) =
    ap (decoded_id kind) e
    ∙ ap (checked_id kind) (cut-cursor kind id)
    ∙ checked kind id ((valid_page_id_iff kind id).1 p)

-- A token is accepted for a kind, as the ID `id`, exactly when token and ID are empty, for the
-- first page, or when the token is base64url text of the kind, a colon and the ID, and the ID is
-- the kind's prefix, which is `i-` for instances and the kind and a dash for others, and 17
-- lower-case hexadecimal digits.
pub decode_page_token_iff :
    (kind token id : Str)
    → (decode_page_token kind token ≡ ok id)
      ↔ (((token ≡ []) × (id ≡ [])) ⊎ ((token ≢ []) × Says kind id (decode token)))
unfolding decode_page_token
decode_page_token_iff kind [] id = (
  λ h. inl (refl, ground arith),
  λ p. elim p [ inl (_, e) ↦ ap ok (sym e) | inr (n, _) ↦ absurd (n refl) ],
)
decode_page_token_iff kind (c ∷ token) id = (
  λ h. inr ((λ e. cc e), decoded_id_sound kind id (decode (c ∷ token)) h),
  λ p. elim p [
    | inl (e, _) ↦ absurd (cc e)
    | inr (_, s) ↦ decoded_id_complete kind id (decode (c ∷ token)) s
  ],
)
