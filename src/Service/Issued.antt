-- ===== src/Service/Issued.antt =====
-- Identifiers and hardware addresses that the service makes, and the checks that read them.
use nephos.Base.{
  ℕ, zero, suc, ◌+◌, ◌*◌, ◌/◌, ◌%◌, ◌<◌, ◌≡◌, refl, ap, ◌∙◌, true, some, [], ◌∷◌, ◌++◌, arith, ◌==◌,
  take, length, all, cut_prefix, cut_prefix-append, All, Str, ok,
}
use mathlib.Core.Path.{subst}
use nephos.Netmac.{print_mac, parse_mac-print_mac}
use nephos.Service.Ids.{new_id, hex_encode, hex_digit}
use nephos.Service.Pagination.{valid_page_id, id_prefix, hex_char, valid_suffix}
use nephos.Service.Instances.{local_mac}
use nephos.Store.Leases.{valid_eni_mac, local_unicast}

hex_digit-hex_char : (d : ℕ) → d < 16 → hex_char (hex_digit d) ≡ true
hex_digit-hex_char d h = ground arith

hex_encode-hex_char :
    (n : ℕ) (s : Str) → All (λ b. b < 256) s → all hex_char (take n (hex_encode s)) ≡ true
unfolding hex_encode
hex_encode-hex_char zero s h = refl
hex_encode-hex_char (suc n) [] h = refl
hex_encode-hex_char (suc zero) (b ∷ s) (h, hs) =
    ground (arith, hex_digit-hex_char (b / 16) (omega arith))
hex_encode-hex_char (suc (suc n)) (b ∷ s) (h, hs) =
    let p = hex_digit-hex_char (b / 16) (omega arith) in
    let q = hex_digit-hex_char (b % 16) (omega arith) in rw (p, q) (hex_encode-hex_char n s hs)

nine_bytes :
    (a b c d e f g h i : ℕ)
    → length (take 17 (hex_encode (a ∷ b ∷ c ∷ d ∷ e ∷ f ∷ g ∷ h ∷ i ∷ []))) ≡ 17
unfolding hex_encode
nine_bytes a b c d e f g h i = refl

-- An ID that NewID makes from nine random bytes, with the prefix of a kind, is one that the
-- kind's page tokens accept.
pub new_id-valid_page_id :
    (kind id : Str) (a b c d e f g h i : ℕ)
    → All (λ b. b < 256) (a ∷ b ∷ c ∷ d ∷ e ∷ f ∷ g ∷ h ∷ i ∷ [])
    → new_id (id_prefix kind) (some (a ∷ b ∷ c ∷ d ∷ e ∷ f ∷ g ∷ h ∷ i ∷ [])) ≡ ok id
    → valid_page_id kind id ≡ true
unfolding new_id valid_page_id
new_id-valid_page_id kind id a b c d e f g h i bytes q =
    let rest = take 17 (hex_encode (a ∷ b ∷ c ∷ d ∷ e ∷ f ∷ g ∷ h ∷ i ∷ [])) in
    let made : id_prefix kind ++ rest ≡ id = ground arith in
    let size = nine_bytes a b c d e f g h i in
    let digits = hex_encode-hex_char 17 (a ∷ b ∷ c ∷ d ∷ e ∷ f ∷ g ∷ h ∷ i ∷ []) bytes in
    subst (λ x. valid_suffix (cut_prefix (id_prefix kind) x) ≡ true) made
      (ap valid_suffix (cut_prefix-append (id_prefix kind) rest) ∙ suffix rest size digits)
  where
    suffix :
        (rest : Str) → length rest ≡ 17 → all hex_char rest ≡ true → valid_suffix (some rest) ≡ true
    suffix rest p q = rw (p, q) refl

-- The hardware address that Run derives from a digest of at least six bytes is printed as text
-- that the store accepts as a locally administered unicast address, and reads as the same
-- octets.
pub valid_eni_mac-local_mac :
    (a b c d e f : ℕ) (rest : Str)
    → All (λ o. o < 256) (a ∷ b ∷ c ∷ d ∷ e ∷ f ∷ [])
    → valid_eni_mac (print_mac (local_mac (a ∷ b ∷ c ∷ d ∷ e ∷ f ∷ rest)))
      ≡ ok (local_mac (a ∷ b ∷ c ∷ d ∷ e ∷ f ∷ rest))
unfolding valid_eni_mac
valid_eni_mac-local_mac a b c d e f rest (h, hs) =
    let first = a / 4 * 4 + 2 in
    let low : first < 256 = omega arith in
    let local : (first % 4 == 2) ≡ true = ground arith in
    ap local_unicast (parse_mac-print_mac first b c d e f (low, hs)) ∙ rw local refl
