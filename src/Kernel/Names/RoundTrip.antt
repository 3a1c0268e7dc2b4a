-- ===== src/Kernel/Names/RoundTrip.antt =====
-- Names with an index: internal/network/netns, internal/reconcile/network.go and
-- internal/network/topology/eni_policy_linux.go.
use nephos.Base.{
  ◌⊎◌, ℕ, suc, ◌+◌, ◌^◌, ◌≤◌, ◌<◌, ◌≡◌, refl, sym, ap, ◌∙◌, ◌↔◌, arith, true, &&-split, ◌++◌,
  Option, none, some, Str, codes, str_eq_sound, str_eq_refl, cut_prefix, cut_prefix-append, length,
  length-append, inl, inr, if◌then◌else◌, Bool-cases,
}
use nephos.Kernel.Decimals.{ℤ, pos, negsuc, format_int, parse_int}
use nephos.Kernel.Decimals.RoundTrip.{parse_int-format_int, length-format_digits}
use nephos.Kernel.Names.{
  indexed_name, vpc_prefix, max_index, vpc_name, named, names_index, indexed_rest,
  validate_vpc_name, owned_parsed, owned_part, owned_index, eni_link_name, canonical_eni_link,
}

module _ (prefix : Str) (max : ℕ) where
  -- the index of a name is in range, and its digits follow the prefix
  indexed_name-inv :
      (i : ℤ) {s : Str}
      → indexed_name prefix max i ≡ some s
      → (n : ℕ) × (i ≡ pos n) × (1 ≤ n) × (n ≤ max) × (s ≡ prefix ++ format_int (pos n))
  unfolding indexed_name
  indexed_name-inv (pos n) h = (n, refl, ground arith, ground arith, ground arith)
  indexed_name-inv (negsuc n) h = absurd (ground arith)

  -- ParseInt reads the index back from the name.
  parsed_name :
      (i : ℤ) {s : Str}
      → max < 9223372036854775808
      → indexed_name prefix max i ≡ some s
      → (part : Str) × (cut_prefix prefix s ≡ some part) × (parse_int part ≡ some i)
  parsed_name i {s} small h =
      let (n, same, low, high, text) = indexed_name-inv i h in
      (
        format_int (pos n),
        ap (cut_prefix prefix) text ∙ cut_prefix-append prefix (format_int (pos n)),
        parse_int-format_int n (omega arith) ∙ ap some (sym same),
      )

  indexed_name-length :
      (i : ℤ) (k : ℕ) {s : Str}
      → indexed_name prefix max i ≡ some s
      → max < 10 ^ suc k
      → length s ≤ length prefix + suc k
  unfolding format_int
  indexed_name-length i k {s} h small =
      let (n, same, low, high, text) = indexed_name-inv i h in
      rw text (
        omega (
          arith,
          length-append prefix (format_int (pos n)),
          length-format_digits k 20 n (omega arith),
        ))

named_iff : (s : Str) (o : Option Str) → (named s o ≡ true) ↔ (o ≡ some s)
named_iff s none = ground arith
named_iff s (some t) =
    (λ h. ap some (str_eq_sound t s h), λ h. let e : t ≡ s = cc in rw e (str_eq_refl s))

indexed_rest_complete :
    (prefix : Str) (max : ℕ) (i : ℤ) {s : Str}
    → max < 9223372036854775808
    → indexed_name prefix max i ≡ some s
    → indexed_rest (indexed_name prefix max) s (cut_prefix prefix s) ≡ true
indexed_rest_complete prefix max i {s} small h =
    let (part, cut, parsed) = parsed_name prefix max i small h in
    ap (indexed_rest (indexed_name prefix max) s) cut
    ∙ ap (names_index (indexed_name prefix max) s) parsed
    ∙ (named_iff s (indexed_name prefix max i)).1 h

indexed_rest_sound :
    (name_of : ℤ → Option Str) (s : Str) (o : Option Str)
    → indexed_rest name_of s o ≡ true
    → (i : ℤ) × (name_of i ≡ some s)
indexed_rest_sound name_of s none h = absurd (ground arith)
indexed_rest_sound name_of s (some part) h = parsed (parse_int part) h
  where
    parsed : (o : Option ℤ) → names_index name_of s o ≡ true → (i : ℤ) × (name_of i ≡ some s)
    parsed none h = absurd (ground arith)
    parsed (some i) h = (i, (named_iff s (name_of i)).0 h)

owned_parsed_sound :
    (s : Str) (i : ℤ) (o : Option ℤ) → owned_parsed s o ≡ some i → vpc_name i ≡ some s
owned_parsed_sound s i none h = absurd (ground arith)
owned_parsed_sound s i (some j) h = elim (Bool-cases (named s (vpc_name j))) [
  | inl e ↦
      let h' : owned_parsed s (some j) ≡ some j = rw e refl in
      let same : j ≡ i = cc in rw (← same) ((named_iff s (vpc_name j)).0 e)
  | inr e ↦ let h' : owned_parsed s (some j) ≡ none = rw e refl in absurd (cc)
]

-- ownedIndex gives an index for a name exactly when Name makes that name from that index.
pub owned_index_iff : (s : Str) (i : ℤ) → (owned_index s ≡ some i) ↔ (vpc_name i ≡ some s)
unfolding owned_index
owned_index_iff s i = (
  λ h. sound (cut_prefix vpc_prefix s) h,
  λ h.
      let (part, cut, parsed) = parsed_name vpc_prefix max_index i (omega arith) h in
      ap (owned_part s) cut
      ∙ ap (owned_parsed s) parsed
      ∙ ap (λ b. if b then some i else none) ((named_iff s (vpc_name i)).1 h),
)
  where
    sound : (o : Option Str) → owned_part s o ≡ some i → vpc_name i ≡ some s
    sound none h = absurd (ground arith)
    sound (some part) h = owned_parsed_sound s i (parse_int part) h

-- A name that Name or eniLinkName makes has at most 15 bytes, the kernel's limit for the name of
-- a link.
pub names-fit :
    (i : ℤ) (s : Str) → (vpc_name i ≡ some s) ⊎ (eni_link_name i ≡ some s) → length s ≤ 15
names-fit i s (inl h) = indexed_name-length vpc_prefix max_index i 7 h (omega arith)
names-fit i s (inr h) = indexed_name-length (codes "ve") 9999999999999 i 12 h (omega arith)

-- validateName accepts exactly the names that Name makes from some index.
pub validate_vpc_name_iff :
    (s : Str) → (validate_vpc_name s ≡ true) ↔ ((i : ℤ) × (vpc_name i ≡ some s))
unfolding validate_vpc_name
validate_vpc_name_iff s = (
  λ h. indexed_rest_sound vpc_name s (cut_prefix vpc_prefix s) (&&-split _ _ h).1,
  λ (i, h).
      let short = names-fit i s (inl h) in
      let rest = indexed_rest_complete vpc_prefix max_index i (omega arith) h in ground arith,
)

-- canonicalENILink accepts exactly the names that eniLinkName makes from some index.
pub canonical_eni_link_iff :
    (s : Str) → (canonical_eni_link s ≡ true) ↔ ((i : ℤ) × (eni_link_name i ≡ some s))
unfolding canonical_eni_link
canonical_eni_link_iff s = (
  indexed_rest_sound eni_link_name s (cut_prefix (codes "ve") s),
  λ (i, h). indexed_rest_complete (codes "ve") 9999999999999 i (omega arith) h,
)
