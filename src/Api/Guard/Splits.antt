-- ===== src/Api/Guard/Splits.antt =====
-- net.SplitHostPort as localOnly of internal/apiserver/auth.go uses it: its last colon and its brackets.
use nephos.Base.{
  ℕ, ◌≡◌, ◌≢◌, refl, ap, ◌∙◌, inl, inr, arith, true, false, ◌==◌, ◌++◌, [], ◌∷◌, Option, none, some,
  Bool-cases, ==_iff, All, Str, codes,
}
use mathlib.Core.Path.{subst}
use nephos.Api.Guard.{has_byte, extend_before, split_last_colon, split_bracket}

-- a port, which may be empty and need not be a number: no colon and no bracket
abbrev pub IsPort : Str → Type 0
IsPort port = All (λ c. (c ≢ b':') × (c ≢ b'[') × (c ≢ b']')) port

abbrev pub Without : ℕ → Str → Type 0
Without b s = All (λ c. c ≢ b) s

has_colon : (s : Str) → has_byte (codes ":") s ≡ false → Without b':' s
has_colon [] h = tt
has_colon (c ∷ s) h =
    let rest : has_byte (codes ":") s ≡ false = ground arith in
    ((λ e. ground arith), has_colon s rest)

no_colon : (s : Str) → Without b':' s → has_byte (codes ":") s ≡ false
no_colon [] h = refl
no_colon (c ∷ s) (n, h) = let rest = no_colon s h in ground arith

has_colon-append : (a s : Str) → has_byte (codes ":") (a ++ b':' ∷ s) ≡ true
has_colon-append [] s = refl
has_colon-append (c ∷ a) s = let rest = has_colon-append a s in ground arith

pub port_lem : (port : Str) → Without b':' port → has_byte (codes "[]") port ≡ false → IsPort port
port_lem [] h k = tt
port_lem (c ∷ port) (n, h) k =
    let rest : has_byte (codes "[]") port ≡ false = ground arith in
    ((n, (λ e. ground arith), (λ e. ground arith)), port_lem port h rest)

pub port_colon : (port : Str) → IsPort port → Without b':' port
port_colon [] h = tt
port_colon (c ∷ port) ((n, _, _), h) = (n, port_colon port h)

pub port_brackets : (port : Str) → IsPort port → has_byte (codes "[]") port ≡ false
port_brackets [] h = refl
port_brackets (c ∷ port) ((_, n, m), h) = let rest = port_brackets port h in ground arith

pair_inj :
    {a b c d : Str} → ◌≡◌ {A = Option (Str × Str)} (some (a, b)) (some (c, d)) → (a ≡ c) × (b ≡ d)
pair_inj h = (ground arith, ground arith)

pub split_last_colon_sound :
    (s : Str) {a b : Str} → split_last_colon s ≡ some (a, b) → (s ≡ a ++ b':' ∷ b) × Without b':' b
unfolding split_last_colon
split_last_colon_sound [] h = absurd (ground arith)
split_last_colon_sound (c ∷ s) {a} {b} h = elim (Bool-cases (has_byte (codes ":") s)) [
  | inl e ↦
      go (split_last_colon s) (λ x y k. split_last_colon_sound s {a = x} {b = y} k) (rw e at h)
  | inr e ↦ elim (Bool-cases (c == b':')) [
    | inl f ↦
        let (first, second) = pair_inj {a = []} {b = s} {c = a} {d = b} (rw (e, f) at h) in
        let colon = (==_iff c b':').0 f in
        (
          ap (λ x. x ∷ s) colon ∙ ap (λ x. b':' ∷ x) second ∙ ap (λ x. x ++ b':' ∷ b) first,
          subst (Without b':') second (has_colon s e),
        )
    | inr f ↦ absurd (let h' : none ≡ some (a, b) = rw (e, f) at h in ground arith)
  ]
]
  where
    go :
        (o : Option (Str × Str))
        → ((x y : Str) → o ≡ some (x, y) → (s ≡ x ++ b':' ∷ y) × Without b':' y)
        → extend_before (c ∷ []) o ≡ some (a, b)
        → ((c ∷ s) ≡ a ++ b':' ∷ b) × Without b':' b
    go none e h = absurd (ground arith)
    go (some (x, y)) e h =
        let (written, plain) = e x y refl in
        let first : (c ∷ x) ≡ a = ground arith in
        let second : y ≡ b = ground arith in
        (
          ap (λ z. c ∷ z) written ∙ ap (λ z. z ++ b':' ∷ y) first ∙ ap (λ z. a ++ b':' ∷ z) second,
          subst (Without b':') second plain,
        )

pub split_last_colon_complete :
    (a b : Str) → Without b':' b → split_last_colon (a ++ b':' ∷ b) ≡ some (a, b)
unfolding split_last_colon
split_last_colon_complete [] b h = rw (no_colon b h) refl
split_last_colon_complete (c ∷ a) b h =
    rw (has_colon-append a b, split_last_colon_complete a b h) refl

pub split_bracket_sound : (s : Str) {a b : Str} → split_bracket s ≡ some (a, b) → s ≡ a ++ b']' ∷ b
unfolding split_bracket
split_bracket_sound [] h = absurd (ground arith)
split_bracket_sound (c ∷ s) {a} {b} h = elim (Bool-cases (c == b']')) [
  | inl f ↦
      let (first, second) = pair_inj {a = []} {b = s} {c = a} {d = b} (rw f at h) in
      ap (λ x. x ∷ s) ((==_iff c b']').0 f)
      ∙ ap (λ x. b']' ∷ x) second
      ∙ ap (λ x. x ++ b']' ∷ b) first
  | inr f ↦ go (split_bracket s) (λ x y k. split_bracket_sound s {a = x} {b = y} k) (rw f at h)
]
  where
    go :
        (o : Option (Str × Str))
        → ((x y : Str) → o ≡ some (x, y) → s ≡ x ++ b']' ∷ y)
        → extend_before (c ∷ []) o ≡ some (a, b)
        → (c ∷ s) ≡ a ++ b']' ∷ b
    go none e h = absurd (ground arith)
    go (some (x, y)) e h =
        let first : (c ∷ x) ≡ a = ground arith in
        let second : y ≡ b = ground arith in
        ap (λ z. c ∷ z) (e x y refl)
        ∙ ap (λ z. z ++ b']' ∷ y) first
        ∙ ap (λ z. a ++ b']' ∷ z) second

pub split_bracket_complete :
    (a b : Str) → Without b']' a → split_bracket (a ++ b']' ∷ b) ≡ some (a, b)
unfolding split_bracket
split_bracket_complete [] b h = refl
split_bracket_complete (c ∷ a) b (n, h) =
    let other : (c == b']') ≡ false = ground arith in rw (other, split_bracket_complete a b h) refl
