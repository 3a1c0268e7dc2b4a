-- ===== src/Api/Guard/Parsed.antt =====
-- net.SplitHostPort as localOnly of internal/apiserver/auth.go uses it: how a host that it finds is written.
use nephos.Base.{
  ◌≡◌, refl, sym, ap, ◌∙◌, ◌⊎◌, inl, inr, arith, Bool, true, false, not, ◌||◌, ◌==◌, ◌++◌, [], ◌∷◌,
  Option, none, some, if◌then◌else◌, Bool-cases, ==_iff, Str, codes, str_eq, str_eq_sound,
}
use mathlib.Core.Path.{subst}
use nephos.Api.Guard.{
  has_byte, split_last_colon, split_bracket, bracketed_host, split_host, split_host_port,
}
use nephos.Api.Guard.Splits.{IsPort, Without, port_lem, split_last_colon_sound, split_bracket_sound}

-- how a host and a port are written
abbrev pub Written : Str → Str → Str → Type 0
Written host port s =
    (s ≡ b'[' ∷ (host ++ b']' ∷ b':' ∷ port))
    ⊎ ((has_byte (codes ":") host ≡ false) × (s ≡ host ++ b':' ∷ port))

abbrev pub HasWritten : Str → Str → Type 0
HasWritten host s = (port : Str) × IsPort port × Written host port s

bracketed_sound :
    (s port host : Str) (o : Option (Str × Str))
    → ((a b : Str) → o ≡ some (a, b) → s ≡ a ++ b']' ∷ b)
    → Without b':' port
    → bracketed_host port o ≡ some host
    → HasWritten host (b'[' ∷ s)
bracketed_sound s port host none sound plain h = absurd (ground arith)
bracketed_sound s port host (some (a, b)) sound plain h =
    elim (Bool-cases
      (not (str_eq b (b':' ∷ port)) || has_byte (codes "[") a || has_byte (codes "[]") port)) [
        | inl e ↦ absurd (let h' : none ≡ some host = rw e at h in ground arith)
        | inr e ↦
            let h' : some a ≡ some host = rw e at h in
            let same : a ≡ host = ground arith in
            let tail : str_eq b (b':' ∷ port) ≡ true = ground arith in
            let bare : has_byte (codes "[]") port ≡ false = ground arith in
            (
              port,
              port_lem port plain bare,
              inl (
                  ap (λ x. b'[' ∷ x) (sound a b refl)
                  ∙ ap (λ x. b'[' ∷ (a ++ b']' ∷ x)) (str_eq_sound b (b':' ∷ port) tail)
                  ∙ ap (λ x. b'[' ∷ (x ++ b']' ∷ b':' ∷ port)) same),
            )
      ]

if_some :
    (b : Bool) (a host : Str) → (if b then none else some a) ≡ some host → (b ≡ false) × (a ≡ host)
if_some true a host h = absurd (ground arith)
if_some false a host h = (refl, ground arith)

neither : (a b : Bool) → (a || b) ≡ false → (a ≡ false) × (b ≡ false)
neither a b h = (ground arith, ground arith)

no_bytes : (s : Str) → has_byte (codes ":[]") s ≡ false → has_byte (codes ":") s ≡ false
no_bytes [] h = refl
no_bytes (c ∷ s) h =
    let later : has_byte (codes ":[]") s ≡ false = ground arith in
    let rest = no_bytes s later in ground arith

split_host_sound :
    (host a port : Str)
    → Without b':' port
    → split_host (some (a, port)) ≡ some host
    → HasWritten host (a ++ b':' ∷ port)
split_host_sound host [] port plain h = elim (Bool-cases (has_byte (codes "[]") port)) [
  | inl e ↦ absurd (let h' : none ≡ some host = rw e at h in ground arith)
  | inr e ↦
      let h' : some [] ≡ some host = rw e at h in
      let same : [] ≡ host = ground arith in
      subst (λ x. HasWritten x (b':' ∷ port)) same (port, port_lem port plain e, inr (refl, refl))
]
split_host_sound host (c ∷ a) port plain h = elim (Bool-cases (c == b'[')) [
  | inl e ↦
      let h' : bracketed_host port (split_bracket (a ++ b':' ∷ port)) ≡ some host = rw e at h in
      subst (λ x. HasWritten host (x ∷ (a ++ b':' ∷ port))) (sym ((==_iff c b'[').0 e))
        (bracketed_sound (a ++ b':' ∷ port) port host (split_bracket (a ++ b':' ∷ port))
          (λ x y k. split_bracket_sound (a ++ b':' ∷ port) {a = x} {b = y} k) plain h')
  | inr e ↦
      let bad = has_byte (codes ":[]") (c ∷ a) || has_byte (codes "[]") port in
      let h' : (if bad then none else some (c ∷ a)) ≡ some host =
        sym (
          ap
            (λ (b : Bool).
              if b
              then bracketed_host port (split_bracket (a ++ b':' ∷ port))
              else if bad
              then none
              else some (c ∷ a))
            e)
        ∙ h in
      let (good, same) = if_some bad (c ∷ a) host h' in
      let (clear, bare) =
        neither (has_byte (codes ":[]") (c ∷ a)) (has_byte (codes "[]") port) good in
      subst (λ x. HasWritten x (c ∷ (a ++ b':' ∷ port))) same
        (port, port_lem port plain bare, inr (no_bytes (c ∷ a) clear, refl))
]

pub split_host_port_sound : (s host : Str) → split_host_port s ≡ some host → HasWritten host s
unfolding split_host_port
split_host_port_sound s host h =
    go (split_last_colon s) (λ a b k. split_last_colon_sound s {a = a} {b = b} k) h
  where
    go :
        (o : Option (Str × Str))
        → ((a b : Str) → o ≡ some (a, b) → (s ≡ a ++ b':' ∷ b) × Without b':' b)
        → split_host o ≡ some host
        → HasWritten host s
    go none sound h = absurd (ground arith)
    go (some (a, port)) sound h =
        let (written, plain) = sound a port refl in
        subst (HasWritten host) (sym written) (split_host_sound host a port plain h)
