-- ===== src/Api/Guard/Hosts.antt =====
-- internal/apiserver/auth.go, localOnly: the hosts that are taken to be this one.
use nephos.Base.{
  ℕ, ◌≡◌, ◌≢◌, refl, sym, ap, ◌∙◌, ◌⊎◌, ◌↔◌, inl, inr, arith, Bool, true, false, ◌||◌, ◌==◌, ◌++◌,
  [], ◌∷◌, Option, none, some, if◌then◌else◌, Bool-cases, Str, codes, str_eq, str_eq_sound,
  str_eq_iff, str_eq_refl,
}
use mathlib.Core.Path.{subst}
use mathlib.Core.List.{append_assoc}
use nephos.Api.Guard.{
  has_byte, split_last_colon, split_bracket, bracketed_host, split_host, split_host_port,
  without_port, is_local,
}
use nephos.Api.Guard.Splits.{
  IsPort, Without, port_colon, port_brackets, split_last_colon_complete, split_bracket_complete,
}
use nephos.Api.Guard.Parsed.{HasWritten, split_host_port_sound}

abbrev pub IsName : Str → Type 0
IsName name = (name ≡ codes "localhost") ⊎ ((name ≡ codes "127.0.0.1") ⊎ (name ≡ codes "::1"))

-- a name with a port: in brackets, which only ::1 needs, or before a colon
pub record HasPort (host : Str) : Type 0 where
  pub name : Str
  pub port : Str
  pub named : IsName name
  pub plain : IsPort port
  pub written :
      (host ≡ b'[' ∷ (name ++ b']' ∷ b':' ∷ port))
      ⊎ ((name ≢ codes "::1") × (host ≡ name ++ b':' ∷ port))

abbrev pub IsLocalHost : Str → Type 0
IsLocalHost host = IsName host ⊎ HasPort host

is_local_iff : (name : Str) → (is_local name ≡ true) ↔ IsName name
is_local_iff name = (
  λ h. elim (Bool-cases (str_eq name (codes "localhost"))) [
    | inl a ↦ inl (str_eq_sound name _ a)
    | inr a ↦ elim (Bool-cases (str_eq name (codes "127.0.0.1"))) [
      | inl b ↦ inr (inl (str_eq_sound name _ b))
      | inr b ↦ inr (inr (str_eq_sound name _ (ground arith)))
    ]
  ],
  λ n. elim n [
    | inl e ↦ let h = (str_eq_iff name (codes "localhost")).1 e in ground arith
    | inr (inl e) ↦ let h = (str_eq_iff name (codes "127.0.0.1")).1 e in ground arith
    | inr (inr e) ↦ let h = (str_eq_iff name (codes "::1")).1 e in ground arith
  ],
)

name_local : (s : Str) → IsName s → is_local (without_port s (split_host_port s)) ≡ true
unfolding split_host_port split_last_colon split_bracket str_eq
name_local s n = elim n [ inl e ↦ rw e refl | inr (inl e) ↦ rw e refl | inr (inr e) ↦ rw e refl ]

bracketed_complete :
    (name port : Str)
    → Without b']' name
    → has_byte (codes "[") name ≡ false
    → IsPort port
    → split_host_port (b'[' ∷ (name ++ b']' ∷ b':' ∷ port)) ≡ some name
unfolding split_host_port str_eq
bracketed_complete name port close unopened plain =
    ap (λ x. split_host (split_last_colon (b'[' ∷ x)))
      (sym (append_assoc name (b']' ∷ []) (b':' ∷ port)))
    ∙ ap split_host
        (split_last_colon_complete (b'[' ∷ (name ++ b']' ∷ [])) port (port_colon port plain))
    ∙ ap (λ x. bracketed_host port (split_bracket x)) (append_assoc name (b']' ∷ []) (b':' ∷ port))
    ∙ ap (bracketed_host port) (split_bracket_complete name (b':' ∷ port) close)
    ∙ rw (str_eq_refl port, unopened, port_brackets port plain) refl

plain_complete :
    (c : ℕ) (name port : Str)
    → (c == b'[') ≡ false
    → has_byte (codes ":[]") (c ∷ name) ≡ false
    → IsPort port
    → split_host_port (c ∷ (name ++ b':' ∷ port)) ≡ some (c ∷ name)
unfolding split_host_port
plain_complete c name port other clear plain =
    ap split_host (split_last_colon_complete (c ∷ name) port (port_colon port plain))
    ∙ ap
        (λ (b : Bool).
          if b
          then bracketed_host port (split_bracket (name ++ b':' ∷ port))
          else if has_byte (codes ":[]") (c ∷ name) || has_byte (codes "[]") port
          then none
          else some (c ∷ name))
        other
    ∙ ap (λ (b : Bool). if b || has_byte (codes "[]") port then none else some (c ∷ name)) clear
    ∙ ap (λ (b : Bool). if b then none else some (c ∷ name)) (port_brackets port plain)

plain_named :
    (name port : Str)
    → IsName name
    → name ≢ codes "::1"
    → IsPort port
    → split_host_port (name ++ b':' ∷ port) ≡ some name
plain_named name port n other plain = elim n [
  | inl e ↦
      subst (λ x. split_host_port (x ++ b':' ∷ port) ≡ some x) (sym e)
        (plain_complete b'l' (codes "ocalhost") port refl refl plain)
  | inr (inl e) ↦
      subst (λ x. split_host_port (x ++ b':' ∷ port) ≡ some x) (sym e)
        (plain_complete b'1' (codes "27.0.0.1") port refl refl plain)
  | inr (inr e) ↦ absurd (other e)
]

bracketed_named :
    (name port : Str)
    → IsName name
    → IsPort port
    → split_host_port (b'[' ∷ (name ++ b']' ∷ b':' ∷ port)) ≡ some name
bracketed_named name port n plain =
    let (close, unopened) = brackets n in bracketed_complete name port close unopened plain
  where
    brackets : {x : Str} → IsName x → Without b']' x × (has_byte (codes "[") x ≡ false)
    brackets n = elim n [
      | inl e ↦
          subst (λ y. Without b']' y × (has_byte (codes "[") y ≡ false)) (sym e)
            ((omega arith), refl)
      | inr (inl e) ↦
          subst (λ y. Without b']' y × (has_byte (codes "[") y ≡ false)) (sym e)
            ((omega arith), refl)
      | inr (inr e) ↦
          subst (λ y. Without b']' y × (has_byte (codes "[") y ≡ false)) (sym e)
            ((omega arith), refl)
    ]

parsed_local :
    (s name : Str)
    → IsName name
    → split_host_port s ≡ some name
    → is_local (without_port s (split_host_port s)) ≡ true
parsed_local s name n e = ap (λ o. is_local (without_port s o)) e ∙ (is_local_iff name).1 n

port_local : (s : Str) → HasPort s → is_local (without_port s (split_host_port s)) ≡ true
port_local s p = parsed_local s p.name p.named (elim p.written [
  | inl e ↦ ap split_host_port e ∙ bracketed_named p.name p.port p.named p.plain
  | inr (n, e) ↦ ap split_host_port e ∙ plain_named p.name p.port p.named n p.plain
])

has_no_colon : {host : Str} → host ≡ codes "::1" → has_byte (codes ":") host ≡ false → ⊥
has_no_colon e h = let no : true ≡ false = sym (ap (has_byte (codes ":")) e) ∙ h in ground arith

-- A host is taken to be this one exactly when it is localhost, 127.0.0.1 or ::1, or one of these
-- with a port.
pub host_iff : (s : Str) → (is_local (without_port s (split_host_port s)) ≡ true) ↔ IsLocalHost s
host_iff s = (to (split_host_port s) (λ a k. split_host_port_sound s a k), from)
  where
    to :
        (o : Option Str)
        → ((host : Str) → o ≡ some host → HasWritten host s)
        → is_local (without_port s o) ≡ true
        → IsLocalHost s
    to none sound h = inl ((is_local_iff s).0 h)
    to (some host) sound h =
        let named = (is_local_iff host).0 h in
        let (port, plain, written) = sound host refl in
        inr (record {
          name = host;
          port = port;
          named = named;
          plain = plain;
          written = elim written [
            | inl e ↦ inl e
            | inr (n, e) ↦ inr ((λ same. has_no_colon same n), e)
          ];
        })

    from : IsLocalHost s → is_local (without_port s (split_host_port s)) ≡ true
    from p = elim p [ inl n ↦ name_local s n | inr q ↦ port_local s q ]
