-- ===== src/Console/Accepted.antt =====
-- internal/tunnel/console/protocol.go: the client messages that are accepted.
use nephos.Base.{
  ℕ, ◌≤◌, ◌≡◌, ◌≢◌, List, [], ◌∷◌, All, refl, inl, inr, arith, Bool, true, false, not, ◌||◌, Option,
  none, some, any, if◌then◌else◌, Bool-cases, length, Str, codes, str_eq, Result, ok, err,
}
use mathlib.Core.Path.{subst}
use nephos.Errors.{Error, failure}
use nephos.Console.{
  Json, ClientControl, start, resize, stdin_eof, StartWire, ResizeWire, bad_size, strict_control,
  control_type, dimensions, started, is_absent, with_tty, no_command, has_nul, check_start,
  check_resize, decoded, client_of, parse_client_text,
}

-- a terminal has rows and columns, and what is no terminal has none
abbrev pub Sized : Bool → ℕ → ℕ → Type 0
Sized true rows cols = (1 ≤ rows) × (1 ≤ cols)
Sized false rows cols = (rows ≡ 0) × (cols ≡ 0)

-- the first word of a command is there and is not empty
abbrev pub HasProgram : List Str → Type 0
HasProgram [] = ⊥
HasProgram ([] ∷ args) = ⊥
HasProgram ((c ∷ word) ∷ args) = Unit

HasProgram-named : (command : List Str) → no_command command ≡ false → HasProgram command
unfolding no_command
HasProgram-named [] h = absurd (ground arith)
HasProgram-named ([] ∷ args) h = absurd (ground arith)
HasProgram-named ((c ∷ word) ∷ args) h = tt

clean_word : (s : Str) → has_nul s ≡ false → All (λ c. c ≢ 0) s
clean_word [] h = tt
clean_word (c ∷ s) h =
    let rest : has_nul s ≡ false = ground arith in ((λ e. ground arith), clean_word s rest)

clean_words : (command : List Str) → any has_nul command ≡ false → All (All (λ c. c ≢ 0)) command
clean_words [] h = tt
clean_words (word ∷ words) h =
    let here : has_nul word ≡ false = ground arith in
    let rest : any has_nul words ≡ false = ground arith in
    (clean_word word here, clean_words words rest)

-- what may be asked of the runtime
abbrev pub IsControl : ClientControl → Type 0
IsControl (start s) =
    HasProgram s.command × All (All (λ c. c ≢ 0)) s.command × Sized s.tty s.rows s.cols
IsControl (resize rows cols) = (1 ≤ rows) × (1 ≤ cols)
IsControl stdin_eof = Unit

abbrev IsAccepted : Result Error ClientControl → Type 0
IsAccepted (ok c) = IsControl c
IsAccepted (err e) = Unit

dimensions-Sized :
    (rows cols : Option ℕ) {r c : ℕ} → dimensions rows cols ≡ some (r, c) → (1 ≤ r) × (1 ≤ c)
unfolding dimensions
dimensions-Sized (some rows) (some cols) h = (ground arith, ground arith)
dimensions-Sized (some rows) none h = absurd (ground arith)
dimensions-Sized none cols h = absurd (ground arith)

module _ (w : StartWire) (named : no_command w.command ≡ false)
    (clean : any has_nul w.command ≡ false) where
  started-IsAccepted :
      (o : Option (ℕ × ℕ)) → dimensions w.rows w.cols ≡ o → IsAccepted (started w.command o)
  started-IsAccepted none h = tt
  started-IsAccepted (some (r, c)) h = (
    HasProgram-named w.command named,
    clean_words w.command clean,
    dimensions-Sized w.rows w.cols h,
  )

  with_tty-IsAccepted : (tty : Option Bool) → IsAccepted (with_tty w tty)
  with_tty-IsAccepted none = tt
  with_tty-IsAccepted (some true) = started-IsAccepted (dimensions w.rows w.cols) refl
  with_tty-IsAccepted (some false) =
      elim (Bool-cases (not (is_absent w.rows) || not (is_absent w.cols))) [
        | inl e ↦ rw e tt
        | inr e ↦ rw e (HasProgram-named w.command named, clean_words w.command clean, (refl, refl))
      ]

check_start-IsAccepted : (w : StartWire) → IsAccepted (check_start w)
unfolding check_start
check_start-IsAccepted w = elim (Bool-cases (no_command w.command)) [
  | inl e ↦ rw e tt
  | inr e ↦ elim (Bool-cases (any has_nul w.command)) [
    | inl f ↦ rw (e, f) tt
    | inr f ↦ rw (e, f) (with_tty-IsAccepted w e f w.tty)
  ]
]

check_resize-IsAccepted :
    (w : ResizeWire) (o : Option (ℕ × ℕ))
    → dimensions w.rows w.cols ≡ o
    → IsAccepted (check_resize w o)
check_resize-IsAccepted w none h = tt
check_resize-IsAccepted w (some (r, c)) h = dimensions-Sized w.rows w.cols h

module _ {A : Type 0} where
  decoded-IsAccepted :
      (r : Result Error A) (f : A → Result Error ClientControl)
      → ((a : A) → IsAccepted (f a))
      → IsAccepted (decoded r f)
  decoded-IsAccepted (ok a) f h = h a
  decoded-IsAccepted (err e) f h = tt

IsAccepted-if :
    (b : Bool) (m n : Result Error ClientControl)
    → IsAccepted m
    → IsAccepted n
    → IsAccepted (if b then m else n)
IsAccepted-if true m n h k = h
IsAccepted-if false m n h k = k

client_of-IsAccepted : (json : Json) (raw kind : Str) → IsAccepted (client_of json raw kind)
client_of-IsAccepted json raw kind =
    IsAccepted-if (str_eq kind (codes "start")) _ _
      (decoded-IsAccepted _ check_start check_start-IsAccepted)
      (IsAccepted-if (str_eq kind (codes "resize")) _ _
        (decoded-IsAccepted _ _ (λ w. check_resize-IsAccepted w (dimensions w.rows w.cols) refl))
        (IsAccepted-if (str_eq kind (codes "stdin_eof")) _ _
          (decoded-IsAccepted (strict_control json.eof_wire raw) (λ _. ok stdin_eof) (λ _. tt)) tt))

-- Whatever the JSON decoder makes of a message, what ParseClientText accepts has 1 to 4096
-- bytes, and is the end of input, or a resize with rows and columns, or a start whose command
-- has a first word that is not empty, whose words have no NUL, and which has rows and columns if
-- it asks for a terminal and none if it does not.
pub parse_client_text-IsControl :
    (json : Json) (raw : Str) (c : ClientControl)
    → parse_client_text json raw ≡ ok c
    → IsControl c × (1 ≤ length raw) × (length raw ≤ 4096)
unfolding parse_client_text control_type
parse_client_text-IsControl json raw c h =
    let control = subst IsAccepted h (
      decoded-IsAccepted (control_type json raw) (client_of json raw)
        (client_of-IsAccepted json raw)) in
    elim (Bool-cases (bad_size raw)) [
      | inl e ↦
          let refused : decoded (err failure) (client_of json raw) ≡ ok c = rw e at h in
          absurd (ground arith)
      | inr e ↦ (control, ground arith, ground arith)
    ]
