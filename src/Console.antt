-- ===== src/Console.antt =====
-- internal/tunnel/console/protocol.go: the frames and the control messages of a console. What the
-- code uses of encoding/json is a parameter (Json); messages of errors are left out.
pub mod Frames
pub mod Accepted
use nephos.Base.{
  ℕ, suc, ◌+◌, ◌*◌, Bool, true, false, not, ◌&&◌, ◌||◌, List, [], ◌∷◌, Option, none, some, ltb, leb,
  ◌==◌, any, if◌then◌else◌, length, Str, codes, str_eq, Result, ok, err,
}
use nephos.Errors.{Error, failure}
use nephos.Kernel.Decimals.{ℤ, pos, negsuc}

abbrev pub max_control_bytes : ℕ
max_control_bytes = 4 * 1024

abbrev pub max_data_bytes : ℕ
max_data_bytes = 64 * 1024

pub record Start : Type 0 where
  pub command : List Str
  pub tty : Bool
  pub rows : ℕ
  pub cols : ℕ

-- ClientControl by its Type, with the record that it points to
pub data ClientControl : Type 0 where
  start : Start → ClientControl
  resize : ℕ → ℕ → ClientControl
  stdin_eof : ClientControl

-- ServerControl by its Type
pub data ServerControl : Type 0 where
  exit : ℕ → ServerControl
  error : Str → ServerControl

-- the structs that the messages are decoded into; a pointer is an option
pub record StartWire : Type 0 where
  pub command : List Str
  pub tty : Option Bool
  pub rows : Option ℕ
  pub cols : Option ℕ

pub record ResizeWire : Type 0 where
  pub rows : Option ℕ
  pub cols : Option ℕ

pub record ExitWire : Type 0 where
  pub exit_code : Option ℤ

-- json.Unmarshal of the type, empty if it is missing, and for each struct a Decoder that refuses
-- unknown fields, a second value and what is not JSON
pub record Json : Type 0 where
  pub head_type : Str → Option Str
  pub start_wire : Str → Option StartWire
  pub resize_wire : Str → Option ResizeWire
  pub eof_wire : Str → Option (Unit {0})
  pub exit_wire : Str → Option ExitWire
  pub error_wire : Str → Option Str

-- `len(raw) == 0 || len(raw) > MaxControlBytes`
abbrev pub bad_size : Str → Bool
bad_size raw = (length raw == 0) || ltb max_control_bytes (length raw)

abbrev pub or_failure {ℓ} : {A : Type ℓ} → Option A → Result Error A
or_failure none = err failure
or_failure (some a) = ok a

-- strictControl
unfoldable pub strict_control {ℓ} : {A : Type ℓ} → (Str → Option A) → Str → Result Error A
strict_control decode raw = if bad_size raw then err failure else or_failure (decode raw)

abbrev pub typed : Option Str → Result Error Str
typed none = err failure
typed (some []) = err failure
typed (some (c ∷ kind)) = ok (c ∷ kind)

-- controlType
unfoldable pub control_type : Json → Str → Result Error Str
control_type json raw = if bad_size raw then err failure else typed (json.head_type raw)

-- `rows != nil && cols != nil && *rows != 0 && *cols != 0`, and their values
unfoldable pub dimensions : Option ℕ → Option ℕ → Option (ℕ × ℕ)
dimensions (some rows) (some cols) = if (rows == 0) || (cols == 0) then none else some (rows, cols)
dimensions _ _ = none

abbrev pub started : List Str → Option (ℕ × ℕ) → Result Error ClientControl
started command none = err failure
started command (some (rows, cols)) =
    ok (start (record { command = command; tty = true; rows = rows; cols = cols }))

abbrev pub is_absent : Option ℕ → Bool
is_absent none = true
is_absent (some n) = false

abbrev pub with_tty : StartWire → Option Bool → Result Error ClientControl
with_tty w none = err failure
with_tty w (some true) = started w.command (dimensions w.rows w.cols)
with_tty w (some false) =
    if not (is_absent w.rows) || not (is_absent w.cols)
    then err failure
    else ok (start (record { command = w.command; tty = false; rows = 0; cols = 0 }))

-- `len(wire.Command) == 0 || wire.Command[0] == ""`
unfoldable pub no_command : List Str → Bool
no_command [] = true
no_command ([] ∷ args) = true
no_command ((c ∷ arg) ∷ args) = false

-- strings.ContainsRune(arg, 0)
abbrev pub has_nul : Str → Bool
has_nul = any (λ c. c == 0)

unfoldable pub check_start : StartWire → Result Error ClientControl
check_start w =
    if no_command w.command
    then err failure
    else if any has_nul w.command
    then err failure
    else with_tty w w.tty

abbrev pub check_resize : ResizeWire → Option (ℕ × ℕ) → Result Error ClientControl
check_resize w none = err failure
check_resize w (some (rows, cols)) = ok (resize rows cols)

module _ {A B : Type 0} where
  abbrev pub decoded : Result Error A → (A → Result Error B) → Result Error B
  decoded (err e) f = err e
  decoded (ok a) f = f a

abbrev pub check_exit : Option ℤ → Result Error ServerControl
check_exit none = err failure
check_exit (some (negsuc n)) = err failure
check_exit (some (pos n)) = if ltb 255 n then err failure else ok (exit n)

abbrev pub check_error : Str → Result Error ServerControl
check_error [] = err failure
check_error (c ∷ message) = ok (error (c ∷ message))

module _ (json : Json) where
  abbrev pub client_of : Str → Str → Result Error ClientControl
  client_of raw kind =
      if str_eq kind (codes "start")
      then decoded (strict_control json.start_wire raw) check_start
      else if str_eq kind (codes "resize")
      then decoded (strict_control json.resize_wire raw)
          (λ w. check_resize w (dimensions w.rows w.cols))
      else if str_eq kind (codes "stdin_eof")
      then decoded (strict_control json.eof_wire raw) (λ _. ok stdin_eof)
      else err failure

  -- ParseClientText
  unfoldable pub parse_client_text : Str → Result Error ClientControl
  parse_client_text raw = decoded (control_type json raw) (client_of raw)

  abbrev pub server_of : Str → Str → Result Error ServerControl
  server_of raw kind =
      if str_eq kind (codes "exit")
      then decoded (strict_control json.exit_wire raw) (λ w. check_exit w.exit_code)
      else if str_eq kind (codes "error")
      then decoded (strict_control json.error_wire raw) check_error
      else err failure

  -- ParseServerText
  unfoldable pub parse_server_text : Str → Result Error ServerControl
  parse_server_text raw = decoded (control_type json raw) (server_of raw)

-- frame
unfoldable pub frame : ℕ → Str → Result Error Str
frame channel payload =
    if ltb max_data_bytes (length payload + 1) then err failure else ok (channel ∷ payload)

-- InputFrame
unfoldable pub input_frame : Str → Result Error Str
input_frame payload = frame 0 payload

-- ParseInputFrame
unfoldable pub parse_input_frame : Str → Result Error Str
parse_input_frame [] = err failure
parse_input_frame (c ∷ payload) =
    if ltb max_data_bytes (length (c ∷ payload)) || not (c == 0) then err failure else ok payload

-- OutputFrame
unfoldable pub output_frame : ℕ → Str → Result Error Str
output_frame channel payload =
    if not (channel == 1) && not (channel == 2) then err failure else frame channel payload

-- ParseOutputFrame
unfoldable pub parse_output_frame : Str → Result Error (ℕ × Str)
parse_output_frame [] = err failure
parse_output_frame (c ∷ payload) =
    if ltb max_data_bytes (length (c ∷ payload)) || (not (c == 1) && not (c == 2))
    then err failure
    else ok (c, payload)
