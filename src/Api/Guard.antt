-- ===== src/Api/Guard.antt =====
-- internal/apiserver/auth.go and New of server.go: the handlers around the routes. A handler maps a
-- request and the state of the server to a response and a state.
pub mod Splits
pub mod Parsed
pub mod Hosts
pub mod Admitted
use nephos.Base.{
  Bool, true, false, not, ◌&&◌, ◌||◌, ◌++◌, List, [], ◌∷◌, Option, none, some, any, ◌==◌,
  if◌then◌else◌, Str, codes, str_eq, cut_prefix,
}

pub record Request : Type 0 where
  pub path : Str
  pub host : Str
  pub authorization : Str
  pub origin : Str

-- a refusal by one of the guards, or what a route answers
pub data Response (A : Type 0) : Type 0 where
  unauthorized forbidden : Response A
  answer : A → Response A

abbrev pub has_byte : Str → Str → Bool
has_byte c s = any (λ x. any (λ y. x == y) c) s

abbrev pub extend_before : Str → Option (Str × Str) → Option (Str × Str)
extend_before c none = none
extend_before c (some (a, b)) = some (c ++ a, b)

-- what stands before and after the last colon
unfoldable pub split_last_colon : Str → Option (Str × Str)
split_last_colon [] = none
split_last_colon (c ∷ s) =
    let rest = split_last_colon s in
    if has_byte (codes ":") s
    then extend_before (c ∷ []) rest
    else if c == b':'
    then some ([], s)
    else none

-- what stands before and after the first closing bracket
unfoldable pub split_bracket : Str → Option (Str × Str)
split_bracket [] = none
split_bracket (c ∷ s) =
    let rest = split_bracket s in if c == b']' then some ([], s) else extend_before (c ∷ []) rest

abbrev pub bracketed_host : Str → Option (Str × Str) → Option Str
bracketed_host port none = none
bracketed_host port (some (host, rest)) =
    if not (str_eq rest (b':' ∷ port)) || has_byte (codes "[") host || has_byte (codes "[]") port
    then none
    else some host

abbrev pub split_host : Option (Str × Str) → Option Str
split_host none = none
split_host (some ([], port)) = if has_byte (codes "[]") port then none else some []
split_host (some (c ∷ host, port)) =
    if c == b'['
    then bracketed_host port (split_bracket (host ++ b':' ∷ port))
    else if has_byte (codes ":[]") (c ∷ host) || has_byte (codes "[]") port
    then none
    else some (c ∷ host)

-- the host of net.SplitHostPort, if it has no error
unfoldable pub split_host_port : Str → Option Str
split_host_port s = split_host (split_last_colon s)

-- `if parsed, _, err := net.SplitHostPort(host); err == nil { host = parsed }`
abbrev pub without_port : Str → Option Str → Str
without_port host none = host
without_port host (some parsed) = parsed

abbrev pub is_local : Str → Bool
is_local host =
    str_eq host (codes "localhost")
    || (str_eq host (codes "127.0.0.1") || str_eq host (codes "::1"))

-- `subtle.ConstantTimeCompare(given, token) == 1` after strings.CutPrefix, with a token
abbrev pub bears : Str → Option Str → Bool
bears token none = false
bears [] (some given) = false
bears (c ∷ token) (some given) = str_eq given (c ∷ token)

abbrev pub Handler : Type 0 → Type 0 → Type 0
Handler A S = Request → S → Response A × S

module _ {A S : Type 0} where
  -- requireBearer
  unfoldable pub require_bearer : Str → Handler A S → Handler A S
  require_bearer token next r s =
      if str_eq r.path (codes "/v1/health")
      then next r s
      else if bears token (cut_prefix (codes "Bearer ") r.authorization)
      then next r s
      else (unauthorized, s)

  -- localOnly
  unfoldable pub local_only : Handler A S → Handler A S
  local_only next r s =
      if not (is_local (without_port r.host (split_host_port r.host))) || not (str_eq r.origin [])
      then (forbidden, s)
      else next r s

  -- New, on the generated routes
  unfoldable pub new_handler : Str → Handler A S → Handler A S
  new_handler token routes = local_only (require_bearer token routes)
