-- ===== src/Errors.antt =====
-- internal/service/errors.go and the sentinel errors of internal/store. Wrapping by fmt.Errorf with
-- %w keeps what errors.Is and errors.As see, so a wrapped error is the error itself here; the
-- human-readable messages are left out.
use nephos.Base.{ℕ, Str, []}

-- the `Code` of an API error
pub data Code : Type 0 where
  invalid_parameter_value subnet_range subnet_conflict idempotent_parameter_mismatch : Code
  dependency_violation vpc_not_found subnet_not_found instance_not_found : Code
  incorrect_state address_limit_exceeded : Code

pub record ApiError : Type 0 where
  pub code : Code
  pub resource_id : Str
  pub status : ℕ

-- sql.ErrNoRows, store.ErrStaleSnapshot, SQLite's constraint results, and any other error
pub data Error : Type 0 where
  api : ApiError → Error
  no_rows stale_snapshot : Error
  primary_key_violation unique_violation foreign_key_violation check_violation : Error
  failure : Error

abbrev pub invalid_parameter : Error
invalid_parameter = api (record { code = invalid_parameter_value; resource_id = []; status = 400 })
