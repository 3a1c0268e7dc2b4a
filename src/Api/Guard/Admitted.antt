-- ===== src/Api/Guard/Admitted.antt =====
-- internal/apiserver/auth.go: the requests that reach a route.
use nephos.Base.{◌≡◌, ◌≢◌, ◌⊎◌, Bool, ◌&&◌, ◌||◌, ◌++◌, [], Str, codes, str_eq, cut_prefix}
use nephos.Api.Guard.Hosts.{IsLocalHost}
use nephos.Api.Guard.{
  Request, Response, unauthorized, forbidden, split_host_port, without_port, is_local, bears,
  Handler,
}

-- the request is addressed to this host by its name or a loopback address, and by no page
pub record IsLocal (r : Request) : Type 0 where
  pub host : IsLocalHost r.host
  pub origin : r.origin ≡ []

-- it asks for the health of the server, or bears the token, and there is a token
abbrev pub IsKnown : Str → Request → Type 0
IsKnown token r =
    (r.path ≡ codes "/v1/health") ⊎ ((token ≢ []) × (r.authorization ≡ codes "Bearer " ++ token))

-- the two tests of requireBearer
known_test : Str → Request → Bool
known_test token r =
    str_eq r.path (codes "/v1/health") || bears token (cut_prefix (codes "Bearer ") r.authorization)

local_test : Request → Bool
local_test r = is_local (without_port r.host (split_host_port r.host)) && str_eq r.origin []

module _ {A S : Type 0} (token : Str) (routes : Handler A S) (r : Request) (s : S) where
  -- what the guards do with a request: they pass it on, or refuse it and leave the state alone
  abbrev pub Guarded : Response A × S → Type 0
  Guarded out =
      (IsLocal r × IsKnown token r × (out ≡ routes r s))
      ⊎ ((IsLocal r × (IsKnown token r → ⊥) × (out ≡ (unauthorized, s)))
          ⊎ ((IsLocal r → ⊥) × (out ≡ (forbidden, s))))
