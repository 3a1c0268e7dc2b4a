-- ===== src/Service/Requests.antt =====
-- internal/service/network.go: the methods of Network, around their transactions. `hash` is
-- hashPayload, SHA-256 of a JSON list; the random bytes and the time are arguments.
use nephos.Base.{
  ℕ, ◌+◌, Option, List, [], ◌∷◌, leb, if◌then◌else◌, length, take, Str, codes, Result, ok, err,
  ◌>>=◌, require,
}
use nephos.Netip.Text.{print_prefix}
use nephos.Model.{Vpc, Subnet, Instance}
use nephos.Store.Leases.{list_instance_page}
use nephos.Errors.{Error, invalid_parameter}
use nephos.Store.Tables.{Db}
use nephos.Store.Tx.{found_or, with_tx}
use nephos.Store.Subnets.{known_zone}
use nephos.Store.Resources.{get_vpc, list_vpc_page, get_subnet, list_subnet_page}
use nephos.Service.Validate.{parse_cidr}
use nephos.Service.Names.{validate_name, validate_idempotency_key}
use nephos.Service.Ids.{new_id}
use nephos.Service.Pagination.{page_size, encode_page_token, decode_page_token}
use nephos.Service.Idempotency.{default_workspace, Codec, Reply, reply_of, checked_reply}
use nephos.Service.Network.{
  CreateVpcInput, CreateSubnetInput, no_vpc, no_subnet, create_vpc_tx, delete_vpc_tx,
  create_subnet_tx, delete_subnet_tx,
}

module _ (hash : List Str → Str) where
  -- Network.CreateVPC
  unfoldable pub create_vpc : Codec Vpc → CreateVpcInput → Str → Option Str → ℕ → Db → Reply Vpc
  create_vpc codec input key random now = checked_reply (validate_name input.name) λ name.
      checked_reply (parse_cidr input.cidr_block) λ cidr.
        checked_reply (validate_idempotency_key key) λ _.
          checked_reply (new_id (codes "vpc-") random) λ id db.
            reply_of (λ v. v.id)
              (with_tx
                (create_vpc_tx codec id name cidr key (hash (name ∷ print_prefix cidr ∷ [])) now)
                db)

  -- Network.CreateSubnet
  unfoldable pub create_subnet :
      Codec Subnet → CreateSubnetInput → Str → Option Str → ℕ → Db → Reply Subnet
  create_subnet codec input key random now = checked_reply (validate_name input.name) λ name.
      checked_reply (parse_cidr input.cidr_block) λ cidr.
        checked_reply (require (known_zone input.availability_zone) invalid_parameter) λ _.
          checked_reply (validate_idempotency_key key) λ _.
            checked_reply (new_id (codes "subnet-") random) λ id db.
              reply_of (λ s. s.vpc_id)
                (with_tx
                  (create_subnet_tx codec input id name cidr key
                    (hash (name ∷ input.vpc_id ∷ print_prefix cidr ∷ input.availability_zone ∷ []))
                    now)
                  db)

-- Network.DeleteVPC
unfoldable pub delete_vpc : Str → ℕ → Db → Reply Vpc
delete_vpc id now db = reply_of (λ v. id) (with_tx (delete_vpc_tx id now) db)

-- Network.DeleteSubnet
unfoldable pub delete_subnet : Str → ℕ → Db → Reply Subnet
delete_subnet id now db = reply_of (λ s. s.vpc_id) (with_tx (delete_subnet_tx id now) db)

-- Network.GetVPC
unfoldable pub service_get_vpc : Str → Db → Result Error Vpc × Db
service_get_vpc id = with_tx (found_or (get_vpc default_workspace id) (no_vpc id))

-- Network.GetSubnet
unfoldable pub service_get_subnet : Str → Db → Result Error Subnet × Db
service_get_subnet id = with_tx (found_or (get_subnet default_workspace id) (no_subnet id))

module _ {A : Type 0} (kind : Str) (id : A → Str) where
  abbrev pub last_id : List A → Str
  last_id [] = []
  last_id (x ∷ []) = id x
  last_id (x ∷ y ∷ xs) = last_id (y ∷ xs)

  -- one row more than the page was read, to see whether a page follows
  unfoldable pub cut_page : ℕ → List A → List A × Str
  cut_page size items =
      if leb (length items) size
      then (items, [])
      else (take size items, encode_page_token kind (last_id (take size items)))

  abbrev pub cut_result : ℕ → Result Error (List A) → Result Error (List A × Str)
  cut_result size (err e) = err e
  cut_result size (ok items) = ok (cut_page size items)

-- Network.ListVPCs
unfoldable pub list_vpcs : Option ℕ → Str → Db → Result Error (List Vpc × Str)
list_vpcs limit token db = do
  size ← page_size limit
  after ← decode_page_token (codes "vpc") token
  cut_result (codes "vpc") (λ v. v.id) size
      (with_tx (list_vpc_page default_workspace after (size + 1)) db).0

-- Network.ListSubnets
unfoldable pub list_subnets : Option ℕ → Str → Db → Result Error (List Subnet × Str)
list_subnets limit token db = do
  size ← page_size limit
  after ← decode_page_token (codes "subnet") token
  cut_result (codes "subnet") (λ s. s.id) size
      (with_tx (list_subnet_page default_workspace after (size + 1)) db).0

-- Instances.List, of internal/service/instance.go
unfoldable pub list_instances : Option ℕ → Str → Db → Result Error (List Instance × Str)
list_instances limit token db = do
  size ← page_size limit
  after ← decode_page_token (codes "instance") token
  cut_result (codes "instance") (λ i. i.id) size
      (list_instance_page default_workspace after (size + 1) db).0
