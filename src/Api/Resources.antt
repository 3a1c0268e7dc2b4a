-- ===== src/Api/Resources.antt =====
-- internal/apiserver/network.go and instance.go: the handlers of VPCs, subnets and instances. The
-- bodies of the requests are those of the service's inputs, which have the same fields.
pub mod Effects
use nephos.Base.{ℕ, Bool, List, [], ◌∷◌, Option, none, some, map, Str, Result, ok, err}
use nephos.Netip.Text.{print_addr, print_prefix}
use nephos.Model.{State, InstanceState, Vpc, Subnet, Instance}
use nephos.Errors.{Error}
use nephos.Store.Tables.{Db}
use nephos.Service.Idempotency.{Codec}
use nephos.Service.Network.{CreateVpcInput, CreateSubnetInput}
use nephos.Service.Requests.{
  create_vpc, create_subnet, delete_vpc, delete_subnet, service_get_vpc, service_get_subnet,
  list_vpcs, list_subnets, list_instances,
}
use nephos.Service.Instances.{RunInstanceInput, run, terminate_snapshot, service_get_instance}
use nephos.Api.Replies.{
  Http, json, Handled, Body, or_empty, write_service_error, unchanged, checked, decode_body,
  respond, answered, with_required,
}

pub record VpcView : Type 0 where
  pub id : Str
  pub name : Str
  pub cidr_block : Str
  pub state : State
  pub state_reason : Str
  pub generation : ℕ
  pub observed_generation : ℕ

pub record SubnetView : Type 0 where
  pub id : Str
  pub vpc_id : Str
  pub name : Str
  pub cidr_block : Str
  pub availability_zone : Str
  pub state : State
  pub state_reason : Str
  pub generation : ℕ
  pub observed_generation : ℕ

pub record InstanceView : Type 0 where
  pub id : Str
  pub name : Str
  pub subnet_id : Str
  pub private_ip : Str
  pub eni_id : Str
  pub instance_type : Str
  pub state : InstanceState
  pub state_reason : Str
  pub generation : ℕ
  pub observed_generation : ℕ

abbrev pub vpc_response : Vpc → VpcView
vpc_response v = record {
  id = v.id;
  name = v.name;
  cidr_block = print_prefix v.cidr_block;
  state = v.state;
  state_reason = v.state_reason;
  generation = v.generation;
  observed_generation = v.observed_generation;
}

abbrev pub subnet_response : Subnet → SubnetView
subnet_response s = record {
  id = s.id;
  vpc_id = s.vpc_id;
  name = s.name;
  cidr_block = print_prefix s.cidr_block;
  availability_zone = s.availability_zone;
  state = s.state;
  state_reason = s.state_reason;
  generation = s.generation;
  observed_generation = s.observed_generation;
}

abbrev pub instance_response : Instance → InstanceView
instance_response i = record {
  id = i.id;
  name = i.name;
  subnet_id = i.subnet_id;
  private_ip = print_addr i.eni.private_ip;
  eni_id = i.eni.id;
  instance_type = i.instance_type;
  state = i.state;
  state_reason = i.state_reason;
  generation = i.generation;
  observed_generation = i.observed_generation;
}

pub record Page (A : Type 0) : Type 0 where
  pub items : List A
  pub next_page_token : Option Str

abbrev pub next_token : Str → Option Str
next_token [] = none
next_token (c ∷ next) = some (c ∷ next)

-- `if params.Limit != nil { limit = *params.Limit }`; a limit that is negative is `none`
abbrev pub limit_of : Option (Option ℕ) → Option ℕ
limit_of none = some 0
limit_of (some limit) = limit

module _ {A B : Type 0} where
  abbrev pub page_response : (A → B) → Result Error (List A × Str) → Http (Page B)
  page_response view (err e) = write_service_error e
  page_response view (ok (items, next)) =
      json 200 (record { items = map view items; next_page_token = next_token next })

-- the fields that `required` is given
abbrev pub vpc_fields : CreateVpcInput → List Str
vpc_fields b = b.name ∷ b.cidr_block ∷ []

abbrev pub subnet_fields : CreateSubnetInput → List Str
subnet_fields b = b.name ∷ b.vpc_id ∷ b.cidr_block ∷ b.availability_zone ∷ []

abbrev pub instance_fields : RunInstanceInput → List Str
instance_fields b = b.name ∷ b.subnet_id ∷ []

-- The handlers, for a workspace and a server that may lack the service.
module _ (workspace : Str) (ready : Bool) where
  module _ (hash : List Str → Str) where
    unfoldable pub http_create_vpc :
        Codec Vpc → Body CreateVpcInput → Option Str → Option Str → ℕ → Db → Handled VpcView
    http_create_vpc codec body key random now db = checked (unchanged db) workspace ready (
        with_required vpc_fields
          (λ b. answered 201 vpc_response (create_vpc hash codec b (or_empty key) random now db)) db
          (decode_body body))

    unfoldable pub http_create_subnet :
        Codec Subnet
        → Body CreateSubnetInput
        → Option Str
        → Option Str
        → ℕ
        → Db
        → Handled SubnetView
    http_create_subnet codec body key random now db = checked (unchanged db) workspace ready (
        with_required subnet_fields
          (λ b.
            answered 201 subnet_response (create_subnet hash codec b (or_empty key) random now db))
          db (decode_body body))

    unfoldable pub http_run_instance :
        (Str → Str)
        → Codec Instance
        → Body RunInstanceInput
        → Option Str
        → Option Str
        → Option Str
        → ℕ
        → Db
        → Handled InstanceView
    http_run_instance digest codec body key random eni_random now db =
        checked (unchanged db) workspace ready (
          with_required instance_fields
            (λ b.
              answered 201 instance_response
                (run hash digest codec b (or_empty key) random eni_random now db))
            db (decode_body body))

  unfoldable pub http_delete_vpc : Str → ℕ → Db → Handled VpcView
  http_delete_vpc id now db =
      checked (unchanged db) workspace ready (answered 202 vpc_response (delete_vpc id now db))

  unfoldable pub http_delete_subnet : Str → ℕ → Db → Handled SubnetView
  http_delete_subnet id now db =
      checked (unchanged db) workspace ready
        (answered 202 subnet_response (delete_subnet id now db))

  unfoldable pub http_terminate_instance : Str → ℕ → Db → Handled InstanceView
  http_terminate_instance id now db =
      checked (unchanged db) workspace ready
        (answered 202 instance_response (terminate_snapshot id now db))

  -- the handlers that read
  unfoldable pub http_get_vpc : Str → Db → Http VpcView
  http_get_vpc id db =
      checked (λ e. e) workspace ready (respond 200 vpc_response (service_get_vpc id db).0)

  unfoldable pub http_get_subnet : Str → Db → Http SubnetView
  http_get_subnet id db =
      checked (λ e. e) workspace ready (respond 200 subnet_response (service_get_subnet id db).0)

  unfoldable pub http_get_instance : Str → Db → Http InstanceView
  http_get_instance id db =
      checked (λ e. e) workspace ready
        (respond 200 instance_response (service_get_instance id db).0)

  unfoldable pub http_list_vpcs : Option (Option ℕ) → Option Str → Db → Http (Page VpcView)
  http_list_vpcs limit token db =
      checked (λ e. e) workspace ready
        (page_response vpc_response (list_vpcs (limit_of limit) (or_empty token) db))

  unfoldable pub http_list_subnets : Option (Option ℕ) → Option Str → Db → Http (Page SubnetView)
  http_list_subnets limit token db =
      checked (λ e. e) workspace ready
        (page_response subnet_response (list_subnets (limit_of limit) (or_empty token) db))

  unfoldable pub http_list_instances :
      Option (Option ℕ) → Option Str → Db → Http (Page InstanceView)
  http_list_instances limit token db =
      checked (λ e. e) workspace ready
        (page_response instance_response (list_instances (limit_of limit) (or_empty token) db))
