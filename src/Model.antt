-- ===== src/Model.antt =====
-- internal/model: the resource snapshots that services, store and reconcilers share.
use nephos.Base.{ℕ, Bool, true, false, Str}
use nephos.Netip.{Addr, Prefix}

pub data State : Type 0 where
  pending available deleting failed : State

pub data InstanceState : Type 0 where
  pending running shutting_down failed : InstanceState

pub record Vpc : Type 0 where
  pub id : Str
  pub workspace_id : Str
  pub name : Str
  pub cidr_block : Prefix
  pub short_index : ℕ
  pub state : State
  pub state_reason : Str
  pub deletion_requested : Bool
  pub generation : ℕ
  pub observed_generation : ℕ

pub record Subnet : Type 0 where
  pub id : Str
  pub workspace_id : Str
  pub vpc_id : Str
  pub name : Str
  pub cidr_block : Prefix
  pub availability_zone : Str
  pub short_index : ℕ
  pub state : State
  pub state_reason : Str
  pub deletion_requested : Bool
  pub generation : ℕ
  pub observed_generation : ℕ

pub record Eni : Type 0 where
  pub id : Str
  pub workspace_id : Str
  pub instance_id : Str
  pub subnet_id : Str
  pub short_index : ℕ
  pub private_ip : Addr
  pub mac_address : Str
  pub generation : ℕ
  pub observed_generation : ℕ
  pub state : State
  pub state_reason : Str

pub record Instance : Type 0 where
  pub id : Str
  pub workspace_id : Str
  pub subnet_id : Str
  pub short_index : ℕ
  pub name : Str
  pub instance_type : Str
  pub state : InstanceState
  pub state_reason : Str
  pub generation : ℕ
  pub observed_generation : ℕ
  pub deletion_requested : Bool
  pub runtime_id : Str
  pub eni : Eni

-- `==` on the two kinds of state
unfoldable pub state_eq : State → State → Bool
state_eq State.pending State.pending = true
state_eq State.available State.available = true
state_eq State.deleting State.deleting = true
state_eq State.failed State.failed = true
state_eq _ _ = false

unfoldable pub instance_state_eq : InstanceState → InstanceState → Bool
instance_state_eq InstanceState.pending InstanceState.pending = true
instance_state_eq InstanceState.running InstanceState.running = true
instance_state_eq InstanceState.shutting_down InstanceState.shutting_down = true
instance_state_eq InstanceState.failed InstanceState.failed = true
instance_state_eq _ _ = false
