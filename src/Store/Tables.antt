-- ===== src/Store/Tables.antt =====
-- The tables of internal/store/migrations with the row types of internal/store/sqlc/models.go.
-- A table keeps its rows in the order of its primary key, which is the order that each ORDER BY asks.
use nephos.Base.{ℕ, Str, codes, List, [], ◌∷◌, Option, Bool, ◌&&◌, str_eq, str_lt, if◌then◌else◌}
use nephos.Model.{State, InstanceState}

pub record VpcRow : Type 0 where
  pub id : Str
  pub workspace_id : Str
  pub short_index : ℕ
  pub name : Str
  pub cidr_block : Str
  pub generation : ℕ
  pub observed_generation : ℕ
  pub state : State
  pub state_reason : Str
  pub created_at : ℕ
  pub updated_at : ℕ
  pub deletion_requested : Bool

pub record SubnetRow : Type 0 where
  pub id : Str
  pub workspace_id : Str
  pub vpc_id : Str
  pub short_index : ℕ
  pub name : Str
  pub cidr_block : Str
  pub availability_zone : Str
  pub generation : ℕ
  pub observed_generation : ℕ
  pub state : State
  pub state_reason : Str
  pub created_at : ℕ
  pub updated_at : ℕ
  pub deletion_requested : Bool

pub record InstanceRow : Type 0 where
  pub id : Str
  pub workspace_id : Str
  pub subnet_id : Str
  pub short_index : ℕ
  pub name : Str
  pub generation : ℕ
  pub observed_generation : ℕ
  pub state : InstanceState
  pub state_reason : Str
  pub created_at : ℕ
  pub updated_at : ℕ
  pub deletion_requested : Bool
  pub runtime_id : Option Str

pub record EniRow : Type 0 where
  pub id : Str
  pub workspace_id : Str
  pub instance_id : Str
  pub subnet_id : Str
  pub short_index : ℕ
  pub private_ip : Str
  pub mac_address : Str
  pub generation : ℕ
  pub observed_generation : ℕ
  pub state : State
  pub state_reason : Str
  pub created_at : ℕ
  pub updated_at : ℕ

pub record EventRow : Type 0 where
  pub id : ℕ
  pub workspace_id : Str
  pub resource_type : Str
  pub resource_id : Str
  pub action : Str
  pub state : Str
  pub generation : ℕ
  pub message : Str
  pub created_at : ℕ

pub record IdempotencyRow : Type 0 where
  pub workspace_id : Str
  pub operation : Str
  pub key : Str
  pub payload_hash : Str
  pub resource_id : Str
  pub created_at : ℕ
  pub expires_at : ℕ
  pub response_json : Str

pub record IndexRow : Type 0 where
  pub id : ℕ
  pub resource_kind : Str
  pub resource_id : Str

-- `last_index` and `last_event` are the AUTOINCREMENT counters of sqlite_sequence
pub record Db : Type 0 where
  pub workspaces : List Str
  pub kernel_indexes : List IndexRow
  pub last_index : ℕ
  pub vpcs : List VpcRow
  pub subnets : List SubnetRow
  pub instances : List InstanceRow
  pub enis : List EniRow
  pub events : List EventRow
  pub last_event : ℕ
  pub idempotency_requests : List IdempotencyRow

-- what the migrations leave
abbrev pub new_db : Db
new_db = record {
  workspaces = codes "default" ∷ [];
  kernel_indexes = [];
  last_index = 0;
  vpcs = [];
  subnets = [];
  instances = [];
  enis = [];
  events = [];
  last_event = 0;
  idempotency_requests = [];
}

-- a row goes before the first that follows it in the order of ids
abbrev pub insert_by {ℓ} : {A : Type ℓ} → (A → Str) → A → List A → List A
insert_by id row [] = row ∷ []
insert_by id row (r ∷ rows) =
    let rest = insert_by id row rows in if str_lt (id row) (id r) then row ∷ r ∷ rows else r ∷ rest

-- `id = ? AND workspace_id = ?`
abbrev pub same_key : Str → Str → Str → Str → Bool
same_key id workspace id' workspace' = str_eq id id' && str_eq workspace workspace'
