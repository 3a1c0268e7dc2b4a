-- ===== src/Examples/Data.antt =====
-- A small network: one VPC with a subnet, an instance row and two events.
use nephos.Base.{false, some, List, [], ◌∷◌, ◌++◌, Str, codes}
use nephos.Netip.Ranges.{net4}
use nephos.Model.{State, InstanceState, Vpc, Subnet}
use nephos.Store.Tables.{Db, VpcRow, SubnetRow, InstanceRow, new_db}
use nephos.Store.Log.{Event, event_row}
use nephos.Service.Network.{CreateVpcInput, CreateSubnetInput, pending_vpc}

-- stand-ins for SHA-256
abbrev pub join : List Str → Str
join [] = []
join (s ∷ ss) = s ++ join ss

abbrev pub digest : Str → Str
digest s = 17 ∷ 34 ∷ 51 ∷ 68 ∷ 85 ∷ 102 ∷ 119 ∷ []

abbrev pub entropy : Str
entropy = 0 ∷ 1 ∷ 2 ∷ 3 ∷ 4 ∷ 5 ∷ 6 ∷ 7 ∷ 8 ∷ []

abbrev pub fresh_entropy : Str
fresh_entropy = 9 ∷ 8 ∷ 7 ∷ 6 ∷ 5 ∷ 4 ∷ 3 ∷ 2 ∷ 1 ∷ []

abbrev pub vpc_id : Str
vpc_id = codes "vpc-00010203040506070"

abbrev pub vpc_input : CreateVpcInput
vpc_input = record { name = codes "net"; cidr_block = codes "10.0.0.0/16" }

abbrev pub subnet_input : CreateSubnetInput
subnet_input = record {
  name = codes "front";
  vpc_id = vpc_id;
  cidr_block = codes "10.0.1.0/24";
  availability_zone = codes "local-1a";
}

abbrev pub vpc_row : VpcRow
vpc_row = record {
  id = vpc_id;
  workspace_id = codes "default";
  short_index = 1;
  name = codes "net";
  cidr_block = codes "10.0.0.0/16";
  generation = 1;
  observed_generation = 0;
  state = State.pending;
  state_reason = [];
  created_at = 10;
  updated_at = 10;
  deletion_requested = false;
}

abbrev pub subnet_row : SubnetRow
subnet_row = record {
  id = codes "subnet-1";
  workspace_id = codes "default";
  vpc_id = vpc_id;
  short_index = 2;
  name = codes "front";
  cidr_block = codes "10.0.1.0/24";
  availability_zone = codes "local-1a";
  generation = 1;
  observed_generation = 0;
  state = State.pending;
  state_reason = [];
  created_at = 11;
  updated_at = 11;
  deletion_requested = false;
}

abbrev pub instance_row : InstanceRow
instance_row = record {
  id = codes "i-1";
  workspace_id = codes "default";
  subnet_id = codes "subnet-1";
  short_index = 3;
  name = codes "web";
  generation = 1;
  observed_generation = 0;
  state = InstanceState.pending;
  state_reason = [];
  created_at = 12;
  updated_at = 12;
  deletion_requested = false;
  runtime_id = some (codes "r1");
}

abbrev pub net : Vpc
net = pending_vpc vpc_id (codes "net") (net4 167772160 16) 1

abbrev pub front : Subnet
front = record {
  id = codes "subnet-1";
  workspace_id = codes "default";
  vpc_id = vpc_id;
  name = codes "front";
  cidr_block = net4 167772416 24;
  availability_zone = codes "local-1a";
  short_index = 2;
  state = State.pending;
  state_reason = [];
  deletion_requested = false;
  generation = 1;
  observed_generation = 0;
}

abbrev pub created : Event
created = record {
  workspace_id = codes "default";
  resource_type = codes "vpc";
  resource_id = vpc_id;
  action = codes "created";
  state = codes "pending";
  generation = 1;
  message = [];
  created_at = 10;
}

abbrev pub one_vpc : Db
one_vpc = record new_db { vpcs = vpc_row ∷ [] }

abbrev pub one_subnet : Db
one_subnet = record new_db { vpcs = vpc_row ∷ []; subnets = subnet_row ∷ [] }

abbrev pub one_instance : Db
one_instance = record new_db { instances = instance_row ∷ [] }

abbrev pub two_events : Db
two_events = record new_db {
  events = event_row 1 created ∷ event_row 2 created ∷ [];
  last_event = 2;
}
