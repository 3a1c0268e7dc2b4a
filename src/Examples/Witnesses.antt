-- ===== src/Examples/Witnesses.antt =====
-- The theorems on histories, replays, leases and blocks, on the small network.
use nephos.Service.Issued.{new_id-valid_page_id}
use nephos.Service.Pagination.{valid_page_id}
use nephos.Base.{
  ℕ, zero, suc, ◌+◌, ◌^◌, ◌≤◌, ◌≡◌, ◌↔◌, ◌⊎◌, refl, true, false, none, some, List, [], ◌∷◌, ◌++◌,
  keep, arith, ltb, All, Str, codes, str_eq, ok, err,
}
use nephos.Netip.{Addr, v4, Prefix}
use nephos.Netip.Ranges.{net4, floor}
use nephos.Netip.Text.{parse_prefix, print_prefix}
use nephos.Model.{Vpc, Subnet}
use nephos.Store.Tables.{new_db}
use nephos.Store.Topology.{IsTopology}
use nephos.Store.Log.{Event, append_event, event_row, events_after}
use nephos.Service.Validate.{
  parse_cidr, overlaps, validate_subnet_range, validate_subnet_disjoint, reserved_address,
}
use nephos.Service.Validate.Ranges.{Holds, overlaps_iff}
use nephos.Service.Validate.Containment.{range_iff, disjoint_iff, ClearOf}
use nephos.Service.Validate.Cidr.{
  IsCanonical, parse_cidr-IsCanonical, parse_cidr-print_prefix, reserved_iff,
}
use nephos.Service.Ipam.{next_private_ip}
use nephos.Service.Ipam.Free.{Outcome, next_private_ip-Outcome}
use nephos.Service.Ids.{new_id}
use nephos.Service.Idempotency.{Reply, load_replay, save_replay}
use nephos.Service.Idempotency.Repeat.{create_vpc-repeat}
use nephos.Service.Network.{CreateVpcInput, CreateSubnetInput, pending_vpc, no_vpc}
use nephos.Service.Requests.{create_vpc, create_subnet}
use nephos.Reach.{Reach, start, step, create_vpc_step, create_subnet_step}
use nephos.Reach.Network.{Reach-IsTopology}
use nephos.Examples.Codecs.{vpc_codec, subnet_codec}
use nephos.Examples.Data.{join, digest, entropy, fresh_entropy, vpc_id, vpc_input, subnet_input}

abbrev vpc_reply : Reply Vpc
vpc_reply = create_vpc join vpc_codec vpc_input (codes "k") (some entropy) 10 new_db

abbrev subnet_reply : Reply Subnet
subnet_reply = create_subnet join subnet_codec subnet_input [] (some entropy) 11 vpc_reply.db

history : Reach join digest subnet_reply.db
history =
    step (step start (create_vpc_step vpc_codec vpc_input (codes "k") (some entropy) 10))
      (create_subnet_step subnet_codec subnet_input [] (some entropy) 11)

Reach-IsTopology_example : IsTopology subnet_reply.db.vpcs subnet_reply.db.subnets
Reach-IsTopology_example = Reach-IsTopology join digest subnet_reply.db history

vpc_enqueued : vpc_reply.enqueued ≡ some vpc_id
unfolding create_vpc nephos.Service.Names.validate_name parse_cidr parse_prefix nephos.Netip.bits
    nephos.Netip.is4 nephos.Netip.prefix_valid nephos.Netip.masked
    nephos.Service.Names.validate_idempotency_key new_id nephos.Service.Ids.valid_id_prefix
    nephos.Store.Tx.with_tx nephos.Service.Network.create_vpc_tx load_replay
    nephos.Store.Log.get_idempotency nephos.Store.Resources.get_vpc_by_name
    nephos.Store.Vpcs.get_vpc_row_by_name nephos.Service.Network.insert_pending_vpc
    nephos.Store.Resources.allocate_index nephos.Store.Vpcs.insert_index
    nephos.Store.Resources.insert_vpc_model nephos.Store.Vpcs.insert_vpc str_eq append_event
    save_replay nephos.Base.str_lt nephos.Netip.Text.print_addr print_prefix
    nephos.Service.Idempotency.replay_of nephos.Service.Ids.body_then_dash
    nephos.Service.Ids.hex_encode nephos.Service.Names.is_control nephos.Store.Log.put_idempotency
    nephos.Store.Resources.vpc_from_row
vpc_enqueued = refl

new_id_again : new_id (codes "vpc-") (some fresh_entropy) ≡ ok (codes "vpc-09080706050403020")
unfolding new_id nephos.Service.Ids.valid_id_prefix nephos.Service.Ids.body_then_dash
    nephos.Service.Ids.hex_encode
new_id_again = refl

create_vpc-repeat_example :
    create_vpc join vpc_codec vpc_input (codes "k") (some fresh_entropy) 86409 vpc_reply.db
    ≡ record { result = vpc_reply.result; db = vpc_reply.db; enqueued = none }
create_vpc-repeat_example =
    create_vpc-repeat join vpc_codec vpc_input b'k' [] (some entropy) (some fresh_entropy) 10 86409
      new_db vpc_id (codes "vpc-09080706050403020") vpc_enqueued new_id_again (omega arith)

-- 10.0.0.0
abbrev base : ℕ
base = 167772160

abbrev small : IsCanonical (net4 base 28)
small = record {
  base = base;
  len = 28;
  shape = refl;
  at_least = omega arith;
  at_most = omega arith;
  clear = refl;
  word = omega arith;
}

next_private_ip-Outcome_example :
    Outcome
      (base + 4)
      (base + 15)
      (v4 (base + 4) ∷ [])
      (next_private_ip (net4 base 28) (v4 (base + 4) ∷ []))
next_private_ip-Outcome_example = next_private_ip-Outcome (net4 base 28) (v4 (base + 4) ∷ []) small

range_iff_example :
    (validate_subnet_range (net4 base 16) (net4 base 24) ≡ ok tt)
    ↔ ((16 ≤ 24) × ((x : ℕ) → Holds (net4 base 24) x → Holds (net4 base 16) x))
range_iff_example = range_iff base 16 base 24 (omega arith)

disjoint_iff_example :
    (validate_subnet_disjoint (net4 base 24) (net4 (base + 256) 24 ∷ []) ≡ ok tt)
    ↔ ClearOf (net4 base 24) (net4 (base + 256) 24 ∷ [])
disjoint_iff_example = disjoint_iff (net4 base 24) (net4 (base + 256) 24 ∷ [])

overlaps_iff_example :
    (overlaps (net4 base 16) (net4 (base + 256) 24) ≡ true)
    ↔ ((x : ℕ) × Holds (net4 base 16) x × Holds (net4 (base + 256) 24) x)
overlaps_iff_example = overlaps_iff base 16 (base + 256) 24

parsed : parse_cidr (codes "10.0.1.7/24") ≡ ok (net4 (base + 256) 24)
unfolding parse_cidr parse_prefix nephos.Netip.bits nephos.Netip.is4 nephos.Netip.prefix_valid
    nephos.Netip.masked
parsed = refl

parse_cidr-IsCanonical_example : IsCanonical (net4 (base + 256) 24)
parse_cidr-IsCanonical_example =
    parse_cidr-IsCanonical (codes "10.0.1.7/24") (net4 (base + 256) 24) parsed

parse_cidr-print_prefix_example :
    parse_cidr (print_prefix (net4 (base + 7) 24)) ≡ ok (net4 (floor (base + 7) 8) 24)
parse_cidr-print_prefix_example =
    parse_cidr-print_prefix (base + 7) 24 (omega arith) (omega arith) (omega arith)

reserved_iff_example : (reserved_address (net4 base 24) (v4 (base + 255)) ≡ true) ↔ (
    Holds (net4 base 24) (base + 255)
    × ((base + 255 ≤ floor base 8 + 3) ⊎ (base + 255 + 1 ≡ floor base 8 + 2 ^ 8)))
reserved_iff_example = reserved_iff base 24 (base + 255) (omega arith) (omega arith) (omega arith)

new_id-valid_page_id_example : valid_page_id (codes "vpc") (codes "vpc-09080706050403020") ≡ true
unfolding str_eq
new_id-valid_page_id_example =
    new_id-valid_page_id (codes "vpc") (codes "vpc-09080706050403020") 9 8 7 6 5 4 3 2 1
      (omega arith) new_id_again
