-- ===== src/Examples/Boundaries.antt =====
-- The API's guards, its stream of events, console messages and gateways on concrete input.
use nephos.Base.{
  ℕ, ◌+◌, ◌^◌, ◌≤◌, ◌≡◌, ◌↔◌, refl, sym, ap, ◌∙◌, true, false, none, some, List, [], ◌∷◌, ◌++◌, map,
  arith, All, Str, codes, length, ok,
}
use mathlib.Core.Path.{subst}
use nephos.Netip.{Prefix}
use nephos.Netip.Ranges.{net4}
use nephos.Netip.Text.{parse_prefix}
use nephos.Store.Topology.{Inside}
use nephos.Store.Resources.{get_vpc, list_subnets_by_vpc}
use nephos.Service.Validate.{gateway, validate_subnet_range}
use nephos.Service.Validate.Cidr.{IsCanonical}
use nephos.Service.Network.Effects.{Top, some_inj}
use nephos.Kernel.Decimals.{pos, format_int}
use nephos.Kernel.Gateways.{desired_gateways, sort_addrs}
use nephos.Kernel.Gateways.Provided.{desired_gateways-active}
use nephos.Controller.Vpcs.{active}
use nephos.Console.{
  Json, ClientControl, start, parse_client_text, parse_input_frame, input_frame, parse_output_frame,
  output_frame,
}
use nephos.Console.Frames.{frames_iff}
use nephos.Console.Accepted.{IsControl, parse_client_text-IsControl}
use nephos.Api.Guard.{Request, answer, Handler}
use nephos.Api.Stream.{get_events}
use nephos.Api.Stream.Complete.{IsHistory, IsStream, get_events-IsStream}
use nephos.Examples.Data.{vpc_id, net, front, one_subnet, two_events}

abbrev vpc_block : Prefix
vpc_block = net4 167772160 16

abbrev subnet_block : Prefix
subnet_block = net4 167772416 24

vpc_parsed : parse_prefix (codes "10.0.0.0/16") ≡ some vpc_block
unfolding parse_prefix
vpc_parsed = refl

subnet_parsed : parse_prefix (codes "10.0.1.0/24") ≡ some subnet_block
unfolding parse_prefix
subnet_parsed = refl

vpc_canonical : IsCanonical vpc_block
vpc_canonical = record {
  base = 167772160;
  len = 16;
  shape = refl;
  at_least = omega arith;
  at_most = omega arith;
  clear = refl;
  word = omega arith;
}

subnet_canonical : IsCanonical subnet_block
subnet_canonical = record {
  base = 167772416;
  len = 24;
  shape = refl;
  at_least = omega arith;
  at_most = omega arith;
  clear = refl;
  word = omega arith;
}

fits : validate_subnet_range vpc_block subnet_block ≡ ok tt
unfolding validate_subnet_range nephos.Netip.masked nephos.Netip.contains nephos.Netip.bits
    nephos.Netip.prefix_valid nephos.Netip.is4
fits = refl

inside : Inside (codes "10.0.0.0/16") (codes "10.0.1.0/24")
inside p q e f =
    subst (λ x. validate_subnet_range x q ≡ ok tt) (some_inj vpc_block p (sym vpc_parsed ∙ e))
      (subst (λ x. validate_subnet_range vpc_block x ≡ ok tt)
        (some_inj subnet_block q (sym subnet_parsed ∙ f)) fits)

top : Top one_subnet
unfolding nephos.Base.str_eq
top = record {
  vpc_blocks = ((vpc_block, vpc_parsed, vpc_canonical), tt);
  subnet_blocks = ((subnet_block, subnet_parsed, subnet_canonical), tt);
  parents = ((refl, inside), tt);
  apart = (tt, tt);
}

net_read : get_vpc (codes "default") vpc_id one_subnet ≡ ok (net, one_subnet)
unfolding get_vpc nephos.Store.Vpcs.get_vpc_row nephos.Base.str_eq
    nephos.Store.Resources.vpc_from_row nephos.Netip.is4 parse_prefix
net_read = refl

net_listed : list_subnets_by_vpc vpc_id one_subnet ≡ ok (front ∷ [], one_subnet)
unfolding list_subnets_by_vpc nephos.Store.Resources.read_rows
    nephos.Store.Subnets.list_subnet_rows_by_vpc nephos.Base.str_eq
    nephos.Store.Resources.subnet_from_row nephos.Netip.is4 parse_prefix
net_listed = refl

desired_gateways-active_example :
    desired_gateways net (active (front ∷ []))
    ≡ ok (sort_addrs (map (λ s. gateway s.cidr_block) (active (front ∷ []))))
desired_gateways-active_example =
    desired_gateways-active one_subnet vpc_id net (front ∷ []) top (refl, tt) net_read net_listed

frames_iff_example :
    ((parse_input_frame (0 ∷ 104 ∷ []) ≡ ok (104 ∷ []))
      ↔ (input_frame (104 ∷ []) ≡ ok (0 ∷ 104 ∷ [])))
    × ((parse_output_frame (0 ∷ 104 ∷ []) ≡ ok (1, 104 ∷ []))
        ↔ (output_frame 1 (104 ∷ []) ≡ ok (0 ∷ 104 ∷ [])))
frames_iff_example = frames_iff (0 ∷ 104 ∷ []) 1 (104 ∷ [])

-- a decoder that knows one message
abbrev json : Json
json = record {
  head_type = λ raw. some (codes "start");
  start_wire = λ raw. some (record {
    command = codes "sh" ∷ codes "-l" ∷ [];
    tty = some true;
    rows = some 24;
    cols = some 80;
  });
  resize_wire = λ raw. some (record { rows = some 24; cols = some 80 });
  eof_wire = λ raw. none;
  exit_wire = λ raw. none;
  error_wire = λ raw. none;
}

abbrev shell : ClientControl
shell = start (record { command = codes "sh" ∷ codes "-l" ∷ []; tty = true; rows = 24; cols = 80 })

opened : parse_client_text json (codes "{}") ≡ ok shell
unfolding parse_client_text nephos.Console.control_type nephos.Console.strict_control
    nephos.Base.str_eq nephos.Console.dimensions nephos.Console.check_start
    nephos.Console.no_command
opened = refl

parse_client_text-IsControl_example :
    IsControl shell × (1 ≤ length (codes "{}")) × (length (codes "{}") ≤ 4096)
parse_client_text-IsControl_example = parse_client_text-IsControl json (codes "{}") shell opened

abbrev listing : Request
listing = record {
  path = codes "/v1/workspaces/default/vpcs";
  host = codes "localhost:8080";
  authorization = codes "Bearer key";
  origin = [];
}

abbrev routes : Handler Str ℕ
routes r s = (answer r.path, s + 1)

steady : IsHistory (λ n. two_events)
steady = record {
  ascending = λ n. (omega arith, (omega arith, tt));
  added = λ n. [];
  grows = λ n. refl;
}

get_events-IsStream_example :
    IsStream 1 2
      (λ n. two_events)
      (get_events true true (some (format_int (pos 1))) 2 (λ n. two_events))
get_events-IsStream_example = get_events-IsStream 1 2 (λ n. two_events) (omega arith) steady
