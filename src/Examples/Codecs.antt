-- ===== src/Examples/Codecs.antt =====
-- Concrete stand-ins for encoding/json on the two types of internal/model that are replayed.
use nephos.Base.{
  ℕ, zero, suc, ◌≡◌, refl, ap, Bool, true, false, Option, none, some, [], ◌∷◌, ◌++◌, Str, length,
  take, drop,
}
use nephos.Netip.{Addr, invalid, v4, v6}
use nephos.Model.{State, pending, available, deleting, failed, Vpc, Subnet}
use nephos.Service.Idempotency.{Codec}

-- a string goes with its length before it
abbrev pub field : Str → Str → Str
field s rest = length s ∷ (s ++ rest)

abbrev pub unfield : Str → Str × Str
unfield [] = ([], [])
unfield (n ∷ s) = (take n s, drop n s)

pub take-append : (s rest : Str) → take (length s) (s ++ rest) ≡ s
take-append [] rest = refl
take-append (c ∷ s) rest = ap (λ t. c ∷ t) (take-append s rest)

pub drop-append : (s rest : Str) → drop (length s) (s ++ rest) ≡ rest
drop-append [] rest = refl
drop-append (c ∷ s) rest = drop-append s rest

unfield-field : (s rest : Str) → unfield (field s rest) ≡ (s, rest)
unfield-field s rest = rw (take-append s rest, drop-append s rest) refl

abbrev pub state_code : State → ℕ
state_code pending = 0
state_code available = 1
state_code deleting = 2
state_code failed = 3

abbrev pub code_state : ℕ → State
code_state zero = pending
code_state (suc zero) = available
code_state (suc (suc zero)) = deleting
code_state (suc (suc (suc n))) = failed

pub state_back : (s : State) → code_state (state_code s) ≡ s
state_back pending = refl
state_back available = refl
state_back deleting = refl
state_back failed = refl

abbrev pub bool_code : Bool → ℕ
bool_code true = 1
bool_code false = 0

abbrev pub code_bool : ℕ → Bool
code_bool zero = false
code_bool (suc n) = true

pub bool_back : (b : Bool) → code_bool (bool_code b) ≡ b
bool_back true = refl
bool_back false = refl

abbrev pub addr_kind : Addr → ℕ
addr_kind invalid = 0
addr_kind (v4 a) = 1
addr_kind (v6 a) = 2

abbrev pub addr_value : Addr → ℕ
addr_value invalid = 0
addr_value (v4 a) = a
addr_value (v6 a) = a

abbrev pub code_addr : ℕ → ℕ → Addr
code_addr zero a = invalid
code_addr (suc zero) a = v4 a
code_addr (suc (suc n)) a = v6 a

pub addr_back : (a : Addr) → code_addr (addr_kind a) (addr_value a) ≡ a
addr_back invalid = refl
addr_back (v4 a) = refl
addr_back (v6 a) = refl

abbrev vpc_fields : Str → Str → Str → Str → Str → Option Vpc
vpc_fields id w name reason (i ∷ s ∷ d ∷ g ∷ o ∷ b ∷ k ∷ a ∷ []) = some (record {
  id = id;
  workspace_id = w;
  name = name;
  cidr_block = record { addr = code_addr k a; bits_plus_one = b };
  short_index = i;
  state = code_state s;
  state_reason = reason;
  deletion_requested = code_bool d;
  generation = g;
  observed_generation = o;
})
vpc_fields id w name reason _ = none

abbrev read_vpc : Str → Option Vpc
read_vpc t =
    let (id, t1) = unfield t in
    let (w, t2) = unfield t1 in
    let (name, t3) = unfield t2 in let (reason, t4) = unfield t3 in vpc_fields id w name reason t4

abbrev write_vpc : Vpc → Str
write_vpc v = field v.id (
    field v.workspace_id (
      field v.name (
        field v.state_reason (
          v.short_index
          ∷ state_code v.state
          ∷ bool_code v.deletion_requested
          ∷ v.generation
          ∷ v.observed_generation
          ∷ v.cidr_block.bits_plus_one
          ∷ addr_kind v.cidr_block.addr
          ∷ addr_value v.cidr_block.addr
          ∷ []))))

pub vpc_back : (v : Vpc) → read_vpc (write_vpc v) ≡ some v
vpc_back v = simp (take-append, drop-append, state_back, bool_back, addr_back)

abbrev pub vpc_codec : Codec Vpc
vpc_codec = record { marshal = write_vpc; unmarshal = read_vpc; unmarshal-marshal = vpc_back }

abbrev subnet_fields : Str → Str → Str → Str → Str → Str → Str → Option Subnet
subnet_fields id w vpc name zone reason (i ∷ s ∷ d ∷ g ∷ o ∷ b ∷ k ∷ a ∷ []) = some (record {
  id = id;
  workspace_id = w;
  vpc_id = vpc;
  name = name;
  cidr_block = record { addr = code_addr k a; bits_plus_one = b };
  availability_zone = zone;
  short_index = i;
  state = code_state s;
  state_reason = reason;
  deletion_requested = code_bool d;
  generation = g;
  observed_generation = o;
})
subnet_fields id w vpc name zone reason _ = none

abbrev read_subnet : Str → Option Subnet
read_subnet t =
    let (id, t1) = unfield t in
    let (w, t2) = unfield t1 in
    let (vpc, t3) = unfield t2 in
    let (name, t4) = unfield t3 in
    let (zone, t5) = unfield t4 in
    let (reason, t6) = unfield t5 in subnet_fields id w vpc name zone reason t6

abbrev write_subnet : Subnet → Str
write_subnet s = field s.id (
    field s.workspace_id (
      field s.vpc_id (
        field s.name (
          field s.availability_zone (
            field s.state_reason (
              s.short_index
              ∷ state_code s.state
              ∷ bool_code s.deletion_requested
              ∷ s.generation
              ∷ s.observed_generation
              ∷ s.cidr_block.bits_plus_one
              ∷ addr_kind s.cidr_block.addr
              ∷ addr_value s.cidr_block.addr
              ∷ []))))))

pub subnet_back : (s : Subnet) → read_subnet (write_subnet s) ≡ some s
subnet_back s = simp (take-append, drop-append, state_back, bool_back, addr_back)

abbrev pub subnet_codec : Codec Subnet
subnet_codec = record {
  marshal = write_subnet;
  unmarshal = read_subnet;
  unmarshal-marshal = subnet_back;
}
