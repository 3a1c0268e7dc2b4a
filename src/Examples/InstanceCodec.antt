-- ===== src/Examples/InstanceCodec.antt =====
-- A concrete stand-in for encoding/json on instances.
use nephos.Base.{ℕ, zero, suc, ◌≡◌, refl, Option, none, some, [], ◌∷◌, Str}
use nephos.Model.{InstanceState, Eni, Instance}
use nephos.Service.Idempotency.{Codec}
use nephos.Examples.Codecs.{
  field, unfield, take-append, drop-append, state_code, code_state, state_back, bool_code,
  code_bool, bool_back, addr_kind, addr_value, code_addr, addr_back,
}

abbrev instance_code : InstanceState → ℕ
instance_code InstanceState.pending = 0
instance_code InstanceState.running = 1
instance_code InstanceState.shutting_down = 2
instance_code InstanceState.failed = 3

abbrev code_instance : ℕ → InstanceState
code_instance zero = InstanceState.pending
code_instance (suc zero) = InstanceState.running
code_instance (suc (suc zero)) = InstanceState.shutting_down
code_instance (suc (suc (suc n))) = InstanceState.failed

instance_state_back : (s : InstanceState) → code_instance (instance_code s) ≡ s
instance_state_back InstanceState.pending = refl
instance_state_back InstanceState.running = refl
instance_state_back InstanceState.shutting_down = refl
instance_state_back InstanceState.failed = refl

abbrev eni_fields : Str → Str → Str → Str → Str → Str → Str → Option Eni
eni_fields id w instance subnet mac reason (i ∷ k ∷ a ∷ g ∷ o ∷ s ∷ []) = some (record {
  id = id;
  workspace_id = w;
  instance_id = instance;
  subnet_id = subnet;
  short_index = i;
  private_ip = code_addr k a;
  mac_address = mac;
  generation = g;
  observed_generation = o;
  state = code_state s;
  state_reason = reason;
})
eni_fields id w instance subnet mac reason _ = none

abbrev read_eni : Str → Option Eni
read_eni t =
    let (id, t1) = unfield t in
    let (w, t2) = unfield t1 in
    let (instance, t3) = unfield t2 in
    let (subnet, t4) = unfield t3 in
    let (mac, t5) = unfield t4 in
    let (reason, t6) = unfield t5 in eni_fields id w instance subnet mac reason t6

abbrev write_eni : Eni → Str
write_eni e = field e.id (
    field e.workspace_id (
      field e.instance_id (
        field e.subnet_id (
          field e.mac_address (
            field e.state_reason (
              e.short_index
              ∷ addr_kind e.private_ip
              ∷ addr_value e.private_ip
              ∷ e.generation
              ∷ e.observed_generation
              ∷ state_code e.state
              ∷ []))))))

eni_back : (e : Eni) → read_eni (write_eni e) ≡ some e
eni_back e = simp (take-append, drop-append, state_back, addr_back)

abbrev with_eni : Str → Str → Str → Str → Str → Str → Str → Str → Option Eni → Option Instance
with_eni id w subnet name kind reason runtime (i ∷ s ∷ g ∷ o ∷ d ∷ []) (some e) = some (record {
  id = id;
  workspace_id = w;
  subnet_id = subnet;
  short_index = i;
  name = name;
  instance_type = kind;
  state = code_instance s;
  state_reason = reason;
  generation = g;
  observed_generation = o;
  deletion_requested = code_bool d;
  runtime_id = runtime;
  eni = e;
})
with_eni id w subnet name kind reason runtime _ _ = none

abbrev read_instance : Str → Option Instance
read_instance t =
    let (id, t1) = unfield t in
    let (w, t2) = unfield t1 in
    let (subnet, t3) = unfield t2 in
    let (name, t4) = unfield t3 in
    let (kind, t5) = unfield t4 in
    let (reason, t6) = unfield t5 in
    let (runtime, t7) = unfield t6 in
    let (numbers, t8) = unfield t7 in
    with_eni id w subnet name kind reason runtime numbers (read_eni t8)

abbrev write_instance : Instance → Str
write_instance i = field i.id (
    field i.workspace_id (
      field i.subnet_id (
        field i.name (
          field i.instance_type (
            field i.state_reason (
              field i.runtime_id (
                field
                  (i.short_index
                    ∷ instance_code i.state
                    ∷ i.generation
                    ∷ i.observed_generation
                    ∷ bool_code i.deletion_requested
                    ∷ [])
                  (write_eni i.eni))))))))

pub instance_back : (i : Instance) → read_instance (write_instance i) ≡ some i
instance_back i =
    simp (take-append, drop-append, instance_state_back, bool_back, state_back, addr_back)

abbrev pub instance_codec : Codec Instance
instance_codec = record {
  marshal = write_instance;
  unmarshal = read_instance;
  unmarshal-marshal = instance_back;
}
