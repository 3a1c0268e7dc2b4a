-- ===== src/Controller/Vpcs/Told.antt =====
-- internal/store/reconcile.go: what RecordTopology writes to the row of a VPC.
use nephos.Base.{
  ℕ, ◌≡◌, refl, sym, ap, ◌∙◌, inl, inr, true, false, ◌&&◌, ◌==◌, ==_iff, Option, none, some, List,
  if◌then◌else◌, Bool-cases, &&-split, arith, find_first, update_where, Str, codes, str_eq,
  str_eq_sound, Result, ok, err,
}
use mathlib.Core.Path.{subst}
use mathlib.Core.Option
use nephos.Netip.{Prefix}
use nephos.Netip.Text.{parse_prefix}
use nephos.Model.{State, Vpc, Subnet, state_eq}
use nephos.Errors.{Error}
use nephos.Store.Tables.{Db, VpcRow}
use nephos.Store.Tx.Kept.{bind-ok, one_row-ok, reading-ok}
use nephos.Store.Vpcs.{vpc_key, update_vpc_status, get_vpc_row}
use nephos.Store.Rows.{find_first-update, find_first_sound, updated}
use nephos.Store.Log.{append_event}
use nephos.Store.Resources.{get_vpc, vpc_from_row, vpc_of, block_of}
use nephos.Store.Reconcile.{
  record_vpc_status, vpc_event, state_text, is_applied, observed_state, observed_reason,
}
use nephos.Service.Network.Effects.{append_event-net}
use nephos.Controller.Vpcs.Quiet.{record_outcome, record_current}
use nephos.Controller.Vpcs.Children.{record_children-KeepsVpcs}

-- what a row says of the engine's outcome
pub record Tells (effect : Option Str) (v : Vpc) (row : VpcRow) : Type 0 where
  pub state_told : row.state ≡ observed_state effect
  pub reason_told : row.state_reason ≡ observed_reason effect
  pub generation_told :
      row.observed_generation ≡ (if is_applied effect then v.generation else v.observed_generation)

abbrev pub Told : Option Str → Vpc → Option VpcRow → Type 0
Told effect v none = ⊥
Told effect v (some row) = Tells effect v row

state_eq_sound : (a b : State) → state_eq a b ≡ true → a ≡ b
unfolding state_eq
state_eq_sound a b h = ground arith

vpc_of-status :
    (row : VpcRow) (r : Result Error Prefix) {v : Vpc}
    → vpc_of row r ≡ ok v
    → (v.state ≡ row.state)
      × (v.state_reason ≡ row.state_reason)
      × (v.observed_generation ≡ row.observed_generation)
vpc_of-status row (ok p) h = (ground arith, ground arith, ground arith)
vpc_of-status row (err e) h = absurd (ground arith)

-- GetVPC shows the status of the row.
get_vpc-status :
    (w id : Str) (db : Db) {v : Vpc} {db' : Db}
    → get_vpc w id db ≡ ok (v, db')
    → (row : VpcRow) × (find_first (vpc_key id w) db.vpcs ≡ some row)
      × (v.state ≡ row.state)
      × (v.state_reason ≡ row.state_reason)
      × (v.observed_generation ≡ row.observed_generation)
unfolding get_vpc get_vpc_row vpc_from_row
get_vpc-status w id db h =
    let (row, db1, e1, r1) = bind-ok (get_vpc_row id w) _ db h in
    let found = one_row-ok (find_first (vpc_key id w) db.vpcs) db e1 in
    let read = reading-ok (vpc_from_row row) db1 r1 in
    let status = vpc_of-status row (block_of (parse_prefix row.cidr_block)) read.0 in
    (row, found.0, status.0, status.1, status.2)

update_vpc_status-ok :
    (state : State) (reason : Str) (observed now : ℕ) (id w : Str) (db : Db) {u : Unit {0}}
    {db' : Db}
    → update_vpc_status state reason observed now id w db ≡ ok (u, db')
    → db'.vpcs
      ≡ update_where
          (vpc_key id w)
          (λ r. record r {
            state = state;
            state_reason = reason;
            observed_generation = observed;
            updated_at = now;
          })
          db.vpcs
unfolding update_vpc_status
update_vpc_status-ok state reason observed now id w db h = ground arith

module _ (effect : Option Str) (v : Vpc) (now : ℕ) where
  updated-Told :
      (row : VpcRow) (observed : ℕ)
      → observed ≡ (if is_applied effect then v.generation else v.observed_generation)
      → vpc_key v.id v.workspace_id row ≡ true
      → Tells effect v (
          updated
            (vpc_key v.id v.workspace_id)
            (λ r. record r {
              state = observed_state effect;
              state_reason = observed_reason effect;
              observed_generation = observed;
              updated_at = now;
            })
            row)
  updated-Told row observed g k =
      rw k (record { state_told = refl; reason_told = refl; generation_told = g })

  -- An outcome that the row tells already is not written.
  unwritten-Told :
      (db : Db) {db1 : Db}
      → get_vpc v.workspace_id v.id db ≡ ok (v, db1)
      → (state_eq v.state (observed_state effect)
          && (str_eq v.state_reason (observed_reason effect)
              && (v.observed_generation
                  == (if is_applied effect then v.generation else v.observed_generation))))
        ≡ true
      → Told effect v (find_first (vpc_key v.id v.workspace_id) db.vpcs)
  unwritten-Told db found same =
      let (row, at, state, reason, generation) = get_vpc-status v.workspace_id v.id db found in
      let (a, b) = &&-split _ _ same in
      let (c, d) = &&-split _ _ b in
      subst (Told effect v) (sym at) (record {
        state_told = sym state ∙ state_eq_sound v.state _ a;
        reason_told = sym reason ∙ str_eq_sound v.state_reason _ c;
        generation_told = sym generation ∙ (==_iff v.observed_generation _).0 d;
      })

  record_vpc_status-Told :
      (db : Db) {u : Unit {0}} {db' db1 : Db}
      → get_vpc v.workspace_id v.id db ≡ ok (v, db1)
      → record_vpc_status v
          (observed_state effect)
          (observed_reason effect)
          (is_applied effect)
          now
          db
        ≡ ok (u, db')
      → Told effect v (find_first (vpc_key v.id v.workspace_id) db'.vpcs)
  unfolding record_vpc_status
  record_vpc_status-Told db {u} {db'} found h =
      elim (Bool-cases (
        state_eq v.state (observed_state effect)
        && (str_eq v.state_reason (observed_reason effect)
            && (v.observed_generation
                == (if is_applied effect then v.generation else v.observed_generation))))) [
                  | inl e ↦
                      let unwritten : db ≡ db' = ground arith in
                      subst (λ d. Told effect v (find_first (vpc_key v.id v.workspace_id) d.vpcs))
                        unwritten (unwritten-Told db found e)
                  | inr e ↦
                      let generation =
                        if is_applied effect then v.generation else v.observed_generation in
                      let (row, at, _, _, _) = get_vpc-status v.workspace_id v.id db found in
                      let event =
                        vpc_event v (codes "status") (state_text (observed_state effect))
                          (observed_reason effect) now in
                      let (_, db2, e1, e2) =
                        bind-ok
                          (update_vpc_status (observed_state effect) (observed_reason effect)
                            generation now v.id v.workspace_id)
                          (λ _. append_event event) db (rw e at h) in
                      subst (Told effect v)
                        (sym (
                          ap (find_first (vpc_key v.id v.workspace_id)) (
                            (append_event-net db2 event e2).0
                            ∙ update_vpc_status-ok (observed_state effect) (observed_reason effect)
                                generation now v.id v.workspace_id db e1)
                          ∙ find_first-update (vpc_key v.id v.workspace_id)
                              (vpc_key v.id v.workspace_id) _ db.vpcs (λ r. refl)
                          ∙ ap (Option.map _) at))
                        (updated-Told row generation refl
                          (find_first_sound (vpc_key v.id v.workspace_id) db.vpcs at))
                ]

  pub record_current-Told :
      (subnets : List Subnet) (db : Db) {u : Unit {0}} {db' db1 : Db}
      → get_vpc v.workspace_id v.id db ≡ ok (v, db1)
      → (v.deletion_requested && is_applied effect) ≡ false
      → record_current v subnets effect now db ≡ ok (u, db')
      → Told effect v (find_first (vpc_key v.id v.workspace_id) db'.vpcs)
  record_current-Told subnets db {u} {db'} found stays h =
      let outcome : record_outcome v subnets effect now db ≡ ok (u, db') = rw stays at h in
      let (_, db2, e1, e2) =
        bind-ok
          (record_vpc_status v (observed_state effect) (observed_reason effect) (is_applied effect)
            now)
          _ db outcome in
      let kept =
        (record_children-KeepsVpcs (observed_state effect) (observed_reason effect)
            (is_applied effect) now subnets).kept
          db2 _ db' e2 in
      subst (λ vpcs. Told effect v (find_first (vpc_key v.id v.workspace_id) vpcs)) (sym kept)
        (record_vpc_status-Told db found e1)
