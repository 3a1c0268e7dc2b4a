-- ===== src/Controller/Sweep/Pages.antt =====
-- internal/reconcile/network.go: the pages that the sweep reads, of a database that does not change.
use nephos.Base.{
  ℕ, zero, suc, ◌≤◌, ◌<◌, ◌≡◌, refl, sym, ap, ◌∙◌, Bool, true, false, ◌&&◌, Option, some, List, [],
  ◌∷◌, &&-split, arith, take, keep, length, Str, codes, str_eq, str_lt, str_lt_trans, str_lt_irrefl,
  Result, ok, err, Memᴰ, Mem-take, Mem-keep, keep-lost,
}
use mathlib.Core.List.Memᴰ.{head, tail}
use nephos.Model.{Vpc}
use nephos.Errors.{Error}
use nephos.Netip.{Prefix}
use nephos.Netip.Text.{parse_prefix}
use nephos.Store.Tables.{Db, VpcRow}
use nephos.Store.Tx.Kept.{reading-ok}
use nephos.Store.Vpcs.{list_vpc_page_rows}
use nephos.Store.Resources.{list_vpc_page, read_rows, push_item, vpc_from_row, vpc_of, block_of}
use nephos.Controller.Sweep.{
  Inventory, last_vpc, page_read, gather, before_rest, sweep, swept, inventory_read,
}
use nephos.Controller.Vpcs.{NetworkEngine, World, Round}

abbrev pub is_after : Str → VpcRow → Bool
is_after after r = str_eq (codes "default") r.workspace_id && str_lt after r.id

-- the rows that are still to be read
abbrev pub unread : Str → Db → List VpcRow
unread after db = keep (is_after after) db.vpcs

pub list_vpc_page-ok :
    (after : Str) (db : Db) {page : List Vpc} {db' : Db}
    → list_vpc_page (codes "default") after 100 db ≡ ok (page, db')
    → read_rows vpc_from_row (take 100 (unread after db)) ≡ ok page
unfolding list_vpc_page list_vpc_page_rows
list_vpc_page-ok after db h =
    (reading-ok (read_rows vpc_from_row (take 100 (unread after db))) db h).0

pub push_item-ok :
    (x : Result Error Vpc) (rest : Result Error (List Vpc)) {vs : List Vpc}
    → push_item x rest ≡ ok vs
    → (v : Vpc) × (ws : List Vpc) × (x ≡ ok v) × (rest ≡ ok ws) × (vs ≡ v ∷ ws)
push_item-ok (ok v) (ok ws) h = (v, ws, refl, refl, ground arith)
push_item-ok (ok v) (err e) h = absurd (ground arith)
push_item-ok (err e) rest h = absurd (ground arith)

vpc_of-keys :
    (row : VpcRow) (r : Result Error Prefix) {v : Vpc}
    → vpc_of row r ≡ ok v
    → (v.id ≡ row.id) × (v.short_index ≡ row.short_index)
vpc_of-keys row (ok p) h = (ground arith, ground arith)
vpc_of-keys row (err e) h = absurd (ground arith)

pub vpc_from_row-keys :
    (row : VpcRow) {v : Vpc}
    → vpc_from_row row ≡ ok v
    → (v.id ≡ row.id) × (v.short_index ≡ row.short_index)
unfolding vpc_from_row
vpc_from_row-keys row h = vpc_of-keys row (block_of (parse_prefix row.cidr_block)) h

-- The last ID of a page is that of a row.
pub last_vpc-row :
    (rows : List VpcRow) (v : Vpc) (page : List Vpc)
    → read_rows vpc_from_row rows ≡ ok (v ∷ page)
    → (r : VpcRow) × Memᴰ r rows × (r.id ≡ last_vpc v page)
unfolding read_rows last_vpc
last_vpc-row [] v page h = absurd (ground arith)
last_vpc-row (r ∷ rows) v [] h =
    let (u, us, a, b, e) = push_item-ok (vpc_from_row r) (read_rows vpc_from_row rows) h in
    let same : v ≡ u = cc in
    (r, head refl, sym (vpc_from_row-keys r a).0 ∙ ap (λ x. x.id) (sym same))
last_vpc-row (r ∷ rows) v (w ∷ page) h =
    let (u, us, a, b, e) = push_item-ok (vpc_from_row r) (read_rows vpc_from_row rows) h in
    let same : us ≡ w ∷ page = cc in
    let (x, m, f) = last_vpc-row rows w page (b ∙ ap ok same) in (x, tail m, f)

is_after-weaken :
    (after last : Str)
    → str_lt after last ≡ true
    → (r : VpcRow) → is_after last r ≡ true
    → is_after after r ≡ true
is_after-weaken after last above r h =
    let (own, beyond) = &&-split (str_eq (codes "default") r.workspace_id) (str_lt last r.id) h in
    let further = str_lt_trans after last r.id above beyond in ground arith

-- the rows that follow the last of a page
pub unread-shrinks :
    (after : Str) (db : Db) (v : Vpc) (page : List Vpc)
    → read_rows vpc_from_row (take 100 (unread after db)) ≡ ok (v ∷ page)
    → length (unread (last_vpc v page) db) < length (unread after db)
unread-shrinks after db v page h =
    let (r, m, same) = last_vpc-row (take 100 (unread after db)) v page h in
    let (stored, here) = Mem-keep (is_after after) db.vpcs (Mem-take 100 (unread after db) m) in
    let (own, beyond) =
      &&-split (str_eq (codes "default") r.workspace_id) (str_lt after r.id) here in
    let last = last_vpc v page in
    let above : str_lt after last ≡ true = ap (str_lt after) (sym same) ∙ beyond in
    let not_itself : str_lt last r.id ≡ false = ap (str_lt last) same ∙ str_lt_irrefl last in
    keep-lost (is_after last) (is_after after) db.vpcs (is_after-weaken after last above) stored
      here (ground arith)

module _ (db : Db) where
  abbrev Read : Option (Result Error Inventory) → Type 0
  Read o = (r : Result Error Inventory) × (o ≡ some r)

  page_read-Read :
      (next : Str → Option (Result Error Inventory)) (after : Str)
      (r : Result Error (List Vpc × Db))
      → list_vpc_page (codes "default") after 100 db ≡ r
      → ((v : Vpc) (page : List Vpc)
          → read_rows vpc_from_row (take 100 (unread after db)) ≡ ok (v ∷ page)
          → Read (next (last_vpc v page)))
      → Read (page_read next r)
  page_read-Read next after (err e) h k = (err e, refl)
  page_read-Read next after (ok ([], d)) h k = (ok ([], []), refl)
  page_read-Read next after (ok (v ∷ page, d)) h k =
      let (r, e) = k v page (list_vpc_page-ok after db h) in (_, ap (before_rest (v ∷ page)) e)

  gather-Read :
      (fuel n : ℕ) (after : Str)
      → length (unread after db) < fuel
      → Read (gather (λ _. db) fuel n after)
  unfolding gather
  gather-Read zero n after enough = absurd (omega arith)
  gather-Read (suc fuel) n after enough =
      page_read-Read (gather (λ _. db) fuel (suc n)) after _ refl (λ v page h.
        gather-Read fuel (suc n) (last_vpc v page)
          (omega (arith, unread-shrinks after db v page h)))

unread-length : (after : Str) (db : Db) → length (unread after db) ≤ length db.vpcs
unread-length after db = go db.vpcs
  where
    go : (rows : List VpcRow) → length (keep (is_after after) rows) ≤ length rows
    go [] = omega arith
    go (r ∷ rows) = ground (arith, go rows)

module _ {K : Type 0} (engine : NetworkEngine K) where
  -- When the pages are read from one database, a sweep with more fuel than there are VPC rows
  -- comes to an end, with a result or an error.
  pub sweep-ends :
      (db : Db) (round : ℕ → Round) (fuel : ℕ) (w : World K)
      → length db.vpcs < fuel
      → (r : Result Error (Unit {0}) × World K) × (sweep engine (λ _. db) round fuel w ≡ some r)
  unfolding sweep
  sweep-ends db round fuel w enough =
      let (r, e) = gather-Read db fuel 0 [] (omega (arith, unread-length [] db)) in
      (inventory_read engine round w r, ap (swept engine round w) e)
