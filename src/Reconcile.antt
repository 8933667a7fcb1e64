-- ===== src/Reconcile.antt =====
-- The comparison of local orders with venue reports: `_index` and `compare` of
-- python/reconciliation/reconcile.py. A record stands by what the code takes of it: the number that
-- `int(record["client_order_id"])` gives, none where that raises, and the numbers that
-- `int(record.get(key, 0))` gives. Records on which the latter raises are not modelled.
pub mod Tests
pub mod Matched
use ito.Prelude.{
  Bool, true, false, not, ◌&&◌, Option, none, some, List, [], ◌∷◌, ◌++◌, map, if◌then◌else◌, any,
}
use ito.Prelude.Int.{ℤ, pos, ltb_ℤ, leb_ℤ, eqb_ℤ, int_eq}
use ito.Prelude.Dict.{Dict, keys, lookup, insert, contains}
use ito.Prelude.Sorting.{sort_by}

pub record Record : Type 0 where
  pub client_order_id : Option ℤ
  pub executed_quantity : ℤ
  pub average_price_ticks : ℤ

-- `local` or `venue`, in the details of an index.
pub data Source : Type 0 where
  from_local from_venue : Source

-- The states of the findings of `_index` and of `compare`, with their details.
pub data State : Type 0 where
  invalid_record non_positive_record duplicate_record : Source → State
  missing_venue quantity_mismatch price_mismatch matched missing_local : State

pub record Finding : Type 0 where
  pub client_order_id : Option ℤ
  pub state : State

abbrev pub finding : Option ℤ → State → Finding
finding id state = record { client_order_id = id; state = state }

pub record Index : Type 0 where
  pub indexed : Dict ℤ Record
  pub findings : List Finding

abbrev pub found : Index → Option ℤ → State → Index
found index id state = record index { findings = index.findings ++ (finding id state ∷ []) }

-- The body of the loop of `_index`.
unfoldable pub index_record : Source → Index → Record → Option ℤ → Index
index_record source index entry none = found index none (invalid_record source)
index_record source index entry (some id) =
    if leb_ℤ id (pos 0)
    then found index (some id) (non_positive_record source)
    else if contains id index.indexed
    then found index (some id) (duplicate_record source)
    else record index { indexed = insert id entry index.indexed }

unfoldable pub index_from : Source → Index → List Record → Index
index_from source index [] = index
index_from source index (entry ∷ records) =
    index_from source (index_record source index entry entry.client_order_id) records

-- `_index`
abbrev pub index_of : List Record → Source → Index
index_of records source = index_from source (record { indexed = []; findings = [] }) records

-- How an order compares with the report of its identifier.
unfoldable pub state_of : Record → Option Record → State
state_of order none = missing_venue
state_of order (some report) =
    if ltb_ℤ report.executed_quantity order.executed_quantity
    then quantity_mismatch
    else if not (eqb_ℤ order.average_price_ticks (pos 0))
        && not (eqb_ℤ report.average_price_ticks order.average_price_ticks)
    then price_mismatch
    else matched

abbrev pub compare_local : Dict ℤ Record → ℤ → Record → Finding
compare_local venue_by_id id order = finding (some id) (state_of order (lookup id venue_by_id))

-- The two loops over the sorted identifiers. The first looks each of its own up, which is there.
unfoldable pub compare_orders : Dict ℤ Record → Dict ℤ Record → List ℤ → List Finding
compare_orders local_by_id venue_by_id [] = []
compare_orders local_by_id venue_by_id (id ∷ ids) =
    let rest = compare_orders local_by_id venue_by_id ids in
    elim (lookup id local_by_id) [
      | some order ↦ compare_local venue_by_id id order ∷ rest
      | none ↦ rest
    ]

unfoldable pub compare_reports : Dict ℤ Record → List ℤ → List Finding
compare_reports local_by_id [] = []
compare_reports local_by_id (id ∷ ids) =
    let rest = compare_reports local_by_id ids in
    if contains id local_by_id then rest else finding (some id) missing_local ∷ rest

unfoldable pub compare : List Record → List Record → List Finding
compare local venue =
    let local_index = index_of local from_local in
    let venue_index = index_of venue from_venue in
    local_index.findings
    ++ venue_index.findings
    ++ compare_orders local_index.indexed venue_index.indexed
        (sort_by leb_ℤ (keys local_index.indexed))
    ++ compare_reports local_index.indexed (sort_by leb_ℤ (keys venue_index.indexed))

-- `item["state"] != "matched"`, and `result["ambiguous"]` of `main`.
abbrev pub is_matched : State → Bool
is_matched matched = true
is_matched _ = false

abbrev pub ambiguous : List Finding → Bool
ambiguous findings = any (λ item. not (is_matched item.state)) findings
