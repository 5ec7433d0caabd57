-- ===== src/Tests/Queries.antt =====
-- Runs of the operators in mdv_storage/ops.
use medved_db.Base.{ℕ, ◌≡◌, refl, List, [], ◌∷◌, true, false, Option, none, some}
use medved_db.Lmdb.Engine.{Bytes}
use medved_db.Ops.{
  Entry, Scanner, yields, Op, scan, select, project_range, project_by_indices, op_next, op_reset,
  scan_seq, enumerator_create,
}
use medved_db.Ops.Slices.{values_at}
use medved_db.Ops.Rows.{project_rows, plenty, rows, next-rows}
use medved_db.Ops.Reset.{whole, next_times, reset-rows}

-- Lists of bytes as they are; an empty one is not a list.
abbrev load : Bytes → Option (List ℕ)
load [] = none
load (v ∷ vs) = some (v ∷ vs)

abbrev encode : List ℕ → Bytes
encode vs = vs

abbrev first_entry : Entry
first_entry = record { key = 1 ∷ []; value = 10 ∷ 11 ∷ 12 ∷ 13 ∷ 14 ∷ [] }

abbrev two_entries : List Entry
two_entries = first_entry ∷ record { key = 2 ∷ []; value = 20 ∷ 21 ∷ [] } ∷ []

abbrev scanner : Scanner
scanner = record {
  enumerator = record {
    entries = two_entries;
    current = first_entry;
    rest = record { key = 2 ∷ []; value = 20 ∷ 21 ∷ [] } ∷ [];
  };
  current = false;
  end = false;
}

scanner_opens : scan_seq two_entries ≡ some scanner
unfolding scan_seq enumerator_create
scanner_opens = refl

-- The values 1 and 3 of the rows, by way of the range from 1 to 4.
abbrev query : Op
query = project_by_indices (0 ∷ 2 ∷ []) (project_range 1 4 (select (scan scanner)))

next-rows_example :
    ((op_next load encode plenty query).0 ≡ yields (record { key = 1 ∷ []; value = 11 ∷ 13 ∷ [] }))
    × (rows load encode (op_next load encode plenty query).1
        ≡ some (record { key = 2 ∷ []; value = 21 ∷ [] }) ∷ [])
unfolding rows project_rows values_at
next-rows_example = next-rows load encode query

reset-rows_example :
    ((op_reset (next_times load encode plenty 3 query)).0 ≡ true)
    × (rows load encode (op_reset (next_times load encode plenty 3 query)).1
        ≡ some (record { key = 1 ∷ []; value = 11 ∷ 13 ∷ [] })
          ∷ some (record { key = 2 ∷ []; value = 21 ∷ [] })
          ∷ [])
unfolding whole project_rows values_at
reset-rows_example =
    reset-rows load encode plenty 3 query
      (first_entry, record { key = 2 ∷ []; value = 20 ∷ 21 ∷ [] } ∷ [], refl)
