-- ===== src/Ops/Rows.antt =====
-- The operators of mdv_storage/ops as the rows that they go through.
use medved_db.Base.{
  ℕ, ◌≡◌, refl, ap, sym, ◌∙◌, List, [], ◌∷◌, Bool, true, false, Option, none, some, Bool-cases, inl,
  inr,
}
use medved_db.Errno.{no_answer, failed}
use medved_db.Lmdb.Engine.{Bytes}
use medved_db.Ops.{
  Entry, Enumerator, Scanner, Answer, yields, stops, Memory, Op, scan, select, project_range,
  project_by_indices, op_next, scan_seq_next, project_answer, project_loaded, range_values,
  indexed_values, move_to, scan_at,
}
use medved_db.Ops.Slices.{slice, values_at, range_values-slice, indexed_values-values_at}

abbrev pub plenty : ℕ → Memory
plenty d = record { list = true; value = λ i. true }

-- The first row: `none` is one that is not a list, where a list is wanted.
abbrev pub first_row : List (Option Entry) → Answer
first_row [] = stops no_answer
first_row (none ∷ rows) = stops failed
first_row (some e ∷ rows) = yields e

abbrev pub other_rows : List (Option Entry) → List (Option Entry)
other_rows [] = []
other_rows (row ∷ rows) = rows

abbrev pub all_some : List Entry → List (Option Entry)
all_some [] = []
all_some (e ∷ es) = some e ∷ all_some es

-- The entries that a scan has before it.
abbrev pub ahead : Bool → Bool → Enumerator → List Entry
ahead true current it = []
ahead false true it = it.rest
ahead false false it = it.current ∷ it.rest

module _ {V : Type 0} (load : Bytes → Option (List V)) (encode : List V → Bytes) where
  abbrev pub loaded_row : (List V → List V) → Bytes → Option (List V) → Option Entry
  loaded_row pick key none = none
  loaded_row pick key (some vs) = some (record { key = key; value = encode (pick vs) })

  abbrev pub project_row : (List V → List V) → Option Entry → Option Entry
  project_row pick none = none
  project_row pick (some e) = loaded_row pick e.key (load e.value)

  unfoldable pub project_rows : (List V → List V) → List (Option Entry) → List (Option Entry)
  project_rows pick [] = []
  project_rows pick (row ∷ rows) = project_row pick row ∷ project_rows pick rows

  -- The rows that an operator has before it.
  unfoldable pub rows : Op → List (Option Entry)
  rows (scan s) = all_some (ahead s.end s.current s.enumerator)
  rows (select src) = rows src
  rows (project_range from to src) = project_rows (slice from to) (rows src)
  rows (project_by_indices indices src) = project_rows (values_at 0 indices) (rows src)

  project_first :
      (mem : Memory) (pick : List V → List V) (loop : List V → Option (List V))
      (rs : List (Option Entry))
      → mem.list ≡ true
      → ((vs : List V) → loop vs ≡ some (pick vs))
      → project_answer load encode mem loop (first_row rs) ≡ first_row (project_rows pick rs)
  unfolding project_rows
  project_first mem pick loop [] h same = refl
  project_first mem pick loop (none ∷ rs) h same = refl
  project_first mem pick loop (some e ∷ rs) h same = loaded_first (load e.value)
    where
      loaded_first :
          (o : Option (List V))
          → project_loaded load encode mem loop e.key o
            ≡ first_row (loaded_row pick e.key o ∷ project_rows pick rs)
      loaded_first none = refl
      loaded_first (some vs) = rw (h, same vs) refl

  project_others :
      (pick : List V → List V) (rs : List (Option Entry))
      → other_rows (project_rows pick rs) ≡ project_rows pick (other_rows rs)
  unfolding project_rows
  project_others pick [] = refl
  project_others pick (r ∷ rs) = refl

  moved :
      (it : Enumerator) (es : List Entry)
      → ((scan_at (move_to it es)).0 ≡ first_row (all_some es))
        × (all_some (
              ahead
                (scan_at (move_to it es)).1.end
                (scan_at (move_to it es)).1.current
                (scan_at (move_to it es)).1.enumerator)
            ≡ other_rows (all_some es))
  moved it [] = (refl, refl)
  moved it (e ∷ es) = (refl, refl)

  scan_first :
      (s : Scanner)
      → ((scan_seq_next s).0 ≡ first_row (all_some (ahead s.end s.current s.enumerator)))
        × (all_some (
              ahead
                (scan_seq_next s).1.end
                (scan_seq_next s).1.current
                (scan_seq_next s).1.enumerator)
            ≡ other_rows (all_some (ahead s.end s.current s.enumerator)))
  unfolding scan_seq_next
  scan_first s = elim (Bool-cases s.end) [
    | inl over ↦ rw over (refl, refl)
    | inr goes ↦ elim (Bool-cases s.current) [
      | inr fresh ↦ rw (goes, fresh) (refl, refl)
      | inl moves ↦ rw (goes, moves) (moved s.enumerator s.enumerator.rest)
    ]
  ]

  -- Where memory does not run out, an operator answers the first of its rows and goes on to the
  -- next one; after the last row the answer is that there is none. The rows of a scan are the
  -- entries that it has before it, and those of a selection are all the rows of its source, since
  -- its predicate is not looked at. A projection makes a row of each row of its source: of the
  -- values from the first position up to the second, or of the first value alone where both
  -- positions are 0, and with indices of the values at them, up to an index that is past the end or
  -- not after the one before it. A row that is not a list makes a projection fail, and the rows
  -- behind it are still there.
  pub next-rows :
      (op : Op)
      → ((op_next load encode plenty op).0 ≡ first_row (rows op))
        × (rows (op_next load encode plenty op).1 ≡ other_rows (rows op))
  unfolding op_next rows
  next-rows (scan s) = scan_first s
  next-rows (select src) = next-rows src
  next-rows (project_range from to src) =
      let (first, others) = next-rows src in
      (
        ap (project_answer load encode (plenty 0) (range_values (λ i. true) from to 0)) first
            ∙ project_first (plenty 0) (slice from to) (range_values (λ i. true) from to 0)
                (rows src) refl (range_values-slice from to),
        ap (project_rows (slice from to)) others ∙ sym (project_others (slice from to) (rows src)),
      )
  next-rows (project_by_indices indices src) =
      let (first, others) = next-rows src in
      (
        ap (project_answer load encode (plenty 0) (indexed_values (λ i. true) 0 indices)) first
            ∙ project_first (plenty 0) (values_at 0 indices) (indexed_values (λ i. true) 0 indices)
                (rows src) refl (indexed_values-values_at 0 indices),
        ap (project_rows (values_at 0 indices)) others
            ∙ sym (project_others (values_at 0 indices) (rows src)),
      )
