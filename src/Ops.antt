-- ===== src/Ops.antt =====
-- The operators over the entries of a set in mdv_storage/ops, and the enumerator of mdv_2pset.c that
-- they read. Lists of values in an entry are made and read by binn, a library, which is a parameter:
-- `load` is `binn_load` with the test of the type, `encode` the bytes of a list of values.
pub mod Slices
pub mod Rows
pub mod Reset
use medved_db.Base.{
  ℕ, zero, suc, ◌+◌, List, [], ◌∷◌, Bool, true, false, Option, none, some, leb, ◌==◌, if◌then◌else◌,
}
use medved_db.Errno.{Errno, no_answer, failed, no_mem}
use medved_db.Lmdb.Engine.{Bytes}

-- `mdv_kvdata`.
pub record Entry : Type 0 where
  pub key : Bytes
  pub value : Bytes

-- `mdv_objects_enumerator_impl`: the entries in the order of the cursor, the one that it stands at
-- and those behind it.
pub record Enumerator : Type 0 where
  pub entries : List Entry
  pub current : Entry
  pub rest : List Entry

-- A cursor cannot be opened at the first entry of an empty map.
unfoldable pub enumerator_create : List Entry → Option Enumerator
enumerator_create [] = none
enumerator_create (e ∷ es) = some (record { entries = e ∷ es; current = e; rest = es })

-- Whether the enumerator moved, and the enumerator.
abbrev pub move_to : Enumerator → List Entry → Bool × Enumerator
move_to it [] = (false, it)
move_to it (e ∷ es) = (true, record it { current = e; rest = es })

abbrev pub enumerator_next : Enumerator → Bool × Enumerator
enumerator_next it = move_to it it.rest

abbrev pub enumerator_reset : Enumerator → Bool × Enumerator
enumerator_reset it = move_to it it.entries

-- `mdv_scan_seq_t`; `current` is whether the pointer to the current entry is set.
pub record Scanner : Type 0 where
  pub enumerator : Enumerator
  pub current : Bool
  pub end : Bool

unfoldable pub scan_seq : List Entry → Option Scanner
unfolding enumerator_create
scan_seq es = elim (enumerator_create es) [
  | none ↦ none
  | some it ↦ some (record { enumerator = it; current = false; end = false })
]

-- An entry, or the code that a call returns in place of one.
pub data Answer : Type 0 where
  yields : Entry → Answer
  stops : Errno → Answer

abbrev pub scan_at : Bool × Enumerator → Answer × Scanner
scan_at (false, it) = (stops no_answer, record { enumerator = it; current = false; end = true })
scan_at (true, it) = (yields it.current, record { enumerator = it; current = true; end = false })

unfoldable pub scan_seq_next : Scanner → Answer × Scanner
scan_seq_next s =
    if s.end
    then (stops no_answer, s)
    else scan_at (if s.current then enumerator_next s.enumerator else (true, s.enumerator))

unfoldable pub scan_seq_reset : Scanner → Bool × Scanner
scan_seq_reset s =
    let r = enumerator_reset s.enumerator in
    (r.0, record { enumerator = r.1; current = false; end = false })

-- Which allocations of a projection succeed: its list, and the value at a position of the row.
pub record Memory : Type 0 where
  pub list : Bool
  pub value : ℕ → Bool

abbrev pub add_value {ℓ} : {V : Type ℓ} → Bool → V → Option (List V) → Option (List V)
add_value true v (some vs) = some (v ∷ vs)
add_value true v none = none
add_value false v rest = none

-- The loop of `mdv_project_range_next`; `i` is the position of the value. `none` is a value that
-- could not be added.
unfoldable pub range_values {ℓ} : {V : Type ℓ} → (ℕ → Bool) → ℕ → ℕ → ℕ → List V → Option (List V)
range_values adds from to i [] = some []
range_values adds from to i (v ∷ vs) =
    let rest = range_values adds from to (i + 1) vs in
    let next = if leb to (i + 1) then some [] else rest in
    if leb from i then add_value (adds i) v next else next

-- The loop of `mdv_project_by_indices_next`.
unfoldable pub indexed_values {ℓ} :
    {V : Type ℓ} → (ℕ → Bool) → ℕ → List ℕ → List V → Option (List V)
indexed_values adds i indices [] = some []
indexed_values adds i [] (v ∷ vs) = some []
indexed_values adds i (j ∷ indices) (v ∷ vs) =
    let found = indexed_values adds (i + 1) indices vs in
    let rest = indexed_values adds (i + 1) (j ∷ indices) vs in
    if i == j then add_value (adds i) v found else rest

-- The operators. What a projection keeps of its last row is not part of its state here, and the
-- predicate of a selection is left out: the source keeps it and does not use it.
pub data Op : Type 0 where
  scan : Scanner → Op
  select : Op → Op
  project_range : ℕ → ℕ → Op → Op
  project_by_indices : List ℕ → Op → Op

module _ {V : Type 0} (load : Bytes → Option (List V)) (encode : List V → Bytes) where
  abbrev pub made : Bytes → Option (List V) → Answer
  made key none = stops no_mem
  made key (some vs) = yields (record { key = key; value = encode vs })

  abbrev pub project_loaded : Memory → (List V → Option (List V)) → Bytes → Option (List V) → Answer
  project_loaded mem pick key none = stops failed
  project_loaded mem pick key (some vs) = if mem.list then made key (pick vs) else stops no_mem

  -- The row that a projection makes of what its source answers.
  abbrev pub project_answer : Memory → (List V → Option (List V)) → Answer → Answer
  project_answer mem pick (stops err) = stops err
  project_answer mem pick (yields e) = project_loaded mem pick e.key (load e.value)

  -- `mdv_op_next`; the first of the memories is that of the outermost operator.
  unfoldable pub op_next : (ℕ → Memory) → Op → Answer × Op
  op_next mem (scan s) = ((scan_seq_next s).0, scan (scan_seq_next s).1)
  op_next mem (select src) = let r = op_next (λ d. mem (suc d)) src in (r.0, select r.1)
  op_next mem (project_range from to src) =
      let r = op_next (λ d. mem (suc d)) src in
      (project_answer (mem 0) (range_values (mem 0).value from to 0) r.0, project_range from to r.1)
  op_next mem (project_by_indices indices src) =
      let r = op_next (λ d. mem (suc d)) src in
      (
        project_answer (mem 0) (indexed_values (mem 0).value 0 indices) r.0,
        project_by_indices indices r.1,
      )

-- `mdv_op_reset`: whether it succeeds, and the operator.
unfoldable pub op_reset : Op → Bool × Op
op_reset (scan s) = ((scan_seq_reset s).0, scan (scan_seq_reset s).1)
op_reset (select src) = let r = op_reset src in (r.0, select r.1)
op_reset (project_range from to src) = let r = op_reset src in (r.0, project_range from to r.1)
op_reset (project_by_indices indices src) =
    let r = op_reset src in (r.0, project_by_indices indices r.1)
