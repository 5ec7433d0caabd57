-- ===== src/Ops/Reset.antt =====
-- `mdv_op_reset` of mdv_storage/ops/mdv_op.c for the operators that are modelled.
use medved_db.Base.{
  ℕ, zero, suc, ◌≡◌, refl, ap, ◌∙◌, List, [], ◌∷◌, Bool, true, false, Option, if◌then◌else◌,
}
use medved_db.Errno.{no_answer}
use medved_db.Lmdb.Engine.{Bytes}
use medved_db.Ops.{
  Entry, Enumerator, Scanner, stops, Memory, Op, scan, select, project_range, project_by_indices,
  op_next, op_reset, scan_seq_next, scan_seq_reset, move_to, scan_at,
}
use medved_db.Ops.Slices.{slice, values_at}
use medved_db.Ops.Rows.{all_some, project_rows, rows}

-- The scan under the operators is of a set with an entry, as one that can be opened is.
abbrev pub Opened : Op → Type 0
Opened (scan s) = (e : Entry) × (es : List Entry) × (s.enumerator.entries ≡ e ∷ es)
Opened (select src) = Opened src
Opened (project_range from to src) = Opened src
Opened (project_by_indices indices src) = Opened src

moved-entries :
    (it : Enumerator) (es : List Entry)
    → (scan_at (move_to it es)).1.enumerator.entries ≡ it.entries
moved-entries it [] = refl
moved-entries it (e ∷ es) = refl

scan-entries : (s : Scanner) → (scan_seq_next s).1.enumerator.entries ≡ s.enumerator.entries
unfolding scan_seq_next
scan-entries s = go s.end s.current
  where
    go :
        (end current : Bool)
        → (if end
            then (stops no_answer, s)
            else scan_at (
                if current
                then move_to s.enumerator s.enumerator.rest
                else (true, s.enumerator))).1.enumerator.entries
          ≡ s.enumerator.entries
    go true current = refl
    go false true = moved-entries s.enumerator s.enumerator.rest
    go false false = refl

module _ {V : Type 0} (load : Bytes → Option (List V)) (encode : List V → Bytes) where
  -- The rows of all entries of the set.
  unfoldable pub whole : Op → List (Option Entry)
  whole (scan s) = all_some s.enumerator.entries
  whole (select src) = whole src
  whole (project_range from to src) = project_rows load encode (slice from to) (whole src)
  whole (project_by_indices indices src) =
      project_rows load encode (values_at 0 indices) (whole src)

  -- The operator after so many calls.
  unfoldable pub next_times : (ℕ → Memory) → ℕ → Op → Op
  next_times mem zero op = op
  next_times mem (suc k) op = next_times mem k (op_next load encode mem op).1

  op_next-whole : (mem : ℕ → Memory) (op : Op) → whole (op_next load encode mem op).1 ≡ whole op
  unfolding op_next whole
  op_next-whole mem (scan s) = ap all_some (scan-entries s)
  op_next-whole mem (select src) = op_next-whole (λ d. mem (suc d)) src
  op_next-whole mem (project_range from to src) =
      ap (project_rows load encode (slice from to)) (op_next-whole (λ d. mem (suc d)) src)
  op_next-whole mem (project_by_indices indices src) =
      ap (project_rows load encode (values_at 0 indices)) (op_next-whole (λ d. mem (suc d)) src)

  op_next-Opened : (mem : ℕ → Memory) (op : Op) → Opened op → Opened (op_next load encode mem op).1
  unfolding op_next
  op_next-Opened mem (scan s) (e, es, h) = (e, es, scan-entries s ∙ h)
  op_next-Opened mem (select src) o = op_next-Opened (λ d. mem (suc d)) src o
  op_next-Opened mem (project_range from to src) o = op_next-Opened (λ d. mem (suc d)) src o
  op_next-Opened mem (project_by_indices indices src) o = op_next-Opened (λ d. mem (suc d)) src o

  op_reset-rows :
      (op : Op)
      → Opened op
      → ((op_reset op).0 ≡ true) × (rows load encode (op_reset op).1 ≡ whole op)
  unfolding op_reset scan_seq_reset rows whole
  op_reset-rows (scan s) (e, es, h) = rw h (refl, refl)
  op_reset-rows (select src) o = op_reset-rows src o
  op_reset-rows (project_range from to src) o =
      let (ok, same) = op_reset-rows src o in
      (ok, ap (project_rows load encode (slice from to)) same)
  op_reset-rows (project_by_indices indices src) o =
      let (ok, same) = op_reset-rows src o in
      (ok, ap (project_rows load encode (values_at 0 indices)) same)

  -- However far an operator has gone, and whichever allocations failed on the way, a reset succeeds
  -- and puts all its rows before it again, those of all entries of the set.
  pub reset-rows :
      (mem : ℕ → Memory) (k : ℕ) (op : Op)
      → Opened op
      → ((op_reset (next_times mem k op)).0 ≡ true)
        × (rows load encode (op_reset (next_times mem k op)).1 ≡ whole op)
  unfolding next_times
  reset-rows mem zero op o = op_reset-rows op o
  reset-rows mem (suc k) op o =
      let (ok, same) = reset-rows mem k (op_next load encode mem op).1 (op_next-Opened mem op o) in
      (ok, same ∙ op_next-whole mem op)
