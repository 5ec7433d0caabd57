-- ===== src/Trlog/Reading.antt =====
-- `mdv_trlog_range_read` of mdv_trlog.c.
use medved_db.Base.{
  ℕ, ◌+◌, ◌^◌, ◌<◌, ◌≡◌, refl, ap, ◌∙◌, List, [], ◌∷◌, Bool, none, arith, ◌==◌, leb, ltb,
  if◌then◌else◌, ◌&&◌, All, Bool-cases, inl, inr,
}
use medved_db.Lmdb.Engine.{Engine as LmdbEngine, Cursors, Bytes, value_of, at_least}
use medved_db.Lmdb.Ranges.{below, value_of-below, value_of-at_least, at_least-Sorted}
use medved_db.Trlog.{Op, Trlog, Works, trlog_map, range_read, range_ops}
use medved_db.Trlog.Append.{IsOp, all_works, first, Numbered}
use medved_db.Trlog.Loops.{pairs, range_ops-below}
use medved_db.Trlog.Apply.{entries-top, bound-at_least}

first-pairs : (q : ℕ) (ops : List Op) → first q ops ≡ value_of q (pairs ops)
unfolding first value_of
first-pairs q [] = refl
first-pairs q (op ∷ ops) = ground (arith, first-pairs q ops)

range_ops-IsOp :
    (allocated : ℕ → Bool) (top to n : ℕ) (es : List (ℕ × Bytes))
    → top < 2 ^ 64
    → All (λ e. e.0 < top) es
    → All IsOp (range_ops allocated to n es)
unfolding range_ops
range_ops-IsOp allocated top to n [] h a = tt
range_ops-IsOp allocated top to n (e ∷ es) h a = elim (Bool-cases (leb to e.0)) [
  | inl le ↦ rw le tt
  | inr gt ↦ elim (Bool-cases (allocated n)) [
    | inl ok ↦ rw (gt, ok) (omega (arith, a.0), range_ops-IsOp allocated top to (n + 1) es h a.1)
    | inr no_memory ↦ rw (gt, no_memory) tt
  ]
]

module _ {E : Type 0} (db : LmdbEngine E ℕ ◌==◌) (cs : Cursors db) where
  -- Where no call fails, a range that is read has the operations of the log with a number in it, and
  -- no other one.
  pub range_read-first :
      (trlog : Trlog E) (from to q : ℕ)
      → first q (range_read db cs all_works trlog from to)
        ≡ (if leb from q && ltb q to then db.get trlog.storage trlog_map q else none)
  unfolding range_read
  range_read-first trlog from to q =
      let es : List (ℕ × Bytes) = cs.entries trlog.storage trlog_map in
      let sorted = cs.sorted trlog.storage trlog_map in
      first-pairs q _
      ∙ ap (value_of q) (
          range_ops-below to 0 (cs.range trlog.storage trlog_map from)
          ∙ ap (below to) (cs.range-entries trlog.storage trlog_map from))
      ∙ ground (
        arith,
        value_of-below q to (at_least from es) (at_least-Sorted from es sorted),
        value_of-at_least q from es sorted,
        cs.get-entries trlog.storage trlog_map q,
      )

  pub range_read-IsOp :
      (w : Works) (trlog : Trlog E) (from to : ℕ)
      → Numbered db trlog.storage trlog.top
      → All IsOp (range_read db cs w trlog from to)
  unfolding range_read
  range_read-IsOp w trlog from to n =
      let bound = bound-at_least trlog.top from _ (entries-top db cs trlog.storage trlog.top n) in
      let found =
        range_ops-IsOp w.allocated trlog.top to 0 (cs.range trlog.storage trlog_map from) n.fits
          (rw (cs.range-entries trlog.storage trlog_map from) bound) in
      elim (Bool-cases w.started) [
        | inr e ↦ rw e tt
        | inl e ↦ elim (Bool-cases (w.opened trlog_map)) [
          | inr o ↦ rw (e, o) tt
          | inl o ↦ rw (e, o) found
        ]
      ]
