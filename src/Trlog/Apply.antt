-- ===== src/Trlog/Apply.antt =====
-- `mdv_trlog_apply` of mdv_trlog.c: every operation is handed out once, in the order of the numbers.
use mathlib.Core.Path.{subst}
use medved_db.Base.{
  ℕ, ◌^◌, ◌<◌, ◌≡◌, refl, ap, sym, ◌∙◌, List, [], ◌∷◌, ◌++◌, append_assoc, Bool, true, arith, ◌==◌,
  leb, if◌then◌else◌, All, Bool-cases, inl, inr, length, le_bytes,
}
use medved_db.Lmdb.Engine.{Engine as LmdbEngine, Cursors, Bytes, at_least}
use medved_db.Trlog.{
  Op, Trlog, Works, trlog_map, applied_map, applied_pos_key, read, apply, apply_ops,
  applied_pos_set, finish_apply,
}
use medved_db.Trlog.Append.{IsOp, Numbered}
use medved_db.Trlog.Loops.{
  pairs, pairs-append, read_ops-prefix, accepts, handed, Refuses, position_after, apply_ops-front,
  at_least-position_after, entries-bound,
}

pub bound-at_least :
    (top k : ℕ) (es : List (ℕ × Bytes))
    → All (λ e. e.0 < top) es
    → All (λ e. e.0 < top) (at_least k es)
unfolding at_least
bound-at_least top k [] h = tt
bound-at_least top k (e ∷ es) h = elim (Bool-cases (leb k e.0)) [
  | inl le ↦ rw le h
  | inr gt ↦ rw gt (bound-at_least top k es h.1)
]

pairs-regroup :
    (taken refused behind : List Op) (rest : List (ℕ × Bytes))
    → pairs taken ++ (pairs (refused ++ behind) ++ rest)
      ≡ pairs (taken ++ refused) ++ (pairs behind ++ rest)
pairs-regroup taken refused behind rest =
    rw (pairs-append refused behind, pairs-append taken refused) (simp append_assoc)

front-IsOp :
    (top : ℕ) (ops : List Op) (rest : List (ℕ × Bytes))
    → top < 2 ^ 64
    → All (λ e. e.0 < top) (pairs ops ++ rest)
    → All IsOp ops
front-IsOp top [] rest h a = tt
front-IsOp top (op ∷ ops) rest h a = (omega (arith, a.0), front-IsOp top ops rest h a.1)

module _ {E : Type 0} (db : LmdbEngine E ℕ ◌==◌) (cs : Cursors db) where
  pub entries-top :
      (e : E) (top : ℕ) → Numbered db e top → All (λ x. x.0 < top) (cs.entries e trlog_map)
  entries-top e top n =
      entries-bound top (cs.entries e trlog_map) (cs.sorted e trlog_map)
        (λ q le. sym (cs.get-entries e trlog_map q) ∙ n.under q le)

  -- The operations that are read, with what is behind them.
  pub read-prefix :
      (w : Works) (trlog : Trlog E) (pos size : ℕ)
      → (rest : List (ℕ × Bytes)) × (cs.range trlog.storage trlog_map pos
          ≡ pairs (read db cs w trlog pos size) ++ rest)
  unfolding read
  read-prefix w trlog pos size =
      let es : List (ℕ × Bytes) = cs.range trlog.storage trlog_map pos in
      let (rest, split) = read_ops-prefix w.allocated size 0 es in
      ((if w.started then (if w.opened trlog_map then rest else es) else es), ground (arith, split))

  read-IsOp :
      (w : Works) (trlog : Trlog E) (pos size : ℕ)
      → Numbered db trlog.storage trlog.top
      → All IsOp (read db cs w trlog pos size)
  read-IsOp w trlog pos size n =
      let (rest, split) = read-prefix w trlog pos size in
      let all = bound-at_least trlog.top pos _ (entries-top trlog.storage trlog.top n) in
      let found = sym (cs.range-entries trlog.storage trlog_map pos) ∙ split in
      front-IsOp trlog.top _ rest n.fits (subst (λ es. All (λ e. e.0 < trlog.top) es) found all)

  range-position_after :
      (e : E) (pos : ℕ) (taken : List Op) (ys : List (ℕ × Bytes))
      → cs.range e trlog_map pos ≡ pairs taken ++ ys
      → cs.range e trlog_map (position_after pos taken) ≡ ys
  range-position_after e pos taken ys h =
      cs.range-entries e trlog_map (position_after pos taken)
      ∙ at_least-position_after pos taken (cs.entries e trlog_map) ys (cs.sorted e trlog_map)
          (sym (cs.range-entries e trlog_map pos) ∙ h)

  -- A position is kept whatever fails, and the operations are as before.
  applied_pos_set-keeps :
      (w : Works) (trlog : Trlog E) (pos : ℕ)
      → ((applied_pos_set db w trlog pos).applied ≡ pos)
        × ((applied_pos_set db w trlog pos).top ≡ trlog.top)
        × (cs.entries (applied_pos_set db w trlog pos).storage trlog_map
            ≡ cs.entries trlog.storage trlog_map)
  unfolding applied_pos_set
  applied_pos_set-keeps w trlog pos =
      let same =
        cs.entries-put trlog.storage applied_map applied_pos_key (le_bytes 8 pos) trlog_map refl in
      (ground arith, ground arith, ground (arith, same))

  finish_apply-position :
      {A : Type 0} (w : Works) (trlog : Trlog E) (r : A × ℕ × ℕ) (taken : List Op)
      → r.1 ≡ length taken
      → r.2 ≡ position_after trlog.applied taken
      → ((finish_apply db cs w trlog r).2.applied ≡ position_after trlog.applied taken)
        × ((finish_apply db cs w trlog r).2.top ≡ trlog.top)
        × (cs.entries (finish_apply db cs w trlog r).2.storage trlog_map
            ≡ cs.entries trlog.storage trlog_map)
  unfolding position_after
  finish_apply-position w trlog (arg, n, pos) [] count place = ground (arith, count)
  finish_apply-position w trlog (arg, n, pos) (op ∷ taken) count place =
      let (moved, top, same) = applied_pos_set-keeps w trlog pos in
      ground (arith, count, place, moved, top, same)

  -- Whichever calls fail, an application hands out operations from the applied position on, in the
  -- order of their numbers and each once: what its argument becomes is what one call for each of
  -- them makes of it. All of them are accepted, but for a last one that may be refused, behind which
  -- there is no call. Those that are accepted are what was there before the new position, and what
  -- is left is all that was there from it on. It answers how many these are, and keeps the operations
  -- of the log and the next number. The numbers of the log are below the next one.
  pub apply-hands_out :
      {A : Type 0} (reading saving : Works) (trlog : Trlog E) (batch_size : ℕ) (arg : A)
      (fn : A → Bytes → Bool × A)
      → Numbered db trlog.storage trlog.top
      → (taken refused : List Op) × (behind : List (ℕ × Bytes)) × (accepts fn arg taken ≡ true)
        × Refuses fn (handed fn arg taken) refused
        × ((apply db cs reading saving trlog batch_size arg fn).1
            ≡ handed fn arg (taken ++ refused))
        × (cs.range trlog.storage trlog_map trlog.applied ≡ pairs (taken ++ refused) ++ behind)
        × ((apply db cs reading saving trlog batch_size arg fn).0 ≡ length taken)
        × (cs.range trlog.storage trlog_map trlog.applied
            ≡ pairs taken
              ++ cs.range trlog.storage trlog_map
                  (apply db cs reading saving trlog batch_size arg fn).2.applied)
        × ((apply db cs reading saving trlog batch_size arg fn).2.top ≡ trlog.top)
        × (cs.entries (apply db cs reading saving trlog batch_size arg fn).2.storage trlog_map
            ≡ cs.entries trlog.storage trlog_map)
  unfolding apply accepts handed
  apply-hands_out reading saving trlog batch_size arg fn n =
      let ops : List Op = read db cs reading trlog trlog.applied batch_size in
      let (rest, found) = read-prefix reading trlog trlog.applied batch_size in
      let (taken, left, refused, behind, split, ok, next, stops, result, count, place) =
        apply_ops-front fn arg 0 trlog.applied ops
          (read-IsOp reading trlog trlog.applied batch_size n) in
      elim (Bool-cases (leb trlog.top trlog.applied)) [
        | inl e ↦ rw e (
          [],
          [],
          cs.range trlog.storage trlog_map trlog.applied,
          refl,
          tt,
          refl,
          refl,
          refl,
          refl,
          refl,
          refl,
        )
        | inr e ↦ elim (Bool-cases (length ops == 0)) [
          | inl z ↦
              rw (e, z)
                (
                  [],
                  [],
                  cs.range trlog.storage trlog_map trlog.applied,
                  refl,
                  tt,
                  refl,
                  refl,
                  refl,
                  refl,
                  refl,
                  refl,
                )
          | inr nz ↦
              let counted : (apply_ops fn arg 0 trlog.applied ops).1 ≡ length taken =
                omega (arith, count) in
              let (moved, top, same) =
                finish_apply-position saving trlog (apply_ops fn arg 0 trlog.applied ops) taken
                  counted place in
              let here : cs.range trlog.storage trlog_map trlog.applied
                  ≡ pairs taken ++ (pairs left ++ rest) =
                found
                ∙ ap (λ xs. pairs xs ++ rest) split
                ∙ ap (λ es. es ++ rest) (pairs-append taken left)
                ∙ append_assoc (pairs taken) (pairs left) rest in
              let calls : cs.range trlog.storage trlog_map trlog.applied
                  ≡ pairs (taken ++ refused) ++ (pairs behind ++ rest) =
                here
                ∙ ap (λ ops. pairs taken ++ (pairs ops ++ rest)) next
                ∙ pairs-regroup taken refused behind rest in
              let from_there =
                range-position_after trlog.storage trlog.applied taken (pairs left ++ rest) here in
              rw (e, nz)
                (
                  taken,
                  refused,
                  pairs behind ++ rest,
                  ok,
                  stops,
                  result,
                  calls,
                  counted,
                  here
                      ∙ ap (λ es. pairs taken ++ es)
                          (sym from_there ∙ ap (cs.range trlog.storage trlog_map) (sym moved)),
                  top,
                  same,
                )
        ]
      ]
