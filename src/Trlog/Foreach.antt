-- ===== src/Trlog/Foreach.antt =====
-- `mdv_trlog_foreach` of mdv_trlog.c.
use medved_db.Base.{
  ℕ, ◌+◌, ◌≡◌, refl, ap, ◌∙◌, List, [], ◌∷◌, ◌++◌, append_assoc, Bool, true, ◌&&◌, ◌==◌, arith,
  length, Bool-cases, inl, inr,
}
use medved_db.Lmdb.Engine.{Engine as LmdbEngine, Cursors, Bytes}
use medved_db.Trlog.{Op, Trlog, Works, trlog_map, read, foreach_ops, foreach}
use medved_db.Trlog.Loops.{pairs, pairs-append}
use medved_db.Trlog.Apply.{read-prefix}

-- Each of the operations is accepted, in their order.
unfoldable pub accepts_ops : {A : Type 0} → (A → Op → Bool × A) → A → List Op → Bool
accepts_ops fn arg [] = true
accepts_ops fn arg (op ∷ ops) = let rest = accepts_ops fn (fn arg op).1 ops in (fn arg op).0 && rest

-- The loop stops at the first operation that is refused.
foreach_ops-prefix :
    {A : Type 0} (fn : A → Op → Bool × A) (arg : A) (n : ℕ) (ops : List Op)
    → (taken : List Op) × (left : List Op) × (ops ≡ taken ++ left)
      × (accepts_ops fn arg taken ≡ true)
      × ((foreach_ops fn arg n ops).1 ≡ n + length taken)
unfolding foreach_ops accepts_ops
foreach_ops-prefix fn arg n [] = ([], [], refl, refl, omega arith)
foreach_ops-prefix fn arg n (op ∷ ops) = elim (Bool-cases (fn arg op).0) [
  | inr refused ↦ rw refused ([], op ∷ ops, refl, refl, omega arith)
  | inl accepted ↦
      let (taken, left, split, ok, count) = foreach_ops-prefix fn (fn arg op).1 (n + 1) ops in
      (
        op ∷ taken,
        left,
        ap (λ os. op ∷ os) split,
        ground (arith, accepted, ok),
        ground (arith, accepted, count),
      )
]

length_none : (ops : List Op) → (length ops == 0) ≡ true → ops ≡ []
length_none [] h = refl
length_none (op ∷ ops) h = absurd (ground arith)

module _ {E : Type 0} (db : LmdbEngine E ℕ ◌==◌) (cs : Cursors db) where
  -- Whichever calls fail, an iteration hands out operations from the given number on, in their order
  -- and none left out, and answers how many of them were accepted before it stopped.
  pub foreach-hands_out :
      {A : Type 0} (w : Works) (trlog : Trlog E) (id batch_size : ℕ) (arg : A)
      (fn : A → Op → Bool × A)
      → (taken : List Op) × (rest : List (ℕ × Bytes)) × (accepts_ops fn arg taken ≡ true)
        × ((foreach db cs w trlog id batch_size arg fn).0 ≡ length taken)
        × (cs.range trlog.storage trlog_map id ≡ pairs taken ++ rest)
  unfolding foreach accepts_ops
  foreach-hands_out w trlog id batch_size arg fn =
      let ops : List Op = read db cs w trlog id batch_size in
      let (behind, found) = read-prefix db cs w trlog id batch_size in
      let (taken, left, split, ok, count) = foreach_ops-prefix fn arg 0 ops in
      elim (Bool-cases (length ops == 0)) [
        | inl z ↦ rw z ([], cs.range trlog.storage trlog_map id, refl, refl, refl)
        | inr nz ↦ rw nz (
          taken,
          pairs left ++ behind,
          ok,
          omega (arith, count),
          found
              ∙ ap (λ os. pairs os ++ behind) split
              ∙ ap (λ es. es ++ behind) (pairs-append taken left)
              ∙ append_assoc (pairs taken) (pairs left) behind,
        )
      ]
