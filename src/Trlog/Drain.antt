-- ===== src/Trlog/Drain.antt =====
-- Repeated calls of `mdv_trlog_apply` of mdv_trlog.c come to the end of the log.
use medved_db.Base.{
  ℕ, zero, suc, ◌+◌, ◌-◌, ◌≤◌, ◌<◌, ◌≡◌, refl, ap, sym, ◌∙◌, List, [], ◌∷◌, Bool, true, arith, ◌==◌,
  leb, All, Bool-cases, inl, inr, length, length-append, min, leb→le,
}
use medved_db.Lmdb.Engine.{Engine as LmdbEngine, Cursors, Bytes, at_least, value_of}
use medved_db.Trlog.{Op, Trlog, trlog_map, word, read, read_ops, apply, apply_ops}
use medved_db.Trlog.Append.{all_works, Numbered}
use medved_db.Trlog.Loops.{pairs}
use medved_db.Trlog.Apply.{apply-hands_out, entries-top}

read_ops-length :
    (size n : ℕ) (es : List (ℕ × Bytes))
    → n < size
    → length (read_ops (λ i. true) size n es) ≡ min (size - n) (length es)
unfolding read_ops
read_ops-length size n [] h = omega arith
read_ops-length size n (e ∷ es) h = elim (Bool-cases (leb size (n + 1))) [
  | inl le ↦ rw le (ground arith)
  | inr gt ↦ rw gt (ground (arith, read_ops-length size (n + 1) es))
]

apply_ops-all :
    {A : Type 0} (fn : A → Bytes → Bool × A) (arg : A) (n pos : ℕ) (ops : List Op)
    → ((a : A) (v : Bytes) → (fn a v).0 ≡ true)
    → (apply_ops fn arg n pos ops).1 ≡ n + length ops
unfolding apply_ops
apply_ops-all fn arg n pos [] h = omega arith
apply_ops-all fn arg n pos (op ∷ ops) h =
    rw (h arg op.op)
      (omega (arith, apply_ops-all fn (fn arg op.op).1 (n + 1) (word (op.id + 1)) ops h))

pub length-pairs : (ops : List Op) → length (pairs ops) ≡ length ops
length-pairs [] = refl
length-pairs (op ∷ ops) = ap suc (length-pairs ops)

length_zero : (es : List (ℕ × Bytes)) → length es ≤ 0 → es ≡ []
length_zero [] h = refl
length_zero (e ∷ es) h = absurd (omega arith)

at_least-past :
    (top k : ℕ) (es : List (ℕ × Bytes)) → top ≤ k → All (λ e. e.0 < top) es → at_least k es ≡ []
unfolding at_least
at_least-past top k [] h a = refl
at_least-past top k (e ∷ es) h a = ground (arith, at_least-past top k es h a.1, a.0)

module _ {E : Type 0} (db : LmdbEngine E ℕ ◌==◌) (cs : Cursors db) where
  -- What is not yet applied.
  abbrev pub pending : Trlog E → List (ℕ × Bytes)
  pending trlog = cs.range trlog.storage trlog_map trlog.applied

  -- So many applications, one after the other, of batches of `batch_size` operations, where no call
  -- fails.
  unfoldable pub apply_times : {A : Type 0} → ℕ → Trlog E → ℕ → A → (A → Bytes → Bool × A) → Trlog E
  apply_times zero trlog batch_size arg fn = trlog
  apply_times (suc k) trlog batch_size arg fn =
      let (n, arg₁, trlog₁) = apply db cs all_works all_works trlog batch_size arg fn in
      apply_times k trlog₁ batch_size arg₁ fn

  pending-top :
      (trlog : Trlog E)
      → Numbered db trlog.storage trlog.top
      → leb trlog.top trlog.applied ≡ true
      → pending trlog ≡ []
  pending-top trlog n h =
      cs.range-entries trlog.storage trlog_map trlog.applied
      ∙ at_least-past trlog.top trlog.applied (cs.entries trlog.storage trlog_map)
          (leb→le trlog.top trlog.applied h) (entries-top db cs trlog.storage trlog.top n)

  -- One application takes a batch, or all there is.
  apply-count :
      {A : Type 0} (trlog : Trlog E) (batch_size : ℕ) (arg : A) (fn : A → Bytes → Bool × A)
      → Numbered db trlog.storage trlog.top
      → 0 < batch_size
      → ((a : A) (v : Bytes) → (fn a v).0 ≡ true)
      → (apply db cs all_works all_works trlog batch_size arg fn).0
        ≡ min batch_size (length (pending trlog))
  unfolding apply read
  apply-count trlog batch_size arg fn n pos accepting =
      let es : List (ℕ × Bytes) = pending trlog in
      let ops : List Op = read_ops (λ i. true) batch_size 0 es in
      let count = apply_ops-all fn arg 0 trlog.applied ops accepting in
      let long = read_ops-length batch_size 0 es pos in
      elim (Bool-cases (leb trlog.top trlog.applied)) [
        | inl e ↦ rw e (omega (arith, ap length (pending-top trlog n e)))
        | inr e ↦ elim (Bool-cases (length ops == 0)) [
          | inl z ↦ rw (e, z) (ground (arith, long))
          | inr nz ↦ rw (e, nz) (omega (arith, long, count))
        ]
      ]

  -- Where no call fails and every operation is accepted, as many applications as there are
  -- operations that are not yet applied, of batches of any size but 0, leave none of them.
  pub apply-drains :
      {A : Type 0} (k : ℕ) (trlog : Trlog E) (batch_size : ℕ) (arg : A) (fn : A → Bytes → Bool × A)
      → Numbered db trlog.storage trlog.top
      → 0 < batch_size
      → ((a : A) (v : Bytes) → (fn a v).0 ≡ true)
      → length (pending trlog) ≤ k
      → pending (apply_times k trlog batch_size arg fn) ≡ []
  unfolding apply_times
  apply-drains zero trlog batch_size arg fn n pos accepting enough =
      length_zero (pending trlog) (omega arith)
  apply-drains {A} (suc k) trlog batch_size arg fn n pos accepting enough =
      let r : ℕ × A × Trlog E = apply db cs all_works all_works trlog batch_size arg fn in
      let (taken, refused, behind, ok, stops, result, calls, count, split, top, same) =
        apply-hands_out db cs all_works all_works trlog batch_size arg fn n in
      let taken_count = apply-count trlog batch_size arg fn n pos accepting in
      let seen : (p : ℕ) → cs.range r.2.storage trlog_map p ≡ cs.range trlog.storage trlog_map p =
        λ p.
          cs.range-entries r.2.storage trlog_map p
          ∙ ap (at_least p) same
          ∙ sym (cs.range-entries trlog.storage trlog_map p) in
      let numbered : Numbered db r.2.storage r.2.top = record {
        fits = omega (arith, n.fits, top);
        under = λ q le.
            cs.get-entries r.2.storage trlog_map q
            ∙ ap (value_of q) same
            ∙ sym (cs.get-entries trlog.storage trlog_map q)
            ∙ n.under q (omega (arith, top));
      } in
      let shorter : length (pending r.2) ≤ k = omega (
        arith,
        ap length split,
        length-append (pairs taken) (cs.range trlog.storage trlog_map r.2.applied),
        length-pairs taken,
        count,
        taken_count,
        ap length (seen r.2.applied),
      ) in
      apply-drains k r.2 batch_size r.1 fn numbered pos accepting shorter
