-- ===== src/Pset/Aborted.antt =====
-- A batch of `mdv_2pset_add_batch` in mdv_2pset.c that has the key of a removed object.
use mathlib.Core.Path.{subst}
use medved_db.Base.{
  ℕ, suc, length, if◌then◌else◌, ◌+◌, ◌≡◌, refl, ap, sym, ◌∙◌, List, [], ◌∷◌, ◌++◌, Bool, true,
  false, Option, none, some, arith, Option-cases, Bool-cases, inl, inr,
}
use medved_db.Lmdb.Engine.{Engine as LmdbEngine, Bytes}
use medved_db.Lmdb.{Transaction, closed, active, put_unique_into, map_put_unique}
use medved_db.Trlog.{Works}
use medved_db.Pset.{
  Pset, objects_map, removed_map, batch_step, batch_loop, finish_batch, both_opened, add_batch,
}

module _ {E K : Type 0} {same : K → K → Bool} (db : LmdbEngine E K same) where
  closed_loop :
      (found stored : ℕ → Bool) (i : ℕ) (c : Bool) (objs : List (K × Bytes))
      → batch_loop db found stored i (closed, c) objs ≡ (closed, c)
  unfolding batch_loop
  closed_loop found stored i c [] = refl
  closed_loop found stored i c ((id, obj) ∷ objs) = closed_loop found stored (i + 1) c objs

  -- A transaction that is finished, or in which the key was removed.
  abbrev Doomed : K → Transaction E → Type 0
  Doomed id closed = Unit
  Doomed id (active e) = (v : Bytes) × (db.get e removed_map id ≡ some v)

  Doomed-put :
      (id k : K) (obj : Bytes) (e : E)
      → Doomed id (active e)
      → (o : Option E) → db.put_new e objects_map k obj ≡ o
      → Doomed id (put_unique_into db e o).1
  Doomed-put id k obj e d none h = d
  Doomed-put id k obj e (v, d) (some e₁) h = elim (Option-cases (db.get e objects_map k)) [
    | inr (w, taken) ↦ absurd (ground (arith, db.put_new_taken e objects_map k obj w taken, h))
    | inl free ↦ (
      v,
      ground (
        arith,
        db.put_new_free e objects_map k obj free,
        h,
        db.get-put e objects_map k obj removed_map id,
        d,
      ),
    )
  ]

  Doomed-end :
      (id : K) (obj : Bytes) (works : Bool) (txn : Transaction E) (c : Bool)
      → Doomed id txn
      → (batch_step db true works (txn, c) id obj).0 ≡ closed
  Doomed-end id obj works closed c d = refl
  Doomed-end id obj works (active e) c (v, d) = ground (arith, d)

  gone_step :
      (found works : Bool) (e : E) (c : Bool) (id : K) (obj v : Bytes)
      → (if found then db.get e removed_map id else none) ≡ some v
      → (batch_step db found works (active e, c) id obj).0 ≡ closed
  gone_step found works e c id obj v gone = ground (arith, gone)

  put_step :
      (found works : Bool) (e : E) (c : Bool) (id : K) (obj : Bytes)
      → (if found then db.get e removed_map id else none) ≡ none
      → (batch_step db found works (active e, c) id obj).0
        ≡ (map_put_unique db works objects_map (active e) id obj).1
  put_step found works e c id obj free = ground (arith, free)

  Doomed-step :
      (id k : K) (obj : Bytes) (found works : Bool) (txn : Transaction E) (c : Bool)
      → Doomed id txn
      → Doomed id (batch_step db found works (txn, c) k obj).0
  Doomed-step id k obj found works closed c d = tt
  Doomed-step id k obj found works (active e) c d =
      elim (Option-cases (if found then db.get e removed_map k else none)) [
        | inr (v, gone) ↦ subst (Doomed id) (sym (gone_step found works e c k obj v gone)) tt
        | inl free ↦ subst (Doomed id) (sym (put_step found works e c k obj free)) (kept works)
      ]
    where
      kept : (works : Bool) → Doomed id (map_put_unique db works objects_map (active e) k obj).1
      kept true = Doomed-put id k obj e d (db.put_new e objects_map k obj) refl
      kept false = d

  -- The removal is found out at the place of the key.
  Doomed-loop :
      (found stored : ℕ → Bool) (i : ℕ) (r : Transaction E × Bool) (before after : List (K × Bytes))
      (id : K) (obj : Bytes)
      → Doomed id r.0
      → found (i + length before) ≡ true
      → (batch_loop db found stored i r (before ++ (id, obj) ∷ after)).0 ≡ closed
  unfolding batch_loop
  Doomed-loop found stored i (txn, c) [] after id obj d reads =
      let here : i + 0 ≡ i = omega arith in
      let at_i : found i ≡ true = ap found (sym here) ∙ reads in
      let end : (batch_step db (found i) (stored i) (txn, c) id obj).0 ≡ closed =
        rw at_i (Doomed-end id obj (stored i) txn c d) in
      let commit : Bool = (batch_step db (found i) (stored i) (txn, c) id obj).1 in
      ap (λ r. r.0)
        (ap (λ t. batch_loop db found stored (i + 1) (t, commit) after) end
          ∙ closed_loop found stored (i + 1) commit after)
  Doomed-loop found stored i (txn, c) ((k, o) ∷ before) after id obj d reads =
      let next : i + suc (length before) ≡ i + 1 + length before = omega arith in
      Doomed-loop found stored (i + 1) (batch_step db (found i) (stored i) (txn, c) k o) before
        after id obj (Doomed-step id k o (found i) (stored i) txn c d) (ap found (sym next) ∙ reads)

  finish_closed :
      (works : Bool) (set : Pset E) (r : Transaction E × Bool)
      → r.0 ≡ closed
      → (finish_batch db works set r).1 ≡ set
  finish_closed works set (txn, false) h = refl
  finish_closed works set (txn, true) h = rw h refl

  -- A batch with a key that was removed changes nothing, if the read that looks for this key among
  -- the removed ones succeeds, whichever other calls fail: the transaction ends at that key, and the
  -- objects before and after it are not stored.
  pub add_batch-nothing :
      (w : Works) (set : Pset E) (before after : List (K × Bytes)) (id : K) (obj v : Bytes)
      → db.get set.storage removed_map id ≡ some v
      → w.found (length before) ≡ true
      → (add_batch db w set (before ++ (id, obj) ∷ after)).1 ≡ set
  unfolding add_batch
  add_batch-nothing w set before after id obj v gone reads = elim (Bool-cases w.started) [
    | inr fails ↦ rw fails refl
    | inl begun ↦ elim (Bool-cases (both_opened db w)) [
      | inr fails ↦ rw (begun, fails) refl
      | inl opened ↦
          rw (begun, opened)
            (finish_closed w.committed set
              (batch_loop db w.found w.stored 0 (active (set.storage), false)
                (before ++ (id, obj) ∷ after))
              (Doomed-loop w.found w.stored 0 (active (set.storage), false) before after id obj
                (v, gone)
                (let at : 0 + length before ≡ length before = omega arith in
                  ap w.found at ∙ reads)))
    ]
  ]
