-- ===== src/Pset/Batch.antt =====
-- `mdv_2pset_add_batch` of mdv_2pset.c.
use medved_db.Base.{
  ℕ, ◌+◌, ◌≡◌, refl, ap, sym, ◌∙◌, List, [], ◌∷◌, Bool, true, false, Option, none, some, arith,
  if◌then◌else◌, Option-cases, All, inl, inr,
}
use mathlib.Core.Path.{subst}
use medved_db.Lmdb.Engine.{Engine as LmdbEngine, Bytes}
use medved_db.Lmdb.{Transaction, active}
use medved_db.Trlog.Append.{all_works, or_else}
use medved_db.Pset.{
  Pset, objects_map, removed_map, batch_step, batch_loop, finish_batch, add_batch, get,
}
use medved_db.Pset.Add.{unless_removed, get-unless_removed, put-get, taken-get}

-- The first object of the batch under the key.
unfoldable pub first_of : {K : Type 0} → (K → K → Bool) → K → List (K × Bytes) → Option Bytes
first_of same q [] = none
first_of same q ((id, obj) ∷ objs) =
    or_else (if same q id then some obj else none) (first_of same q objs)

or_else_assoc : (a b c : Option Bytes) → or_else (or_else a b) c ≡ or_else a (or_else b c)
or_else_assoc none b c = refl
or_else_assoc (some v) b c = refl

or_else-none : (a : Option Bytes) → a ≡ or_else a none
or_else-none none = refl
or_else-none (some v) = refl

module _ {E K : Type 0} {same : K → K → Bool} (db : LmdbEngine E K same) where
  -- What a part of the batch leaves of the environment, and whether it is to be committed.
  record Stored (e : E) (c : Bool) (objs : List (K × Bytes)) (r : Transaction E × Bool)
      : Type 0 where
    after : E
    is_active : r.0 ≡ active after
    is_removed : (q : K) → db.get after removed_map q ≡ db.get e removed_map q
    is_object :
        (q : K)
        → db.get after objects_map q ≡ or_else (db.get e objects_map q) (first_of same q objs)
    unchanged : r.1 ≡ false → (c ≡ false) × (after ≡ e)

  step_taken :
      (e : E) (c : Bool) (id : K) (obj v : Bytes)
      → db.get e removed_map id ≡ none
      → db.get e objects_map id ≡ some v
      → batch_step db true true (active e, c) id obj ≡ (active e, c)
  step_taken e c id obj v there taken =
      ground (arith, there, db.put_new_taken e objects_map id obj v taken)

  step_free :
      (e : E) (c : Bool) (id : K) (obj : Bytes)
      → db.get e removed_map id ≡ none
      → db.get e objects_map id ≡ none
      → batch_step db true true (active e, c) id obj ≡ (active (db.put e objects_map id obj), true)
  step_free e c id obj there free = ground (arith, there, db.put_new_free e objects_map id obj free)

  -- A part of the batch without a removed key; `after` is what its first object leaves.
  Stored-cons :
      (e after : E) (c c₁ : Bool) (id : K) (obj : Bytes) (objs : List (K × Bytes))
      (r : Transaction E × Bool)
      → ((q : K) → db.get after removed_map q ≡ db.get e removed_map q)
      → ((q : K)
          → db.get after objects_map q
            ≡ or_else (db.get e objects_map q) (if same q id then some obj else none))
      → (c₁ ≡ false → (c ≡ false) × (after ≡ e))
      → Stored after c₁ objs r
      → Stored e c ((id, obj) ∷ objs) r
  unfolding first_of
  Stored-cons e after c c₁ id obj objs r removed object unchanged rest = record {
    after = rest.after;
    is_active = rest.is_active;
    is_removed = λ q. rest.is_removed q ∙ removed q;
    is_object = λ q.
        rest.is_object q
        ∙ ap (λ o. or_else o (first_of same q objs)) (object q)
        ∙ or_else_assoc (db.get e objects_map q) (if same q id then some obj else none)
            (first_of same q objs);
    unchanged = λ h.
        let (c₁-is, is-after) = rest.unchanged h in
        let (c-is, is-e) = unchanged c₁-is in (c-is, is-after ∙ is-e);
  }

  still_free :
      (e e₁ : E) (objs : List (K × Bytes))
      → ((q : K) → db.get e₁ removed_map q ≡ db.get e removed_map q)
      → All (λ o. db.get e removed_map o.0 ≡ none) objs
      → All (λ o. db.get e₁ removed_map o.0 ≡ none) objs
  still_free e e₁ [] same_removed free = free
  still_free e e₁ (o ∷ objs) same_removed (free, frees) =
      (same_removed o.0 ∙ free, still_free e e₁ objs same_removed frees)

  Stored-loop :
      (i : ℕ) (e : E) (c : Bool) (objs : List (K × Bytes))
      → All (λ o. db.get e removed_map o.0 ≡ none) objs
      → Stored e c objs (batch_loop db (λ j. true) (λ j. true) i (active e, c) objs)
  unfolding batch_loop first_of
  Stored-loop i e c [] free = record {
    after = e;
    is_active = refl;
    is_removed = λ q. refl;
    is_object = λ q. or_else-none (db.get e objects_map q);
    unchanged = λ h. (h, refl);
  }
  Stored-loop i e c ((id, obj) ∷ objs) (free, frees) =
      elim (Option-cases (db.get e objects_map id)) [
        | inr (v, taken) ↦
            subst
              (λ r.
                Stored e c ((id, obj) ∷ objs)
                  (batch_loop db (λ j. true) (λ j. true) (i + 1) r objs))
              (sym (step_taken e c id obj v free taken))
              (Stored-cons e e c c id obj objs
                (batch_loop db (λ j. true) (λ j. true) (i + 1) (active e, c) objs) (λ q. refl)
                (λ q. taken-get db e id obj v q taken) (λ h. (h, refl))
                (Stored-loop (i + 1) e c objs frees))
        | inl new ↦
            let e₁ = db.put e objects_map id obj in
            let removed : (q : K) → db.get e₁ removed_map q ≡ db.get e removed_map q =
              λ q. db.get-put e objects_map id obj removed_map q in
            subst
              (λ r.
                Stored e c ((id, obj) ∷ objs)
                  (batch_loop db (λ j. true) (λ j. true) (i + 1) r objs))
              (sym (step_free e c id obj free new))
              (Stored-cons e e₁ c true id obj objs
                (batch_loop db (λ j. true) (λ j. true) (i + 1) (active e₁, true) objs) removed
                (λ q. put-get db e id obj q new) (λ h. absurd (cc))
                (Stored-loop (i + 1) e₁ true objs (still_free e e₁ objs removed frees)))
      ]

  committed_batch :
      (set : Pset E) (objs : List (K × Bytes)) (r : Transaction E × Bool) (q : K)
      → Stored set.storage false objs r
      → ((finish_batch db true set r).0 ≡ none)
        × (get db all_works (finish_batch db true set r).1 q
            ≡ unless_removed
                (db.get set.storage removed_map q)
                (or_else (db.get set.storage objects_map q) (first_of same q objs)))
        × ((finish_batch db true set r).1.idgen ≡ set.idgen)
  committed_batch set objs (txn, false) q s = (
    refl,
    get-unless_removed db set q
        ∙ ap (unless_removed (db.get set.storage removed_map q)) (
            subst
              (λ e.
                db.get e objects_map q
                ≡ or_else (db.get set.storage objects_map q) (first_of same q objs))
              ((s.unchanged refl).1) (s.is_object q)),
    refl,
  )
  committed_batch set objs (txn, true) q s = rw (s.is_active) (
    refl,
    get-unless_removed db (record set { storage = s.after }) q
        ∙ ap (λ o. unless_removed o (db.get s.after objects_map q)) (s.is_removed q)
        ∙ ap (unless_removed (db.get set.storage removed_map q)) (s.is_object q),
    refl,
  )

  -- Where no call fails and none of the keys was removed, every key of a batch has afterwards the
  -- object that it had before, and else the first one of the batch; a key that was removed has none.
  pub add_batch-found :
      (set : Pset E) (objs : List (K × Bytes)) (q : K)
      → All (λ o. db.get set.storage removed_map o.0 ≡ none) objs
      → ((add_batch db all_works set objs).0 ≡ none)
        × (get db all_works (add_batch db all_works set objs).1 q
            ≡ unless_removed
                (db.get set.storage removed_map q)
                (or_else (db.get set.storage objects_map q) (first_of same q objs)))
        × ((add_batch db all_works set objs).1.idgen ≡ set.idgen)
  unfolding add_batch
  add_batch-found set objs q free =
      committed_batch set objs
        (batch_loop db (λ j. true) (λ j. true) 0 (active (set.storage), false) objs) q
        (Stored-loop 0 set.storage false objs free)
