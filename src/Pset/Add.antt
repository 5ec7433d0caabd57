-- ===== src/Pset/Add.antt =====
-- `mdv_2pset_add` and `mdv_2pset_get` of mdv_2pset.c.
use medved_db.Base.{
  ◌≡◌, refl, ap, ◌∙◌, Bool, Option, none, some, arith, if◌then◌else◌, Option-cases, Bool-cases, inl,
  inr,
}
use medved_db.Lmdb.Engine.{Engine as LmdbEngine, Bytes}
use medved_db.Trlog.Append.{all_works, or_else}
use medved_db.Pset.{Pset, objects_map, removed_map, add, get}

-- The object that is found: none where the key was removed.
abbrev pub unless_removed : Option Bytes → Option Bytes → Option Bytes
unless_removed none o = o
unless_removed (some v) o = none

module _ {E K : Type 0} {same : K → K → Bool} (db : LmdbEngine E K same) where
  -- A put of a new key, in one law for all keys.
  pub put-get :
      (e : E) (id : K) (obj : Bytes) (q : K)
      → db.get e objects_map id ≡ none
      → db.get (db.put e objects_map id obj) objects_map q
        ≡ or_else (db.get e objects_map q) (if same q id then some obj else none)
  put-get e id obj q free = elim (Bool-cases (same q id)) [
    | inl s ↦ rw s (
        ground (
          arith,
          db.get-put e objects_map id obj objects_map q,
          s,
          db.get-same e objects_map q id s,
          free,
        ))
    | inr d ↦ rw d (ground (arith, db.get-put e objects_map id obj objects_map q, d))
  ]

  -- An object of which a key has one already is not replaced.
  pub taken-get :
      (e : E) (id : K) (obj v : Bytes) (q : K)
      → db.get e objects_map id ≡ some v
      → db.get e objects_map q
        ≡ or_else (db.get e objects_map q) (if same q id then some obj else none)
  taken-get e id obj v q taken = elim (Bool-cases (same q id)) [
    | inl s ↦ rw s (ground (arith, db.get-same e objects_map q id s, taken))
    | inr d ↦ rw d (ground arith)
  ]

  pub get-unless_removed :
      (set : Pset E) (q : K)
      → get db all_works set q
        ≡ unless_removed (db.get set.storage removed_map q) (db.get set.storage objects_map q)
  unfolding get
  get-unless_removed set q = elim (Option-cases (db.get set.storage removed_map q)) [
    | inl e ↦ rw e refl
    | inr (v, e) ↦ rw e refl
  ]

  -- An object whose key was removed is found under no key.
  pub removed-rest :
      (e : E) (id : K) (obj v : Bytes) (q : K)
      → db.get e removed_map id ≡ some v
      → unless_removed (db.get e removed_map q) (db.get e objects_map q)
        ≡ unless_removed
            (db.get e removed_map q)
            (or_else (db.get e objects_map q) (if same q id then some obj else none))
  removed-rest e id obj v q gone = elim (Bool-cases (same q id)) [
    | inl s ↦ rw (db.get-same e removed_map q id s ∙ gone) refl
    | inr d ↦ rw d (ap (unless_removed (db.get e removed_map q)) (go (db.get e objects_map q)))
  ]
    where
      go : (o : Option Bytes) → o ≡ or_else o none
      go none = refl
      go (some v) = refl

  -- Where no call fails, an object that is added is found afterwards, unless it was removed or its
  -- key had an object before; the other objects are as before, and so is the number of the set.
  pub add-found :
      (set : Pset E) (id : K) (obj : Bytes) (q : K)
      → ((add db all_works set id obj).0 ≡ none)
        × (get db all_works (add db all_works set id obj).1 q
            ≡ unless_removed
                (db.get set.storage removed_map q)
                (or_else (db.get set.storage objects_map q) (if same q id then some obj else none)))
        × ((add db all_works set id obj).1.idgen ≡ set.idgen)
  unfolding add
  add-found set id obj q = elim (Option-cases (db.get set.storage removed_map id)) [
    | inr (v, gone) ↦
        rw gone (refl, get-unless_removed set q ∙ removed-rest set.storage id obj v q gone, refl)
    | inl there ↦ elim (Option-cases (db.get set.storage objects_map id)) [
      | inr (v, taken) ↦
          rw (there, db.put_new_taken set.storage objects_map id obj v taken)
            (
              refl,
              get-unless_removed set q
                  ∙ ap (unless_removed (db.get set.storage removed_map q))
                      (taken-get set.storage id obj v q taken),
              refl,
            )
      | inl free ↦
          rw (there, db.put_new_free set.storage objects_map id obj free)
            (
              refl,
              get-unless_removed (record set { storage = db.put set.storage objects_map id obj }) q
                  ∙ ap
                      (λ o.
                        unless_removed o
                          (db.get (db.put set.storage objects_map id obj) objects_map q))
                      (db.get-put set.storage objects_map id obj removed_map q)
                  ∙ ap (unless_removed (db.get set.storage removed_map q))
                      (put-get set.storage id obj q free),
              refl,
            )
    ]
  ]
