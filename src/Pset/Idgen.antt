-- ===== src/Pset/Idgen.antt =====
-- `mdv_2pset_reserve_ids_range` and `mdv_objects_idgen_init` of mdv_2pset.c.
use medved_db.Base.{
  ℕ, ◌+◌, ◌^◌, ◌<◌, ◌≡◌, ◌⊎◌, refl, ap, Bool, true, false, Option, none, some, arith, ◌==◌,
  Bool-cases, inl, inr, le_bytes, of_le-le_bytes,
}
use medved_db.Lmdb.Engine.{Engine as LmdbEngine}
use medved_db.Trlog.{Works, word}
use medved_db.Trlog.Append.{all_works, word_small}
use medved_db.Pset.{Pset, idgen_map, reserve_ids_range, idgen_init}

module _ {E K : Type 0} {same : K → K → Bool} (db : LmdbEngine E K same) where
  -- The answer is the number of the set, and the set opened again has the number after the range and
  -- the objects that it had.
  pub record Resumes (key : K) (set : Pset E) (range : ℕ) (r : Option ℕ × Pset E) : Type 0 where
    pub answer : r.0 ≡ some (set.idgen)
    pub next : r.1.idgen ≡ set.idgen + range
    pub again : idgen_init db all_works key r.1.storage ≡ some r.1
    pub others :
        (m : ℕ) (q : K) → (m == idgen_map) ≡ false → db.get r.1.storage m q ≡ db.get set.storage m q

  committed-Resumes :
      (key : K) (set : Pset E) (range : ℕ)
      → same key key ≡ true
      → set.idgen + range < 2 ^ 64
      → (new_id : ℕ) → new_id ≡ set.idgen + range
      → Resumes key set range (
        some (set.idgen),
        record { storage = db.put set.storage idgen_map key (le_bytes 8 new_id); idgen = new_id },
      )
  unfolding idgen_init
  committed-Resumes key set range reflexive small new_id is_new =
      let law = db.get-put set.storage idgen_map key (le_bytes 8 new_id) in
      record {
        answer = refl;
        next = is_new;
        again =
            rw (law idgen_map key, reflexive)
              (ap
                (λ n. some (record {
                  storage = db.put set.storage idgen_map key (le_bytes 8 new_id);
                  idgen = n;
                }))
                (of_le-le_bytes 8 new_id (omega (arith, is_new, small))));
        others = λ m q h. ground (arith, law m q, h);
      }

  -- Whichever calls fail, a reservation gives no answer and leaves the set as it is; or it answers
  -- the number of the set, which goes up by the range, and the set that is opened again goes on from
  -- there with the objects that it had. The number after the range has 64 bits.
  pub reserve-Resumes :
      (locked : Bool) (w : Works) (key : K) (set : Pset E) (range : ℕ)
      → same key key ≡ true
      → set.idgen + range < 2 ^ 64
      → (reserve_ids_range db locked w key set range ≡ (none, set))
        ⊎ Resumes key set range (reserve_ids_range db locked w key set range)
  unfolding reserve_ids_range
  reserve-Resumes false w key set range reflexive small = inl refl
  reserve-Resumes true w key set range reflexive small = elim (Bool-cases w.started) [
    | inr fails ↦ rw fails (inl refl)
    | inl begun ↦ elim (Bool-cases (w.opened idgen_map)) [
      | inr fails ↦ rw (begun, fails) (inl refl)
      | inl opened ↦ elim (Bool-cases (w.stored 0)) [
        | inr fails ↦ rw (begun, opened, fails) (inl refl)
        | inl stored ↦ elim (Bool-cases w.committed) [
          | inr fails ↦ rw (begun, opened, stored, fails) (inl refl)
          | inl done ↦
              rw (begun, opened, stored, done)
                (inr (
                  committed-Resumes key set range reflexive small (word (set.idgen + range))
                    (word_small (set.idgen + range) small)))
        ]
      ]
    ]
  ]
