-- ===== src/Trlog/Init.antt =====
-- `mdv_trlog_init` of mdv_trlog.c: a log that is opened again.
use medved_db.Base.{
  ℕ, ◌+◌, ◌^◌, ◌≤◌, ◌<◌, ◌≡◌, refl, ◌∙◌, List, [], ◌∷◌, none, arith, ◌==◌, All, le_bytes,
  of_le-le_bytes,
}
use medved_db.Lmdb.Engine.{Engine as LmdbEngine, Cursors, Bytes, Sorted, value_of, last_of}
use medved_db.Trlog.{
  Trlog, trlog_map, applied_map, applied_pos_key, applied_pos_set, init, next_number,
}
use medved_db.Trlog.Append.{all_works, word_small, Numbered}

-- Every key is below the number after the last entry.
below_last :
    (es : List (ℕ × Bytes))
    → Sorted es
    → All (λ e. e.0 + 1 < 2 ^ 64) es
    → All (λ e. e.0 < next_number (last_of es)) es × (next_number (last_of es) < 2 ^ 64)
unfolding last_of
below_last [] s h = (tt, omega arith)
below_last ((i, v) ∷ []) s h =
    let w = word_small (i + 1) h.0 in ((omega (arith, w), tt), omega (arith, w, h.0))
below_last ((i, v) ∷ (j, u) ∷ es) s h =
    let (below, fits) = below_last ((j, u) ∷ es) s.1 h.1 in
    ((omega (arith, below.0, s.0.0), below), fits)

value_of-beyond :
    (top q : ℕ) (es : List (ℕ × Bytes)) → All (λ e. e.0 < top) es → top ≤ q → value_of q es ≡ none
unfolding value_of
value_of-beyond top q [] h le = refl
value_of-beyond top q (e ∷ es) h le = ground (arith, value_of-beyond top q es h.1, h.0)

module _ {E : Type 0} (db : LmdbEngine E ℕ ◌==◌) (cs : Cursors db) where
  -- Where every number in a log and the number after it have 64 bits, as the stored position has,
  -- and the calls of LMDB succeed: a log that is opened again has all its numbers below the next
  -- one, and the position that was stored last.
  pub init-resumes :
      (trlog : Trlog E) (pos : ℕ)
      → All (λ e. e.0 + 1 < 2 ^ 64) (cs.entries trlog.storage trlog_map)
      → pos < 2 ^ 64
      → Numbered db trlog.storage (init db cs all_works trlog.storage).top
        × ((init db cs all_works (applied_pos_set db all_works trlog pos).storage).applied ≡ pos)
  unfolding init applied_pos_set
  init-resumes trlog pos small h =
      let es : List (ℕ × Bytes) = cs.entries trlog.storage trlog_map in
      let last = cs.last-entries trlog.storage trlog_map in
      let (below, fits) = below_last es (cs.sorted trlog.storage trlog_map) small in
      let law =
        db.get-put trlog.storage applied_map applied_pos_key (le_bytes 8 pos) applied_map
          applied_pos_key in
      (
        rw last (record {
          fits = fits;
          under = λ q le.
              cs.get-entries trlog.storage trlog_map q
              ∙ value_of-beyond (next_number (last_of es)) q es below le;
        }),
        rw law (of_le-le_bytes 8 pos (omega arith)),
      )
