-- ===== src/Syncerlog.antt =====
-- The sending side of a log's synchronization, mdv_core/mdv_syncerlog.c: the numbers that a peer has
-- not got are cut into ranges, a job for each, and a job sends the operations of its range. One
-- thread runs at a time; a weak compare-exchange does not fail without a reason.
pub mod Ranges
pub mod Delivery
use medved_db.Base.{
  ℕ, zero, suc, ◌+◌, List, [], ◌∷◌, Bool, true, false, Option, none, some, ltb, leb, ◌==◌,
  if◌then◌else◌, length,
}
use medved_db.Lmdb.Engine.{Engine as LmdbEngine, Cursors}
use medved_db.Trlog.{Trlog, Works, Op, word, range_read}

-- The counters of `mdv_syncerlog`, and `MDV_CONFIG.datasync.batch_size`.
pub record Syncerlog : Type 0 where
  pub requests : ℕ
  pub synced : ℕ
  pub batch_size : ℕ

-- The end of the next range.
unfoldable pub range_end : ℕ → ℕ → ℕ → ℕ
range_end top batch_size synced =
    if ltb (word (synced + batch_size)) top then word (synced + batch_size) else top

-- The loop with the compare-exchange: `stored` is the shared counter, `synced` what the thread takes
-- it for, which a failed exchange corrects. The result is both, with the end of the range.
unfoldable pub claim : ℕ → ℕ → ℕ → ℕ → ℕ → Option (ℕ × ℕ × ℕ)
claim zero top batch_size stored synced = none
claim (suc fuel) top batch_size stored synced =
    let right = range_end top batch_size synced in
    let again = claim fuel top batch_size stored stored in
    if leb top synced
    then some (stored, synced, top)
    else if stored == synced
    then some (right, synced, right)
    else again

-- A job for a range, if it is not empty and the job can be emitted.
abbrev pub emit : Bool → ℕ → ℕ → List (ℕ × ℕ) → List (ℕ × ℕ)
emit emitted left right jobs =
    if ltb left right then (if emitted then (left, right) ∷ jobs else jobs) else jobs

abbrev pub emit_first :
    Bool → ℕ → ℕ → Option (ℕ × Bool × List (ℕ × ℕ)) → Option (ℕ × Bool × List (ℕ × ℕ))
emit_first emitted left right none = none
emit_first emitted left right (some (stored, ok, jobs)) =
    some (stored, ok, emit emitted left right jobs)

-- The loop over the ranges; `i` counts the turns, `ok` is whether the last job could be emitted. The
-- result is the shared counter, `ok` and the jobs.
unfoldable pub send_ranges :
    (ℕ → Bool) → ℕ → ℕ → ℕ → ℕ → ℕ → ℕ → Bool → Option (ℕ × Bool × List (ℕ × ℕ))
send_ranges emitted i zero top batch_size stored synced ok = none
send_ranges emitted i (suc fuel) top batch_size stored synced ok =
    elim (claim 2 top batch_size stored synced) [
      | none ↦ none
      | some r ↦ emit_first (emitted i) r.1 r.2 (
          if ltb r.2 top
          then send_ranges emitted (i + 1) fuel top batch_size r.0
              (if ltb r.1 r.2 then r.2 else r.1) (if ltb r.1 r.2 then emitted i else ok)
          else some (r.0, (if ltb r.1 r.2 then emitted i else ok), []))
    ]

abbrev pub scheduled :
    Syncerlog → Option (ℕ × Bool × List (ℕ × ℕ)) → Option (Bool × List (ℕ × ℕ) × Syncerlog)
scheduled s none = none
scheduled s (some (stored, ok, jobs)) = some (ok, jobs, record s { requests = 0; synced = stored })

-- `mdv_syncerlog_schedule` for the next number `top` of the log and that of the peer, `pos`.
unfoldable pub schedule : (ℕ → Bool) → Syncerlog → ℕ → ℕ → Option (Bool × List (ℕ × ℕ) × Syncerlog)
schedule emitted s top pos = scheduled s (
    send_ranges emitted 0 (suc top) top s.batch_size s.synced
      (if ltb s.synced pos then pos else s.synced) true)

module _ {E : Type 0} (db : LmdbEngine E ℕ ◌==◌) (cs : Cursors db) where
  -- `mdv_syncerlog_data_send_fn`: what is published, if anything was read.
  unfoldable pub data_send : Works → Trlog E → ℕ × ℕ → Option (List Op)
  data_send w trlog (left, right) =
      let rows = range_read db cs w trlog left right in if length rows == 0 then none else some rows
