-- ===== src/Syncerlog/Ranges.antt =====
-- The ranges that `mdv_syncerlog_schedule` of mdv_syncerlog.c makes.
use medved_db.Base.{
  ℕ, zero, suc, ◌+◌, ◌^◌, ◌≤◌, ◌<◌, ◌≡◌, refl, ap, ◌∙◌, List, [], ◌∷◌, Bool, true, some, arith, leb,
  ltb, if◌then◌else◌, Bool-cases, inl, inr, ◌||◌,
}
use medved_db.Trlog.Append.{word_small}
use medved_db.Syncerlog.{Syncerlog, range_end, claim, send_ranges, schedule, scheduled}

-- Ranges that follow on one another from `left` to `right`, none of them empty or longer than a
-- batch.
unfoldable pub Covers : ℕ → ℕ → List (ℕ × ℕ) → ℕ → Type 0
Covers batch_size left [] right = left ≡ right
Covers batch_size left ((l, r) ∷ jobs) right =
    (l ≡ left) × (l < r) × (r ≤ l + batch_size) × Covers batch_size r jobs right

-- A thread whose value of the counter is out of date corrects it.
claim-corrects :
    (top batch_size stored synced : ℕ)
    → stored < top
    → synced < top
    → claim 2 top batch_size stored synced
      ≡ some (range_end top batch_size stored, stored, range_end top batch_size stored)
unfolding claim
claim-corrects top batch_size stored synced h k = ground arith

send_ranges-Covers :
    (i fuel top batch_size stored : ℕ) (ok : Bool)
    → 0 < batch_size
    → top + batch_size < 2 ^ 64
    → stored < top
    → top < stored + fuel
    → (jobs : List (ℕ × ℕ)) × (send_ranges (λ j. true) i fuel top batch_size stored stored ok
        ≡ some (top, true, jobs))
      × Covers batch_size stored jobs top
unfolding send_ranges claim range_end Covers
send_ranges-Covers i zero top batch_size stored ok pos fits lt enough = absurd (omega arith)
send_ranges-Covers i (suc fuel) top batch_size stored ok pos fits lt enough =
    let w = word_small (stored + batch_size) (omega arith) in
    elim (Bool-cases (ltb (stored + batch_size) top)) [
      | inl more ↦
          let (jobs, sent, covers) =
            send_ranges-Covers (i + 1) fuel top batch_size (stored + batch_size) true pos fits
              (ground arith) (omega arith) in
          (
            (stored, stored + batch_size) ∷ jobs,
            ground (arith, w, sent),
            (refl, omega arith, omega arith, covers),
          )
      | inr done ↦ ((stored, top) ∷ [], ground (arith, w), (refl, lt, ground arith, refl))
    ]

send_ranges-corrects :
    (fuel top batch_size stored synced : ℕ)
    → stored < top
    → synced < top
    → send_ranges (λ j. true) 0 (suc fuel) top batch_size stored synced true
      ≡ send_ranges (λ j. true) 0 (suc fuel) top batch_size stored stored true
unfolding send_ranges
send_ranges-corrects fuel top batch_size stored synced h k = ground (
  arith,
  claim-corrects top batch_size stored synced h k,
  claim-corrects top batch_size stored stored h h,
)

send_ranges_none :
    (fuel top batch_size stored synced : ℕ)
    → top ≤ synced
    → send_ranges (λ j. true) 0 (suc fuel) top batch_size stored synced true
      ≡ some (stored, true, [])
unfolding send_ranges claim
send_ranges_none fuel top batch_size stored synced h = ground arith

-- Where the batch size is above 0, the log's next number and a batch above it have 64 bits, each
-- job can be emitted, and the log goes on after the counter and after the peer's position, the
-- schedule ends: its jobs cover the numbers from the counter on, in order and each once, in ranges
-- of at most a batch and none empty, and the counter is at the end of the log.
pub schedule-Covers :
    (s : Syncerlog) (top pos : ℕ)
    → 0 < s.batch_size
    → top + s.batch_size < 2 ^ 64
    → s.synced < top
    → pos < top
    → (jobs : List (ℕ × ℕ)) × (schedule (λ j. true) s top pos
        ≡ some (true, jobs, record s { requests = 0; synced = top }))
      × Covers s.batch_size s.synced jobs top
unfolding schedule
schedule-Covers s top pos bound fits h k =
    let (jobs, sent, covers) =
      send_ranges-Covers 0 (suc top) top s.batch_size s.synced true bound fits h (omega arith) in
    let synced : ℕ = if ltb s.synced pos then pos else s.synced in
    let corrected = send_ranges-corrects top top s.batch_size s.synced synced h (ground arith) in
    (jobs, ap (scheduled s) (corrected ∙ sent), covers)

-- A peer that has all of the log, or a log of which all was sent, makes no job.
pub schedule_none :
    (s : Syncerlog) (top pos : ℕ)
    → (leb top s.synced || leb top pos) ≡ true
    → schedule (λ j. true) s top pos ≡ some (true, [], record s { requests = 0 })
unfolding schedule
schedule_none s top pos h =
    let synced : ℕ = if ltb s.synced pos then pos else s.synced in
    ap (scheduled s) (send_ranges_none top top s.batch_size s.synced synced (ground arith))
