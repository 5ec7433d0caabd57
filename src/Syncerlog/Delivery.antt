-- ===== src/Syncerlog/Delivery.antt =====
-- From one log to another: the jobs of `mdv_syncerlog_schedule` of mdv_syncerlog.c, each carried out
-- by `mdv_syncerlog_data_send_fn`, with `mdv_trlog_add` at the peer.
use medved_db.Base.{
  ℕ, ◌+◌, ◌^◌, ◌≤◌, ◌<◌, ◌≡◌, refl, sym, ◌∙◌, List, [], ◌∷◌, Bool, true, false, Option, none, some,
  arith, ◌==◌, leb, ltb, ◌&&◌, if◌then◌else◌, Bool-cases, inl, inr, length,
}
use medved_db.Lmdb.Engine.{Engine as LmdbEngine, Cursors, Bytes}
use medved_db.Trlog.{Trlog, Op, trlog_map, range_read, add}
use medved_db.Trlog.Append.{all_works, or_else, first, add-get, Numbered}
use medved_db.Trlog.Reading.{range_read-first}
use medved_db.Syncerlog.{Syncerlog, data_send, schedule}
use medved_db.Syncerlog.Ranges.{Covers, schedule-Covers}

-- The number stands in a range.
abbrev pub within : ℕ → ℕ → ℕ → Bool
within from to q = leb from q && ltb q to

first_empty : (q : ℕ) (rows : List Op) → (length rows == 0) ≡ true → first q rows ≡ none
unfolding first
first_empty q [] h = refl
first_empty q (op ∷ rows) h = absurd (ground arith)

Covers-le :
    (batch_size left right : ℕ) (jobs : List (ℕ × ℕ))
    → Covers batch_size left jobs right
    → left ≤ right
unfolding Covers
Covers-le batch_size left right [] c = omega (arith, c)
Covers-le batch_size left right ((l, r) ∷ jobs) (start, some_job, small, c) =
    omega (arith, start, some_job, Covers-le batch_size r right jobs c)

-- What a number has at the peer and in the log, after and before the range.
agree :
    (p l : Option Bytes) (after before : Bool)
    → ((v : Bytes) → p ≡ some v → l ≡ some v)
    → (after ≡ false → p ≡ l)
    → (before ≡ false → l ≡ none)
    → or_else p (if after && before then l else none) ≡ l
agree none l true true part old past = refl
agree none l true false part old past = sym (past refl)
agree none l false before part old past = old refl
agree (some v) l after before part old past = sym (part v refl)

module _ {E : Type 0} (db : LmdbEngine E ℕ ◌==◌) (cs : Cursors db) where
  abbrev pub receive : Trlog E → Option (List Op) → Trlog E
  receive peer none = peer
  receive peer (some rows) = (add db all_works peer rows).2

  -- The peer after the jobs, whose messages arrive one after the other.
  unfoldable pub deliver : Trlog E → Trlog E → List (ℕ × ℕ) → Trlog E
  deliver trlog peer [] = peer
  deliver trlog peer (job ∷ jobs) =
      deliver trlog (receive peer (data_send db cs all_works trlog job)) jobs

  receive-get :
      (trlog peer : Trlog E) (left right q : ℕ)
      → db.get (receive peer (data_send db cs all_works trlog (left, right))).storage trlog_map q
        ≡ or_else
            (db.get peer.storage trlog_map q)
            (if within left right q then db.get trlog.storage trlog_map q else none)
  unfolding data_send first
  receive-get trlog peer left right q =
      let rows : List Op = range_read db cs all_works trlog left right in
      let rows_first = range_read-first db cs trlog left right q in
      elim (Bool-cases (length rows == 0)) [
        | inl z ↦ ground (arith, z, rows_first, first_empty q rows)
        | inr nz ↦ ground (arith, nz, rows_first, (add-get db peer rows q).1)
      ]

  -- A peer that gets the jobs for a range keeps what it has, and of the numbers that it has not got
  -- those of the range are as in the log.
  deliver-get :
      (batch_size left right : ℕ) (trlog peer : Trlog E) (jobs : List (ℕ × ℕ)) (q : ℕ)
      → Covers batch_size left jobs right
      → db.get (deliver trlog peer jobs).storage trlog_map q
        ≡ or_else
            (db.get peer.storage trlog_map q)
            (if within left right q then db.get trlog.storage trlog_map q else none)
  unfolding deliver Covers
  deliver-get batch_size left right trlog peer [] q c = ground (arith, c)
  deliver-get batch_size left right trlog peer ((l, r) ∷ jobs) q (start, some_job, small, c) =
      let peer₁ : Trlog E = receive peer (data_send db cs all_works trlog (l, r)) in
      ground (
        arith,
        deliver-get batch_size r right trlog peer₁ jobs q c,
        receive-get trlog peer l r q,
        Covers-le batch_size r right jobs c,
      )

  -- Where the batch size is above 0, the next number of a log and a batch above it have 64 bits,
  -- the log's numbers are below its next one, and the counter of the synchronization and the next
  -- number of the peer are below it too: a peer whose log is a part of the other log, and the same
  -- as it below the counter, has the same operations after the jobs of one schedule, if no call
  -- fails.
  pub sync-converges :
      (s : Syncerlog) (trlog peer : Trlog E)
      → 0 < s.batch_size
      → trlog.top + s.batch_size < 2 ^ 64
      → Numbered db trlog.storage trlog.top
      → s.synced < trlog.top
      → peer.top < trlog.top
      → ((q : ℕ) (v : Bytes)
          → db.get peer.storage trlog_map q ≡ some v
          → db.get trlog.storage trlog_map q ≡ some v)
      → ((q : ℕ)
          → q < s.synced
          → db.get peer.storage trlog_map q ≡ db.get trlog.storage trlog_map q)
      → (jobs : List (ℕ × ℕ)) × (schedule (λ j. true) s trlog.top peer.top
          ≡ some (true, jobs, record s { requests = 0; synced = trlog.top }))
        × ((q : ℕ)
            → db.get (deliver trlog peer jobs).storage trlog_map q
              ≡ db.get trlog.storage trlog_map q)
  sync-converges s trlog peer pos fits n behind short part old =
      let (jobs, sent, covers) = schedule-Covers s trlog.top peer.top pos fits behind short in
      (
        jobs,
        sent,
        λ q.
            let law = deliver-get s.batch_size s.synced trlog.top trlog peer jobs q covers in
            law
            ∙ agree (db.get peer.storage trlog_map q) (db.get trlog.storage trlog_map q)
                (leb s.synced q) (ltb q trlog.top) (part q) (λ h. old q (ground arith))
                (λ h. n.under q (ground arith)),
      )
