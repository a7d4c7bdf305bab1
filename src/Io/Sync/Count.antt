-- ===== src/Io/Sync/Count.antt =====
-- How often the loops of `do_sync_io` run, and what they count.
use micbench.Base.{
  ℕ, zero, suc, ◌+◌, ◌*◌, ◌<◌, ◌≡◌, true, false, some, length, arith, ok, >>=-eq-ok, resume-eq-ok,
  Bool-cases, inl, inr, if◌then◌else◌, ℕ_discrete, ◌-◌, ap,
}
use micbench.Base.Int.{ltb_ℤ, ◌*ℤ◌, ◌+ℤ◌}
use micbench.Rand.{Machine}
use micbench.Io.Options.{IoOption}
use micbench.Io.Log.{length-log_io_activity}
use micbench.Clock.{seconds}
use micbench.Io.Sync.{
  Answers, Surroundings, SyncState, choose, transfer, path_at, request, requests, rounds,
}

module _ (m : Machine) (opt : IoOption m.Double) where
  -- the lines that `n` requests log
  abbrev pub logged : ℕ → ℕ
  logged n = if opt.logfile then n else 0

  abbrev AddsRequests : ℕ → SyncState m opt → SyncState m opt → Type 0
  AddsRequests n s s' =
      (s'.io_count ≡ s.io_count + n) × (length s'.log.lines ≡ length s.log.lines + logged n)

  request-counts :
      (w : Answers) (s s' : SyncState m opt) → request m opt w s ≡ ok s' → AddsRequests 1 s s'
  unfolding request
  request-counts w s s' h =
      let ((idx, ofst, c), _, h₁) = >>=-eq-ok (choose m opt opt.pattern s.cursor) _ h in
      let ((c', buf), _, h₂) = >>=-eq-ok (transfer m opt opt.pattern w c s.buf) _ h₁ in
      let (path, _, h₃) = >>=-eq-ok (path_at m opt idx) _ h₂ in
      let addr = ofst *ℤ opt.blk_sz +ℤ opt.misalign in
      ground (arith, length-log_io_activity opt.logfile w.t0 w.t1 path addr opt.blk_sz s.log)

  logged-suc : (n : ℕ) → logged 1 + logged n ≡ logged (suc n)
  logged-suc n = ground arith

  logged-add : (a b : ℕ) → logged a + logged b ≡ logged (a + b)
  logged-add a b = ground arith

  hundreds : (k : ℕ) → 100 + 100 * k ≡ 100 * suc k
  hundreds k = omega arith

  requests-counts :
      (env : Surroundings) (n : ℕ) (s s' : SyncState m opt)
      → requests m opt env n s ≡ ok s'
      → AddsRequests n s s'
  unfolding requests
  requests-counts env zero s s' h = ground arith
  requests-counts env (suc n) s s' h =
      let (s₁, one, rest) = >>=-eq-ok (request m opt (env.answers s.io_count) s) _ h in
      let (a, b) = request-counts (env.answers s.io_count) s s₁ one in
      let (c, d) = requests-counts env n s₁ s' rest in (omega arith, omega (arith, logged-suc n))

  -- When the loops of `do_sync_io` end, they have made 100 requests for each look at the clock that
  -- found time left, the last look found none, and the log has a line for each request if there is
  -- a log.
  pub rounds-counts :
      (env : Surroundings) (fuel i : ℕ) (s s' : SyncState m opt)
      → rounds m opt env fuel i s ≡ some (ok s')
      → (k : ℕ) × (s'.io_count ≡ s.io_count + 100 * k)
        × (length s'.log.lines ≡ length s.log.lines + logged (100 * k))
        × ((j : ℕ) → j < k → ltb_ℤ (env.elapsed (i + j)) (seconds opt.timeout) ≡ true)
        × (ltb_ℤ (env.elapsed (i + k)) (seconds opt.timeout) ≡ false)
  unfolding rounds
  rounds-counts env zero i s s' h = cc
  rounds-counts env (suc fuel) i s s' h =
      elim (Bool-cases (ltb_ℤ (env.elapsed i) (seconds opt.timeout))) [
        | inr over ↦
            let e : i + 0 ≡ i = omega arith in
            let h₁ = rw over at h in
            (0, ground arith, ground arith, λ j lt. absurd (omega arith), rw e over)
        | inl time ↦
            let h₁ = rw time at h in
            let (s₁, run, rest) =
              resume-eq-ok (requests m opt env 100 s) (rounds m opt env fuel (i + 1)) h₁ in
            let (a, b) = requests-counts env 100 s s₁ run in
            let (k, c, d, before, last) = rounds-counts env fuel (i + 1) s₁ s' rest in
            let e : i + suc k ≡ i + 1 + k = omega arith in
            (
              suc k,
              omega arith,
              omega (arith, logged-add 100 (100 * k), ap logged (hundreds k)),
              λ j lt. elim (ℕ_discrete j 0) [
                | yes z ↦ let here : i + j ≡ i = omega arith in rw here time
                | no nz ↦
                    let there : i + j ≡ i + 1 + (j - 1) = omega arith in
                    rw there (before (j - 1) (omega arith))
              ],
              rw e last,
            )
      ]

  -- If the clock comes to the timeout at a look that the fuel reaches, the loops end, as long as
  -- requests keep a state in which requests succeed.
  pub rounds-end :
      (Fine : SyncState m opt → Type 0) (env : Surroundings)
      → ((t : SyncState m opt)
          → Fine t
          → (t' : SyncState m opt) × (requests m opt env 100 t ≡ ok t') × Fine t')
      → (k fuel i : ℕ) (s : SyncState m opt) → Fine s
      → k < fuel
      → ltb_ℤ (env.elapsed (i + k)) (seconds opt.timeout) ≡ false
      → (s' : SyncState m opt) × (rounds m opt env fuel i s ≡ some (ok s')) × Fine s'
  unfolding rounds
  rounds-end Fine env works k zero i s f lt over = absurd (omega arith)
  rounds-end Fine env works zero (suc fuel) i s f lt over =
      let e : i + 0 ≡ i = omega arith in
      let now : ltb_ℤ (env.elapsed i) (seconds opt.timeout) ≡ false = rw e at over in (s, rw now, f)
  rounds-end Fine env works (suc k) (suc fuel) i s f lt over =
      let e : i + suc k ≡ i + 1 + k = omega arith in
      elim (Bool-cases (ltb_ℤ (env.elapsed i) (seconds opt.timeout))) [
        | inr now ↦ (s, rw now, f)
        | inl time ↦
            let (s₁, run, f₁) = works s f in
            let (s', rest, f') =
              rounds-end Fine env works k fuel (i + 1) s₁ f₁ (omega arith) (rw e at over) in
            (s', rw (time, run) rest, f')
      ]
