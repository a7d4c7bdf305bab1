-- ===== src/Btreplay/Replay.antt =====
-- Where the transfers of `do_thread_job` go.
use micbench.Base.{
  ℕ, ◌+◌, ◌%◌, ◌^◌, ◌≡◌, ◌≢◌, ◌⊎◌, inl, inr, refl, Bool, true, false, List, [], ◌∷◌, ◌==◌,
  if◌then◌else◌, arith, Bool-cases, ap,
}
use micbench.Btreplay.{
  Trace, Ioreq, stop, trace, Call, lseek64, readall, writeall, is_issue, is_write, ofst_of,
  do_thread_job, no_endpos,
}

-- A transfer: whether it writes, where it begins and its length.
abbrev pub Transfer : Type 0
Transfer = Bool × ℕ × ℕ

-- What the calls do on a file whose position is `at`, as a number of 64 bits: a seek sets it, and a
-- whole transfer moves it on.
unfoldable pub performed : (at : ℕ) → List Call → List Transfer
performed at [] = []
performed at (lseek64 ofst ∷ cs) = performed ofst cs
performed at (readall sz ∷ cs) = (false, at, sz) ∷ performed ((at + sz) % 2 ^ 64) cs
performed at (writeall sz ∷ cs) = (true, at, sz) ∷ performed ((at + sz) % 2 ^ 64) cs

-- The transfers that the dump asks for: those issued before the first sign to stop, each at the
-- first byte of its sector.
unfoldable pub issued : List Ioreq → List Transfer
issued [] = []
issued (stop ∷ q) = []
issued (trace t ∷ q) =
    let rest = issued q in if is_issue t then (is_write t, ofst_of t, t.bytes) ∷ rest else rest

-- `endpos` is where the file stands, or the -1 of the beginning.
abbrev Tracks : ℕ → ℕ → Type 0
Tracks endpos at = (endpos ≡ at) ⊎ (endpos ≡ no_endpos)

ofst_ne : (t : Trace) → ofst_of t ≢ no_endpos
ofst_ne t e = omega arith

do_thread_job-performed :
    (q : List Ioreq) (endpos at : ℕ)
    → Tracks endpos at
    → performed at (do_thread_job endpos q) ≡ issued q
unfolding performed issued do_thread_job
do_thread_job-performed [] endpos at tracks = refl
do_thread_job-performed (stop ∷ q) endpos at tracks = refl
do_thread_job-performed (trace t ∷ q) endpos at tracks =
    let next = (ofst_of t + t.bytes) % 2 ^ 64 in
    elim (Bool-cases (is_issue t)) [
      | inr other ↦ rw other (do_thread_job-performed q endpos at tracks)
      | inl issue ↦
          let ih = do_thread_job-performed q next next (inl refl) in
          let ne = ofst_ne t in
          elim (Bool-cases (ofst_of t == endpos)) [
            | inl here ↦
                let e : at ≡ ofst_of t = ground arith in
                elim (Bool-cases (is_write t)) [
                  | inl w ↦ rw (issue, here, w, e) (ap (λ r. (true, ofst_of t, t.bytes) ∷ r) ih)
                  | inr r ↦ rw (issue, here, r, e) (ap (λ r. (false, ofst_of t, t.bytes) ∷ r) ih)
                ]
            | inr away ↦ elim (Bool-cases (is_write t)) [
              | inl w ↦ rw (issue, away, w) (ap (λ r. (true, ofst_of t, t.bytes) ∷ r) ih)
              | inr r ↦ rw (issue, away, r) (ap (λ r. (false, ofst_of t, t.bytes) ∷ r) ih)
            ]
          ]
    ]

-- Wherever the file stood at the start, and if every seek and every transfer succeeds as a whole, the
-- calls of a thread perform the issued requests that it takes before a sign to stop, in order, each
-- at its own offset and with its own length and direction.
pub do_thread_job-issued :
    (q : List Ioreq) (at : ℕ) → performed at (do_thread_job no_endpos q) ≡ issued q
do_thread_job-issued q at = do_thread_job-performed q no_endpos at (inr refl)
