-- ===== src/Btreplay/Dump.antt =====
-- Reading back a dump of records.
use micbench.Base.{
  ℕ, zero, suc, ◌+◌, ◌*◌, ◌/◌, ◌%◌, ◌^◌, ◌≤◌, ◌<◌, ◌≡◌, refl, true, false, some, List, [], ◌∷◌,
  ◌++◌, arith, length, drop, min, replicate, ltb, ◌==◌, ok, length-append, ap, ◌∙◌,
}
use micbench.Base.Text.{Text}
use micbench.Rand.{word_bytes}
use micbench.Btreplay.{
  Trace, word, read_trace, blk_io_trace_magic, fetch, Ioreq, stop, trace, fill_queue,
}

word-word_bytes : (n w : ℕ) (s : Text) → w < 256 ^ n → word n (word_bytes n w ++ s) ≡ some (w, s)
unfolding word
word-word_bytes zero w s lt = let e : w ≡ 0 = omega arith in rw e refl
word-word_bytes (suc n) w s lt =
    let small : w / 256 < 256 ^ n = omega arith in
    let e : w % 256 + 256 * (w / 256) ≡ w = omega arith in
    rw (word-word_bytes n (w / 256) s small, e) refl

-- A record as blktrace(8) writes it, with the data behind it.
pub record Entry : Type 0 where
  pub record_of : Trace
  pub pdu : Text

abbrev pub trace_bytes : Trace → Text → Text
trace_bytes t s =
    word_bytes 4 t.magic
    ++ (word_bytes 4 t.sequence
        ++ (word_bytes 8 t.time
            ++ (word_bytes 8 t.sector
                ++ (word_bytes 4 t.bytes
                    ++ (word_bytes 4 t.action
                        ++ (word_bytes 4 t.pid
                            ++ (word_bytes 4 t.device
                                ++ (word_bytes 4 t.cpu
                                    ++ (word_bytes 2 t.error
                                        ++ (word_bytes 2 t.pdu_len ++ s))))))))))

-- The fields fit their widths, the magic number is right, and the data are as long as the record says
-- and no longer than the buffer.
pub record IsEntry (e : Entry) : Type 0 where
  pub magic : e.record_of.magic < 256 ^ 4
  pub sequence : e.record_of.sequence < 256 ^ 4
  pub time : e.record_of.time < 256 ^ 8
  pub sector : e.record_of.sector < 256 ^ 8
  pub bytes : e.record_of.bytes < 256 ^ 4
  pub action : e.record_of.action < 256 ^ 4
  pub pid : e.record_of.pid < 256 ^ 4
  pub device : e.record_of.device < 256 ^ 4
  pub cpu : e.record_of.cpu < 256 ^ 4
  pub error : e.record_of.error < 256 ^ 2
  pub pdu_len : e.record_of.pdu_len < 256 ^ 2
  pub magic_lem : 256 * (e.record_of.magic / 256) ≡ blk_io_trace_magic
  pub len : length e.pdu ≡ e.record_of.pdu_len
  pub fits : length e.pdu ≤ 1024

drop-length : (xs ys : Text) → drop (length xs) (xs ++ ys) ≡ ys
drop-length [] ys = refl
drop-length (x ∷ xs) ys = drop-length xs ys

read_trace-bytes :
    (e : Entry) (s : Text)
    → IsEntry e
    → read_trace (trace_bytes e.record_of s) ≡ some (e.record_of, s)
unfolding read_trace
read_trace-bytes e s v =
    let t = e.record_of in
    rw
      (
        word-word_bytes 4 t.magic _ v.magic,
        word-word_bytes 4 t.sequence _ v.sequence,
        word-word_bytes 8 t.time _ v.time,
        word-word_bytes 8 t.sector _ v.sector,
        word-word_bytes 4 t.bytes _ v.bytes,
        word-word_bytes 4 t.action _ v.action,
        word-word_bytes 4 t.pid _ v.pid,
        word-word_bytes 4 t.device _ v.device,
        word-word_bytes 4 t.cpu _ v.cpu,
        word-word_bytes 2 t.error _ v.error,
        word-word_bytes 2 t.pdu_len s v.pdu_len,
      )
      refl

fetch-read :
    (s rest : Text) (t : Trace)
    → read_trace s ≡ some (t, rest)
    → 256 * (t.magic / 256) ≡ blk_io_trace_magic
    → min t.pdu_len (length rest) ≤ 1024
    → fetch s ≡ ok (some (t, drop t.pdu_len rest))
unfolding fetch
fetch-read s rest t e magic small =
    let test : (256 * (t.magic / 256) == blk_io_trace_magic) ≡ true = ground arith in
    let test' : ltb 1024 (min t.pdu_len (length rest)) ≡ false = ground arith in
    rw (fetch, e, test, test') refl

fetch-entry :
    (e : Entry) (s : Text)
    → IsEntry e
    → fetch (trace_bytes e.record_of (e.pdu ++ s)) ≡ ok (some (e.record_of, s))
fetch-entry e s v =
    let t = e.record_of in
    let small : min t.pdu_len (length (e.pdu ++ s)) ≤ 1024 =
      omega (arith, v.len, v.fits, length-append e.pdu s) in
    let rest : drop t.pdu_len (e.pdu ++ s) ≡ s = rw (← v.len) (drop-length e.pdu s) in
    fetch-read (trace_bytes t (e.pdu ++ s)) (e.pdu ++ s) t (read_trace-bytes e (e.pdu ++ s) v)
      v.magic_lem small
    ∙ ap (λ r. ok (some (t, r))) rest

-- a whole dump
pub dump : List Entry → Text
dump [] = []
dump (e ∷ es) = trace_bytes e.record_of (e.pdu ++ dump es)

abbrev pub AreEntries : List Entry → Type 0
AreEntries [] = Unit {0}
AreEntries (e ∷ es) = IsEntry e × AreEntries es

abbrev pub requests : ℕ → List Entry → List Ioreq
requests multi [] = replicate multi stop
requests multi (e ∷ es) = trace e.record_of ∷ requests multi es

fill_queue-step :
    (fuel multi : ℕ) (s rest : Text) (t : Trace) (q : List Ioreq)
    → fetch s ≡ ok (some (t, rest))
    → fill_queue fuel multi rest ≡ some (ok q)
    → fill_queue (suc fuel) multi s ≡ some (ok (trace t ∷ q))
unfolding fill_queue
fill_queue-step fuel multi s rest t q e e' = rw (fill_queue, e, e') refl

-- From a dump of records whose fields fit their widths, each with the right magic number and at most
-- 1024 bytes of data, fuel for one step more than there are records fills the queue with exactly these
-- records in order, and then one sign to stop for each thread.
pub fill_queue-dump :
    (fuel multi : ℕ) (es : List Entry)
    → AreEntries es
    → length es < fuel
    → fill_queue fuel multi (dump es) ≡ some (ok (requests multi es))
unfolding fill_queue dump fetch read_trace word
fill_queue-dump zero multi es v enough = absurd (omega arith)
fill_queue-dump (suc fuel) multi [] v enough = refl
fill_queue-dump (suc fuel) multi (e ∷ es) (v, vs) enough =
    fill_queue-step fuel multi (trace_bytes e.record_of (e.pdu ++ dump es)) (dump es) e.record_of
      (requests multi es) (fetch-entry e (dump es) v)
      (fill_queue-dump fuel multi es vs (omega arith))
