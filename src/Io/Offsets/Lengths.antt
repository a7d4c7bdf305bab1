-- ===== src/Io/Offsets/Lengths.antt =====
-- The lists of the offset handling, whatever the pattern.
use micbench.Base.{
  ℕ, zero, suc, ◌<◌, Outcome, ◌≡◌, refl, ok, List, [], ◌∷◌, length, arith, ap, ◌∙◌, Bool-cases, inl,
  inr,
}
use micbench.Base.Int.{ℤ, pos, negsuc, pos_part, ◌+ℤ◌, ◌-ℤ◌, ◌*ℤ◌, ltb_ℤ, quot}
use micbench.Io.Options.{
  IoOption, Pattern, pattern_seq, pattern_rand, pattern_seekdist, pattern_seekincr,
}
use micbench.Io.Offsets.{
  divide, ofst_min, ofst_max, ofst_share, ofst_sync, ofst_async, init_offsets,
}

pub positive : (z : ℤ) → 0 < pos_part z → (n : ℕ) × (z ≡ pos (suc n))
positive (pos zero) lt = absurd (omega arith)
positive (pos (suc n)) lt = (n, refl)
positive (negsuc n) lt = absurd (omega arith)

module _ {D : Type 0} (opt : IoOption D) (threads : ℕ)
    (threads_lem : opt.multi ≡ pos (suc threads)) where
  ofst_share-ends : (id : ℕ) (hi : ℤ) → (o : ℤ) × (ofst_share opt id hi ≡ ok o)
  unfolding ofst_share divide
  ofst_share-ends id hi = (
    ofst_min opt +ℤ quot ((hi -ℤ ofst_min opt) *ℤ pos id) (pos (suc threads)),
    rw threads_lem refl,
  )

  sync_by_pattern :
      (id : ℕ) (hi : ℤ) (p : Pattern) → opt.pattern ≡ p → (o : ℤ) × (ofst_sync opt id hi ≡ ok o)
  unfolding ofst_sync
  sync_by_pattern id hi pattern_seq e =
      let shared : ofst_sync opt id hi ≡ ofst_share opt id hi = ground (arith, e) in
      let (o, run) = ofst_share-ends id hi in (o, shared ∙ run)
  sync_by_pattern id hi pattern_rand e = (ofst_min opt, rw e refl)
  sync_by_pattern id hi pattern_seekdist e = (hi -ℤ opt.seekdist_stride, rw e refl)
  sync_by_pattern id hi pattern_seekincr e = (ofst_min opt, rw e refl)

  pub ofst_sync-ends : (id : ℕ) (hi : ℤ) → (o : ℤ) × (ofst_sync opt id hi ≡ ok o)
  ofst_sync-ends id hi = sync_by_pattern id hi opt.pattern refl

  async_by_pattern :
      (id : ℕ) (hi : ℤ) (p : Pattern) → opt.pattern ≡ p → (o : ℤ) × (ofst_async opt id hi ≡ ok o)
  unfolding ofst_async
  async_by_pattern id hi pattern_seq e =
      let shared : ofst_async opt id hi ≡ ofst_share opt id hi = ground (arith, e) in
      let (o, run) = ofst_share-ends id hi in (o, shared ∙ run)
  async_by_pattern id hi pattern_rand e = (ofst_min opt, rw e refl)
  async_by_pattern id hi pattern_seekdist e = (ofst_min opt, rw e refl)
  async_by_pattern id hi pattern_seekincr e = (ofst_min opt, rw e refl)

  pub ofst_async-ends : (id : ℕ) (hi : ℤ) → (o : ℤ) × (ofst_async opt id hi ≡ ok o)
  ofst_async-ends id hi = async_by_pattern id hi opt.pattern refl

module _ {D : Type 0} (opt : IoOption D) (block : ℕ)
    (block_lem : opt.blk_sz ≡ pos (suc block)) where
  ofst_max-ends : (size : ℤ) → (hi : ℤ) × (ofst_max opt size ≡ ok hi)
  unfolding ofst_max divide
  ofst_max-ends size = elim (Bool-cases (ltb_ℤ opt.ofst_end (pos 0))) [
    | inl unset ↦ (quot size (pos (suc block)), rw (unset, block_lem) refl)
    | inr set ↦ (opt.ofst_end, rw set refl)
  ]

  -- With a block of one byte or more, where every file has a first offset, each of them has an entry in each list.
  pub length-init_offsets :
      (first : ℤ → Outcome ℤ)
      → ((hi : ℤ) → (o : ℤ) × (first hi ≡ ok o))
      → (sizes : List ℤ)
      → (os : List ℤ) × (los : List ℤ) × (his : List ℤ) × (init_offsets opt first sizes
          ≡ ok (os, los, his))
        × (length os ≡ length sizes)
        × (length los ≡ length sizes)
        × (length his ≡ length sizes)
  unfolding init_offsets
  length-init_offsets first ends [] = ([], [], [], refl, refl, refl, refl)
  length-init_offsets first ends (size ∷ sizes) =
      let (hi, at_end) = ofst_max-ends size in
      let (o, begun) = ends hi in
      let (os, los, his, rest, a, b, c) = length-init_offsets first ends sizes in
      (
        o ∷ os,
        ofst_min opt ∷ los,
        hi ∷ his,
        rw (at_end, begun, rest) refl,
        ap suc a,
        ap suc b,
        ap suc c,
      )
