-- ===== src/Io/Offsets/Start.antt =====
-- The pattern `seq` begins within the ranges.
use micbench.Base.{
  ◌∙◌, Outcome, ℕ, zero, suc, ◌*◌, ◌/◌, ◌≡◌, refl, some, List, [], ◌∷◌, length, get_elem?, ok,
  arith, ap, some-injective, ◌⊎◌, inl, inr, subst, sym, map, ◌<◌,
}
use micbench.Base.Int.{ℤ, pos, negsuc, ◌+ℤ◌, ◌-ℤ◌, ◌*ℤ◌, ◌≤ℤ◌, int_laws}
use micbench.Io.Options.{IoOption, pattern_seq}
use micbench.Rand.{Machine}
use micbench.Io.Offsets.Range.{InRange}
use micbench.Io.Offsets.{
  divide, ofst_min, ofst_max, ofst_share, ofst_sync, ofst_async, init_offsets,
}

scaled : (z : ℤ) (id : ℕ) → pos 0 ≤ℤ z → (w : ℕ) × (z *ℤ pos id ≡ pos w)
unfolding ◌*ℤ◌
scaled (pos a) id h = (a * id, ground arith)
scaled (negsuc a) id h = absurd (omega arith)

module _ {D : Type 0} (opt : IoOption D) where
  -- The range of a file of this size has a block.
  abbrev HasBlock : ℤ → Type 0
  HasBlock size = (hi : ℤ) × (ofst_max opt size ≡ ok hi) × ((ofst_min opt +ℤ pos 1) ≤ℤ hi)

  abbrev AllBlocks : List ℤ → Type 0
  AllBlocks [] = Unit {0}
  AllBlocks (size ∷ sizes) = HasBlock size × AllBlocks sizes

  ofst_share-divides :
      (k id w : ℕ) (hi : ℤ)
      → opt.multi ≡ pos (suc k)
      → (hi -ℤ ofst_min opt) *ℤ pos id ≡ pos w
      → ofst_share opt id hi ≡ ok (ofst_min opt +ℤ pos (w / suc k))
  unfolding ofst_share divide ◌+ℤ◌ ofst_min
  ofst_share-divides k id w hi threads e = rw (e, threads) refl

  -- Several threads share the range: none begins below it.
  ofst_share-above :
      (k id : ℕ) (hi : ℤ)
      → opt.multi ≡ pos (suc k)
      → (ofst_min opt +ℤ pos 1) ≤ℤ hi
      → (o : ℤ) × (ofst_share opt id hi ≡ ok o) × (ofst_min opt ≤ℤ o)
  ofst_share-above k id hi threads room =
      let width : pos 0 ≤ℤ (hi -ℤ ofst_min opt) = omega int_laws in
      let (w, e) = scaled (hi -ℤ ofst_min opt) id width in
      (ofst_min opt +ℤ pos (w / suc k), ofst_share-divides k id w hi threads e, omega int_laws)

  -- The first offset of a range that has a block is not below the range.
  abbrev FirstAbove : (ℤ → Outcome ℤ) → Type 0
  FirstAbove first =
      (hi : ℤ) → (ofst_min opt +ℤ pos 1) ≤ℤ hi → (o : ℤ) × (first hi ≡ ok o) × (ofst_min opt ≤ℤ o)

  ofst_sync-above :
      (k id : ℕ)
      → opt.pattern ≡ pattern_seq
      → opt.multi ≡ pos (suc k)
      → FirstAbove (ofst_sync opt id)
  unfolding ofst_sync
  ofst_sync-above k id seq threads hi room =
      let shared : ofst_sync opt id hi ≡ ofst_share opt id hi = ground (arith, seq) in
      let (o, run, above) = ofst_share-above k id hi threads room in (o, shared ∙ run, above)

  ofst_async-above :
      (k id : ℕ)
      → opt.pattern ≡ pattern_seq
      → opt.multi ≡ pos (suc k)
      → FirstAbove (ofst_async opt id)
  unfolding ofst_async
  ofst_async-above k id seq threads hi room =
      let shared : ofst_async opt id hi ≡ ofst_share opt id hi = ground (arith, seq) in
      let (o, run, above) = ofst_share-above k id hi threads room in (o, shared ∙ run, above)

  -- Lists with an entry for each of the files.
  record Lists (n : ℕ) (os los his : List ℤ) : Type 0 where
    ofsts_length : length os ≡ n
    los_length : length los ≡ n
    his_length : length his ≡ n
    room :
        (i : ℕ) (lo hi : ℤ)
        → get_elem? los i ≡ some lo
        → get_elem? his i ≡ some hi
        → (lo +ℤ pos 1) ≤ℤ hi
    above : (i : ℕ) (lo o : ℤ) → get_elem? los i ≡ some lo → get_elem? os i ≡ some o → lo ≤ℤ o

  cons-Lists :
      (n : ℕ) (os los his : List ℤ) (o lo hi : ℤ)
      → (lo +ℤ pos 1) ≤ℤ hi
      → lo ≤ℤ o
      → Lists n os los his
      → Lists (suc n) (o ∷ os) (lo ∷ los) (hi ∷ his)
  cons-Lists n os los his o lo hi block above v = record {
    ofsts_length = ap suc v.ofsts_length;
    los_length = ap suc v.los_length;
    his_length = ap suc v.his_length;
    room = λ i lo' hi' at_lo at_hi. first_or_rest i lo' hi' at_lo at_hi;
    above = λ i lo' o' at_lo at_o. start_or_rest i lo' o' at_lo at_o;
  }
    where
      first_or_rest :
          (i : ℕ) (lo' hi' : ℤ)
          → get_elem? (lo ∷ los) i ≡ some lo'
          → get_elem? (hi ∷ his) i ≡ some hi'
          → (lo' +ℤ pos 1) ≤ℤ hi'
      first_or_rest zero lo' hi' at_lo at_hi =
          let e = some-injective at_lo in let e' = some-injective at_hi in rw (← e, ← e') block
      first_or_rest (suc i) lo' hi' at_lo at_hi = v.room i lo' hi' at_lo at_hi

      start_or_rest :
          (i : ℕ) (lo' o' : ℤ)
          → get_elem? (lo ∷ los) i ≡ some lo'
          → get_elem? (o ∷ os) i ≡ some o'
          → lo' ≤ℤ o'
      start_or_rest zero lo' o' at_lo at_o =
          let e = some-injective at_lo in let e' = some-injective at_o in rw (← e, ← e') above
      start_or_rest (suc i) lo' o' at_lo at_o = v.above i lo' o' at_lo at_o

  -- Where each range has a block, the offset handling gives the thread an offset in every file.
  init_offsets-Lists :
      (first : ℤ → Outcome ℤ)
      → FirstAbove first
      → (sizes : List ℤ) → AllBlocks sizes
      → (os : List ℤ) × (los : List ℤ) × (his : List ℤ) × (init_offsets opt first sizes
          ≡ ok (os, los, his))
        × Lists (length sizes) os los his
  unfolding init_offsets
  init_offsets-Lists first starts [] blocks = (
    [],
    [],
    [],
    refl,
    record {
      ofsts_length = refl;
      los_length = refl;
      his_length = refl;
      room = λ i lo hi at_lo at_hi. cc;
      above = λ i lo o at_lo at_o. cc;
    },
  )
  init_offsets-Lists first starts (size ∷ sizes) ((hi, at_end, block), blocks) =
      let (o, begun, above) = starts hi block in
      let (os, los, his, rest, v) = init_offsets-Lists first starts sizes blocks in
      (
        o ∷ os,
        ofst_min opt ∷ los,
        hi ∷ his,
        rw (at_end, begun, rest) refl,
        cons-Lists (length sizes) os los his o (ofst_min opt) hi block above v,
      )

  -- With the pattern `seq`, ranges with a block and a thread or more, `do_async_io` and `do_sync_io` begin
  -- each with an offset within the range of every file.
  start-InRange :
      (m : Machine) (k id : ℕ) (sizes : List ℤ) (rand global : m.Seed)
      → opt.pattern ≡ pattern_seq
      → opt.multi ≡ pos (suc k)
      → AllBlocks sizes
      → 0 < length sizes
      → (first : ℤ → Outcome ℤ) → (first ≡ ofst_sync opt id) ⊎ (first ≡ ofst_async opt id)
      → (os : List ℤ) × (los : List ℤ) × (his : List ℤ) × (init_offsets opt first sizes
          ≡ ok (os, los, his))
        × InRange m (length sizes) (record {
          file_idx = 0;
          ofst_list = os;
          ofst_min_list = los;
          ofst_max_list = his;
          seekdist_side_list = map (λ _. 0) sizes;
          rand = rand;
          global = global;
        })
  start-InRange m k id sizes rand global seq threads blocks some_size first which =
      let starts : FirstAbove first = elim which [
        | inl e ↦ subst FirstAbove (sym e) (ofst_sync-above k id seq threads)
        | inr e ↦ subst FirstAbove (sym e) (ofst_async-above k id seq threads)
      ] in
      let (os, los, his, run, lists) = init_offsets-Lists first starts sizes blocks in
      (
        os,
        los,
        his,
        run,
        record {
          some_file = some_size;
          ofsts = lists.ofsts_length;
          los = lists.los_length;
          his = lists.his_length;
          has_block = lists.room;
          above = lists.above;
        },
      )
