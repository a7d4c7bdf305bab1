-- ===== src/Rand/Buffer.antt =====
-- The buffer that `mb_rand_buf` fills.
use micbench.Base.{
  ℕ, zero, suc, ◌*◌, ◌/◌, ◌≡◌, length, arith, length-append, length-drop, ap, ◌∙◌, drop,
}
use micbench.Base.Text.{Text}
use micbench.Rand.{Machine, word_bytes, repeat, rand_buf}

length-word_bytes : (n w : ℕ) → length (word_bytes n w) ≡ n
length-word_bytes zero w = omega arith
length-word_bytes (suc n) w = omega (arith, length-word_bytes n (w / 256))

length-repeat : (n : ℕ) (t : Text) → length (repeat n t) ≡ n * length t
length-repeat zero t = omega arith
length-repeat (suc n) t = grind (arith, length-append t (repeat n t), length-repeat n t)

-- `mb_rand_buf` leaves the buffer as long as it was.
pub length-rand_buf :
    (m : Machine) (rand : m.Seed) (buf : Text) (size : ℕ)
    → length buf ≡ size
    → length (rand_buf m rand buf size).0 ≡ size
unfolding rand_buf
length-rand_buf m rand buf size same =
    let (num, rand') = m.lrand48_r rand in
    let words = repeat (size / 8) (word_bytes 8 num) in
    let filled : length words ≡ size / 8 * 8 =
      length-repeat (size / 8) (word_bytes 8 num)
      ∙ ap (λ n. size / 8 * n) (length-word_bytes 8 num) in
    omega (
      arith,
      length-append words (drop (8 * (size / 8)) buf),
      filled,
      length-drop (8 * (size / 8)) buf,
    )
