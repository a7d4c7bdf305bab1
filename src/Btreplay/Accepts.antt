-- ===== src/Btreplay/Accepts.antt =====
-- What holds of the options that `mb_btreplay_parse_args` accepts.
use micbench.Base.{
  ◌≡◌, ◌≢◌, refl, Bool, true, false, ◌&&◌, Option, some, List, [], ◌∷◌, arith, Step, next,
  goto_error, crash, and_then, Bool-cases, inl, inr,
}
use micbench.Base.Int.{ℤ, pos}
use micbench.Base.Text.{Text}
use micbench.Btreplay.{Options, Opt, defaults, set_options, set_paths, is_zero, finish, parse_args}

pub record PathsOk (operands : List Text) (o : Options) : Type 0 where
  pub btdump : Text
  pub target : Text
  pub rest : List Text
  pub first_two : operands ≡ btdump ∷ (target ∷ rest)
  pub btdump_lem : o.btdump_path ≡ some btdump
  pub target_lem : o.target_path ≡ some target
  pub repeat_ends : o.repeat ≡ true → o.timeout ≢ pos 0

not_both : (b : Bool) (z : ℤ) → (b && is_zero z) ≡ false → b ≡ true → z ≢ pos 0
not_both b z differ set e = ground arith

finish-PathsOk :
    (s : Step Options) (operands : List Text) (o : Options)
    → finish (and_then s (set_paths operands)) ≡ (pos 0, o)
    → PathsOk operands o
unfolding finish set_paths
finish-PathsOk (goto_error a) operands o h = cc
finish-PathsOk crash operands o h = cc
finish-PathsOk (next a) [] o h = cc
finish-PathsOk (next a) (b ∷ []) o h = cc
finish-PathsOk (next a) (b ∷ (t ∷ rest)) o h = elim (Bool-cases (a.repeat && is_zero a.timeout)) [
  | inl both ↦ cc (rw both at h)
  | inr fine ↦
      let e : record a { btdump_path = some b; target_path = some t } ≡ o = cc (rw fine at h) in
      rw (← e) (record {
        btdump = b;
        target = t;
        rest = rest;
        first_two = refl;
        btdump_lem = refl;
        target_lem = refl;
        repeat_ends = not_both a.repeat a.timeout fine;
      })
]

-- When `mb_btreplay_parse_args` returns 0, there are at least two operands, the first is the dump and
-- the second the target, and a repeated replay has a timeout.
pub parse_args-PathsOk :
    (target_path : Option Text) (opts : List Opt) (operands : List Text) (o : Options)
    → parse_args target_path opts operands ≡ (pos 0, o)
    → PathsOk operands o
unfolding parse_args
parse_args-PathsOk target_path opts operands o h =
    finish-PathsOk (set_options opts (defaults target_path)) operands o h
