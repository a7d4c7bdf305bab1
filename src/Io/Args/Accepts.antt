-- ===== src/Io/Args/Accepts.antt =====
-- What holds of the options that `parse_args` accepts.
use micbench.Base.{
  ℕ, ◌%◌, ◌≡◌, ◌≢◌, refl, Bool, true, false, ◌&&◌, not, Option, none, some, List, [], ◌∷◌, ◌==◌,
  if◌then◌else◌, length, map, arith, ok, Step, next, goto_error, crash, and_then, ap, ap₂, ◌∙◌, ◌⊎◌,
  inl, inr, Bool-cases,
}
use micbench.Base.Int.{ℤ, ◌*ℤ◌, ◌≤ℤ◌, ltb_ℤ, wrap64, is_long, wrap64-is_long}
use micbench.Base.Text.{Text}
use micbench.FileSize.{getsize}
use micbench.Rand.{Machine}
use micbench.Affinity.Arguments.{Opt}
use micbench.Io.Args.{
  Host, Options, FileCheck, size, refused, dies, FilesCheck, sizes, some_refused, some_dies,
  is_some, size_of, open_mode, check_file, check_files, take_files, cons_size, with_sizes, open_log,
  check_modes, finish, set_options, parse_args, defaults,
}

cons_size-sizes :
    (c : FileCheck) (cs : FilesCheck) (ss : List ℤ)
    → cons_size c cs ≡ sizes ss
    → (s : ℤ) × (rest : List ℤ) × (c ≡ size s) × (cs ≡ sizes rest) × (ss ≡ s ∷ rest)
unfolding cons_size
cons_size-sizes refused cs ss h = cc
cons_size-sizes dies cs ss h = cc
cons_size-sizes (size s) some_refused ss h = cc
cons_size-sizes (size s) some_dies ss h = cc
cons_size-sizes (size s) (sizes rest) ss h = (s, rest, refl, refl, cc)

guard-next :
    {A : Type 0} (b : Bool) (a o : A) (s : Step A)
    → (if b then goto_error a else s) ≡ next o
    → (b ≡ false) × (s ≡ next o)
guard-next true a o s h = cc
guard-next false a o s h = (refl, h)

module _ (m : Machine) (host : Host) where
  -- A file that the benchmark can use under the options `o`: it opens in the mode of the run, unless
  -- nothing is to be run, and the products of the block size and the ends of the range, as int64_t, lie
  -- within it; so do the ends themselves, unless the product is no int64_t.
  abbrev pub InFile : (blk_sz ofst path_sz : ℤ) → Type 0
  InFile blk_sz ofst path_sz =
      (wrap64 (blk_sz *ℤ ofst) ≤ℤ path_sz)
      × ((is_long (blk_sz *ℤ ofst) ≡ false) ⊎ ((blk_sz *ℤ ofst) ≤ℤ path_sz))

  abbrev pub FileFits : Options m → Text → Type 0
  FileFits o path =
      ((o.noop ≡ true) ⊎ (host.fs.open_ok (open_mode m o) path ≡ true))
      × InFile o.blk_sz o.ofst_start (getsize host.fs path)
      × InFile o.blk_sz o.ofst_end (getsize host.fs path)

  abbrev pub AllFit : Options m → List Text → Type 0
  AllFit o [] = Unit {0}
  AllFit o (path ∷ paths) = FileFits o path × AllFit o paths

  -- The lists of files and sizes belong to the operands.
  pub record FilesOk (operands : List Text) (o : Options m) : Type 0 where
    pub some_file : operands ≢ []
    pub count : o.nr_files ≡ length operands
    pub paths : o.file_path_list ≡ some operands
    pub file_sizes : o.file_size_list ≡ some (map (getsize host.fs) operands)
    pub fit : AllFit o operands

  -- The modes that exclude one another.
  pub record ModesOk (o : Options m) : Type 0 where
    pub direct_aligned : o.direct ≡ true → size_of o.blk_sz % 512 ≡ 0
    pub direct_root : o.direct ≡ true → host.is_root ≡ true
    pub trace_async : is_some o.aio_tracefile ≡ true → o.aio ≡ true
    pub log_open : is_some o.logfile_path ≡ true → o.logfile ≡ true

  in_file :
      (blk_sz ofst path_sz : ℤ)
      → ltb_ℤ path_sz (wrap64 (blk_sz *ℤ ofst)) ≡ false
      → InFile blk_sz ofst path_sz
  in_file blk_sz ofst path_sz h =
      let within : wrap64 (blk_sz *ℤ ofst) ≤ℤ path_sz = ground arith in
      (
        within,
        elim (Bool-cases (is_long (blk_sz *ℤ ofst))) [
          | inl exact ↦ inr (rw (wrap64-is_long (blk_sz *ℤ ofst) exact) at within)
          | inr wraps ↦ inl wraps
        ],
      )

  check_file-size :
      (o : Options m) (path : Text) (s : ℤ)
      → check_file m host o path ≡ size s
      → (s ≡ getsize host.fs path) × FileFits o path
  unfolding check_file
  check_file-size o path s h =
      let path_sz = getsize host.fs path in
      let start : ltb_ℤ path_sz (wrap64 (o.blk_sz *ℤ o.ofst_start)) ≡ false = ground arith in
      let end : ltb_ℤ path_sz (wrap64 (o.blk_sz *ℤ o.ofst_end)) ≡ false = ground arith in
      let opens : (o.noop ≡ true) ⊎ (host.fs.open_ok (open_mode m o) path ≡ true) = ground arith in
      (
        ground arith,
        (
          opens,
          in_file o.blk_sz o.ofst_start path_sz start,
          in_file o.blk_sz o.ofst_end path_sz end,
        ),
      )

  check_files-sizes :
      (o : Options m) (paths : List Text) (ss : List ℤ)
      → check_files m host o paths ≡ sizes ss
      → (ss ≡ map (getsize host.fs) paths) × AllFit o paths
  unfolding check_files
  check_files-sizes o [] ss h = (cc, tt)
  check_files-sizes o (path ∷ paths) ss h =
      let (s, rest, at_path, at_rest, e) = cons_size-sizes _ _ ss h in
      let (es, fits) = check_file-size o path s at_path in
      let (ers, all) = check_files-sizes o paths rest at_rest in (e ∙ ap₂ ◌∷◌ es ers, (fits, all))

  with_sizes-next :
      (paths : List Text) (opt o : Options m) (c : FilesCheck)
      → with_sizes m paths opt c ≡ next o
      → (ss : List ℤ) × (c ≡ sizes ss)
        × (o ≡ record opt { file_path_list = some paths; file_size_list = some ss })
  unfolding with_sizes
  with_sizes-next paths opt o some_refused h = cc
  with_sizes-next paths opt o some_dies h = cc
  with_sizes-next paths opt o (sizes ss) h = (ss, refl, cc)

  take_files-next :
      (operands : List Text) (opt o : Options m)
      → take_files m host operands opt ≡ next o
      → FilesOk operands o
  unfolding take_files
  take_files-next [] opt o h = cc
  take_files-next (path ∷ paths) opt o h =
      let opt' : Options m = record opt { nr_files = length (path ∷ paths) } in
      let (ss, checked, e) = with_sizes-next (path ∷ paths) opt' o _ h in
      let (es, fits) = check_files-sizes opt' (path ∷ paths) ss checked in
      rw e (record {
        some_file = λ f. cc;
        count = refl;
        paths = refl;
        file_sizes = ap some es;
        fit = fits;
      })

  open_log-next :
      (path : Option Text) (opt o : Options m)
      → open_log m host path opt ≡ next o
      → (b : Bool) × (o ≡ record opt { logfile = b }) × (is_some path ≡ true → b ≡ true)
  unfolding open_log
  open_log-next none opt o h = (opt.logfile, cc, ground arith)
  open_log-next (some path) opt o h = (true, ground arith, ground arith)

  check_modes-next :
      (operands : List Text) (opt o : Options m)
      → check_modes m host opt ≡ next o
      → FilesOk operands opt
      → FilesOk operands o × ModesOk o
  unfolding check_modes
  check_modes-next operands opt o h v =
      let log = open_log m host opt.logfile_path opt in
      let trace : Bool = is_some opt.aio_tracefile && not opt.aio in
      let user : Bool = opt.direct && not host.is_root in
      let sectors : Bool = opt.direct && not (size_of opt.blk_sz % 512 == 0) in
      let traced : Step (Options m) = if trace then goto_error opt else log in
      let (aligned, h₁) = guard-next sectors opt o (if user then goto_error opt else traced) h in
      let (root, h₂) = guard-next user opt o traced h₁ in
      let (async, h₃) = guard-next trace opt o log h₂ in
      let (b, e, is_open) = open_log-next opt.logfile_path opt o h₃ in
      rw e (
        record {
          some_file = v.some_file;
          count = v.count;
          paths = v.paths;
          file_sizes = v.file_sizes;
          fit = v.fit;
        },
        record {
          direct_aligned = λ d. ground arith;
          direct_root = λ d. ground arith;
          trace_async = λ t. ground arith;
          log_open = is_open;
        },
      )

  finish-zero : (s : Step (Options m)) (o : Options m) → finish m s ≡ ok (0, o) → s ≡ next o
  unfolding finish
  finish-zero (next opt) o h = cc
  finish-zero (goto_error opt) o h = ground arith
  finish-zero crash o h = cc

  and_then-next :
      {A : Type 0} (s : Step A) (f : A → Step A) (b : A)
      → and_then s f ≡ next b
      → (a : A) × (s ≡ next a) × (f a ≡ next b)
  and_then-next (next a) f b h = (a, refl, h)
  and_then-next (goto_error a) f b h = cc
  and_then-next crash f b h = cc

  -- Options that `parse_args` accepts name at least one file; the lists hold the operands and their
  -- sizes; unless nothing is to be run, each file opens in the mode of the run; the products of the
  -- block size and the ends of the range lie within each file as int64_t, and so do the ends
  -- themselves, unless the product is no int64_t; direct I/O has whole sectors and a root user; a trace is only kept of asynchronous
  -- I/O; and a log that was asked for is open.
  pub parse_args-accepts :
      (nr_files : ℕ) (opts : List Opt) (operands : List Text) (o : Options m)
      → parse_args m host nr_files opts operands ≡ ok (0, o)
      → FilesOk operands o × ModesOk o
  unfolding parse_args
  parse_args-accepts nr_files opts operands o h =
      let start = set_options m host opts (defaults m nr_files) in
      let files = take_files m host operands in
      let modes = check_modes m host in
      let rest = λ (x : Options m). and_then (files x) modes in
      let (opt, set, h₁) = and_then-next start rest o (finish-zero (and_then start rest) o h) in
      let (opt', taken, h₂) = and_then-next (files opt) modes o h₁ in
      check_modes-next operands opt' o h₂ (take_files-next operands opt opt' taken)
