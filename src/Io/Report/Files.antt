-- ===== src/Io/Report/Files.antt =====
-- The loop of `print_result_json` that joins the names of the files in a buffer that grows, and
-- snprintf(3) as the loop relies on it.
use micbench.Base.{
  ℕ, zero, suc, ◌+◌, ◌-◌, ◌*◌, ◌%◌, ◌^◌, Bool, true, false, Option, none, some, [], ◌∷◌, ◌++◌, take,
  length, ltb, leb, if◌then◌else◌, Outcome, ok, exit_failure, fault, ◌>>=◌, resume,
}
use micbench.Base.Int.{ℤ, pos, negsuc, pos_part}
use micbench.Base.Text.{Text}
use micbench.Io.Options.{IoOption}
use micbench.Io.Offsets.{at_index}

-- malloc(3) and realloc(3): the bytes of the block that they give, or nothing for NULL.
pub record Allocator : Type 0 where
  pub malloc : (size : ℕ) → Option Text
  pub realloc : Text → (size : ℕ) → Option Text

-- The bytes `xs` stored in a block from the offset `at` on; outside the block is a fault.
unfoldable pub store : (block : Text) → (at : ℕ) → (xs : Text) → Outcome Text
store block zero [] = ok block
store [] zero (x ∷ xs) = fault
store (c ∷ block) zero (x ∷ xs) = store block zero xs >>= λ rest. ok (x ∷ rest)
store [] (suc at) xs = fault
store (c ∷ block) (suc at) xs = store block at xs >>= λ rest. ok (c ∷ rest)

-- What snprintf(3) returns: the length of the whole text, or -1 when an int does not hold it.
unfoldable pub printed_length : Text → ℤ
printed_length text = if ltb (length text) (2 ^ 31) then pos (length text) else negsuc 0

-- snprintf(block + at, size, text): what it returns, and the block.
unfoldable pub snprintf : (block : Text) → (at size : ℕ) → (text : Text) → Outcome (ℤ × Text)
snprintf block at zero text = ok (printed_length text, block)
snprintf block at (suc room) text =
    store block at (take room text ++ 0 ∷ []) >>= λ block'. ok (printed_length text, block')

-- The value of an int as a size_t.
unfoldable pub size_of_int : ℤ → ℕ
size_of_int (pos n) = n
size_of_int (negsuc n) = 2 ^ 64 - 1 - n

-- `"\"%s\""` for the first file, `", \"%s\""` for the others
unfoldable pub item : (i : ℕ) → (path : Text) → Text
item zero path = b'"' ∷ path ++ b'"' ∷ []
item (suc i) path = b',' ∷ b' ' ∷ b'"' ∷ path ++ b'"' ∷ []

-- `files_str`, `files_str_len` and the offset of `files_str_ptr`
pub record FilesStr : Type 0 where
  pub block : Text
  pub len : ℕ
  pub ofst : ℕ

-- `files_str_len - 2 - (files_str_ptr - files_str)`, a size_t
unfoldable pub room_of : FilesStr → ℕ
room_of s = (2 ^ 64 + s.len - 2 - s.ofst) % 2 ^ 64

-- The bytes up to the first NUL, which `%s` prints; a block without one is read to its end and on.
unfoldable pub c_string : Text → Outcome Text
c_string [] = fault
c_string (zero ∷ block) = ok []
c_string (suc c ∷ block) = c_string block >>= λ rest. ok (suc c ∷ rest)

-- What realloc(3) gives is not checked: a store through NULL is a fault.
unfoldable pub given : Option Text → Outcome Text
given none = fault
given (some block) = ok block

-- `option.file_path_list[i]`
unfoldable pub name_of : {D : Type 0} → IoOption D → ℕ → Outcome Text
name_of opt i = elim opt.file_path_list [ none ↦ fault | some ps ↦ at_index ps i ]

module _ {D : Type 0} (opt : IoOption D) (heap : Allocator) where
  -- The body of the loop: whether the name of the file `i` has been added, and the buffer, which is
  -- twice as long when it has not. (The store that follows finds out when realloc(3) gave NULL.)
  unfoldable pub add_name : ℕ → FilesStr → Outcome (Bool × FilesStr)
  add_name i s = do
    path ← name_of opt i
    let room = room_of s
    (n, block) ← snprintf s.block s.ofst room (item i path)
    let len = (s.len * 2) % 2 ^ 64
    if leb room (size_of_int n)
        then (do
          block' ← given (heap.realloc block len)
          ok (false, record { block = block'; len = len; ofst = s.ofst }))
        else ok (true, record s { block = block; ofst = s.ofst + pos_part n })

  -- The loop, with fuel, from the file `i` on. `none` means that the fuel ran out.
  unfoldable pub add_names : (fuel i : ℕ) → FilesStr → Option (Outcome FilesStr)
  add_names zero i s = none
  add_names (suc fuel) i s =
      let more =
        resume (add_name i s) λ (added, s'). add_names fuel (if added then i + 1 else i) s' in
      if ltb i opt.nr_files then more else some (ok s)

  -- The block of four bytes that the loop starts with.
  unfoldable pub first_block : Outcome FilesStr
  first_block = elim (heap.malloc 4) [
    | none ↦ exit_failure
    | some block ↦
        store block 0 (b'[' ∷ []) >>= λ block'. ok (record { block = block'; len = 4; ofst = 1 })
  ]

  -- The text that `%s` prints of `files_str`.
  unfoldable pub files_str : (fuel : ℕ) → Option (Outcome Text)
  files_str fuel = resume first_block λ s₀. elim (add_names fuel 0 s₀) [
    | none ↦ none
    | some r ↦ some (r >>= λ s. store s.block s.ofst (b']' ∷ 0 ∷ []) >>= c_string)
  ]
