-- ===== src/Transfer/Tests.antt =====
-- The transfers of src/micbench-utils.h on short runs of system calls.
use micbench.Base.{◌≡◌, false, [], ◌∷◌, ◌++◌, arith, length, replicate, List}
use micbench.Base.Text.{Text}
use micbench.Transfer.{Read, got, Write, took, returned, running, readall, writeall}
use micbench.Transfer.Reads.{readall-returns, readall-end_of_file}
use micbench.Transfer.Writes.{writeall-returns}

-- two bytes, then the last one
abbrev reads : List Read
reads = got (1 ∷ (2 ∷ [])) ∷ (got (3 ∷ []) ∷ (got [] ∷ []))

readall-returns_example :
    (full : Text) × (readall false 3 [] reads ≡ returned ([] ++ full)) × (length full ≡ 3)
readall-returns_example =
    readall-returns false 3 [] reads (omega arith)
      (omega arith, omega arith, (omega arith, omega arith, tt)) (omega arith)

readall-end_of_file_example : readall false 3 [] (replicate 5 (got [])) ≡ running 3 []
readall-end_of_file_example = readall-end_of_file false 3 [] 5 (omega arith)

abbrev writes : List Write
writes = took 1 ∷ (took 2 ∷ (took 5 ∷ []))

writeall-returns_example :
    writeall false (1 ∷ (2 ∷ (3 ∷ []))) [] writes ≡ returned (1 ∷ (2 ∷ (3 ∷ [])))
writeall-returns_example =
    writeall-returns false (1 ∷ (2 ∷ (3 ∷ []))) [] writes (omega arith)
      (omega arith, omega arith, (omega arith, omega arith, tt)) (omega arith)
