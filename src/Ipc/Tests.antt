-- ===== src/Ipc/Tests.antt =====
-- The theorems on reads and writes, of bytes that come and go in pieces.
use kesharon.Prelude.{◌≡◌, refl, ◌++◌, arith, err, List, true, false, [], ◌∷◌}
use kesharon.Ipc.{arrives, takes, returned, timed_out, read_exact, write_all}
use kesharon.Ipc
use kesharon.Ipc.Read.{IsRead, read_exact-IsRead, read_exact_late}
use kesharon.Ipc.Write.{IsWritten, write_all-IsWritten}

abbrev answers : List Ipc.Answer
answers =
    arrives 1 (2 ∷ [])
    ∷ Ipc.Answer.interrupted
    ∷ Ipc.Answer.not_ready false
    ∷ arrives 3 (4 ∷ [])
    ∷ []

read_exact-IsRead_example : IsRead answers 3 (read_exact answers 3)
read_exact-IsRead_example = read_exact-IsRead answers 3

abbrev takings : List Ipc.Taking
takings = takes 0 ∷ Ipc.Taking.not_ready true ∷ []

write_all-IsWritten_example : IsWritten takings (1 ∷ 2 ∷ []) (write_all takings (1 ∷ 2 ∷ []))
write_all-IsWritten_example = write_all-IsWritten takings (1 ∷ 2 ∷ [])

read_exact_late_example :
    read_exact (answers ++ Ipc.Answer.not_ready true ∷ arrives 0 (9 ∷ []) ∷ []) 5
    ≡ returned (err timed_out) (arrives 0 (9 ∷ []) ∷ [])
read_exact_late_example = read_exact_late answers (arrives 0 (9 ∷ []) ∷ []) 5 refl (omega arith)
