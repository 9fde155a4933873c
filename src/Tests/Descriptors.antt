-- ===== src/Tests/Descriptors.antt =====
-- Reads and writes that are interrupted and cut short.
use casycom.Base.{ℕ, ◌≡◌, refl, [], ◌∷◌, List, some, arith}
use casycom.Vector.{CharVector}
use casycom.Vector.Contents.{IsValid}
use casycom.FdIo.{Answer, Ending, Written, done, again, interrupted, write_loop, read_loop}
use casycom.FdIo.Writing.{Sends, write_loop-Sends}
use casycom.FdIo.Reading.{Receives, arrived, read_loop-Receives}

abbrev buffer : CharVector
buffer = record { d = 1 ∷ 2 ∷ 3 ∷ 0 ∷ 0 ∷ 0 ∷ []; size = 3; allocated = 6; elsize = 1 }

buffer-IsValid : IsValid buffer
buffer-IsValid = record { elements = omega arith; within = omega arith; block = refl }

abbrev writes : List (Answer ℕ)
writes = done 2 ∷ interrupted ∷ again ∷ []

write_loop-Sends_example : (w : Written) × (write_loop writes buffer ≡ some w) × Sends buffer w
write_loop-Sends_example = write_loop-Sends writes buffer buffer-IsValid refl (omega arith, tt)

abbrev reads : List (Answer (List ℕ))
reads = done (7 ∷ 8 ∷ []) ∷ interrupted ∷ again ∷ []

read_loop-Receives_example :
    (v : CharVector) × (ending : Ending) × (read_loop reads buffer ≡ some (v, ending))
    × Receives buffer (arrived reads) v
read_loop-Receives_example =
    read_loop-Receives reads buffer buffer-IsValid refl (omega arith, omega arith, tt)
