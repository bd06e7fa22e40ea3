-- ===== src/Machine/Queue/Lines.antt =====
-- The lines of a queue file.
use c_e.Common.{[], ◌∷◌, ◌++◌, ◌≡◌, refl, arith}
use c_e.Machine.Queue.{Bytes, lines_after, split_lines}
use c_e.Machine.Queue.Mask.{OnOneLine}

-- A token on one line is the first line of a file that begins with it.
pub split_lines-cons :
    (token rest : Bytes)
    → OnOneLine token
    → split_lines (token ++ 10 ∷ rest) ≡ token ∷ split_lines rest
unfolding lines_after
split_lines-cons [] rest h = refl
split_lines-cons (x ∷ xs) rest ((feed, return), hs) = ground (arith, split_lines-cons xs rest hs)
