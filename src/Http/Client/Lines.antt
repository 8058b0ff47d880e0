-- ===== src/Http/Client/Lines.antt =====
-- Lines are read as they were written.
use huasi.Prelude.{
  ℕ, zero, suc, ◌<◌, ◌≤◌, length-append, ◌≡◌, refl, ◌∙◌, some, Bool, true, List, [], ◌∷◌, ◌++◌,
  arith, Bytes, ◌==◌, ◌>>=◌, is_empty, length, not, ◌&&◌,
}
use huasi.Http.Response.{crlf}
use huasi.Http.Client.{take_line, read_head, answer_of, read_answer}

-- No byte of the line is a CR.
unfoldable pub is_line : Bytes → Bool
is_line [] = true
is_line (c ∷ s) = not (c == 13) && is_line s

take_line_lem :
    (line s : Bytes) → is_line line ≡ true → take_line (line ++ (crlf ++ s)) ≡ some (line, s)
unfolding take_line is_line
take_line_lem [] s h = refl
take_line_lem (c ∷ line) s h = ground (arith, take_line_lem line s)

-- A line of a head that is not the empty one that ends it.
pub read_head_line :
    (fuel c : ℕ) (line s : Bytes)
    → is_line (c ∷ line) ≡ true
    → read_head (suc fuel) ((c ∷ line) ++ (crlf ++ s))
      ≡ (do (lines, behind) ← read_head fuel s; some ((c ∷ line) ∷ lines, behind))
unfolding read_head
read_head_line fuel c line s h = rw (take_line_lem (c ∷ line) s h) refl

pub read_head_end : (fuel : ℕ) (s : Bytes) → read_head (suc fuel) (crlf ++ s) ≡ some ([], s)
unfolding read_head
read_head_end fuel s = rw (take_line_lem [] s (unfold is_line in refl)) refl

-- The lines with their ends, and what is behind them.
abbrev pub lines_of : List Bytes → Bytes → Bytes
lines_of [] s = s
lines_of (line ∷ lines) s = line ++ (crlf ++ lines_of lines s)

abbrev pub are_lines : List Bytes → Bool
are_lines [] = true
are_lines (line ∷ lines) = (is_line line && not (is_empty line)) && are_lines lines

-- Lines are read back, with fuel for each of them and for the empty line behind.
pub read_head-lines_of :
    (lines : List Bytes) (fuel : ℕ) (s : Bytes)
    → are_lines lines ≡ true
    → length lines < fuel
    → read_head fuel (lines_of lines (crlf ++ s)) ≡ some (lines, s)
read_head-lines_of lines zero s h enough = absurd (omega arith)
read_head-lines_of [] (suc fuel) s h enough = read_head_end fuel s
read_head-lines_of ([] ∷ lines) (suc fuel) s h enough = absurd (ground arith)
read_head-lines_of ((c ∷ line) ∷ lines) (suc fuel) s h enough =
    read_head_line fuel c line (lines_of lines (crlf ++ s)) (ground arith)
    ∙ rw (read_head-lines_of lines fuel s (ground arith) (omega arith)) refl

length-lines_of : (lines : List Bytes) (s : Bytes) → length lines ≤ length (lines_of lines s)
length-lines_of [] s = omega arith
length-lines_of (line ∷ lines) s =
    omega (arith, length-append line (crlf ++ lines_of lines s), length-lines_of lines s)

-- What a client makes of an answer is what it makes of the lines of its head and what follows.
pub read_answer_lem :
    (lines : List Bytes) (s : Bytes)
    → are_lines lines ≡ true
    → read_answer (lines_of lines (crlf ++ s)) ≡ answer_of lines s
unfolding read_answer
read_answer_lem lines s h =
    rw
      (read_head-lines_of lines (suc (length (lines_of lines (crlf ++ s)))) s h
        (omega (arith, length-lines_of lines (crlf ++ s))))
      refl
