-- ===== src/Line.antt =====
-- What a protocol with a serial device promises, without timers, buffers and retry counts: a line
-- of requests that are served in their order, one at a time. Both src/zwave/ZWaveProtocol.cpp and
-- src/enocean/EnOceanProtocol.cpp keep to it.
pub mod Explained
use huasi.Prelude.{ℕ, ◌≡◌, refl, sym, ap, ◌∙◌, List, [], ◌∷◌, ◌++◌, append_assoc, append-nil}

-- All requests that were asked for and those that wait, the oldest first, and what came out, the
-- newest first.
pub record Line (R O : Type 0) : Type 0 where
  pub asked : List R
  pub waiting : List R
  pub log : List O

-- How a protocol speaks: how a request stands in the line, what is put out when the first request is
-- sent, when it is answered and when it is dropped, and what may come out besides.
pub record Speech (R O : Type 0) : Type 1 where
  pub name : R → R
  pub Sends : R → O → Type 0
  pub Answers : R → O → Type 0
  pub drops : ℕ → O
  pub Other : O → Type 0

-- What may happen: a request joins the end; the first one is sent; it leaves when it is answered, or is
-- dropped with an error; something else comes out.
pub data Move {R O : Type 0} (s : Speech R O) (a : Line R O) : Line R O → Type 0 where
  joins :
      (r : R)
      → Move s a
          (record a { asked = a.asked ++ s.name r ∷ []; waiting = a.waiting ++ s.name r ∷ [] })
  transmits :
      (r : R) (rest : List R) (o : O)
      → a.waiting ≡ r ∷ rest
      → s.Sends r o
      → Move s a (record a { log = o ∷ a.log })
  finishes :
      (r : R) (rest : List R) (o : O)
      → a.waiting ≡ r ∷ rest
      → s.Answers r o
      → Move s a (record a { waiting = rest; log = o ∷ a.log })
  fails :
      (r : R) (rest : List R) (error : ℕ)
      → a.waiting ≡ r ∷ rest
      → Move s a (record a { waiting = rest; log = s.drops error ∷ a.log })
  speaks : (o : O) → s.Other o → Move s a (record a { log = o ∷ a.log })

pub data Moves {R O : Type 0} (s : Speech R O) (a : Line R O) : Line R O → Type 0 where
  unmoved : Moves s a a
  moved : {b c : Line R O} → Moves s a b → Move s b c → Moves s a c

module _ {R O : Type 0} {s : Speech R O} where
  joins_by : {a b : Line R O} → Move s a b → List R
  joins_by (joins r) = s.name r ∷ []
  joins_by (transmits r rest o e h) = []
  joins_by (finishes r rest o e h) = []
  joins_by (fails r rest error e) = []
  joins_by (speaks o h) = []

  leaves_by : {a b : Line R O} → Move s a b → List R
  leaves_by (joins r) = []
  leaves_by (transmits r rest o e h) = []
  leaves_by (finishes r rest o e h) = r ∷ []
  leaves_by (fails r rest error e) = r ∷ []
  leaves_by (speaks o h) = []

  -- The requests that join the line during the moves, and those that leave it, in their order.
  unfoldable pub joined : {a b : Line R O} → Moves s a b → List R
  unfolding joins_by
  joined unmoved = []
  joined (moved before move) = joined before ++ joins_by move

  unfoldable pub left : {a b : Line R O} → Moves s a b → List R
  unfolding leaves_by
  left unmoved = []
  left (moved before move) = left before ++ leaves_by move

  Move-in_order :
      {a b : Line R O} (move : Move s a b)
      → a.waiting ++ joins_by move ≡ leaves_by move ++ b.waiting
  unfolding joins_by leaves_by
  Move-in_order (joins r) = refl
  Move-in_order {a} (transmits r rest o e h) = append-nil a.waiting
  Move-in_order {a} (finishes r rest o e h) = append-nil a.waiting ∙ e
  Move-in_order {a} (fails r rest error e) = append-nil a.waiting ∙ e
  Move-in_order {a} (speaks o h) = append-nil a.waiting

  -- The requests leave in the order in which they joined; those that did not leave wait.
  pub Moves-in_order :
      {a b : Line R O} (moves : Moves s a b) → a.waiting ++ joined moves ≡ left moves ++ b.waiting
  unfolding joined left
  Moves-in_order {a} unmoved = append-nil a.waiting
  Moves-in_order {a} {b = c} (moved {b} before move) =
      sym (append_assoc a.waiting (joined before) (joins_by move))
      ∙ ap (λ l. l ++ joins_by move) (Moves-in_order before)
      ∙ append_assoc (left before) b.waiting (joins_by move)
      ∙ ap (λ l. left before ++ l) (Move-in_order move)
      ∙ sym (append_assoc (left before) (leaves_by move) c.waiting)

  Move-asked : {a b : Line R O} (move : Move s a b) → b.asked ≡ a.asked ++ joins_by move
  unfolding joins_by
  Move-asked (joins r) = refl
  Move-asked {a} (transmits r rest o e h) = sym (append-nil a.asked)
  Move-asked {a} (finishes r rest o e h) = sym (append-nil a.asked)
  Move-asked {a} (fails r rest error e) = sym (append-nil a.asked)
  Move-asked {a} (speaks o h) = sym (append-nil a.asked)

  -- What joined is what was asked for.
  pub Moves-asked : {a b : Line R O} (moves : Moves s a b) → b.asked ≡ a.asked ++ joined moves
  unfolding joined
  Moves-asked {a} unmoved = sym (append-nil a.asked)
  Moves-asked {a} (moved before move) =
      Move-asked move
      ∙ ap (λ l. l ++ joins_by move) (Moves-asked before)
      ∙ append_assoc a.asked (joined before) (joins_by move)

  pub followed : {a b c : Line R O} → Moves s a b → Moves s b c → Moves s a c
  followed before unmoved = before
  followed before (moved after move) = moved (followed before after) move
