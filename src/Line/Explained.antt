-- ===== src/Line/Explained.antt =====
-- What the line sees of a change of the protocol's state, in a form that `ground` takes as a fact.
use huasi.Prelude.{◌≡◌}
use mathlib.Core.Path.{subst}
use huasi.Line.{Line, Speech, Move, Moves, unmoved, moved, followed}

-- The moves that a change makes.
pub record Explained {R O : Type 0} (s : Speech R O) (a b : Line R O) : Type 0 where
  pub moves : Moves s a b

module _ {R O : Type 0} (s : Speech R O) where
  pub unchanged : (a : Line R O) → Explained s a a
  unchanged a = record { moves = unmoved }

  pub one-Move : {a b : Line R O} (c : Line R O) → Move s a b → b ≡ c → Explained s a c
  one-Move {a} c move same = record { moves = subst (Moves s a) same (moved unmoved move) }

pub chain :
    {R O : Type 0} {s : Speech R O} {a b c : Line R O}
    → Explained s a b
    → Explained s b c
    → Explained s a c
chain e f = record { moves = followed e.moves f.moves }
