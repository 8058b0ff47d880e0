-- ===== src/Pointer/Counting.antt =====
-- The counts of objects, and what taking and giving up a reference does to them.
use huasi.Prelude.{
  ℕ, zero, suc, ◌+◌, ◌<◌, ◌≤◌, ◌≡◌, refl, ◌==◌, Option, none, some, true, false, List, [], ◌∷◌,
  ◌++◌, if◌then◌else◌, arith, length, get_or,
}
use huasi.Pointer.{Memory, set, remove, acquire, discard}

-- 1 if the pointer points to the object.
abbrev pub hits : ℕ → Option ℕ → ℕ
hits o none = 0
hits o (some p) = if o == p then 1 else 0

-- How many pointers point to the object.
abbrev pub count : ℕ → List (Option ℕ) → ℕ
count o [] = 0
count o (p ∷ ps) = hits o p + count o ps

pub count-append :
    (o : ℕ) (ps : List (Option ℕ)) (p : Option ℕ) → count o (ps ++ p ∷ []) ≡ count o ps + hits o p
count-append o [] p = omega arith
count-append o (x ∷ ps) p = omega (arith, count-append o ps p)

pub count-set :
    (o : ℕ) (ps : List (Option ℕ)) (i : ℕ) (p : Option ℕ)
    → i < length ps
    → count o (set ps i p) + hits o (get_or ps i none) ≡ count o ps + hits o p
count-set o [] i p h = absurd (omega arith)
count-set o (x ∷ ps) zero p h = omega arith
count-set o (x ∷ ps) (suc i) p h = omega (arith, count-set o ps i p)

pub count-remove :
    (o : ℕ) (ps : List (Option ℕ)) (i : ℕ)
    → i < length ps
    → count o (remove ps i) + hits o (get_or ps i none) ≡ count o ps
count-remove o [] i h = absurd (omega arith)
count-remove o (x ∷ ps) zero h = omega arith
count-remove o (x ∷ ps) (suc i) h = omega (arith, count-remove o ps i)

pub hits-le-count : (o : ℕ) (ps : List (Option ℕ)) (i : ℕ) → hits o (get_or ps i none) ≤ count o ps
hits-le-count o [] i = omega arith
hits-le-count o (x ∷ ps) zero = omega arith
hits-le-count o (x ∷ ps) (suc i) = omega (arith, hits-le-count o ps i)

-- The object has a reference for each pointer to it and each that is held, and `more` of them. A
-- deleted object has none.
pub record CountsObject (o more : ℕ) (m : Memory) : Type 0 where
  pub counted : m.references o ≡ count o m.pointers + m.held o + more
  pub dead : m.deleted o ≡ true → m.references o ≡ 0

-- The object that is meant is not deleted.
abbrev pub IsAlive : Option ℕ → Memory → Type 0
IsAlive none m = Unit {0}
IsAlive (some p) m = m.deleted p ≡ false

-- What a change of counts does to an object: if it had a reference, it is deleted when it has none.
abbrev pub Dies : ℕ → Memory → Memory → Type 0
Dies o m m' = 0 < m.references o → m'.deleted o ≡ false → 0 < m'.references o

pub acquire_lem :
    (o : ℕ) (p : Option ℕ) (m : Memory)
    → CountsObject o 0 m
    → IsAlive p m
    → CountsObject o (hits o p) (acquire p m) × Dies o m (acquire p m)
unfolding acquire
acquire_lem o none m v alive = ground arith
acquire_lem o (some p) m v alive = ground arith

pub acquire_same :
    (p : Option ℕ) (m : Memory)
    → IsAlive p m
    → let m' = acquire p m in
      (m'.pointers ≡ m.pointers)
      × (m'.held ≡ m.held)
      × (m'.deleted ≡ m.deleted)
      × (m'.faulted ≡ m.faulted)
unfolding acquire
acquire_same none m alive = (refl, refl, refl, refl)
acquire_same (some p) m alive = ground arith

pub discard_lem :
    (o : ℕ) (p : Option ℕ) (m : Memory)
    → hits o p ≤ m.references o
    → (m.deleted o ≡ true → m.references o ≡ 0)
    → let m' = discard p m in
      (m'.references o + hits o p ≡ m.references o)
      × (m'.deleted o ≡ true → m'.references o ≡ 0)
      × Dies o m m'
unfolding discard
discard_lem o none m enough dead = ground arith
discard_lem o (some p) m enough dead = ground arith

pub discard_same :
    (p : Option ℕ) (m : Memory)
    → IsAlive p m
    → let m' = discard p m in
      (m'.pointers ≡ m.pointers) × (m'.held ≡ m.held) × (m'.faulted ≡ m.faulted)
unfolding discard
discard_same none m alive = (refl, refl, refl)
discard_same (some p) m alive = ground arith
