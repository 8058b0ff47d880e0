-- ===== src/Pointer.antt =====
-- class ptr of src/ptr.hpp over the reference counts of class Object of src/Object.hpp. An object is a
-- number, and a pointer a position in a list. The pointers stand outside the objects.
pub mod Counting
pub mod Safety
use huasi.Prelude.{
  ℕ, zero, suc, ◌+◌, ◌-◌, ◌==◌, Option, none, some, Bool, true, false, ◌||◌, List, [], ◌∷◌, ◌++◌,
  if◌then◌else◌, get_or,
}

-- `held` counts the references that are no pointer's. `faulted` says that a count of a deleted object
-- was touched.
pub record Memory : Type 0 where
  pub references : ℕ → ℕ
  pub deleted : ℕ → Bool
  pub pointers : List (Option ℕ)
  pub held : ℕ → ℕ
  pub faulted : Bool

abbrev pub update : {A : Type 0} → (ℕ → A) → ℕ → A → ℕ → A
update f o v j = if j == o then v else f j

-- A write out of the list changes nothing.
abbrev pub set : List (Option ℕ) → ℕ → Option ℕ → List (Option ℕ)
set [] i p = []
set (x ∷ xs) zero p = p ∷ xs
set (x ∷ xs) (suc i) p = x ∷ set xs i p

abbrev pub remove : List (Option ℕ) → ℕ → List (Option ℕ)
remove [] i = []
remove (x ∷ xs) zero = xs
remove (x ∷ xs) (suc i) = x ∷ remove xs i

abbrev pub target : Memory → ℕ → Option ℕ
target m i = get_or m.pointers i none

unfoldable pub add_reference : ℕ → Memory → Memory
add_reference o m = record m {
  references = update m.references o (m.references o + 1);
  faulted = m.faulted || m.deleted o;
}

unfoldable pub remove_reference : ℕ → Memory → Memory
remove_reference o m = record m {
  references = update m.references o (m.references o - 1);
  deleted = update m.deleted o (m.references o == 1 || m.deleted o);
  faulted = m.faulted || m.deleted o;
}

-- `if (p != nullptr) p->addReference()`, and the same for `removeReference`.
unfoldable pub acquire : Option ℕ → Memory → Memory
unfolding add_reference
acquire none m = m
acquire (some o) m = add_reference o m

unfoldable pub discard : Option ℕ → Memory → Memory
unfolding remove_reference
discard none m = m
discard (some o) m = remove_reference o m

-- The constructors from null, from an object, from a pointer, and from a pointer that is moved.
unfoldable pub construct : Option ℕ → Memory → Memory
unfolding acquire
construct p m = let m' = acquire p m in record m' { pointers = m'.pointers ++ p ∷ [] }

unfoldable pub construct_copy : ℕ → Memory → Memory
unfolding construct
construct_copy i m = construct (target m i) m

unfoldable pub construct_move : ℕ → Memory → Memory
construct_move i m = record m { pointers = set m.pointers i none ++ target m i ∷ [] }

-- The destructor.
unfoldable pub destroy : ℕ → Memory → Memory
unfolding discard
destroy i m = let m' = discard (target m i) m in record m' { pointers = remove m'.pointers i }

-- The assignments: of null, of an object, and of a pointer, which may be the same one.
unfoldable pub assign_null : ℕ → Memory → Memory
unfolding discard
assign_null i m = let m' = discard (target m i) m in record m' { pointers = set m'.pointers i none }

unfoldable pub assign : ℕ → Option ℕ → Memory → Memory
unfolding acquire discard
assign i p m =
    let m' = discard (target m i) (acquire p m) in record m' { pointers = set m'.pointers i p }

unfoldable pub assign_copy : ℕ → ℕ → Memory → Memory
unfolding assign
assign_copy i j m = assign i (target m j) m

-- A reference for an operation in flight, and its end.
unfoldable pub hold : ℕ → Memory → Memory
unfolding add_reference
hold o m = let m' = add_reference o m in record m' { held = update m'.held o (m'.held o + 1) }

unfoldable pub unhold : ℕ → Memory → Memory
unfolding remove_reference
unhold o m = let m' = remove_reference o m in record m' { held = update m'.held o (m'.held o - 1) }
