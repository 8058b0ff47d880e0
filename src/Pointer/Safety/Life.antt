-- ===== src/Pointer/Safety/Life.antt =====
-- Pointers and objects over the life of the program.
use huasi.Prelude.{
  ℕ, ◌+◌, ◌<◌, ◌≡◌, ◌↔◌, refl, Option, true, false, [], arith, length, Bool-cases, inl, inr,
}
use huasi.Pointer.{
  Memory, target, construct, construct_copy, construct_move, destroy, assign_null, assign,
  assign_copy, hold, unhold,
}
use huasi.Pointer.Counting.{count, CountsObject, IsAlive}
use huasi.Pointer.Safety.{
  IsCounted, Keeps, target-IsAlive, construct-Keeps, construct_move-Keeps, destroy-Keeps,
  assign_null-Keeps, assign-Keeps, hold-Keeps, unhold-Keeps,
}

-- The operations, on pointers that there are, and with objects that are not deleted.
pub data Step (m : Memory) : Memory → Type 0 where
  constructed : (p : Option ℕ) → IsAlive p m → Step m (construct p m)
  copied : (i : ℕ) → i < length m.pointers → Step m (construct_copy i m)
  moved : (i : ℕ) → i < length m.pointers → Step m (construct_move i m)
  destroyed : (i : ℕ) → i < length m.pointers → Step m (destroy i m)
  nulled : (i : ℕ) → i < length m.pointers → Step m (assign_null i m)
  assigned : (i : ℕ) (p : Option ℕ) → i < length m.pointers → IsAlive p m → Step m (assign i p m)
  assigned_copy :
      (i j : ℕ) → i < length m.pointers → j < length m.pointers → Step m (assign_copy i j m)
  holds : (o : ℕ) → m.deleted o ≡ false → Step m (hold o m)
  unholds : (o : ℕ) → 0 < m.held o → Step m (unhold o m)

pub data Reach (m : Memory) : Memory → Type 0 where
  here : Reach m m
  next : {n k : Memory} → Reach m n → Step n k → Reach m k

-- No pointers yet, and objects that nothing refers to.
abbrev pub new_memory : Memory
new_memory = record {
  references = λ o. 0;
  deleted = λ o. false;
  pointers = [];
  held = λ o. 0;
  faulted = false;
}

Step-Keeps : {m n : Memory} → Step m n → IsCounted m → Keeps m n
unfolding construct_copy assign_copy
Step-Keeps {m} (constructed p alive) v = construct-Keeps p m v alive
Step-Keeps {m} (copied i there) v = construct-Keeps (target m i) m v (target-IsAlive i m v)
Step-Keeps {m} (moved i there) v = construct_move-Keeps i m there v
Step-Keeps {m} (destroyed i there) v = destroy-Keeps i m there v
Step-Keeps {m} (nulled i there) v = assign_null-Keeps i m there v
Step-Keeps {m} (assigned i p there alive) v = assign-Keeps i p m there v alive
Step-Keeps {m} (assigned_copy i j there source) v =
    assign-Keeps i (target m j) m there v (target-IsAlive j m v)
Step-Keeps {m} (holds o alive) v = hold-Keeps o m alive v
Step-Keeps {m} (unholds o some_held) v = unhold-Keeps o m some_held v

new_memory-IsCounted : IsCounted new_memory
new_memory-IsCounted = record {
  objects = λ o. record { counted = omega arith; dead = λ gone. refl };
  no_fault = refl;
}

Reach-IsCounted : {m : Memory} → Reach new_memory m → IsCounted m
Reach-IsCounted here = new_memory-IsCounted
Reach-IsCounted (next r s) = (Step-Keeps s (Reach-IsCounted r)).counts

not_deleted : (o : ℕ) (m : Memory) → CountsObject o 0 m → 0 < m.references o → m.deleted o ≡ false
not_deleted o m v some_left = elim (Bool-cases (m.deleted o)) [
  | inl gone ↦ absurd (ground (arith, v.dead gone))
  | inr alive ↦ alive
]

-- Whatever was constructed, copied, moved, assigned and destroyed, a pointer to itself included: no
-- count of a deleted object was ever touched, each object has one reference for each pointer to it
-- and for each operation that holds it, and an object that a pointer points to is not deleted.
pub pointers_are_safe :
    (m : Memory)
    → Reach new_memory m
    → (m.faulted ≡ false)
      × ((o : ℕ)
          → (m.references o ≡ count o m.pointers + m.held o)
            × (0 < count o m.pointers → m.deleted o ≡ false))
pointers_are_safe m r =
    let v = Reach-IsCounted r in
    (
      v.no_fault,
      λ o.
          let w = v.objects o in
          (omega (arith, w.counted), λ pointed. not_deleted o m w (omega (arith, w.counted))),
    )

-- A step from a state that was reached deletes an object that had a reference exactly when it leaves
-- the object without a pointer to it and without an operation that holds it.
pub last_reference_deletes :
    (m n : Memory) (o : ℕ)
    → Reach new_memory m
    → Step m n
    → 0 < m.references o
    → (n.deleted o ≡ true) ↔ (count o n.pointers + n.held o ≡ 0)
last_reference_deletes m n o r s some_left =
    let kept = Step-Keeps s (Reach-IsCounted r) in
    let w = kept.counts.objects o in
    (
      λ gone. omega (arith, w.counted, w.dead gone),
      λ none_left. elim (Bool-cases (n.deleted o)) [
        | inl gone ↦ gone
        | inr alive ↦ absurd (omega (arith, w.counted, kept.dies o some_left alive, none_left))
      ],
    )
