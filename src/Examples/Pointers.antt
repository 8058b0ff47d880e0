-- ===== src/Examples/Pointers.antt =====
-- Pointers and what they point to.
use huasi.Prelude.{ℕ, ◌+◌, ◌<◌, ◌≡◌, ◌↔◌, refl, some, true, false, arith}
use huasi.Pointer.{Memory, construct, assign_copy, destroy}
use huasi.Pointer.Counting.{count}
use huasi.Pointer.Safety.Life.{
  new_memory, here, next, constructed, assigned_copy, destroyed, pointers_are_safe,
  last_reference_deletes,
}

-- A pointer to object 7, and then the assignment of that pointer to itself.
abbrev pointed : Memory
pointed = construct (some 7) new_memory

abbrev assigned_itself : Memory
assigned_itself = assign_copy 0 0 pointed

pointers_are_safe_example :
    (assigned_itself.faulted ≡ false)
    × ((o : ℕ)
        → (assigned_itself.references o ≡ count o assigned_itself.pointers + assigned_itself.held o)
          × (0 < count o assigned_itself.pointers → assigned_itself.deleted o ≡ false))
unfolding construct
pointers_are_safe_example =
    pointers_are_safe assigned_itself
      (next (next here (constructed (some 7) refl)) (assigned_copy 0 0 (omega arith) (omega arith)))

last_reference_deletes_example :
    ((destroy 0 pointed).deleted 7 ≡ true)
    ↔ (count 7 (destroy 0 pointed).pointers + (destroy 0 pointed).held 7 ≡ 0)
unfolding construct
last_reference_deletes_example =
    last_reference_deletes pointed (destroy 0 pointed) 7 (next here (constructed (some 7) refl))
      (destroyed 0 (omega arith)) (omega arith)
