-- ===== src/Pointer/Safety.antt =====
-- Each operation on pointers keeps the counts.
pub mod Life
use huasi.Prelude.{
  ℕ, zero, suc, ◌+◌, ◌-◌, ◌<◌, ◌≤◌, ◌≡◌, ◌↔◌, refl, ◌==◌, Option, none, some, Bool, true, false,
  ◌||◌, ◌&&◌, not, List, [], ◌∷◌, ◌++◌, if◌then◌else◌, arith, length, get_or, Bool-cases, inl, inr,
  ==_refl,
}
use huasi.Pointer.{
  Memory, update, set, remove, target, add_reference, remove_reference, acquire, discard, construct,
  construct_copy, construct_move, destroy, assign_null, assign, assign_copy, hold, unhold,
}
use huasi.Pointer.Counting.{
  hits, count, count-append, count-set, count-remove, hits-le-count, CountsObject, IsAlive, Dies,
  acquire_lem, acquire_same, discard_lem, discard_same,
}

pub record IsCounted (m : Memory) : Type 0 where
  pub objects : (o : ℕ) → CountsObject o 0 m
  pub no_fault : m.faulted ≡ false

-- A change keeps the counts, and deletes the objects that lose their last reference.
pub record Keeps (m m' : Memory) : Type 0 where
  pub counts : IsCounted m'
  pub dies : (o : ℕ) → Dies o m m'

IsAlive-if_counted :
    (p : Option ℕ) (m : Memory)
    → ((o : ℕ) → hits o p ≤ m.references o)
    → ((o : ℕ) → m.deleted o ≡ true → m.references o ≡ 0)
    → IsAlive p m
IsAlive-if_counted none m held dead = tt
IsAlive-if_counted (some o) m held dead = elim (Bool-cases (m.deleted o)) [
  | inl gone ↦ absurd (ground (arith, held o, dead o gone))
  | inr alive ↦ alive
]

target-le : (i o : ℕ) (m : Memory) → IsCounted m → hits o (target m i) ≤ m.references o
target-le i o m v = let w = v.objects o in omega (arith, hits-le-count o m.pointers i, w.counted)

pub target-IsAlive : (i : ℕ) (m : Memory) → IsCounted m → IsAlive (target m i) m
target-IsAlive i m v =
    IsAlive-if_counted (target m i) m (λ o. target-le i o m v) (λ o. (v.objects o).dead)

pub construct-Keeps :
    (p : Option ℕ) (m : Memory) → IsCounted m → IsAlive p m → Keeps m (construct p m)
unfolding construct
construct-Keeps p m v alive =
    let same = acquire_same p m alive in
    record {
      counts = record {
        objects = λ o.
            let w = (v.objects o) in
            let (u, d) = acquire_lem o p m w alive in
            record {
              counted = ground (arith, count-append o m.pointers p, u.counted);
              dead = u.dead;
            };
        no_fault = ground (arith, v.no_fault);
      };
      dies = λ o. (acquire_lem o p m (v.objects o) alive).1;
    }

pub construct_move-Keeps :
    (i : ℕ) (m : Memory) → i < length m.pointers → IsCounted m → Keeps m (construct_move i m)
unfolding construct_move
construct_move-Keeps i m there v = record {
  counts = record {
    objects = λ o.
        let w = v.objects o in
        record {
          counted = omega (
            arith,
            w.counted,
            count-append o (set m.pointers i none) (target m i),
            count-set o m.pointers i none there,
          );
          dead = w.dead;
        };
    no_fault = v.no_fault;
  };
  dies = λ o some_left alive. some_left;
}

-- The pointer at a position gives up its target, and the pointers become others that hit each object
-- as often as the rest.
give_up-Keeps :
    (i : ℕ) (m : Memory) (ps : List (Option ℕ))
    → IsCounted m
    → ((o : ℕ) → count o ps + hits o (target m i) ≡ count o m.pointers)
    → Keeps m (record (discard (target m i) m) { pointers = ps })
give_up-Keeps i m ps v rest =
    let same = discard_same (target m i) m (target-IsAlive i m v) in
    record {
      counts = record {
        objects = λ o.
            let w = v.objects o in
            let (taken, dead, d) = discard_lem o (target m i) m (target-le i o m v) w.dead in
            record { counted = ground (arith, rest o, w.counted); dead = dead };
        no_fault = ground (arith, v.no_fault);
      };
      dies = λ o. (discard_lem o (target m i) m (target-le i o m v) (v.objects o).dead).2;
    }

acquired-le : (o : ℕ) (p : Option ℕ) (m : Memory) → m.references o ≤ (acquire p m).references o
unfolding acquire
acquired-le o none m = omega arith
acquired-le o (some p) m = ground arith

pub assign-Keeps :
    (i : ℕ) (p : Option ℕ) (m : Memory)
    → i < length m.pointers
    → IsCounted m
    → IsAlive p m
    → Keeps m (assign i p m)
unfolding assign
assign-Keeps i p m there v alive =
    let old = target m i in
    let m1 = acquire p m in
    let m2 = discard old m1 in
    let taken = λ (o : ℕ). acquire_lem o p m (v.objects o) alive in
    let same = acquire_same p m alive in
    let enough = λ (o : ℕ).
      let least : hits o old ≤ m1.references o =
        omega (
          arith,
          (taken o).0.counted,
          (v.objects o).counted,
          target-le i o m v,
          acquired-le o p m,
        ) in
      least in
    let old_alive = IsAlive-if_counted old m1 enough (λ o. (taken o).0.dead) in
    let same' = discard_same old m1 old_alive in
    let given = λ (o : ℕ). discard_lem o old m1 (enough o) (taken o).0.dead in
    record {
      counts = record {
        objects = λ o. record {
          counted = ground (
            arith,
            same,
            same',
            (given o).0,
            (taken o).0.counted,
            count-set o m.pointers i p there,
          );
          dead = (given o).1;
        };
        no_fault = ground (arith, same, same', v.no_fault);
      };
      dies = λ o some_left alive'. ground (arith, given o, taken o, alive', some_left);
    }

pub hold-Keeps : (p : ℕ) (m : Memory) → m.deleted p ≡ false → IsCounted m → Keeps m (hold p m)
unfolding hold acquire
hold-Keeps p m alive v = record {
  counts = record {
    objects = λ o.
        let w = v.objects o in
        let (u, d) = acquire_lem o (some p) m w alive in
        record { counted = ground (arith, u.counted, w.counted); dead = u.dead };
    no_fault = ground (arith, v.no_fault);
  };
  dies = λ o. (acquire_lem o (some p) m (v.objects o) alive).1;
}

pub unhold-Keeps : (p : ℕ) (m : Memory) → 0 < m.held p → IsCounted m → Keeps m (unhold p m)
unfolding unhold discard
unhold-Keeps p m there v =
    let enough = λ (o : ℕ).
      let least : hits o (some p) ≤ m.references o = ground (arith, (v.objects o).counted) in
      least in
    let alive = IsAlive-if_counted (some p) m enough (λ o. (v.objects o).dead) in
    let given = λ (o : ℕ). discard_lem o (some p) m (enough o) (v.objects o).dead in
    record {
      counts = record {
        objects = λ o. record {
          counted = ground (arith, (given o).0, (v.objects o).counted);
          dead = (given o).1;
        };
        no_fault = ground (arith, v.no_fault);
      };
      dies = λ o. (given o).2;
    }

pub destroy-Keeps :
    (i : ℕ) (m : Memory) → i < length m.pointers → IsCounted m → Keeps m (destroy i m)
unfolding destroy
destroy-Keeps i m there v =
    let same = discard_same (target m i) m (target-IsAlive i m v) in
    give_up-Keeps i m (remove (discard (target m i) m).pointers i) v
      (λ o. rw (same.0) (count-remove o m.pointers i there))

pub assign_null-Keeps :
    (i : ℕ) (m : Memory) → i < length m.pointers → IsCounted m → Keeps m (assign_null i m)
unfolding assign_null
assign_null-Keeps i m there v =
    let same = discard_same (target m i) m (target-IsAlive i m v) in
    give_up-Keeps i m (set (discard (target m i) m).pointers i none) v
      (λ o. rw (same.0) (omega (arith, count-set o m.pointers i none there)))
