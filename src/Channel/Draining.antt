-- ===== src/Channel/Draining.antt =====
-- What becomes of a channel that is closed.
use huasi.Prelude.{ℕ, suc, ◌+◌, ◌<◌, ◌≡◌, ◌⊎◌, ◌↔◌, inl, inr, true, false, [], arith}
use huasi.Channel.{
  Channel, ReadResult, remove_reference, close, on_wait, on_write, called_all, after_read, on_read,
  read_canceled, read_eof, read_failed,
}
use huasi.Channel.Lifetime.{Counts, open_count, pending}

-- A read that ends with no data, and of which the channel hears nothing or calls nothing.
pub data IsOver : ReadResult → Type 0 where
  over_canceled : IsOver read_canceled
  over_eof : IsOver read_eof
  over_failed : IsOver (read_failed [])

-- The channel `d` after `n` of the handlers of what is in flight in `c` have run, in any order.
pub data Ended (c : Channel) : ℕ → Channel → Type 0 where
  none : Ended c 0 c
  wait_cancelled :
      {n : ℕ} {d : Channel}
      → Ended c n d
      → open_count d.timed + d.late < d.waits
      → Ended c (suc n) (on_wait true d)
  wait_late : {n : ℕ} {d : Channel} → Ended c n d → 0 < d.late → Ended c (suc n) (on_wait false d)
  written : {n : ℕ} {d : Channel} → Ended c n d → 0 < d.writes → Ended c (suc n) (on_write [] d)
  was_read :
      {n : ℕ} {d : Channel}
      → Ended c n d
      → (result : ReadResult) → IsOver result
      → 0 < d.reads
      → Ended c (suc n) (on_read result d)

-- A closed channel that no pointer holds, with its timer cancelled: `n` of the handlers have run, and
-- `total` is the number of all.
record IsClosed (total n : ℕ) (c : Channel) : Type 0 where
  counts : Counts 0 c
  closed : c.is_open ≡ false
  stopped : c.timed ≡ false
  unheld : c.held ≡ 0
  in_flight : n + pending c ≡ total

cancelled_lem :
    (total n : ℕ) (c : Channel)
    → IsClosed total n c
    → open_count c.timed + c.late < c.waits
    → IsClosed total (suc n) (on_wait true c)
unfolding on_wait remove_reference
cancelled_lem total n c v some = ground arith

late_lem :
    (total n : ℕ) (c : Channel)
    → IsClosed total n c
    → 0 < c.late
    → IsClosed total (suc n) (on_wait false c)
unfolding on_wait close remove_reference
late_lem total n c v some = ground arith

written_lem :
    (total n : ℕ) (c : Channel)
    → IsClosed total n c
    → 0 < c.writes
    → IsClosed total (suc n) (on_write [] c)
unfolding on_write called_all remove_reference
written_lem total n c v some = ground arith

was_read_lem :
    (total n : ℕ) (c : Channel) (result : ReadResult)
    → IsOver result
    → IsClosed total n c
    → 0 < c.reads
    → IsClosed total (suc n) (on_read result c)
unfolding on_read after_read close called_all remove_reference
was_read_lem total n c _ over_canceled v some = ground arith
was_read_lem total n c _ over_eof v some = ground arith
was_read_lem total n c _ over_failed v some = ground arith

Ended-IsClosed :
    {total : ℕ} {c : Channel} {n : ℕ} {d : Channel}
    → IsClosed total 0 c
    → Ended c n d
    → IsClosed total n d
Ended-IsClosed v none = v
Ended-IsClosed v (wait_cancelled e some) = cancelled_lem _ _ _ (Ended-IsClosed v e) some
Ended-IsClosed v (wait_late e some) = late_lem _ _ _ (Ended-IsClosed v e) some
Ended-IsClosed v (written e some) = written_lem _ _ _ (Ended-IsClosed v e) some
Ended-IsClosed v (was_read e result over some) =
    was_read_lem _ _ _ result over (Ended-IsClosed v e) some

closed_lem :
    (c : Channel)
    → Counts 0 c
    → c.is_open ≡ true
    → c.held ≡ 0
    → IsClosed (pending (close c)) 0 (close c)
unfolding close remove_reference
closed_lem c v opened unheld = ground arith

-- While something is in flight in a closed channel there is a handler that can run.
some_in_flight :
    (total n : ℕ) (c : Channel)
    → IsClosed total n c
    → (c.deleted ≡ true)
      ⊎ (open_count c.timed + c.late < c.waits)
      ⊎ (0 < c.late)
      ⊎ (0 < c.writes)
      ⊎ (0 < c.reads)
some_in_flight total n c v = ground arith

can_end :
    {total n : ℕ} {c d : Channel}
    → IsClosed total n d
    → Ended c n d
    → (d.deleted ≡ true) ⊎ ((e : Channel) × Ended c (suc n) e)
can_end {d} v ended = elim (some_in_flight _ _ d v) [
  | inl gone ↦ inl gone
  | inr (inl some) ↦ inr (_, wait_cancelled ended some)
  | inr (inr (inl some)) ↦ inr (_, wait_late ended some)
  | inr (inr (inr (inl some))) ↦ inr (_, written ended some)
  | inr (inr (inr (inr some))) ↦ inr (_, was_read ended read_canceled over_canceled some)
]

-- For a channel that was open, with its references counted, that no pointer holds and that was closed:
-- something is in flight then; in whatever order the handlers of all that is in flight run, if no read
-- has brought data and the handlers call nothing, closing it again changes nothing; the channel is
-- deleted with the last handler, not before; and until then there is a handler that can run.
pub closed_channel_deleted :
    (c d : Channel) (n : ℕ)
    → Counts 0 c
    → c.is_open ≡ true
    → c.held ≡ 0
    → Ended (close c) n d
    → (0 < pending (close c))
      × (close d ≡ d)
      × (n + pending d ≡ pending (close c))
      × ((d.deleted ≡ true) ↔ (n ≡ pending (close c)))
      × ((d.deleted ≡ true) ⊎ ((e : Channel) × Ended (close c) (suc n) e))
unfolding close remove_reference
closed_channel_deleted c d n v opened unheld ended =
    let start = closed_lem c v opened unheld in
    let w = Ended-IsClosed start ended in
    (ground arith, ground arith, w.in_flight, ground arith, can_end w ended)
