-- ===== src/Channel/Wire/Order.antt =====
-- In which order the bytes of several messages go out.
use huasi.Prelude.{
  ◌≡◌, ◌≢◌, refl, sym, ◌∙◌, ap, List, [], ◌∷◌, ◌++◌, arith, Bytes, append_assoc, append-nil, ◌≤◌,
  length, length-append,
}
use huasi.Http.Headers.Chunks.{joined}
use huasi.Channel.Wire.{
  Wire, send_data, send_all, Transfer, takes, completes, Transfers, still, then_transfer, SentAlone,
  none_sent, then_sent,
}

-- All that was sent or is to be sent, in this order, with one write pending at most.
abbrev InOrder : Bytes → Wire → Type 0
InOrder all w = (w.sent ++ joined w.pending ≡ all) × (length w.pending ≤ 1)

Transfer-InOrder : {all : Bytes} {w u : Wire} → Transfer w u → InOrder all w → InOrder all u
Transfer-InOrder {all} {w} (takes [] [] part rest some_part e) (same, small) = (
  append_assoc w.sent part (rest ++ [])
      ∙ ap (λ l. w.sent ++ l) (sym (append_assoc part rest []))
      ∙ ap (λ l. w.sent ++ joined l) (sym e)
      ∙ same,
  omega arith,
)
Transfer-InOrder (takes [] (x ∷ after) part rest some_part e) (same, small) =
    absurd (omega (arith, ap length e))
Transfer-InOrder (takes (x ∷ before) after part rest some_part e) (same, small) =
    absurd (omega (arith, ap length e, length-append before ((part ++ rest) ∷ after)))
Transfer-InOrder {all} {w} (completes [] [] e) (same, small) =
    (ap (λ l. w.sent ++ joined l) (sym e) ∙ same, omega arith)
Transfer-InOrder (completes [] (x ∷ after) e) (same, small) = absurd (omega (arith, ap length e))
Transfer-InOrder (completes (x ∷ before) after e) (same, small) =
    absurd (omega (arith, ap length e, length-append before ([] ∷ after)))

Transfers-InOrder : {all : Bytes} {w u : Wire} → Transfers w u → InOrder all w → InOrder all u
Transfers-InOrder still v = v
Transfers-InOrder (then_transfer ts t) v = Transfer-InOrder t (Transfers-InOrder ts v)

joined-append_one :
    (messages : List Bytes) (bytes : Bytes)
    → joined (messages ++ bytes ∷ []) ≡ joined messages ++ bytes
joined-append_one [] bytes = append-nil bytes
joined-append_one (m ∷ messages) bytes =
    ap (λ l. m ++ l) (joined-append_one messages bytes)
    ∙ sym (append_assoc m (joined messages) bytes)

alone-InOrder :
    {w v : Wire} {messages : List Bytes}
    → SentAlone w messages v
    → w.pending ≡ []
    → InOrder (w.sent ++ joined messages) v
unfolding send_data
alone-InOrder {w} (none_sent ts) e =
    Transfers-InOrder ts (ap (λ l. w.sent ++ joined l) e, omega (arith, ap length e))
alone-InOrder {w} (then_sent {messages} {u} bytes before empty ts) e =
    let (same, small) = alone-InOrder before e in
    Transfers-InOrder ts (
      ap (λ l. u.sent ++ l) (joined-append_one u.pending bytes)
          ∙ sym (append_assoc u.sent (joined u.pending) bytes)
          ∙ ap (λ l. l ++ bytes) same
          ∙ append_assoc w.sent (joined messages) bytes
          ∙ ap (λ l. w.sent ++ l) (sym (joined-append_one messages bytes)),
      omega (arith, length-append u.pending (bytes ∷ []), ap length empty),
    )

-- Messages that are sent one after the other, each when the write before has completed, go out in
-- their order: what went out and what is still to be written are together the messages.
pub alone_in_order :
    (w v : Wire) (messages : List Bytes)
    → w.pending ≡ []
    → SentAlone w messages v
    → v.sent ++ joined v.pending ≡ w.sent ++ joined messages
alone_in_order w v messages e run = (alone-InOrder run e).0

-- Of two messages that are sent at once the second can go out amid the first.
pub two_sends_mix :
    (a b text : Bytes) (w : Wire)
    → w.pending ≡ []
    → a ≢ []
    → b ≢ []
    → text ≢ []
    → Transfers
        (send_all ((a ++ b) ∷ text ∷ []) w)
        (record { sent = ((w.sent ++ a) ++ text) ++ b; pending = [] })
unfolding send_all send_data
two_sends_mix a b text w e some_a some_b some_text =
    let begun = ap (λ l. (l ++ (a ++ b) ∷ []) ++ text ∷ []) e in
    let whole = ap (λ l. b ∷ l ∷ []) (sym (append-nil text)) in
    let last = ap (λ l. l ∷ []) (sym (append-nil b)) in
    then_transfer
      (then_transfer
        (then_transfer
          (then_transfer (then_transfer still (takes [] (text ∷ []) a b some_a begun))
            (takes (b ∷ []) [] text [] some_text whole))
          (completes (b ∷ []) [] refl))
        (takes [] [] b [] some_b last))
      (completes [] [] refl)
