-- ===== src/Reliable/Bounds.antt =====
-- A receiver never gets ahead of what the other side has submitted.
use telegram.Prelude.{
  eq_nat, eq_string, eq_pair, ltb, nat_eq, Bool-cases, Option-cases, nat_eq_iff, length, ℕ, zero,
  suc, ◌+◌, ◌≤◌, ◌<◌, ◌≡◌, inl, inr, some, [], ◌∷◌, ◌++◌, arith,
}
use telegram.Prelude.Dict.{get, get-put, get-pop}
use telegram.Prelude.Text.{Bytes}
use telegram.Prelude.Int.{pos}
use telegram.Reliable.{ReliableChannel, drain, set_discard, take_in_order, ingest_rel_seq}
use telegram.Reliable.Receiver.{drained, buffer_ahead-fields}

-- The receiver is at most at `bound`, and so is all that waits.
pub record Within (bound : ℕ) (c : ReliableChannel) : Type 0 where
  pub expects : c.expected ≤ bound
  pub waits : (k : ℕ) (v : Bytes) → get k c.buffered ≡ some v → k < bound

module _ (bound : ℕ) where
  drain-Within : (fuel : ℕ) (c : ReliableChannel) → Within bound c → Within bound (drain fuel c)
  unfolding drain
  drain-Within zero c h = h
  drain-Within (suc fuel) c h = elim (Option-cases (get c.expected c.buffered)) [
    | inl e ↦ rw (e, drain) h
    | inr (v, e) ↦
        rw (e, drain)
          (drain-Within fuel (drained c v) (record {
            expects = omega (arith, h.waits c.expected v e);
            waits = λ k w.
                ground
                  (arith, get-pop c.expected k c.buffered, nat_eq_iff c.expected k, h.waits k w);
          }))
  ]

  pub ingest_rel_seq-Within :
      (k : ℕ) (v : Bytes) (c : ReliableChannel)
      → k < bound
      → Within bound c
      → Within bound (ingest_rel_seq (pos k) v c)
  unfolding ingest_rel_seq take_in_order
  ingest_rel_seq-Within k v c lt h = elim (Bool-cases (ltb k c.expected)) [
    | inl old ↦ rw old (record { expects = h.expects; waits = h.waits })
    | inr ne ↦ elim (Bool-cases (nat_eq k c.expected)) [
      | inl same ↦
          let d =
            drain-Within (length c.buffered)
              (record c {
                delivered = c.delivered ++ v ∷ [];
                expected = c.expected + 1;
                pending_nak = set_discard c.expected c.pending_nak;
              })
              (record {
                expects = omega (arith, lt, (nat_eq_iff k c.expected).0 same);
                waits = h.waits;
              }) in
          rw (ne, same) (record { expects = d.expects; waits = d.waits })
      | inr more ↦
          rw (ne, more)
            (record {
              expects = rw (buffer_ahead-fields k v c).0 h.expects;
              waits = λ j w.
                  rw (buffer_ahead-fields k v c).1
                    (ground (arith, get-put k j v c.buffered, nat_eq_iff k j, h.waits j w));
            })
    ]
  ]
