-- ===== src/Reliable/Recovery.antt =====
-- Once every packet of a stretch has come, in whatever order, all of it has been handed over.
use telegram.Prelude.{
  eq_nat, eq_string, eq_pair, leb, nat_eq, leb→le, Bool-cases, nat_eq_iff, elem, ℕ, ◌-◌, ◌≤◌, ◌<◌,
  ◌≡◌, refl, sym, ◌⊎◌, inl, inr, true, List, [], ◌∷◌, arith,
}
use telegram.Prelude.Dict.{get}
use telegram.Prelude.Text.{Bytes}
use telegram.Reliable.{ReliableChannel, new_channel, ingest, rel_packet, pop_delivered}
use telegram.Reliable.Codec.{ingest-rel_packet}
use telegram.Reliable.Receiver.{
  stream_prefix, InOrder, Seen, ingest_rel_seq-InOrder, ingest_rel_seq-Seen,
}

-- the packets with these numbers arrive, in this order
unfoldable pub ingest_all : (ℕ → Bytes) → List ℕ → ReliableChannel → ReliableChannel
ingest_all stream [] c = c
ingest_all stream (k ∷ ks) c = ingest_all stream ks (ingest (rel_packet k (stream k)) c)

module _ (stream : ℕ → Bytes) (taken : List Bytes) where
  ingest_all-InOrder :
      (ks : List ℕ) (c : ReliableChannel)
      → InOrder stream taken c
      → InOrder stream taken (ingest_all stream ks c)
  unfolding ingest_all
  ingest_all-InOrder [] c h = h
  ingest_all-InOrder (k ∷ ks) c h =
      ingest_all-InOrder ks (ingest (rel_packet k (stream k)) c)
        (rw (ingest-rel_packet k (stream k) c) (ingest_rel_seq-InOrder stream taken k c h))

  ingest_all-Seen :
      (ks : List ℕ) (s : ℕ) (c : ReliableChannel)
      → Seen c s ⊎ (elem s ks ≡ true)
      → Seen (ingest_all stream ks c) s
  unfolding ingest_all
  ingest_all-Seen [] s c h = ground (arith, h)
  ingest_all-Seen (k ∷ ks) s c (inl h) =
      ingest_all-Seen ks s _
        (inl (rw (ingest-rel_packet k (stream k) c) (ingest_rel_seq-Seen k s (stream k) c (inl h))))
  ingest_all-Seen (k ∷ ks) s c (inr h) = elim (Bool-cases (nat_eq k s)) [
    | inl same ↦ ingest_all-Seen ks s _ (
        inl (
          rw (ingest-rel_packet k (stream k) c)
            (ingest_rel_seq-Seen k s (stream k) c (inr (sym ((nat_eq_iff k s).0 same))))))
    | inr other ↦ ingest_all-Seen ks s _ (inr (ground (arith, h)))
  ]

  leb-or-gt : (m n : ℕ) → (m ≤ n) ⊎ (n < m)
  leb-or-gt m n = elim (Bool-cases (leb m n)) [
    | inl le ↦ inl (leb→le m n le)
    | inr ne ↦ inr (ground (arith, ne))
  ]

  passed_all :
      (n : ℕ) (c : ReliableChannel)
      → InOrder stream taken c
      → ((s : ℕ) → 0 < s → s ≤ n → Seen c s)
      → n < c.expected
  passed_all n c h seen = elim (leb-or-gt c.expected n) [
    | inl le ↦ elim (seen c.expected h.positive le) [
      | inl early ↦ omega arith
      | inr (v, waits) ↦ absurd (omega (arith, (h.ahead c.expected v waits).0))
    ]
    | inr gt ↦ gt
  ]

-- When the data packets that come to a fresh receiver have numbers among which all of 1..n are, in
-- any order and with any repeats, it hands over the first m payloads of the stream, in order, for
-- some m not below n.
pub ingest_all-delivers :
    (stream : ℕ → Bytes) (n : ℕ) (ks : List ℕ)
    → ((s : ℕ) → 0 < s → s ≤ n → elem s ks ≡ true)
    → (m : ℕ) × (n ≤ m)
      × ((pop_delivered (ingest_all stream ks new_channel)).1 ≡ stream_prefix stream m)
unfolding pop_delivered
ingest_all-delivers stream n ks all =
    let c = ingest_all stream ks new_channel in
    let fresh : InOrder stream [] new_channel = record {
      positive = omega arith;
      prefix = unfold stream_prefix in refl;
      ahead = λ k v e. unfold get in cc;
    } in
    let h = ingest_all-InOrder stream [] ks new_channel fresh in
    let past =
      passed_all stream [] n c h
        (λ s p le. ingest_all-Seen stream [] ks s new_channel (inr (all s p le))) in
    (c.expected - 1, omega (arith, past), h.prefix)
