-- ===== src/Reliable/Codec.antt =====
-- What one side puts on the wire is what the other side reads.
use telegram.Prelude.{
  eq_nat, eq_string, eq_pair, All, ℕ, ◌≡◌, refl, ◌≢◌, some, List, [], ◌∷◌, ◌++◌, map, arith,
}
use telegram.Prelude.Text.{Bytes, decimal}
use telegram.Prelude.Int.{ℤ, pos}
use telegram.Prelude.Text.{IsDigit, All-decimal}
use telegram.Prelude.Text.Number.{int_of, int_of-decimal, decimal-ne-nil}
use telegram.Reliable.{
  ReliableChannel, rel_packet, joined, nak_packet, ack_packet, ingest_ack_seq, ingest_ack,
  ingest_rel_seq, split_colon, ingest_rel, split_commas, parse_seqs, ingest_nak_seqs, ingest_nak,
  ingest,
}

split_colon-append : (s p : Bytes) → All IsDigit s → split_colon (s ++ (b':' ∷ p)) ≡ some (s, p)
unfolding split_colon
split_colon-append [] p h = refl
split_colon-append (c ∷ s) p h = ground (arith, split_colon-append s p h.1)

-- A data packet, whatever its number and payload, is read back with that number and payload.
pub ingest-rel_packet :
    (seq : ℕ) (p : Bytes) (c : ReliableChannel)
    → ingest (rel_packet seq p) c ≡ ingest_rel_seq (pos seq) p c
unfolding rel_packet ingest
ingest-rel_packet seq p c =
    rw
      (split_colon-append (decimal seq) p (All-decimal seq), int_of-decimal seq, ingest, ingest_rel)

-- A cumulative acknowledgement is read back with its number.
pub ingest-ack_packet :
    (seq : ℕ) (c : ReliableChannel) → ingest (ack_packet seq) c ≡ ingest_ack_seq (pos seq) c
unfolding ack_packet ingest
ingest-ack_packet seq c = rw (int_of-decimal seq, ingest, ingest_ack)

split_commas-digits : (s : Bytes) → All IsDigit s → split_commas s ≡ s ∷ []
unfolding split_commas
split_commas-digits [] h = refl
split_commas-digits (c ∷ s) h = ground (arith, split_commas-digits s h.1)

split_commas-append :
    (s t : Bytes) → All IsDigit s → split_commas (s ++ (b',' ∷ t)) ≡ s ∷ split_commas t
unfolding split_commas
split_commas-append [] t h = refl
split_commas-append (c ∷ s) t h = ground (arith, split_commas-append s t h.1)

parse_seqs-cons :
    (s : Bytes) (rest : List Bytes) (n : ℤ) (ns : List ℤ)
    → s ≢ []
    → int_of s ≡ some n
    → parse_seqs rest ≡ some ns
    → parse_seqs (s ∷ rest) ≡ some (n ∷ ns)
unfolding parse_seqs
parse_seqs-cons [] rest n ns ne h k = absurd (ne refl)
parse_seqs-cons (b ∷ s) rest n ns ne h k = rw (h, k, parse_seqs)

parse_seqs-joined : (seqs : List ℕ) → parse_seqs (split_commas (joined seqs)) ≡ some (map pos seqs)
unfolding joined
parse_seqs-joined [] = unfold split_commas parse_seqs in refl
parse_seqs-joined (s ∷ []) = rw (split_commas-digits (decimal s) (All-decimal s)) (
    parse_seqs-cons (decimal s) [] (pos s) [] (decimal-ne-nil s) (int_of-decimal s)
      (unfold parse_seqs in refl))
parse_seqs-joined (s ∷ t ∷ rest) =
    rw (split_commas-append (decimal s) (joined (t ∷ rest)) (All-decimal s)) (
      parse_seqs-cons (decimal s) _ (pos s) _ (decimal-ne-nil s) (int_of-decimal s)
        (parse_seqs-joined (t ∷ rest)))

-- A request for retransmission is read back with its numbers, in order.
pub ingest-nak_packet :
    (seqs : List ℕ) (c : ReliableChannel)
    → ingest (nak_packet seqs) c ≡ ingest_nak_seqs (map pos seqs) c
unfolding nak_packet ingest
ingest-nak_packet seqs c = rw (parse_seqs-joined seqs, ingest, ingest_nak)
