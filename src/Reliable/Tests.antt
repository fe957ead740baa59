-- ===== src/Reliable/Tests.antt =====
-- Runs of server/server/reliable_stream.py on small inputs.
use telegram.Prelude.{
  text_eq, Eq, eq_nat, eq_string, eq_pair, ◌==◌, ==_iff, ==_refl, ==_of_ne, ltb, leb, nat_eq,
  if◌then◌else◌, ltb→lt, lt→ltb, leb→le, le→leb, tests, Bool-cases, Option-cases, nat_eq_iff,
  length, get_elem?, take, drop, keep, any, length-append, length-drop, length-take,
  take-append-drop, length-keep-le, All, All-append, All-keep, elem, remove, elem-append, ℕ, zero,
  suc, ◌+◌, ◌-◌, ◌*◌, ◌/◌, ◌%◌, ◌^◌, ◌≤◌, ◌<◌, min, max, String, ◌≡◌, refl, sym, ap, subst, ◌∙◌,
  ◌≢◌, ◌↔◌, ◌⊎◌, inl, inr, Bool, true, false, not, ◌&&◌, ◌||◌, Option, none, some, List, [], ◌∷◌,
  ◌++◌, map, append-nil, append_assoc, map-append, arith,
}
use telegram.Prelude.Dict.{get, put}
use telegram.Prelude.Text.{
  Bytes, codes, decimal, numbered, numbered_injective, strip, is_empty, text_length,
}
use telegram.Prelude.Int.{pos}
use telegram.Reliable.{
  nak_packet, ingest_nak_seqs, drain, ReliableChannel, new_channel, rel_packet, nak_packet, ingest,
  ingest_rel_seq, ingest_nak_seqs, pop_delivered,
}
use telegram.Reliable.Codec.{ingest-rel_packet, ingest-nak_packet}
use telegram.Reliable.Settling.{drain_ends}
use telegram.Reliable.Receiver.{stream_prefix}
use telegram.Reliable.Network.{Step, run, fresh_pair, on_left, on_right, submit, receive, collect}
use telegram.Reliable.Delivery.{received, run-in_order}
use telegram.Reliable.Recovery.{ingest_all, ingest_all-delivers}

abbrev letters : ℕ → Bytes
letters k = decimal k

-- the second packet overtakes the first one, which is lost and asked for again
abbrev steps : List Step
steps =
    on_left submit
    ∷ on_left submit
    ∷ on_right (receive 1)
    ∷ on_left (receive 0)
    ∷ on_right (receive 2)
    ∷ on_right collect
    ∷ on_left (receive 1)
    ∷ []

abbrev shuffled : List ℕ
shuffled = 3 ∷ 1 ∷ 1 ∷ 2 ∷ []

in_shuffled : (s : ℕ) → 0 < s → s ≤ 3 → elem s shuffled ≡ true
in_shuffled zero p le = absurd (omega arith)
in_shuffled (suc zero) p le = refl
in_shuffled (suc (suc zero)) p le = refl
in_shuffled (suc (suc (suc zero))) p le = refl
in_shuffled (suc (suc (suc (suc s)))) p le = absurd (omega arith)

both_received : received (run letters letters steps fresh_pair).right ≡ letters 1 ∷ letters 2 ∷ []
unfolding received run pop_delivered telegram.Reliable.send ingest decimal
    telegram.Prelude.Text.Number.int_of ingest_rel_seq telegram.Reliable.buffer_ahead
    ingest_nak_seqs get put telegram.Reliable.take_in_order
both_received = refl

-- packets 3 and 4 wait, and packet 2 has just arrived
abbrev gap_closed : ReliableChannel
gap_closed = record new_channel { expected = 3; buffered = (4, codes "d") ∷ (3, codes "c") ∷ [] }

ingest-rel_packet_example :
    ingest (rel_packet 7 (codes "a:b")) new_channel
    ≡ ingest_rel_seq (pos 7) (codes "a:b") new_channel
ingest-rel_packet_example = ingest-rel_packet 7 (codes "a:b") new_channel

ingest-nak_packet_example :
    ingest (nak_packet (4 ∷ 12 ∷ [])) new_channel
    ≡ ingest_nak_seqs (pos 4 ∷ pos 12 ∷ []) new_channel
ingest-nak_packet_example = ingest-nak_packet (4 ∷ 12 ∷ []) new_channel

drain_ends_example :
    (get (drain 5 gap_closed).expected (drain 5 gap_closed).buffered ≡ none)
    × (drain 5 gap_closed ≡ drain (length gap_closed.buffered) gap_closed)
drain_ends_example = drain_ends gap_closed 5 (omega arith)

run-in_order_example :
    let s = run letters letters steps fresh_pair in
    ((k : ℕ) × (k < s.left.channel.next_send_seq) × (received s.right ≡ stream_prefix letters k))
    × ((k : ℕ) × (k < s.right.channel.next_send_seq) × (received s.left ≡ stream_prefix letters k))
run-in_order_example = run-in_order letters letters steps

ingest_all-delivers_example :
    (m : ℕ) × (3 ≤ m)
    × ((pop_delivered (ingest_all letters shuffled new_channel)).1 ≡ stream_prefix letters m)
ingest_all-delivers_example = ingest_all-delivers letters 3 shuffled in_shuffled
