-- ===== src/Reliable/Sender.antt =====
-- What a peer puts on the wire: its own payloads under their numbers, acknowledgements and requests
-- for retransmission, and nothing else.
use telegram.Prelude.{
  eq_nat, eq_string, eq_pair, ltb, nat_eq, Bool-cases, Option-cases, nat_eq_iff, length, All,
  All-append, All-keep, ℕ, zero, suc, ◌+◌, ◌≤◌, ◌<◌, ◌≡◌, refl, ap, ◌⊎◌, inl, inr, some, List, [],
  ◌∷◌, arith,
}
use telegram.Prelude.Dict.{Dict, get, put}
use telegram.Prelude.Text.{Bytes}
use telegram.Prelude.Int.{ℤ, pos, negsuc}
use telegram.Reliable.{
  ReliableChannel, rel_packet, nak_packet, ack_packet, send_raw, send, resend, tick_retransmit,
  ingest_ack_seq, drain, take_in_order, request_missing, buffer_ahead, ingest_rel_seq, retransmit,
  ingest_nak_seqs,
}

abbrev pub IsPacket : (ℕ → Bytes) → ℕ → Bytes → Type 0
IsPacket stream bound p =
    ((k : ℕ) × (k < bound) × (p ≡ rel_packet k (stream k)))
    ⊎ ((n : ℕ) × (p ≡ ack_packet n))
    ⊎ ((ns : List ℕ) × (p ≡ nak_packet ns))

abbrev IsEntry : (ℕ → Bytes) → ℕ → ℕ × Bytes → Type 0
IsEntry stream bound e = (e.0 < bound) × (e.1 ≡ stream e.0)

-- `low` numbers at least have been given out.
pub record Honest (stream : ℕ → Bytes) (low : ℕ) (c : ReliableChannel) : Type 0 where
  pub packets : All (IsPacket stream c.next_send_seq) c.sent
  pub entries : All (IsEntry stream c.next_send_seq) c.unacked
  pub later : low ≤ c.next_send_seq

All-mono {ℓ} :
    {A : Type ℓ} (P Q : A → Type 0) (xs : List A) → ((x : A) → P x → Q x) → All P xs → All Q xs
All-mono P Q [] f h = h
All-mono P Q (x ∷ xs) f h = (f x h.0, All-mono P Q xs f h.1)

IsPacket-mono :
    (stream : ℕ → Bytes) (m n : ℕ) (p : Bytes) → m ≤ n → IsPacket stream m p → IsPacket stream n p
IsPacket-mono stream m n p le (inl (k, lt, e)) = inl (k, omega arith, e)
IsPacket-mono stream m n p le (inr q) = inr q

module _ (stream : ℕ → Bytes) (low : ℕ) where
  All-put :
      (n k : ℕ) (v : Bytes) (d : Dict ℕ Bytes)
      → IsEntry stream n (k, v)
      → All (IsEntry stream n) d
      → All (IsEntry stream n) (put k v d)
  unfolding put
  All-put n k v [] e h = (e, tt)
  All-put n k v ((j, w) ∷ d) e h = ground (arith, nat_eq_iff j k, All-put n k v d e h.1)

  get-IsEntry :
      (n k : ℕ) (v : Bytes) (d : Dict ℕ Bytes)
      → All (IsEntry stream n) d
      → get k d ≡ some v
      → IsEntry stream n (k, v)
  unfolding get
  get-IsEntry n k v [] h e = cc
  get-IsEntry n k v ((j, w) ∷ d) h e = ground (arith, nat_eq_iff j k, get-IsEntry n k v d h.1)

  send_raw-Honest :
      (p : Bytes) (c : ReliableChannel)
      → IsPacket stream c.next_send_seq p
      → Honest stream low c
      → Honest stream low (send_raw p c)
  unfolding send_raw
  send_raw-Honest p c q h = record {
    packets = All-append (IsPacket stream c.next_send_seq) c.sent (p ∷ []) h.packets (q, tt);
    entries = h.entries;
    later = h.later;
  }

  pub send-Honest :
      (c : ReliableChannel)
      → Honest stream low c
      → Honest stream low (send (stream c.next_send_seq) c)
  unfolding send
  send-Honest c h =
      let n = c.next_send_seq in
      send_raw-Honest (rel_packet n (stream n)) _ (inl (n, omega arith, refl)) (record {
        packets =
            All-mono (IsPacket stream n) (IsPacket stream (n + 1)) c.sent
              (λ p q. IsPacket-mono stream n (n + 1) p (omega arith) q) h.packets;
        entries =
            All-put (n + 1) n (stream n) c.unacked (omega arith, refl)
              (All-mono (IsEntry stream n) (IsEntry stream (n + 1)) c.unacked
                (λ e q. (omega (arith, q.0), q.1)) h.entries);
        later = omega (arith, h.later);
      })

  resend-Honest :
      (d : Dict ℕ Bytes) (c : ReliableChannel)
      → All (IsEntry stream c.next_send_seq) d
      → Honest stream low c
      → Honest stream low (resend d c)
  unfolding resend
  resend-Honest [] c e h = h
  resend-Honest ((k, v) ∷ d) c e h =
      resend-Honest d (send_raw (rel_packet k v) c) (unfold send_raw in e.1)
        (send_raw-Honest (rel_packet k v) c (inl (k, e.0.0, ap (rel_packet k) e.0.1)) h)

  pub tick_retransmit-Honest :
      (c : ReliableChannel) → Honest stream low c → Honest stream low (tick_retransmit c).0
  unfolding tick_retransmit
  tick_retransmit-Honest c h = resend-Honest c.unacked c h.entries h

  pub ingest_ack_seq-Honest :
      (n : ℤ) (c : ReliableChannel) → Honest stream low c → Honest stream low (ingest_ack_seq n c)
  unfolding ingest_ack_seq
  ingest_ack_seq-Honest n c h = record {
    packets = h.packets;
    entries = All-keep (IsEntry stream c.next_send_seq) _ c.unacked h.entries;
    later = h.later;
  }

  pub ingest_nak_seqs-Honest :
      (ns : List ℤ) (c : ReliableChannel)
      → Honest stream low c
      → Honest stream low (ingest_nak_seqs ns c)
  unfolding ingest_nak_seqs
  ingest_nak_seqs-Honest [] c h = h
  ingest_nak_seqs-Honest (negsuc k ∷ ns) c h =
      ingest_nak_seqs-Honest ns (retransmit (negsuc k) c) (unfold retransmit in h)
  ingest_nak_seqs-Honest (pos k ∷ ns) c h =
      ingest_nak_seqs-Honest ns (retransmit (pos k) c) (elim (Option-cases (get k c.unacked)) [
        | inl e ↦ rw (e, retransmit) h
        | inr (v, e) ↦
            let entry = get-IsEntry c.next_send_seq k v c.unacked h.entries e in
            rw (e, retransmit)
              (send_raw-Honest (rel_packet k v) c (inl (k, entry.0, ap (rel_packet k) entry.1)) h)
      ])

  request_missing-Honest :
      (ns : List ℕ) (c : ReliableChannel)
      → Honest stream low c
      → Honest stream low (request_missing ns c)
  unfolding request_missing
  request_missing-Honest [] c h = h
  request_missing-Honest (n ∷ ns) c h =
      send_raw-Honest (nak_packet (n ∷ ns)) _ (inr (inr (n ∷ ns, refl)))
        (record { packets = h.packets; entries = h.entries; later = h.later })

  drain-Honest :
      (fuel : ℕ) (c : ReliableChannel) → Honest stream low c → Honest stream low (drain fuel c)
  unfolding drain
  drain-Honest zero c h = h
  drain-Honest (suc fuel) c h = elim (Option-cases (get c.expected c.buffered)) [
    | inl e ↦ rw (e, drain) h
    | inr (v, e) ↦
        rw (e, drain)
          (drain-Honest fuel _
            (record { packets = h.packets; entries = h.entries; later = h.later }))
  ]

  pub ingest_rel_seq-Honest :
      (k : ℕ) (p : Bytes) (c : ReliableChannel)
      → Honest stream low c
      → Honest stream low (ingest_rel_seq (pos k) p c)
  unfolding ingest_rel_seq take_in_order
  ingest_rel_seq-Honest k p c h = elim (Bool-cases (ltb k c.expected)) [
    | inl old ↦ rw old (record { packets = h.packets; entries = h.entries; later = h.later })
    | inr ne ↦ elim (Bool-cases (nat_eq k c.expected)) [
      | inl same ↦
          rw (ne, same)
            (send_raw-Honest _ _ (inr (inl (_, refl))) (
              drain-Honest (length c.buffered) _
                (record { packets = h.packets; entries = h.entries; later = h.later })))
      | inr more ↦
          rw (ne, more)
            (unfold buffer_ahead in
              request_missing-Honest _ _
                (record { packets = h.packets; entries = h.entries; later = h.later }))
    ]
  ]
