-- ===== src/Reliable/Delivery.antt =====
-- Whatever the wire does, each application gets what the other one submitted, in order, once.
use telegram.Prelude.{
  eq_nat, eq_string, eq_pair, Option-cases, get_elem?, All, ℕ, zero, suc, ◌-◌, ◌≤◌, ◌<◌, ◌≡◌, refl,
  subst, ◌∙◌, inl, inr, some, List, [], ◌∷◌, ◌++◌, map, append-nil, arith,
}
use telegram.Prelude.Dict.{Dict, get}
use telegram.Prelude.Text.{Bytes}
use telegram.Prelude.Int.{ℤ, pos, negsuc}
use telegram.Reliable.{
  ReliableChannel, new_channel, send_raw, send, resend, tick_retransmit, ingest_ack_seq, retransmit,
  ingest_nak_seqs, ingest, pop_delivered,
}
use telegram.Reliable.Codec.{ingest-rel_packet, ingest-ack_packet, ingest-nak_packet}
use telegram.Reliable.Receiver.{stream_prefix, InOrder, ingest_rel_seq-InOrder}
use telegram.Reliable.Bounds.{Within, ingest_rel_seq-Within}
use telegram.Reliable.Sender.{
  IsPacket, Honest, send-Honest, tick_retransmit-Honest, ingest_ack_seq-Honest,
  ingest_nak_seqs-Honest, ingest_rel_seq-Honest,
}
use telegram.Reliable.Network.{
  Peer, Move, submit, tick, receive, collect, on_left, on_right, Pair, Step, move, step, run,
  fresh_pair,
}

-- `n` bounds the numbers that the other side has given out.
record Receiving (stream : ℕ → Bytes) (taken : List Bytes) (n : ℕ) (c : ReliableChannel)
    : Type 0 where
  order : InOrder stream taken c
  within : Within n c

module _ (stream : ℕ → Bytes) (taken : List Bytes) (n : ℕ) where
  send_raw-Receiving :
      (p : Bytes) (c : ReliableChannel)
      → Receiving stream taken n c
      → Receiving stream taken n (send_raw p c)
  unfolding send_raw
  send_raw-Receiving p c h = record {
    order = record { positive = h.order.positive; prefix = h.order.prefix; ahead = h.order.ahead };
    within = record { expects = h.within.expects; waits = h.within.waits };
  }

  resend-Receiving :
      (d : Dict ℕ Bytes) (c : ReliableChannel)
      → Receiving stream taken n c
      → Receiving stream taken n (resend d c)
  unfolding resend
  resend-Receiving [] c h = h
  resend-Receiving ((k, v) ∷ d) c h = resend-Receiving d _ (send_raw-Receiving _ c h)

  retransmit-Receiving :
      (k : ℤ) (c : ReliableChannel)
      → Receiving stream taken n c
      → Receiving stream taken n (retransmit k c)
  unfolding retransmit
  retransmit-Receiving (negsuc k) c h = h
  retransmit-Receiving (pos k) c h = elim (Option-cases (get k c.unacked)) [
    | inl e ↦ rw (e, retransmit) h
    | inr (v, e) ↦ rw (e, retransmit) (send_raw-Receiving _ c h)
  ]

  ingest_nak_seqs-Receiving :
      (ks : List ℤ) (c : ReliableChannel)
      → Receiving stream taken n c
      → Receiving stream taken n (ingest_nak_seqs ks c)
  unfolding ingest_nak_seqs
  ingest_nak_seqs-Receiving [] c h = h
  ingest_nak_seqs-Receiving (k ∷ ks) c h =
      ingest_nak_seqs-Receiving ks _ (retransmit-Receiving k c h)

-- A peer that sends `own` and hears `other`.
record Sound (own other : ℕ → Bytes) (low n : ℕ) (p : Peer) : Type 0 where
  honest : Honest own low p.channel
  receiving : Receiving other p.taken n p.channel

module _ (own other : ℕ → Bytes) (low n : ℕ) where
  ingest-Sound :
      (packet : Bytes) (p : Peer)
      → IsPacket other n packet
      → Sound own other low n p
      → Sound own other low n (record p { channel = ingest packet p.channel })
  ingest-Sound packet p (inl (k, lt, e)) h =
      rw (e, ingest-rel_packet k (other k) p.channel)
        (record {
          honest = ingest_rel_seq-Honest own low k (other k) p.channel h.honest;
          receiving = record {
            order = ingest_rel_seq-InOrder other p.taken k p.channel h.receiving.order;
            within = ingest_rel_seq-Within n k (other k) p.channel lt h.receiving.within;
          };
        })
  ingest-Sound packet p (inr (inl (k, e))) h =
      rw (e, ingest-ack_packet k p.channel)
        (record {
          honest = ingest_ack_seq-Honest own low (pos k) p.channel h.honest;
          receiving =
              unfold ingest_ack_seq in
              record {
                order = record {
                  positive = h.receiving.order.positive;
                  prefix = h.receiving.order.prefix;
                  ahead = h.receiving.order.ahead;
                };
                within = record {
                  expects = h.receiving.within.expects;
                  waits = h.receiving.within.waits;
                };
              };
        })
  ingest-Sound packet p (inr (inr (ks, e))) h =
      rw (e, ingest-nak_packet ks p.channel)
        (record {
          honest = ingest_nak_seqs-Honest own low (map pos ks) p.channel h.honest;
          receiving = ingest_nak_seqs-Receiving other p.taken n (map pos ks) p.channel h.receiving;
        })

  All-get_elem? :
      (i : ℕ) (q : Bytes) (wire : List Bytes)
      → All (IsPacket other n) wire
      → get_elem? wire i ≡ some q
      → IsPacket other n q
  All-get_elem? i q [] h e = cc
  All-get_elem? zero q (x ∷ wire) h e = let same : x ≡ q = cc in subst (IsPacket other n) same h.0
  All-get_elem? (suc i) q (x ∷ wire) h e = All-get_elem? i q wire h.1 e

  move-Sound :
      (m : Move) (wire : List Bytes) (p : Peer)
      → All (IsPacket other n) wire
      → Sound own other low n p
      → Sound own other low n (move own wire m p)
  unfolding move
  move-Sound submit wire p w h = record {
    honest = send-Honest own low p.channel h.honest;
    receiving =
        unfold send send_raw in
        (record {
          order = record {
            positive = h.receiving.order.positive;
            prefix = h.receiving.order.prefix;
            ahead = h.receiving.order.ahead;
          };
          within = record {
            expects = h.receiving.within.expects;
            waits = h.receiving.within.waits;
          };
        });
  }
  move-Sound tick wire p w h = record {
    honest = tick_retransmit-Honest own low p.channel h.honest;
    receiving =
        unfold tick_retransmit in
        resend-Receiving other p.taken n p.channel.unacked p.channel h.receiving;
  }
  move-Sound (receive i) wire p w h = elim (Option-cases (get_elem? wire i)) [
    | inl e ↦ rw e (record { honest = h.honest; receiving = h.receiving })
    | inr (q, e) ↦ rw e (ingest-Sound q p (All-get_elem? i q wire w e) h)
  ]
  move-Sound collect wire p w h =
      unfold pop_delivered in
      record {
        honest = record {
          packets = h.honest.packets;
          entries = h.honest.entries;
          later = h.honest.later;
        };
        receiving = record {
          order = record {
            positive = h.receiving.order.positive;
            prefix = append-nil (p.taken ++ p.channel.delivered) ∙ h.receiving.order.prefix;
            ahead = h.receiving.order.ahead;
          };
          within = record {
            expects = h.receiving.within.expects;
            waits = h.receiving.within.waits;
          };
        };
      }

-- everything `pop_delivered` has returned or would return now
unfoldable pub received : Peer → List Bytes
received p = p.taken ++ p.channel.delivered

module _ (from_left from_right : ℕ → Bytes) where
  record BothSound (s : Pair) : Type 0 where
    left : Sound from_left from_right 0 s.right.channel.next_send_seq s.left
    right : Sound from_right from_left 0 s.left.channel.next_send_seq s.right

  -- one side has moved, and the other one hears of numbers up to a later one
  heard :
      (own other : ℕ → Bytes) (n m : ℕ) (p : Peer)
      → n ≤ m
      → Sound own other 0 n p
      → Sound own other 0 m p
  heard own other n m p le h = record {
    honest = h.honest;
    receiving = record {
      order = h.receiving.order;
      within = record {
        expects = omega (arith, h.receiving.within.expects);
        waits = λ k v e. omega (arith, h.receiving.within.waits k v e);
      };
    };
  }

  from_zero :
      (own other : ℕ → Bytes) (low n : ℕ) (p : Peer)
      → Sound own other low n p
      → Sound own other 0 n p
  from_zero own other low n p h = record {
    honest = record { packets = h.honest.packets; entries = h.honest.entries; later = omega arith };
    receiving = h.receiving;
  }

  to_next :
      (own other : ℕ → Bytes) (n : ℕ) (p : Peer)
      → Sound own other 0 n p
      → Sound own other p.channel.next_send_seq n p
  to_next own other n p h = record {
    honest = record { packets = h.honest.packets; entries = h.honest.entries; later = omega arith };
    receiving = h.receiving;
  }

  step-BothSound : (t : Step) (s : Pair) → BothSound s → BothSound (step from_left from_right t s)
  unfolding step
  step-BothSound (on_left m) s h =
      let n = s.right.channel.next_send_seq in
      let low = s.left.channel.next_send_seq in
      let moved =
        move-Sound from_left from_right low n m s.right.channel.sent s.left h.right.honest.packets
          (to_next from_left from_right n s.left h.left) in
      record {
        left = from_zero from_left from_right low n _ moved;
        right = heard from_right from_left low _ s.right moved.honest.later h.right;
      }
  step-BothSound (on_right m) s h =
      let n = s.left.channel.next_send_seq in
      let low = s.right.channel.next_send_seq in
      let moved =
        move-Sound from_right from_left low n m s.left.channel.sent s.right h.left.honest.packets
          (to_next from_right from_left n s.right h.right) in
      record {
        left = heard from_left from_right low _ s.left moved.honest.later h.left;
        right = from_zero from_right from_left low n _ moved;
      }

  run-BothSound :
      (steps : List Step) (s : Pair) → BothSound s → BothSound (run from_left from_right steps s)
  unfolding run
  run-BothSound [] s h = h
  run-BothSound (t ∷ steps) s h = run-BothSound steps _ (step-BothSound t s h)

  fresh_Receiving : (stream : ℕ → Bytes) → Receiving stream [] 1 new_channel
  fresh_Receiving stream = record {
    order = record {
      positive = omega arith;
      prefix = unfold stream_prefix in refl;
      ahead = λ k v e. unfold get in cc;
    };
    within = record { expects = omega arith; waits = λ k v e. unfold get in cc };
  }

  fresh_BothSound : BothSound fresh_pair
  fresh_BothSound = record {
    left = record {
      honest = record { packets = tt; entries = tt; later = omega arith };
      receiving = fresh_Receiving from_right;
    };
    right = record {
      honest = record { packets = tt; entries = tt; later = omega arith };
      receiving = fresh_Receiving from_left;
    };
  }

  Sound-received :
      (own other : ℕ → Bytes) (n : ℕ) (p : Peer)
      → Sound own other 0 n p
      → (k : ℕ) × (k < n) × (received p ≡ stream_prefix other k)
  unfolding received
  Sound-received own other n p h = (
    p.channel.expected - 1,
    omega (arith, h.receiving.order.positive, h.receiving.within.expects),
    h.receiving.order.prefix,
  )

  -- Two fresh peers, after any moves: what each application has received is the first k payloads
  -- that the other application submitted, for some k below the number of its next packet, whatever
  -- packets the wire loses, repeats or reorders.
  pub run-in_order :
      (steps : List Step)
      → let s = run from_left from_right steps fresh_pair in
        ((k : ℕ) × (k < s.left.channel.next_send_seq)
          × (received s.right ≡ stream_prefix from_left k))
        × ((k : ℕ) × (k < s.right.channel.next_send_seq)
            × (received s.left ≡ stream_prefix from_right k))
  run-in_order steps =
      let h = run-BothSound steps fresh_pair fresh_BothSound in
      (
        Sound-received from_right from_left _ _ h.right,
        Sound-received from_left from_right _ _ h.left,
      )
