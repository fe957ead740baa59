-- ===== src/Reliable/Receiver.antt =====
-- What a receiver has handed over after any packets of one stream: a prefix of it, in order.
use telegram.Prelude.{
  eq_nat, eq_string, eq_pair, ltb, nat_eq, Bool-cases, Option-cases, nat_eq_iff, length, ℕ, zero,
  suc, ◌+◌, ◌-◌, ◌≤◌, ◌<◌, ◌≡◌, refl, sym, ap, subst, ◌∙◌, ◌≢◌, ◌⊎◌, inl, inr, none, some, List, [],
  ◌∷◌, ◌++◌, append_assoc, arith,
}
use telegram.Prelude.Dict.{Dict, get, put, pop, get-put, get-pop, length-pop-lt}
use telegram.Prelude.Text.{Bytes}
use telegram.Prelude.Int.{pos}
use telegram.Reliable.{
  ReliableChannel, drain, set_discard, range, take_in_order, request_missing, buffer_ahead,
  ingest_rel_seq,
}

-- the first `n` payloads of a stream, numbered from 1
unfoldable pub stream_prefix : (ℕ → Bytes) → ℕ → List Bytes
stream_prefix stream zero = []
stream_prefix stream (suc n) = stream_prefix stream n ++ (stream (suc n) ∷ [])

-- `taken` is what `pop_delivered` has returned so far.
pub record InOrder (stream : ℕ → Bytes) (taken : List Bytes) (c : ReliableChannel) : Type 0 where
  pub positive : 0 < c.expected
  pub prefix : taken ++ c.delivered ≡ stream_prefix stream (c.expected - 1)
  pub ahead : (k : ℕ) (v : Bytes) → get k c.buffered ≡ some v → (c.expected < k) × (v ≡ stream k)

-- Packet `s` has arrived: it has been handed over, or it waits.
abbrev pub Seen : ReliableChannel → ℕ → Type 0
Seen c s = (s < c.expected) ⊎ ((v : Bytes) × (get s c.buffered ≡ some v))

pub get-empty : (k : ℕ) (d : Dict ℕ Bytes) → length d ≤ 0 → get k d ≡ none
unfolding get
get-empty k [] h = refl
get-empty k (x ∷ d) h = absurd (omega arith)

abbrev pub drained : ReliableChannel → Bytes → ReliableChannel
drained c v = record c {
  delivered = c.delivered ++ v ∷ [];
  buffered = pop c.expected c.buffered;
  pending_nak = set_discard c.expected c.pending_nak;
  expected = c.expected + 1;
}

module _ (stream : ℕ → Bytes) (taken : List Bytes) where
  -- inside the drain loop the next packet may be waiting
  record Loose (c : ReliableChannel) : Type 0 where
    positive : 0 < c.expected
    prefix : taken ++ c.delivered ≡ stream_prefix stream (c.expected - 1)
    ahead : (k : ℕ) (v : Bytes) → get k c.buffered ≡ some v → (c.expected ≤ k) × (v ≡ stream k)

  extend :
      (d : List Bytes) (e : ℕ) (v : Bytes)
      → 0 < e
      → taken ++ d ≡ stream_prefix stream (e - 1)
      → v ≡ stream e
      → taken ++ (d ++ v ∷ []) ≡ stream_prefix stream (e + 1 - 1)
  unfolding stream_prefix
  extend d zero v pos_e h q = absurd (omega arith)
  extend d (suc e) v pos_e h q =
      let before : suc e - 1 ≡ e = omega arith in
      let after : suc e + 1 - 1 ≡ suc e = omega arith in
      rw after (
        sym (append_assoc taken d (v ∷ []))
        ∙ ap (λ x. x ++ v ∷ []) (h ∙ ap (stream_prefix stream) before)
        ∙ ap (λ w. stream_prefix stream e ++ w ∷ []) q)

  -- once the next packet is not waiting, all that wait are beyond it
  settled :
      (c : ReliableChannel) → Loose c → get c.expected c.buffered ≡ none → InOrder stream taken c
  settled c h e = record {
    positive = h.positive;
    prefix = h.prefix;
    ahead = λ k v g.
        let at : c.expected ≤ k = (h.ahead k v g).0 in
        let other : k ≢ c.expected = λ q. cc (subst (λ x. get x c.buffered ≡ some v) q g, e) in
        (omega arith, (h.ahead k v g).1);
  }

  drained-Loose :
      (c : ReliableChannel) (v : Bytes)
      → Loose c
      → get c.expected c.buffered ≡ some v
      → Loose (drained c v)
  drained-Loose c v h e = record {
    positive = omega arith;
    prefix = extend c.delivered c.expected v h.positive h.prefix (h.ahead c.expected v e).1;
    ahead = λ k w.
        ground (arith, get-pop c.expected k c.buffered, nat_eq_iff c.expected k, h.ahead k w);
  }

  drain-InOrder :
      (fuel : ℕ) (c : ReliableChannel)
      → length c.buffered ≤ fuel
      → Loose c
      → InOrder stream taken (drain fuel c)
  unfolding drain
  drain-InOrder zero c f h = settled c h (get-empty c.expected c.buffered f)
  drain-InOrder (suc fuel) c f h = elim (Option-cases (get c.expected c.buffered)) [
    | inl e ↦ rw (e, drain) (settled c h e)
    | inr (v, e) ↦
        rw (e, drain)
          (drain-InOrder fuel (drained c v) (omega (arith, length-pop-lt c.expected v c.buffered e))
            (drained-Loose c v h e))
  ]

  take_in_order-InOrder :
      (c : ReliableChannel) (v : Bytes)
      → InOrder stream taken c
      → v ≡ stream c.expected
      → InOrder stream taken (take_in_order v c)
  unfolding take_in_order
  take_in_order-InOrder c v h q =
      let c' : ReliableChannel = record c {
        delivered = c.delivered ++ v ∷ [];
        expected = c.expected + 1;
        pending_nak = set_discard c.expected c.pending_nak;
      } in
      let r = drain-InOrder (length c.buffered) c' (omega arith) (record {
        positive = omega arith;
        prefix = extend c.delivered c.expected v h.positive h.prefix q;
        ahead = λ k w g. (omega (arith, (h.ahead k w g).0), (h.ahead k w g).1);
      }) in
      record { positive = r.positive; prefix = r.prefix; ahead = r.ahead }

  request_missing-InOrder :
      (ns : List ℕ) (c : ReliableChannel)
      → InOrder stream taken c
      → InOrder stream taken (request_missing ns c)
  unfolding request_missing
  request_missing-InOrder [] c h = h
  request_missing-InOrder (n ∷ ns) c h = record {
    positive = h.positive;
    prefix = h.prefix;
    ahead = h.ahead;
  }

  buffer_ahead-InOrder :
      (seq : ℕ) (v : Bytes) (c : ReliableChannel)
      → InOrder stream taken c
      → c.expected < seq
      → v ≡ stream seq
      → InOrder stream taken (buffer_ahead seq v c)
  unfolding buffer_ahead
  buffer_ahead-InOrder seq v c h lt q =
      request_missing-InOrder (range c.expected (seq - c.expected))
        (record c { buffered = put seq v c.buffered })
        (record {
          positive = h.positive;
          prefix = h.prefix;
          ahead = λ k w. ground (arith, get-put seq k v c.buffered, nat_eq_iff seq k, h.ahead k w);
        })

  -- A data packet of the stream, whatever its number and however often it comes, keeps the order.
  pub ingest_rel_seq-InOrder :
      (seq : ℕ) (c : ReliableChannel)
      → InOrder stream taken c
      → InOrder stream taken (ingest_rel_seq (pos seq) (stream seq) c)
  unfolding ingest_rel_seq
  ingest_rel_seq-InOrder seq c h = elim (Bool-cases (ltb seq c.expected)) [
    | inl old ↦ rw old (record { positive = h.positive; prefix = h.prefix; ahead = h.ahead })
    | inr ne ↦ elim (Bool-cases (nat_eq seq c.expected)) [
      | inl same ↦
          rw (ne, same)
            (take_in_order-InOrder c (stream seq) h
              (ap stream ((nat_eq_iff seq c.expected).0 same)))
      | inr more ↦ rw (ne, more) (buffer_ahead-InOrder seq (stream seq) c h (ground arith) refl)
    ]
  ]

-- Nothing that has arrived is forgotten.
drain-Seen : (fuel : ℕ) (c : ReliableChannel) (s : ℕ) → Seen c s → Seen (drain fuel c) s
unfolding drain
drain-Seen zero c s h = h
drain-Seen (suc fuel) c s h = elim (Option-cases (get c.expected c.buffered)) [
  | inl e ↦ rw (e, drain) h
  | inr (v, e) ↦
      rw (e, drain)
        (drain-Seen fuel (drained c v) s
          (ground (arith, h, get-pop c.expected s c.buffered, nat_eq_iff c.expected s)))
]

request_missing-fields :
    (ns : List ℕ) (c : ReliableChannel)
    → ((request_missing ns c).expected ≡ c.expected)
      × ((request_missing ns c).buffered ≡ c.buffered)
unfolding request_missing
request_missing-fields [] c = (refl, refl)
request_missing-fields (n ∷ ns) c = (refl, refl)

pub buffer_ahead-fields :
    (seq : ℕ) (v : Bytes) (c : ReliableChannel)
    → ((buffer_ahead seq v c).expected ≡ c.expected)
      × ((buffer_ahead seq v c).buffered ≡ put seq v c.buffered)
unfolding buffer_ahead
buffer_ahead-fields seq v c = request_missing-fields _ _

buffer_ahead-Seen :
    (seq s : ℕ) (v : Bytes) (c : ReliableChannel)
    → Seen c s ⊎ (s ≡ seq)
    → Seen (buffer_ahead seq v c) s
buffer_ahead-Seen seq s v c h =
    rw ((buffer_ahead-fields seq v c).0, (buffer_ahead-fields seq v c).1)
      (ground (arith, h, get-put seq s v c.buffered, nat_eq_iff seq s))

pub ingest_rel_seq-Seen :
    (seq s : ℕ) (v : Bytes) (c : ReliableChannel)
    → Seen c s ⊎ (s ≡ seq)
    → Seen (ingest_rel_seq (pos seq) v c) s
unfolding ingest_rel_seq take_in_order
ingest_rel_seq-Seen seq s v c h = elim (Bool-cases (ltb seq c.expected)) [
  | inl old ↦ rw old (ground (arith, h))
  | inr ne ↦ elim (Bool-cases (nat_eq seq c.expected)) [
    | inl same ↦
        rw (ne, same)
          (drain-Seen (length c.buffered)
            (record c {
              delivered = c.delivered ++ v ∷ [];
              expected = c.expected + 1;
              pending_nak = set_discard c.expected c.pending_nak;
            })
            s (ground (arith, h)))
    | inr more ↦ rw (ne, more) (buffer_ahead-Seen seq s v c h)
  ]
]
