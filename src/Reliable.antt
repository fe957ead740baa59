-- ===== src/Reliable.antt =====
-- server/server/reliable_stream.py: one side of a reliable peer pair. A method takes the channel to the
-- channel after it; `sent` holds what `send_raw` was called with, oldest first.
pub mod Codec
pub mod Receiver
pub mod Settling
pub mod Bounds
pub mod Sender
pub mod Network
pub mod Delivery
pub mod Recovery
pub mod Tests
use telegram.Prelude.{
  eq_nat, eq_string, eq_pair, ltb, nat_eq, if◌then◌else◌, length, keep, elem, ℕ, zero, suc, ◌+◌,
  ◌-◌, not, Option, none, some, List, [], ◌∷◌, ◌++◌,
}
use telegram.Prelude.Dict.{Dict, get, put, pop}
use telegram.Prelude.Text.{Bytes, codes, decimal}
use telegram.Prelude.Int.{ℤ, pos, negsuc, leb_ℤ}
use telegram.Prelude.Text.Number.{int_of, after_prefix}

pub record ReliableChannel : Type 0 where
  pub next_send_seq : ℕ
  pub unacked : Dict ℕ Bytes
  pub expected : ℕ
  pub buffered : Dict ℕ Bytes
  pub delivered : List Bytes
  pub pending_nak : List ℕ
  pub sent : List Bytes

abbrev pub new_channel : ReliableChannel
new_channel = record {
  next_send_seq = 1;
  unacked = [];
  expected = 1;
  buffered = [];
  delivered = [];
  pending_nak = [];
  sent = [];
}

abbrev pub rel_prefix : Bytes
rel_prefix = codes "REL:"

abbrev pub nak_prefix : Bytes
nak_prefix = codes "NAK:"

abbrev pub ack_prefix : Bytes
ack_prefix = codes "ACK:"

pub rel_packet : ℕ → Bytes → Bytes
rel_packet seq payload = rel_prefix ++ (decimal seq ++ (b':' ∷ payload))

-- `",".join(str(s) for s in seqs)`
pub joined : List ℕ → Bytes
joined [] = []
joined (s ∷ []) = decimal s
joined (s ∷ t ∷ rest) = decimal s ++ (b',' ∷ joined (t ∷ rest))

pub nak_packet : List ℕ → Bytes
unfolding joined
nak_packet seqs = nak_prefix ++ joined seqs

pub ack_packet : ℕ → Bytes
ack_packet seq = ack_prefix ++ decimal seq

send_raw : Bytes → ReliableChannel → ReliableChannel
send_raw packet c = record c { sent = c.sent ++ packet ∷ [] }

-- outbound

pub send : Bytes → ReliableChannel → ReliableChannel
unfolding send_raw rel_packet
send payload c = send_raw (rel_packet c.next_send_seq payload) (record c {
  next_send_seq = c.next_send_seq + 1;
  unacked = put c.next_send_seq payload c.unacked;
})

pub ack : ℕ → ReliableChannel → ReliableChannel
ack seq c = record c { unacked = pop seq c.unacked }

resend : Dict ℕ Bytes → ReliableChannel → ReliableChannel
resend [] c = c
resend ((seq, payload) ∷ rest) c = resend rest (send_raw (rel_packet seq payload) c)

-- returns the number of packets too
pub tick_retransmit : ReliableChannel → ReliableChannel × ℕ
unfolding resend send_raw rel_packet
tick_retransmit c = (resend c.unacked c, length c.unacked)

-- inbound

pub ingest_ack_seq : ℤ → ReliableChannel → ReliableChannel
ingest_ack_seq highest c = record c {
  unacked = keep (λ e. not (leb_ℤ (pos e.0) highest)) c.unacked;
}

ingest_ack : Bytes → ReliableChannel → ReliableChannel
unfolding ingest_ack_seq
ingest_ack rest c = elim (int_of rest) [ none ↦ c | some highest ↦ ingest_ack_seq highest c ]

set_add : ℕ → List ℕ → List ℕ
set_add s set = if elem s set then set else set ++ s ∷ []

pub set_discard : ℕ → List ℕ → List ℕ
set_discard s = keep (λ t. not (nat_eq t s))

-- `while self._expected in self._buffered`, with the number of buffered packets as fuel.
pub drain : ℕ → ReliableChannel → ReliableChannel
drain zero c = c
drain (suc fuel) c = elim (get c.expected c.buffered) [
  | none ↦ c
  | some payload ↦ drain fuel (record c {
    delivered = c.delivered ++ payload ∷ [];
    buffered = pop c.expected c.buffered;
    pending_nak = set_discard c.expected c.pending_nak;
    expected = c.expected + 1;
  })
]

-- `range(a, a + n)`
range : ℕ → ℕ → List ℕ
range a zero = []
range a (suc n) = a ∷ range (a + 1) n

set_add_all : List ℕ → List ℕ → List ℕ
set_add_all [] set = set
set_add_all (s ∷ rest) set = set_add_all rest (set_add s set)

pub take_in_order : Bytes → ReliableChannel → ReliableChannel
unfolding drain send_raw ack_packet set_discard
take_in_order payload c =
    let c' = drain (length c.buffered) (record c {
      delivered = c.delivered ++ payload ∷ [];
      expected = c.expected + 1;
      pending_nak = set_discard c.expected c.pending_nak;
    }) in
    send_raw (ack_packet (c'.expected - 1)) c'

-- `if missing:` note them and ask for them
pub request_missing : List ℕ → ReliableChannel → ReliableChannel
unfolding send_raw nak_packet set_add set_add_all
request_missing [] c = c
request_missing (m ∷ more) c =
    send_raw (nak_packet (m ∷ more))
      (record c { pending_nak = set_add_all (m ∷ more) c.pending_nak })

pub buffer_ahead : ℕ → Bytes → ReliableChannel → ReliableChannel
unfolding request_missing range
buffer_ahead seq payload c =
    request_missing (range c.expected (seq - c.expected))
      (record c { buffered = put seq payload c.buffered })

-- A number below zero is below `expected`, and no set or table holds it.
pub ingest_rel_seq : ℤ → Bytes → ReliableChannel → ReliableChannel
unfolding set_discard
ingest_rel_seq (negsuc n) payload c = c
ingest_rel_seq (pos seq) payload c =
    if ltb seq c.expected
    then record c { pending_nak = set_discard seq c.pending_nak }
    else if nat_eq seq c.expected
    then take_in_order payload c
    else buffer_ahead seq payload c

-- `rest.find(b":")`: what stands before and after the first colon
unfoldable pub split_colon : Bytes → Option (Bytes × Bytes)
split_colon [] = none
split_colon (b ∷ s) =
    let rest = split_colon s in
    if nat_eq b b':'
    then some ([], s)
    else elim rest [ none ↦ none | some (x, y) ↦ some (b ∷ x, y) ]

ingest_rel : Bytes → ReliableChannel → ReliableChannel
unfolding split_colon
ingest_rel rest c = elim (split_colon rest) [
  | none ↦ c
  | some (before, payload) ↦ elim (int_of before) [
    | none ↦ c
    | some seq ↦ ingest_rel_seq seq payload c
  ]
]

-- `rest.split(",")`, the piece that is being read first
split_commas : Bytes → List Bytes
split_commas [] = [] ∷ []
split_commas (b ∷ s) =
    let rest = split_commas s in
    if nat_eq b b',' then [] ∷ rest else elim rest [ [] ↦ (b ∷ []) ∷ [] | x ∷ xs ↦ (b ∷ x) ∷ xs ]

-- `[int(s) for s in pieces if s]`, `none` where an `int` raises
parse_seqs : List Bytes → Option (List ℤ)
parse_seqs [] = some []
parse_seqs ([] ∷ rest) = parse_seqs rest
parse_seqs ((b ∷ s) ∷ rest) = elim (int_of (b ∷ s)) [
  | none ↦ none
  | some n ↦ elim (parse_seqs rest) [ none ↦ none | some ns ↦ some (n ∷ ns) ]
]

retransmit : ℤ → ReliableChannel → ReliableChannel
retransmit (negsuc n) c = c
retransmit (pos seq) c = elim (get seq c.unacked) [
  | none ↦ c
  | some payload ↦ send_raw (rel_packet seq payload) c
]

pub ingest_nak_seqs : List ℤ → ReliableChannel → ReliableChannel
unfolding retransmit send_raw rel_packet
ingest_nak_seqs [] c = c
ingest_nak_seqs (seq ∷ rest) c = ingest_nak_seqs rest (retransmit seq c)

ingest_nak : Bytes → ReliableChannel → ReliableChannel
unfolding split_commas parse_seqs
ingest_nak rest c = elim (parse_seqs (split_commas rest)) [
  | none ↦ c
  | some seqs ↦ ingest_nak_seqs seqs c
]

-- Foreign packets are ignored.
pub ingest : Bytes → ReliableChannel → ReliableChannel
unfolding ingest_rel ingest_nak ingest_ack after_prefix
ingest packet c = elim (after_prefix rel_prefix packet) [
  | some rest ↦ ingest_rel rest c
  | none ↦ elim (after_prefix nak_prefix packet) [
    | some rest ↦ ingest_nak rest c
    | none ↦ elim (after_prefix ack_prefix packet) [ some rest ↦ ingest_ack rest c | none ↦ c ]
  ]
]

pub pop_delivered : ReliableChannel → ReliableChannel × List Bytes
pop_delivered c = (record c { delivered = [] }, c.delivered)
