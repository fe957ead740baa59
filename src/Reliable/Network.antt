-- ===== src/Reliable/Network.antt =====
-- Two reliable peers and a wire between them that loses, repeats and reorders packets: a move may
-- deliver any packet the other side has ever sent, or none.
use telegram.Prelude.{
  eq_nat, eq_string, eq_pair, get_elem?, ℕ, Option, none, some, List, [], ◌∷◌, ◌++◌,
}
use telegram.Prelude.Text.{Bytes}
use telegram.Reliable.{ReliableChannel, new_channel, send, tick_retransmit, ingest, pop_delivered}

-- a channel, and what `pop_delivered` has returned to its application so far
pub record Peer : Type 0 where
  pub channel : ReliableChannel
  pub taken : List Bytes

pub data Move : Type 0 where
  submit : Move
  tick : Move
  receive : ℕ → Move
  collect : Move

abbrev pub fresh_peer : Peer
fresh_peer = record { channel = new_channel; taken = [] }

abbrev receive_packet : Option Bytes → ReliableChannel → ReliableChannel
receive_packet none c = c
receive_packet (some packet) c = ingest packet c

-- One move of a peer: `stream k` is the k-th payload its application submits, `wire` what the other
-- side has sent.
unfoldable pub move : (ℕ → Bytes) → List Bytes → Move → Peer → Peer
move stream wire submit p = record p { channel = send (stream p.channel.next_send_seq) p.channel }
move stream wire tick p = record p { channel = (tick_retransmit p.channel).0 }
move stream wire (receive i) p = record p { channel = receive_packet (get_elem? wire i) p.channel }
move stream wire collect p =
    let (c, payloads) = pop_delivered p.channel in
    record { channel = c; taken = p.taken ++ payloads }

pub record Pair : Type 0 where
  pub left : Peer
  pub right : Peer

abbrev pub fresh_pair : Pair
fresh_pair = record { left = fresh_peer; right = fresh_peer }

pub data Step : Type 0 where
  on_left : Move → Step
  on_right : Move → Step

module _ (from_left from_right : ℕ → Bytes) where
  unfoldable pub step : Step → Pair → Pair
  unfolding move
  step (on_left m) s = record s { left = move from_left s.right.channel.sent m s.left }
  step (on_right m) s = record s { right = move from_right s.left.channel.sent m s.right }

  unfoldable pub run : List Step → Pair → Pair
  unfolding step
  run [] s = s
  run (m ∷ ms) s = run ms (step m s)
