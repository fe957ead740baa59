-- ===== src/Drafts/Tests.antt =====
-- Runs of server/server/services/drafts.py on one conversation.
use telegram.Prelude.{eq_nat, eq_string, eq_pair, [], ◌∷◌}
use telegram.State.{InMemoryState}
use telegram.State.Samples.{seeded_state, sample_conversation}

abbrev chatting : InMemoryState
chatting = record seeded_state { conversations = ("conv_1", sample_conversation) ∷ [] }
