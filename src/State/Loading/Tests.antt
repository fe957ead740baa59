-- ===== src/State/Loading/Tests.antt =====
-- A restart of a server whose state has a user with two-factor login and a group with an owner.
use telegram.Prelude.{eq_nat, eq_string, eq_pair, [], ◌∷◌}
use telegram.State.{UserRecord, ConversationRecord, InMemoryState, owner}
use telegram.State.Samples.{seeded_state, sample_user, sample_conversation}

abbrev guarded : UserRecord
guarded = record (sample_user "u_alice" "alice") { password_hash = "HASH"; two_fa_secret = "KEY" }

abbrev group : ConversationRecord
group = record sample_conversation { roles = ("u_alice", owner) ∷ [] }

abbrev running : InMemoryState
running = record seeded_state {
  users = ("u_alice", guarded) ∷ [];
  conversations = ("conv_1", group) ∷ [];
}

-- what a start makes before it loads
abbrev started : InMemoryState
started = record seeded_state {
  users = ("u_bob", record (sample_user "u_bob" "bob") { password_hash = "OTHER" }) ∷ [];
  conversations = [];
}
