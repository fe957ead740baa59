-- ===== src/Flags/Tests.antt =====
-- Runs of server/server/services/conversation_flags.py on one conversation.
use telegram.Prelude.{text_eq, eq_nat, eq_string, eq_pair, if◌then◌else◌, ◌≡◌, true, ◌&&◌, [], ◌∷◌}
use telegram.Prelude.Dict.{get}
use telegram.Prelude.Exec.{IsOk}
use telegram.State.{InMemoryState}
use telegram.State.Samples.{seeded_state, sample_conversation}
use telegram.Flags.{set_pinned, is_pinned, set_archived, is_archived}
use telegram.Flags.Rules.{is_pinned-set_pinned}

abbrev chatting : InMemoryState
chatting = record seeded_state { conversations = ("conv_1", sample_conversation) ∷ [] }

pinned-IsOk : IsOk (set_pinned "u_alice" "conv_1" true chatting).0
unfolding set_pinned get text_eq
pinned-IsOk = tt

archived-IsOk : IsOk (set_archived "u_alice" "conv_1" true chatting).0
unfolding set_archived get text_eq
archived-IsOk = tt

is_pinned-set_pinned_example :
    (is_pinned "u_alice" "conv_1" (set_pinned "u_alice" "conv_1" true chatting).1 ≡ (
      if text_eq "u_alice" "u_alice" && text_eq "conv_1" "conv_1"
      then true
      else is_pinned "u_alice" "conv_1" chatting))
    × (is_archived "u_alice" "conv_1" (set_pinned "u_alice" "conv_1" true chatting).1
        ≡ is_archived "u_alice" "conv_1" chatting)
is_pinned-set_pinned_example =
    is_pinned-set_pinned "u_alice" "conv_1" true chatting "u_alice" "conv_1" pinned-IsOk
