-- ===== src/BlockMute/Tests.antt =====
-- Runs of server/server/services/block_mute.py on two users.
use telegram.Prelude.{
  text_eq, eq_nat, eq_string, eq_pair, ◌≡◌, refl, true, false, not, ◌&&◌, ◌||◌, [], ◌∷◌,
}
use telegram.Prelude.Dict.{get, put}
use telegram.Prelude.Exec.{IsOk}
use telegram.State.{InMemoryState, save_runtime_state}
use telegram.State.Samples.{seeded_state, sample_conversation}
use telegram.BlockMute.{block, unblock, is_blocked_by}
use telegram.BlockMute.Rules.{block_refines, unblock_refines}

abbrev blocked : InMemoryState
blocked = (block "u_alice" "u_bob" 5 seeded_state).1

block_refines_example :
    (IsOk (block "u_alice" "u_bob" 5 seeded_state).0
      → is_blocked_by "u_alice" "u_bob" (block "u_alice" "u_bob" 5 seeded_state).1 ≡ (
          is_blocked_by "u_alice" "u_bob" seeded_state
          || (text_eq "u_alice" "u_alice" && text_eq "u_bob" "u_bob")))
    × ((IsOk (block "u_alice" "u_bob" 5 seeded_state).0 → ⊥)
        → is_blocked_by "u_alice" "u_bob" (block "u_alice" "u_bob" 5 seeded_state).1
          ≡ is_blocked_by "u_alice" "u_bob" seeded_state)
block_refines_example = block_refines "u_alice" "u_bob" 5 seeded_state "u_alice" "u_bob"

unblock_refines_example :
    (IsOk (unblock "u_alice" "u_bob" blocked).0
      → is_blocked_by "u_alice" "u_bob" (unblock "u_alice" "u_bob" blocked).1 ≡ (
          is_blocked_by "u_alice" "u_bob" blocked
          && not (text_eq "u_alice" "u_alice" && text_eq "u_bob" "u_bob")))
    × ((IsOk (unblock "u_alice" "u_bob" blocked).0 → ⊥)
        → is_blocked_by "u_alice" "u_bob" (unblock "u_alice" "u_bob" blocked).1
          ≡ is_blocked_by "u_alice" "u_bob" blocked)
unblock_refines_example = unblock_refines "u_alice" "u_bob" blocked "u_alice" "u_bob"

blocked_and_back :
    (is_blocked_by "u_alice" "u_bob" blocked ≡ true)
    × (is_blocked_by "u_alice" "u_bob" (unblock "u_alice" "u_bob" blocked).1 ≡ false)
unfolding is_blocked_by telegram.BlockMute.list_blocked telegram.BlockMute.set_blocked block unblock
    get put text_eq save_runtime_state
blocked_and_back = (refl, refl)

abbrev chatting : InMemoryState
chatting = record seeded_state { conversations = ("conv_1", sample_conversation) ∷ [] }
