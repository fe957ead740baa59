-- ===== src/Remote/Safety.antt =====
-- What every request does to each session, and the invariant that it keeps.
use telegram.Prelude.{eq_nat, eq_string, eq_pair, String, inl, inr}
use telegram.Prelude.Dict.{get}
use telegram.State.{rejected, cancelled, terminated, disconnected, negotiating}
use telegram.Remote.{
  RemoteSessionService, Request, invites, approves, rejects, cancels, terminates, meets,
  disconnects, handle_session,
}
use telegram.Remote.Rules.{Allowed, IsValid}
use telegram.Remote.Shapes.{
  Allowed-refl, revise-Allowed, revise-IsValid, placed-Allowed, placed-IsValid,
}
use telegram.Remote.Steps.{
  consent_guard, approved_session, with_state, open_guard, active_guard, negotiate_guard,
  mint_guard, with_key, approve-eq-revise, reject-eq-revise, cancel-eq-revise, terminate-eq-revise,
  disconnect-eq-revise, rendezvous-eq-revise, approves-Evolves, rejects-Evolves, cancels-Evolves,
  terminates-Evolves, disconnects-Evolves, negotiates-Evolves, mint_step, create-shape,
}

-- From a valid service, each request of an actor leaves the state of each session as it is or
-- takes it along an arrow of its life; it becomes approved only by its target; the parties and a
-- drawn key stay; a session that appears awaits approval, and none is lost or overwritten.
pub handle_session-Allowed :
    (actor : String) (r : Request) (k : String) (s : RemoteSessionService)
    → IsValid s
    → Allowed actor (get k s.remote_sessions) (get k (handle_session actor r s).remote_sessions)
unfolding handle_session
handle_session-Allowed actor (invites d e) k s valid = elim (create-shape actor d e s) [
  | inl same ↦ rw same (Allowed-refl actor (get k s.remote_sessions))
  | inr (v, made) ↦ rw made (placed-Allowed actor d v e s valid actor k)
]
handle_session-Allowed actor (approves j) k s valid =
    rw approve-eq-revise
      (revise-Allowed j actor (consent_guard actor) approved_session (approves-Evolves actor) k s)
handle_session-Allowed actor (rejects j) k s valid =
    rw reject-eq-revise (
      revise-Allowed j actor (consent_guard actor) (with_state rejected) (rejects-Evolves actor) k
        s)
handle_session-Allowed actor (cancels j) k s valid =
    rw cancel-eq-revise
      (revise-Allowed j actor (open_guard actor) (with_state cancelled) (cancels-Evolves actor) k s)
handle_session-Allowed actor (terminates j) k s valid = rw terminate-eq-revise (
    revise-Allowed j actor (active_guard actor) (with_state terminated) (terminates-Evolves actor) k
      s)
handle_session-Allowed actor (disconnects j reason) k s valid = rw disconnect-eq-revise (
    revise-Allowed j actor (active_guard actor) (with_state disconnected)
      (disconnects-Evolves actor) k s)
handle_session-Allowed actor (meets j key) k s valid = rw rendezvous-eq-revise (
    mint_step j actor key (get k s.remote_sessions) k _ (
      revise-Allowed j actor (negotiate_guard actor) (with_state negotiating)
        (negotiates-Evolves actor) k s))

-- Each request keeps the service valid: no id from the counter on is taken, and a configured state
-- file holds the tables as they are.
pub handle_session-IsValid :
    (actor : String) (r : Request) (s : RemoteSessionService)
    → IsValid s
    → IsValid (handle_session actor r s)
unfolding handle_session
handle_session-IsValid actor (invites d e) s valid = elim (create-shape actor d e s) [
  | inl same ↦ rw same valid
  | inr (v, made) ↦ rw made (placed-IsValid actor d v e s valid)
]
handle_session-IsValid actor (approves j) s valid =
    rw approve-eq-revise (revise-IsValid j (consent_guard actor) approved_session s valid)
handle_session-IsValid actor (rejects j) s valid =
    rw reject-eq-revise (revise-IsValid j (consent_guard actor) (with_state rejected) s valid)
handle_session-IsValid actor (cancels j) s valid =
    rw cancel-eq-revise (revise-IsValid j (open_guard actor) (with_state cancelled) s valid)
handle_session-IsValid actor (terminates j) s valid =
    rw terminate-eq-revise (revise-IsValid j (active_guard actor) (with_state terminated) s valid)
handle_session-IsValid actor (disconnects j reason) s valid =
    rw disconnect-eq-revise
      (revise-IsValid j (active_guard actor) (with_state disconnected) s valid)
handle_session-IsValid actor (meets j key) s valid = rw rendezvous-eq-revise (
    revise-IsValid j (mint_guard actor) (with_key key) _
      (revise-IsValid j (negotiate_guard actor) (with_state negotiating) s valid))
