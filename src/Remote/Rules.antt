-- ===== src/Remote/Rules.antt =====
-- The life of a remote session, and the invariant of the table.
use telegram.Prelude.{
  eq_nat, eq_string, eq_pair, ℕ, ◌≤◌, String, ◌≡◌, ◌≢◌, ◌⊎◌, Bool, true, false, Option, none, some,
}
use telegram.Prelude.Dict.{get}
use telegram.Prelude.Text.{numbered, is_empty}
use telegram.State.{
  RemoteSessionRecord, RemoteStatus, IsSaved, awaiting_approval, approved, rejected, cancelled,
  terminated, disconnected, negotiating, connecting, streaming, controlling,
}
use telegram.Remote.{RemoteSessionService}

-- The arrows: consent first, then negotiation, and any participant may stop what is not over.
abbrev pub edge : RemoteStatus → RemoteStatus → Bool
edge awaiting_approval approved = true
edge awaiting_approval rejected = true
edge awaiting_approval cancelled = true
edge awaiting_approval _ = false
edge approved negotiating = true
edge approved cancelled = true
edge approved terminated = true
edge approved disconnected = true
edge approved _ = false
edge negotiating cancelled = true
edge negotiating terminated = true
edge negotiating disconnected = true
edge negotiating _ = false
edge connecting cancelled = true
edge connecting terminated = true
edge connecting disconnected = true
edge connecting _ = false
edge streaming cancelled = true
edge streaming terminated = true
edge streaming disconnected = true
edge streaming _ = false
edge controlling cancelled = true
edge controlling terminated = true
edge controlling disconnected = true
edge controlling _ = false
edge _ _ = false

-- What a request of `actor` may make of one session: who takes part never changes, the status stays
-- or follows an arrow, only the target gives consent, and a key that was drawn stays.
pub record Evolves (actor : String) (c d : RemoteSessionRecord) : Type 0 where
  pub requester : d.requester_user_id ≡ c.requester_user_id
  pub target : d.target_user_id ≡ c.target_user_id
  pub arrow : (d.state ≡ c.state) ⊎ (edge c.state d.state ≡ true)
  pub consent : d.state ≡ approved → c.state ≢ approved → actor ≡ c.target_user_id
  pub key : is_empty c.relay_key_b64 ≡ false → d.relay_key_b64 ≡ c.relay_key_b64

-- Between two tables, at one id: a session may appear, awaiting approval; none disappears.
abbrev pub Allowed : String → Option RemoteSessionRecord → Option RemoteSessionRecord → Type 0
Allowed actor none none = Unit
Allowed actor none (some d) = d.state ≡ awaiting_approval
Allowed actor (some c) none = ⊥
Allowed actor (some c) (some d) = Evolves actor c d

-- No id at or above the counter is taken, and the state file is up to date.
pub record IsValid (s : RemoteSessionService) : Type 0 where
  pub unused : (n : ℕ) → s.counter ≤ n → get (numbered "remote_" n) s.remote_sessions ≡ none
  pub saved : IsSaved s.state
