-- ===== src/Remote/Candidates.antt =====
-- `_stable_octet` and the candidate list of `request_rendezvous` in remote_session.py.
use telegram.Prelude.{
  eq_nat, eq_string, eq_pair, nat_eq, if◌then◌else◌, ℕ, ◌+◌, ◌%◌, String, Bool, false, ◌||◌, Option,
  none, some, List, [], ◌∷◌,
}
use telegram.Prelude.Text.{codes, numbered, is_empty}
use telegram.Prelude.Int.{ℤ, pos}
use Prim.Native.Char.{code}
use telegram.Prelude.Text.Number.{int_of}
use telegram.State.{RemoteSessionRecord}

pub record RemoteRendezvousCandidate : Type 0 where
  pub kind : String
  pub address : String
  pub port : ℤ
  pub priority : ℕ

code_sum : String → ℕ
code_sum String.[] = 0
code_sum (String.◌∷◌ c s) = code c + code_sum s

stable_octet : String → ℕ
unfolding code_sum
stable_octet device_id = if is_empty device_id then 1 else code_sum device_id % 254 + 1

-- `s.split(":")[0]`, and `s.split(":")[-1]` behind a first part `acc`
before_colon : String → String
before_colon String.[] = String.[]
before_colon (String.◌∷◌ c s) =
    let rest = before_colon s in if nat_eq (code c) b':' then String.[] else String.◌∷◌ c rest

has_colon : String → Bool
has_colon String.[] = false
has_colon (String.◌∷◌ c s) = nat_eq (code c) b':' || has_colon s

after_last_colon : String → String
after_last_colon String.[] = String.[]
after_last_colon (String.◌∷◌ c s) =
    let rest = after_last_colon s in
    if has_colon s then rest else if nat_eq (code c) b':' then s else String.◌∷◌ c s

relay_port : String → Option ℤ
relay_port endpoint =
    if has_colon endpoint then int_of (codes (after_last_colon endpoint)) else some (pos 5000)

candidate : String → String → ℕ → ℤ → RemoteRendezvousCandidate
candidate kind address priority port = record {
  kind = kind;
  address = address;
  port = port;
  priority = priority;
}

unfoldable pub rendezvous_candidates : RemoteSessionRecord → Option (List RemoteRendezvousCandidate)
unfolding stable_octet before_colon has_colon after_last_colon relay_port candidate
rendezvous_candidates r = elim (relay_port r.relay_endpoint) [
  | none ↦ none
  | some port ↦ some (
      candidate "host" (numbered "10.0.0." (stable_octet r.requester_device_id)) 100 (pos 50000)
      ∷ candidate "host" (numbered "10.0.0." (stable_octet r.target_device_id)) 100 (pos 50000)
      ∷ candidate "srflx" "203.0.113.10" 50 (pos 50000)
      ∷ candidate "relay"
          (if is_empty r.relay_endpoint
            then "relay.example.internal"
            else before_colon r.relay_endpoint)
          10 port
      ∷ [])
]
