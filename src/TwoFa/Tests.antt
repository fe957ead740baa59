-- ===== src/TwoFa/Tests.antt =====
-- Runs of server/server/services/two_fa.py for one user.
use telegram.Prelude.{
  text_eq, eq_nat, eq_string, eq_pair, ℕ, String, ◌≡◌, refl, Bool, true, false, some, List, [], ◌∷◌,
}
use telegram.Prelude.Dict.{get}
use telegram.Prelude.Text.{Bytes, text_length, text_of, decimal}
use telegram.State.{UserRecord}
use telegram.State.Samples.{seeded_state, sample_user}
use telegram.TwoFa.{
  TwoFaService, Request, begins, discards, confirms, disables, handle, serve, verify_totp,
  generate_totp_code,
}
use telegram.TwoFa.Rules.{IsValid}
use telegram.TwoFa.Safety.{handle-IsValid, serve-keeps}

-- a digest for the tests: that of the example in RFC 4226, for every secret and step
abbrev digest_of : String → ℕ → Bytes
digest_of secret step =
    31 ∷ 134 ∷ 152 ∷ 105 ∷ 14 ∷ 2 ∷ 202 ∷ 22 ∷ 97 ∷ 133 ∷ 80 ∷ 239 ∷ 127 ∷ 25 ∷ 218 ∷ 142 ∷ 148 ∷ 91
    ∷ 85 ∷ 90 ∷ []

abbrev any_digits : String → Bool
any_digits code = true

code_runs : generate_totp_code digest_of any_digits "KEY" 100 ≡ "872921"
unfolding generate_totp_code text_length text_of decimal
code_runs = refl

abbrev guarded : UserRecord
guarded = record (sample_user "u_alice" "alice") { two_fa_secret = "KEY" }

abbrev on : TwoFaService
on = record { state = record seeded_state { users = ("u_alice", guarded) ∷ [] }; pending = [] }

on_IsValid : IsValid on
on_IsValid = record { waits = λ u secret user p e. unfold get in cc }

abbrev attack : List Request
attack =
    disables "u_alice" "WRONG" 100
    ∷ begins "u_alice" "OTHER"
    ∷ confirms "u_alice" "872921" 130
    ∷ discards "u_alice"
    ∷ []

found : get "u_alice" on.state.users ≡ some guarded
unfolding get text_eq
found = refl

wrong : verify_totp digest_of any_digits "KEY" "WRONG" 100 ≡ false
unfolding verify_totp text_eq text_length text_of decimal
wrong = refl

handle-IsValid_example : IsValid (handle digest_of any_digits (begins "u_bob" "NEW") on)
handle-IsValid_example = handle-IsValid digest_of any_digits (begins "u_bob" "NEW") on on_IsValid

serve-keeps_example :
    get "u_alice" (serve digest_of any_digits attack on).state.users ≡ some guarded
serve-keeps_example =
    serve-keeps digest_of any_digits "u_alice" guarded attack on on_IsValid found refl
      (λ _. wrong, (tt, (tt, (tt, tt))))
