-- ===== src/Chat/Growth/Release.antt =====
-- The release of scheduled messages leaves every message in place.
use telegram.Prelude.{
  eq_nat, eq_string, eq_pair, Bool-cases, ℕ, String, refl, inl, inr, List, [], ◌∷◌,
}
use telegram.State.{Message}
use telegram.Chat.Growth.{Grown, Grown-refl}
use telegram.Chat.Sending.{release_messages, is_due}

pub Grown-release :
    (actor : String) (n now : ℕ) (ms : List Message) → Grown actor n n ms (release_messages now ms)
unfolding Grown release_messages
Grown-release actor n now [] = Grown-refl actor n []
Grown-release actor n now (m ∷ ms) = elim (Bool-cases (is_due now m)) [
  | inl due ↦ rw due (
    record {
      id = refl;
      sender = refl;
      by_others = λ h. (refl, refl);
      once_deleted = λ h. (refl, refl);
    },
    Grown-release actor n now ms,
  )
  | inr early ↦ rw early (
    record {
      id = refl;
      sender = refl;
      by_others = λ h. (refl, refl);
      once_deleted = λ h. (refl, refl);
    },
    Grown-release actor n now ms,
  )
]
