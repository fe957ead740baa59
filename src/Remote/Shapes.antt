-- ===== src/Remote/Shapes.antt =====
-- The two ways in which a request writes the table: it revises a record under a guard, or places a new
-- one under the next number; both persist it.
use telegram.Prelude.{
  eq_nat, eq_string, eq_pair, ◌==◌, ==_iff, if◌then◌else◌, Bool-cases, Option-cases, ◌+◌, String,
  ◌≡◌, inl, inr, Bool, true, Option, none, some, arith,
}
use telegram.Prelude.Dict.{Dict, get, put, get-put, get-put_self}
use telegram.Prelude.Text.{numbered, numbered_injective}
use telegram.State.{RemoteSessionRecord, save-IsSaved}
use telegram.Remote.{RemoteSessionService, persist_remote_session, new_session}
use telegram.Remote.Rules.{Evolves, Allowed, IsValid}

pub Allowed-refl : (a : String) (o : Option RemoteSessionRecord) → Allowed a o o
Allowed-refl a none = tt
Allowed-refl a (some c) = ground arith

put-Allowed :
    (a k j : String) (c d : RemoteSessionRecord) (t : Dict String RemoteSessionRecord)
    → get j t ≡ some c
    → Evolves a c d
    → Allowed a (get k t) (get k (put j d t))
put-Allowed a k j c d t e h = elim (Bool-cases (j == k)) [
  | inl same ↦ let same' : j ≡ k = (==_iff j k).0 same in rw (← same', get-put_self j d t, e) h
  | inr other ↦ rw (get-put j k d t, other) (Allowed-refl a (get k t))
]

unfoldable pub revise :
    String
    → (RemoteSessionRecord → Bool)
    → (RemoteSessionRecord → RemoteSessionRecord)
    → RemoteSessionService
    → RemoteSessionService
revise j guard change s = elim (get j s.remote_sessions) [
  | none ↦ s
  | some c ↦ if guard c then persist_remote_session j (change c) s else s
]

module _ (j a : String) (guard : RemoteSessionRecord → Bool)
    (change : RemoteSessionRecord → RemoteSessionRecord)
    (evolves : (c : RemoteSessionRecord) → guard c ≡ true → Evolves a c (change c)) where
  pub revise-Allowed :
      (k : String) (s : RemoteSessionService)
      → Allowed a (get k s.remote_sessions) (get k (revise j guard change s).remote_sessions)
  unfolding revise persist_remote_session
  revise-Allowed k s = elim (Option-cases (get j s.remote_sessions)) [
    | inl e ↦ rw (e, revise) (Allowed-refl a (get k s.remote_sessions))
    | inr (c, e) ↦ elim (Bool-cases (guard c)) [
      | inl passes ↦
          rw (e, revise, passes)
            (put-Allowed a k j c (change c) s.remote_sessions e (evolves c passes))
      | inr fails ↦ rw (e, revise, fails) (Allowed-refl a (get k s.remote_sessions))
    ]
  ]

pub revise-IsValid :
    (j : String) (guard : RemoteSessionRecord → Bool)
    (change : RemoteSessionRecord → RemoteSessionRecord) (s : RemoteSessionService)
    → IsValid s
    → IsValid (revise j guard change s)
unfolding revise persist_remote_session
revise-IsValid j guard change s v = elim (Option-cases (get j s.remote_sessions)) [
  | inl e ↦ rw (e, revise) v
  | inr (c, e) ↦ elim (Bool-cases (guard c)) [
    | inl passes ↦
        rw (e, revise, passes)
          (record {
            unused = λ n h. ground (
              arith,
              get-put j (numbered "remote_" n) (change c) s.remote_sessions,
              ==_iff j (numbered "remote_" n),
              v.unused n h,
              e,
            );
            saved =
                save-IsSaved
                  (record s.state { remote_sessions = put j (change c) s.remote_sessions });
          })
    | inr fails ↦ rw (e, revise, fails) v
  ]
]

-- A new session under the next number.
unfoldable pub placed :
    String → String → String → String → RemoteSessionService → RemoteSessionService
placed u d v e s =
    persist_remote_session (numbered "remote_" s.counter) (new_session s.counter u d v e)
      (record s { counter = s.counter + 1 })

module _ (u d v e : String) (s : RemoteSessionService) (valid : IsValid s) where
  pub placed-Allowed :
      (a k : String)
      → Allowed a (get k s.remote_sessions) (get k (placed u d v e s).remote_sessions)
  unfolding placed persist_remote_session new_session
  placed-Allowed a k = ground (
    arith,
    get-put (numbered "remote_" s.counter) k (new_session s.counter u d v e) s.remote_sessions,
    ==_iff (numbered "remote_" s.counter) k,
    valid.unused s.counter (omega arith),
    Allowed-refl a (get k s.remote_sessions),
  )

  pub placed-IsValid : IsValid (placed u d v e s)
  unfolding placed persist_remote_session
  placed-IsValid = record {
    unused = λ n h. ground (
      arith,
      get-put (numbered "remote_" s.counter) (numbered "remote_" n) (new_session s.counter u d v e)
          s.remote_sessions,
      ==_iff (numbered "remote_" s.counter) (numbered "remote_" n),
      numbered_injective "remote_" s.counter n,
      valid.unused n,
    );
    saved = save-IsSaved (record s.state {
      remote_sessions =
          put (numbered "remote_" s.counter) (new_session s.counter u d v e) s.remote_sessions;
    });
  }
