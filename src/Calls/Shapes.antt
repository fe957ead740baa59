-- ===== src/Calls/Shapes.antt =====
-- The two ways in which a request writes the table of calls: it revises a record under a guard, or
-- places a new one under the next number.
use telegram.Prelude.{
  eq_nat, eq_string, eq_pair, ◌==◌, ==_iff, if◌then◌else◌, Bool-cases, Option-cases, suc, String,
  ◌≡◌, inl, inr, Bool, true, false, Option, none, some, arith,
}
use telegram.Prelude.Dict.{Dict, get, put, get-put, get-put_self}
use telegram.Prelude.Text.{numbered, numbered_injective, is_empty}
use telegram.State.{CallRecord, ringing, accepted}
use telegram.Calls.{CallSessionService, set_call, new_call}
use telegram.Calls.Rules.{Evolves, Allowed, IsValid}

pub Evolves-refl : (c : CallRecord) → Evolves c c
Evolves-refl c = ground arith

pub Allowed-refl : (o : Option CallRecord) → Allowed o o
Allowed-refl none = tt
Allowed-refl (some c) = Evolves-refl c

-- A write of an evolved record at its own id.
pub put-Allowed :
    (k j : String) (c d : CallRecord) (t : Dict String CallRecord)
    → get j t ≡ some c
    → Evolves c d
    → Allowed (get k t) (get k (put j d t))
put-Allowed k j c d t e h = elim (Bool-cases (j == k)) [
  | inl same ↦ let same' : j ≡ k = (==_iff j k).0 same in rw (← same', get-put_self j d t, e) h
  | inr other ↦ rw (get-put j k d t, other) (Allowed-refl (get k t))
]

-- The shape of the requests that look a call up: under a guard they rewrite its record.
unfoldable pub revise :
    String
    → (CallRecord → Bool)
    → (CallRecord → CallRecord)
    → CallSessionService
    → CallSessionService
revise j guard change s = elim (get j s.calls) [
  | none ↦ s
  | some c ↦ if guard c then set_call j (change c) s else s
]

module _ (j : String) (guard : CallRecord → Bool) (change : CallRecord → CallRecord)
    (evolves : (c : CallRecord) → guard c ≡ true → Evolves c (change c)) where
  pub revise-Allowed :
      (k : String) (s : CallSessionService)
      → Allowed (get k s.calls) (get k (revise j guard change s).calls)
  unfolding revise set_call
  revise-Allowed k s = elim (Option-cases (get j s.calls)) [
    | inl e ↦ rw (e, revise) (Allowed-refl (get k s.calls))
    | inr (c, e) ↦ elim (Bool-cases (guard c)) [
      | inl passes ↦
          rw (e, revise, passes) (put-Allowed k j c (change c) s.calls e (evolves c passes))
      | inr fails ↦ rw (e, revise, fails) (Allowed-refl (get k s.calls))
    ]
  ]

  pub revise-IsValid :
      ((c : CallRecord)
        → guard c ≡ true
        → (change c).state ≡ accepted
        → is_empty (change c).relay_key_b64 ≡ false)
      → (s : CallSessionService) → IsValid s
      → IsValid (revise j guard change s)
  unfolding revise set_call
  revise-IsValid keyed s v = elim (Option-cases (get j s.calls)) [
    | inl e ↦ rw (e, revise) v
    | inr (c, e) ↦ elim (Bool-cases (guard c)) [
      | inl passes ↦
          rw (e, revise, passes)
            (record {
              unused = λ n h. ground (
                arith,
                get-put j (numbered "call_" n) (change c) s.calls,
                ==_iff j (numbered "call_" n),
                v.unused n h,
                e,
              );
              keyed = λ k d.
                  ground (arith, get-put j k (change c) s.calls, keyed c passes, v.keyed k d);
            })
      | inr fails ↦ rw (e, revise, fails) v
    ]
  ]

-- A new call under the next number.
unfoldable pub placed : CallRecord → CallSessionService → CallSessionService
placed c s = set_call c.call_id c (record s { counter = suc s.counter })

pub placed-Allowed :
    (c : CallRecord) (k : String) (s : CallSessionService)
    → c.state ≡ ringing
    → get c.call_id s.calls ≡ none
    → Allowed (get k s.calls) (get k (placed c s).calls)
unfolding placed set_call
placed-Allowed c k s made free =
    ground (arith, get-put c.call_id k c s.calls, ==_iff c.call_id k, Allowed-refl (get k s.calls))

pub placed-IsValid :
    (u d v e kind : String) (s : CallSessionService)
    → IsValid s
    → IsValid (placed (new_call s u d v e kind) s)
unfolding placed set_call new_call
placed-IsValid u d v e kind s valid = record {
  unused = λ n h. ground (
    arith,
    get-put (numbered "call_" (suc s.counter)) (numbered "call_" n) (new_call s u d v e kind)
        s.calls,
    ==_iff (numbered "call_" (suc s.counter)) (numbered "call_" n),
    numbered_injective "call_" (suc s.counter) n,
    valid.unused n,
  );
  keyed = λ k c. ground (
    arith,
    get-put (numbered "call_" (suc s.counter)) k (new_call s u d v e kind) s.calls,
    valid.keyed k c,
  );
}
