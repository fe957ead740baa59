-- ===== src/RateLimit/Bounds.antt =====
-- What a bucket lets through: never more than its burst and what the rate adds.
use telegram.Prelude.{
  eq_nat, eq_string, eq_pair, ==_iff, leb, if◌then◌else◌, leb→le, le→leb, Bool-cases, Option-cases,
  ℕ, ◌+◌, ◌-◌, ◌*◌, ◌≤◌, min, String, ◌≡◌, refl, sym, ap, subst, ◌∙◌, ◌≢◌, inl, inr, Bool, true,
  false, ◌&&◌, Option, none, some, List, [], ◌∷◌, arith,
}
use telegram.Prelude.Dict.{get, get-put_self, get-put_ne}
use telegram.Prelude.Text.{is_empty}
use native.Mathlib.Nat.{add-mul}
use telegram.RateLimit.{
  RateConfig, Bucket, RateLimiter, Attempt, find_bucket, refilled, draw, try_acquire, concerns,
  granted,
}

-- what a rate adds in two stretches of time, one after the other
rate_split : (r a b t : ℕ) → a ≤ b → b ≤ t → (b - a) * r + (t - b) * r ≡ (t - a) * r
rate_split r a b t ab bt = sym (add-mul (b - a) (t - b) r) ∙ ap (λ d. d * r) (omega (arith, ab, bt))

-- The attempts come at times from `now` on, none later than `until`, and never go back.
abbrev pub Timed : ℕ → ℕ → List Attempt → Type 0
Timed now until [] = now ≤ until
Timed now until (a ∷ rest) = (now ≤ a.now) × Timed a.now until rest

Timed-le : (now until : ℕ) (rest : List Attempt) → Timed now until rest → now ≤ until
Timed-le now until [] h = h
Timed-le now until (a ∷ rest) h = omega (arith, h.0, Timed-le a.now until rest h.1)

-- what the bucket can give from `now` until `until`
room : RateConfig → ℕ → ℕ → Option Bucket → ℕ
room cfg now until none = cfg.burst + (until - now) * cfg.rate
room cfg now until (some b) = b.tokens + (until - b.last_refill) * cfg.rate

abbrev IsPast : ℕ → Option Bucket → Type 0
IsPast now none = Unit
IsPast now (some b) = b.last_refill ≤ now

refill_le :
    (cfg : RateConfig) (now m until : ℕ) (o : Option Bucket)
    → IsPast now o
    → now ≤ m
    → m ≤ until
    → refilled cfg m (find_bucket cfg m o) + (until - m) * cfg.rate ≤ room cfg now until o
unfolding refilled find_bucket room
refill_le cfg now m until none p le lu = omega (arith, rate_split cfg.rate now m until le lu)
refill_le cfg now m until (some b) p le lu =
    omega (arith, rate_split cfg.rate b.last_refill m until (omega (arith, p, le)) lu)

room_later :
    (cfg : RateConfig) (now m until : ℕ) (o : Option Bucket)
    → now ≤ m
    → m ≤ until
    → room cfg m until o ≤ room cfg now until o
unfolding room
room_later cfg now m until none le lu = omega (arith, rate_split cfg.rate now m until le lu)
room_later cfg now m until (some b) le lu = omega arith

IsPast-later : (now m : ℕ) (o : Option Bucket) → now ≤ m → IsPast now o → IsPast m o
IsPast-later now m none le h = tt
IsPast-later now m (some b) le h = omega (arith, h, le)

-- An attempt on another key leaves the bucket alone.
draw_other :
    (cfg : RateConfig) (j k : String × String) (cost now : ℕ) (l : RateLimiter)
    → j ≢ k
    → get k (draw cfg j cost now l).0.buckets ≡ get k l.buckets
unfolding draw
draw_other cfg j k cost now l other =
    elim (Bool-cases (leb cost (refilled cfg now (find_bucket cfg now (get j l.buckets))))) [
      | inl enough ↦ rw enough (get-put_ne j k _ l.buckets other)
      | inr short ↦ rw short (get-put_ne j k _ l.buckets other)
    ]

try_acquire_other :
    (op key : String) (cost now : ℕ) (k : String × String) (l : RateLimiter)
    → (op, key) ≢ k
    → get k (try_acquire op key cost now l).0.buckets ≡ get k l.buckets
unfolding try_acquire
try_acquire_other op key cost now k l other = elim (Option-cases (get op l.configs)) [
  | inl e ↦ rw (e, try_acquire) refl
  | inr (cfg, e) ↦ elim (Bool-cases (is_empty key)) [
    | inl nameless ↦ rw (e, nameless, try_acquire) refl
    | inr named ↦ rw (e, named, try_acquire) (draw_other cfg (op, key) k cost now l other)
  ]
]

try_acquire_configs :
    (op key : String) (cost now : ℕ) (l : RateLimiter)
    → (try_acquire op key cost now l).0.configs ≡ l.configs
unfolding try_acquire draw
try_acquire_configs op key cost now l = ground arith

-- An attempt on the key itself: what it takes and what it leaves is what the refill gave.
draw-bucket :
    (cfg : RateConfig) (k : String × String) (cost now : ℕ) (l : RateLimiter)
    → (b : Bucket) × (get k (draw cfg k cost now l).0.buckets ≡ some b)
      × (b.last_refill ≡ now)
      × ((if (draw cfg k cost now l).1 then cost else 0) + b.tokens
          ≤ refilled cfg now (find_bucket cfg now (get k l.buckets)))
unfolding draw
draw-bucket cfg k cost now l =
    let full = refilled cfg now (find_bucket cfg now (get k l.buckets)) in
    elim (Bool-cases (leb cost full)) [
      | inl enough ↦ rw enough (
        record { tokens = full - cost; last_refill = now },
        get-put_self k _ l.buckets,
        refl,
        omega (arith, leb→le cost full enough),
      )
      | inr short ↦ rw short (
        record { tokens = full; last_refill = now },
        get-put_self k _ l.buckets,
        refl,
        omega arith,
      )
    ]

concerns-ne : (a : Attempt) (k : String × String) → concerns a k ≡ false → (a.op, a.key) ≢ k
unfolding concerns
concerns-ne a k h q = cc ((==_iff (a.op, a.key) k).1 q, h)

-- what is taken now and later, against what the refill gave and what the rate adds
paid :
    (allowed : Bool) (cost later left full extra all : ℕ)
    → (if allowed then cost else 0) + left ≤ full
    → later ≤ left + extra
    → full + extra ≤ all
    → (if allowed && true then cost + later else later) ≤ all
paid true cost later left full extra all h i j = omega arith
paid false cost later left full extra all h i j = omega arith

unasked :
    (allowed mine : Bool) (cost later left all : ℕ)
    → mine ≡ false
    → later ≤ left
    → left ≤ all
    → (if allowed && mine then cost + later else later) ≤ all
unasked allowed mine cost later left all h i j = ground arith

module _ (cfg : RateConfig) (op key : String) (until : ℕ) (named : is_empty key ≡ false) where
  own-eq-draw :
      (cost now : ℕ) (l : RateLimiter)
      → get op l.configs ≡ some cfg
      → try_acquire op key cost now l ≡ draw cfg (op, key) cost now l
  unfolding try_acquire
  own-eq-draw cost now l c = rw (c, named, try_acquire) refl

  acquire-eq-draw :
      (a : Attempt) (l : RateLimiter)
      → get op l.configs ≡ some cfg
      → concerns a (op, key) ≡ true
      → try_acquire a.op a.key a.cost a.now l ≡ draw cfg (op, key) a.cost a.now l
  unfolding concerns
  acquire-eq-draw a l c same =
      let q : (a.op, a.key) ≡ (op, key) = (==_iff (a.op, a.key) (op, key)).0 same in
      ap (λ (p : String × String). try_acquire p.0 p.1 a.cost a.now l) q
      ∙ own-eq-draw a.cost a.now l c

  granted-le-room :
      (rest : List Attempt) (now : ℕ) (l : RateLimiter)
      → get op l.configs ≡ some cfg
      → Timed now until rest
      → IsPast now (get (op, key) l.buckets)
      → granted (op, key) rest l ≤ room cfg now until (get (op, key) l.buckets)
  unfolding granted room
  granted-le-room [] now l c h p = omega arith
  granted-le-room (a ∷ rest) now l c h p =
      let l' = (try_acquire a.op a.key a.cost a.now l).0 in
      let c' : get op l'.configs ≡ some cfg =
        subst (λ d. get op d ≡ some cfg) (sym (try_acquire_configs a.op a.key a.cost a.now l)) c in
      elim (Bool-cases (concerns a (op, key))) [
        | inr other ↦
            let ne : (a.op, a.key) ≢ (op, key) = concerns-ne a (op, key) other in
            let e = try_acquire_other a.op a.key a.cost a.now (op, key) l ne in
            let ih =
              granted-le-room rest a.now l' c' h.1
                (subst (IsPast a.now) (sym e) (IsPast-later now a.now _ h.0 p)) in
            let le = subst (λ o. granted (op, key) rest l' ≤ room cfg a.now until o) e ih in
            let later =
              room_later cfg now a.now until (get (op, key) l.buckets) h.0
                (Timed-le a.now until rest h.1) in
            unasked (try_acquire a.op a.key a.cost a.now l).1 (concerns a (op, key)) a.cost _ _ _
              other le later
        | inl same ↦
            let q = acquire-eq-draw a l c same in
            let (b, e, at, spent) = draw-bucket cfg (op, key) a.cost a.now l in
            let e' = ap (λ (r : RateLimiter × Bool). get (op, key) r.0.buckets) q ∙ e in
            let ih =
              granted-le-room rest a.now l' c' h.1
                (subst (IsPast a.now) (sym e') (omega (arith, at))) in
            let le = subst (λ o. granted (op, key) rest l' ≤ room cfg a.now until o) e' ih in
            let full =
              refill_le cfg now a.now until (get (op, key) l.buckets) p h.0
                (Timed-le a.now until rest h.1) in
            rw (same, ap (λ (r : RateLimiter × Bool). r.1) q)
              (paid (draw cfg (op, key) a.cost a.now l).1 a.cost _ b.tokens _ _ _ spent
                (subst (λ n. granted (op, key) rest l' ≤ b.tokens + (until - n) * cfg.rate) at le)
                full)
      ]

-- For a configured operation and a key that is not empty and has no bucket: the units granted to
-- it by any attempts, with other operations and keys among them, at times that never go back, are
-- at most its burst and what its rate adds from the first moment to the last.
pub granted_bound :
    (cfg : RateConfig) (op key : String) (rest : List Attempt) (now until : ℕ) (l : RateLimiter)
    → is_empty key ≡ false
    → get op l.configs ≡ some cfg
    → get (op, key) l.buckets ≡ none
    → Timed now until rest
    → granted (op, key) rest l ≤ cfg.burst + (until - now) * cfg.rate
granted_bound cfg op key rest now until l named c fresh h =
    let at_fresh : room cfg now until (get (op, key) l.buckets)
        ≡ cfg.burst + (until - now) * cfg.rate =
      ap (room cfg now until) fresh ∙ unfold room in refl in
    let bound = granted-le-room cfg op key until named rest now l c h (rw fresh tt) in
    subst (λ n. granted (op, key) rest l ≤ n) at_fresh bound

-- After a pause in which the rate adds a whole burst, an attempt on a configured operation that
-- costs no more than the burst is granted.
pub try_acquire_after_pause :
    (cfg : RateConfig) (op key : String) (cost now : ℕ) (b : Bucket) (l : RateLimiter)
    → get op l.configs ≡ some cfg
    → get (op, key) l.buckets ≡ some b
    → cost ≤ cfg.burst
    → cfg.burst ≤ (now - b.last_refill) * cfg.rate
    → (try_acquire op key cost now l).1 ≡ true
unfolding try_acquire draw refilled find_bucket
try_acquire_after_pause cfg op key cost now b l c e small pause = elim (Bool-cases (is_empty key)) [
  | inl nameless ↦ rw (c, nameless, try_acquire) refl
  | inr named ↦
      let enough =
        le→leb cost (min cfg.burst (b.tokens + (now - b.last_refill) * cfg.rate)) (omega arith) in
      rw (c, named, try_acquire) (unfold draw in rw (e, enough) refl)
]
