-- ===== src/Prelude/Text/Number.antt =====
-- Python's `int(s)` on ASCII texts, and the counters that services restore from the ids in a table.
-- Decimal digits outside ASCII, which `int` accepts too, are read as errors: no id holds them.
use Prim.Native.Char.{code}
use Prim.Native.String
use mathlib.Core.Bool.{Bool, true, false, ◌||◌, ◌&&◌}
use telegram.Prelude.Tests.{if◌then◌else◌, leb, nat_eq, eq_nat, eq_string, ==_iff}
use telegram.Prelude.Lists.{All, elem}
use telegram.Prelude.Int.{ℤ, pos, negsuc, negate}
use Prim.Native.Nat.{ℕ, zero, suc, ◌+◌, ◌-◌, ◌*◌, ◌/◌, ◌%◌, ◌≤◌, ◌<◌, max}
use Prim.Native.String.{String}
use mathlib.Core.Path.{◌≡◌, refl, ap, ◌∙◌}
use mathlib.Core.Option.{Option, none, some}
use mathlib.Core.Option
use mathlib.Core.List.{List, [], ◌∷◌, ◌++◌}
use mathlib.Core.Logic.{◌≢◌}
use native.Mathlib.Omega.{arith}
use text.Mathlib.TextLemmas.{cons-append, nil-append}
use telegram.Prelude.Text.{
  Bytes, codes, emit, decimal, spell, spell-decimal, text_of, codes-text_of, numbered, IsDigit,
  All-decimal,
}

abbrev is_digit : ℕ → Bool
is_digit c = leb b'0' c && leb c b'9'

-- what `int` strips from an ASCII text
is_blank : ℕ → Bool
is_blank c = (leb 9 c && leb c 13) || nat_eq c 32

all_blank : Bytes → Bool
all_blank [] = true
all_blank (c ∷ s) = is_blank c && all_blank s

-- The digits behind `n`, with single underscores between them; the flag says whether a digit was last.
scan : Bytes → ℕ → Bool → Option ℕ
scan [] n last = if last then some n else none
scan (c ∷ s) n last =
    let more = scan s (n * 10 + (c - b'0')) true in
    let skip = scan s n false in
    if is_digit c
    then more
    else if last && nat_eq c b'_'
    then skip
    else if last && is_blank c && all_blank s
    then some n
    else none

signed : Bytes → Option ℤ
signed [] = none
signed (c ∷ s) =
    if nat_eq c b'-'
    then Option.map negate (scan s 0 false)
    else if nat_eq c b'+'
    then Option.map pos (scan s 0 false)
    else Option.map pos (scan (c ∷ s) 0 false)

skip_blank : Bytes → Bytes
skip_blank [] = []
skip_blank (c ∷ s) = let rest = skip_blank s in if is_blank c then rest else c ∷ s

-- `int(s)`; `none` is `ValueError`
unfoldable pub int_of : Bytes → Option ℤ
unfolding signed skip_blank scan all_blank is_blank
int_of s = signed (skip_blank s)

scan_digits : (s : Bytes) (n : ℕ) → All IsDigit s → scan s n true ≡ some (spell s n)
unfolding scan spell
scan_digits [] n h = refl
scan_digits (c ∷ s) n h = ground (arith, scan_digits s (n * 10 + (c - b'0')) h.1)

int_of_digits : (s : Bytes) → s ≢ [] → All IsDigit s → int_of s ≡ some (pos (spell s 0))
unfolding int_of spell
int_of_digits [] ne h = absurd (ne refl)
int_of_digits (c ∷ s) ne h = ground (arith, scan_digits s (0 * 10 + (c - b'0')) h.1)

emit-ne-nil : (f n : ℕ) (out : Bytes) → out ≢ [] → emit f n out ≢ []
unfolding emit
emit-ne-nil zero n out h = h
emit-ne-nil (suc f) n out h = ground (arith, emit-ne-nil f (n / 10) ((b'0' + n % 10) ∷ out))

pub decimal-ne-nil : (n : ℕ) → decimal n ≢ []
unfolding decimal
decimal-ne-nil zero = cc
decimal-ne-nil (suc k) = ground (arith, emit-ne-nil k (suc k / 10) ((b'0' + suc k % 10) ∷ []))

-- `int(str(n))` is `n`.
pub int_of-decimal : (n : ℕ) → int_of (decimal n) ≡ some (pos n)
int_of-decimal n =
    int_of_digits (decimal n) (decimal-ne-nil n) (All-decimal n)
    ∙ ap (λ k. some (pos k)) (spell-decimal n)

codes-append : (s t : String) → codes (String.◌++◌ s t) ≡ codes s ++ codes t
codes-append String.[] t = ap codes (nil-append t)
codes-append (String.◌∷◌ c s) t = rw (cons-append c s t) (ap (◌∷◌ (code c)) (codes-append s t))

-- `s.removeprefix(p)` where `s.startswith(p)`, and else `none`
unfoldable pub after_prefix : Bytes → Bytes → Option Bytes
after_prefix [] s = some s
after_prefix (p ∷ ps) [] = none
after_prefix (p ∷ ps) (c ∷ s) = if nat_eq p c then after_prefix ps s else none

pub after_prefix-append : (p s : Bytes) → after_prefix p (p ++ s) ≡ some s
unfolding after_prefix
after_prefix-append [] s = refl
after_prefix-append (c ∷ p) s = ground (arith, after_prefix-append p s)

-- The number in an id, 0 where the loop says `continue` or where the number is negative: `max` with
-- a number below `highest` changes nothing.
id_number : String → String → ℕ
id_number prefix id = elim (after_prefix (codes prefix) (codes id)) [
  | none ↦ 0
  | some rest ↦ elim (int_of rest) [ some (pos n) ↦ n | _ ↦ 0 ]
]

id_number-numbered : (prefix : String) (n : ℕ) → id_number prefix (numbered prefix n) ≡ n
unfolding id_number numbered
id_number-numbered prefix n = rw (
  codes-append prefix (text_of (decimal n)),
  after_prefix-append (codes prefix) (codes (text_of (decimal n))),
  codes-text_of (decimal n) (All-decimal n),
  int_of-decimal n,
  id_number,
)

-- The loops of `_next_remote_counter` and its like: the highest number of the ids, from `highest` on.
highest_number : String → List String → ℕ → ℕ
highest_number prefix [] highest = highest
highest_number prefix (id ∷ ids) highest =
    highest_number prefix ids (max highest (id_number prefix id))

unfoldable pub next_counter : ℕ → String → List String → ℕ
unfolding highest_number id_number int_of after_prefix
next_counter base prefix ids = highest_number prefix ids base + 1

highest_number-le : (prefix : String) (ids : List String) (h : ℕ) → h ≤ highest_number prefix ids h
unfolding highest_number
highest_number-le prefix [] h = omega arith
highest_number-le prefix (id ∷ ids) h =
    omega (arith, highest_number-le prefix ids (max h (id_number prefix id)))

highest_number-mem :
    (prefix : String) (ids : List String) (h n : ℕ)
    → elem (numbered prefix n) ids ≡ true
    → n ≤ highest_number prefix ids h
unfolding highest_number
highest_number-mem prefix [] h n m = cc
highest_number-mem prefix (id ∷ ids) h n m = ground (
  arith,
  ==_iff id (numbered prefix n),
  id_number-numbered prefix n,
  ap (id_number prefix),
  highest_number-le prefix ids (max h (id_number prefix id)),
  highest_number-mem prefix ids (max h (id_number prefix id)) n,
)

-- A counter restored from a table is above every number that one of its ids has.
pub next_counter_fresh :
    (base : ℕ) (prefix : String) (ids : List String) (n : ℕ)
    → elem (numbered prefix n) ids ≡ true
    → n < next_counter base prefix ids
unfolding next_counter
next_counter_fresh base prefix ids n m = omega (arith, highest_number-mem prefix ids base n m)

int_of_runs : int_of (codes " -1_000\n") ≡ some (negsuc 999)
unfolding int_of
int_of_runs = refl
