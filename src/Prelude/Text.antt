-- ===== src/Prelude/Text.antt =====
-- Texts and bytes: decimals (`str(n)`, `int(b)`), f-string ids, and `strip`.
pub mod Number
pub mod Order
use Prim.Native.Char.{Char, code}
use Prim.Native.String
use mathlib.Core.Bool.{Bool, true, false, ◌||◌, ◌&&◌}
use telegram.Prelude.Tests.{if◌then◌else◌, leb, nat_eq}
use telegram.Prelude.Lists.{All}
use Prim.Native.Nat.{ℕ, zero, suc, ◌+◌, ◌-◌, ◌*◌, ◌/◌, ◌%◌, ◌≤◌}
use Prim.Native.String.{String}
use mathlib.Core.Path.{◌≡◌, refl, ap, ◌∙◌, sym}
use mathlib.Core.List.{List, [], ◌∷◌}
use native.Mathlib.Omega.{arith}
use text.Mathlib.TextLemmas.{append_cancel_left}

abbrev pub Bytes : Type 0
Bytes = List ℕ

abbrev pub codes : String → Bytes
codes String.[] = []
codes (String.◌∷◌ c s) = code c ∷ codes s

-- The digits of `n` in front of `out`; the fuel `n` is more than its number of digits.
pub emit : ℕ → ℕ → Bytes → Bytes
emit zero n out = out
emit (suc f) n out =
    let rest = emit f (n / 10) ((b'0' + n % 10) ∷ out) in if nat_eq n 0 then out else rest

-- `str(n)` as ASCII bytes
unfoldable pub decimal : ℕ → Bytes
unfolding emit
decimal n = if nat_eq n 0 then b'0' ∷ [] else emit n n []

-- the number that a run of digits spells behind `n`
pub spell : Bytes → ℕ → ℕ
spell [] n = n
spell (c ∷ s) n = spell s (n * 10 + (c - b'0'))

spell-emit : (f n : ℕ) (out : Bytes) → n ≤ f → spell (emit f n out) 0 ≡ spell out n
unfolding spell emit
spell-emit zero n out h = ap (spell out) (omega arith)
spell-emit (suc f) n out h = ground (arith, spell-emit f (n / 10) ((b'0' + n % 10) ∷ out))

pub spell-decimal : (n : ℕ) → spell (decimal n) 0 ≡ n
unfolding spell decimal
spell-decimal n = ground (arith, spell-emit n n [])

-- Two numbers with the same decimal are equal.
pub decimal_injective : (m n : ℕ) → decimal m ≡ decimal n → m ≡ n
decimal_injective m n h = sym (spell-decimal m) ∙ ap (λ s. spell s 0) h ∙ spell-decimal n

abbrev pub IsDigit : ℕ → Type 0
IsDigit c = (b'0' ≤ c) × (c ≤ b'9')

All-emit : (f n : ℕ) (out : Bytes) → All IsDigit out → All IsDigit (emit f n out)
unfolding emit
All-emit zero n out h = h
All-emit (suc f) n out h =
    ground (arith, All-emit f (n / 10) ((b'0' + n % 10) ∷ out) ((omega arith, omega arith), h))

pub All-decimal : (n : ℕ) → All IsDigit (decimal n)
unfolding decimal
All-decimal n = ground (arith, All-emit n n [] tt)

abbrev digit_char : ℕ → Char
digit_char c =
    if nat_eq c b'0'
    then "0"
    else if nat_eq c b'1'
    then "1"
    else if nat_eq c b'2'
    then "2"
    else if nat_eq c b'3'
    then "3"
    else if nat_eq c b'4'
    then "4"
    else if nat_eq c b'5'
    then "5"
    else if nat_eq c b'6'
    then "6"
    else if nat_eq c b'7'
    then "7"
    else if nat_eq c b'8'
    then "8"
    else "9"

code-if : (b : Bool) (x y : Char) → code (if b then x else y) ≡ (if b then code x else code y)
code-if true x y = refl
code-if false x y = refl

code-digit_char : (c : ℕ) → IsDigit c → code (digit_char c) ≡ c
code-digit_char c h = simp code-if (ground arith)

unfoldable pub text_of : Bytes → String
text_of [] = String.[]
text_of (c ∷ s) = String.◌∷◌ (digit_char c) (text_of s)

pub codes-text_of : (s : Bytes) → All IsDigit s → codes (text_of s) ≡ s
unfolding text_of
codes-text_of [] h = refl
codes-text_of (c ∷ s) h = cc (code-digit_char c h.0, codes-text_of s h.1)

-- `f"{prefix}{n}"`
unfoldable pub numbered : String → ℕ → String
unfolding text_of decimal
numbered prefix n = String.◌++◌ prefix (text_of (decimal n))

-- Ids with one prefix are as distinct as their numbers.
pub numbered_injective : (p : String) (m n : ℕ) → numbered p m ≡ numbered p n → m ≡ n
unfolding numbered
numbered_injective p m n h = decimal_injective m n (
    sym (codes-text_of (decimal m) (All-decimal m))
    ∙ ap codes (append_cancel_left p _ _ h)
    ∙ codes-text_of (decimal n) (All-decimal n))

-- `str.isspace` of one character
pub is_space : ℕ → Bool
is_space c =
    (leb 9 c && leb c 13)
    || (leb 28 c && leb c 32)
    || nat_eq c 133
    || nat_eq c 160
    || nat_eq c 5760
    || (leb 8192 c && leb c 8202)
    || nat_eq c 8232
    || nat_eq c 8233
    || nat_eq c 8239
    || nat_eq c 8287
    || nat_eq c 12288

-- `not s`
abbrev pub is_empty : String → Bool
is_empty String.[] = true
is_empty (String.◌∷◌ c s) = false

lstrip : String → String
lstrip String.[] = String.[]
lstrip (String.◌∷◌ c s) = let rest = lstrip s in if is_space (code c) then rest else String.◌∷◌ c s

rstrip : String → String
rstrip String.[] = String.[]
rstrip (String.◌∷◌ c s) =
    let rest = rstrip s in
    if is_space (code c) && is_empty rest then String.[] else String.◌∷◌ c rest

-- `s.strip()`
unfoldable pub strip : String → String
unfolding lstrip rstrip is_space
strip s = rstrip (lstrip s)

-- `len(s)`, in characters
unfoldable pub text_length : String → ℕ
text_length String.[] = 0
text_length (String.◌∷◌ c s) = suc (text_length s)

strip_runs : strip "  hello there \n" ≡ "hello there"
unfolding strip
strip_runs = refl

numbered_runs : numbered "call_" 120 ≡ "call_120"
unfolding numbered
numbered_runs = refl
