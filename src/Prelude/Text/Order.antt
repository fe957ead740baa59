-- ===== src/Prelude/Text/Order.antt =====
-- Python's order of strings, by code points, and `sorted` of a list of strings.
use mathlib.Core.Bool.{Bool, true, false}
use mathlib.Core.List.{List, [], ◌∷◌}
use mathlib.Core.Path.{◌≡◌, refl}
use Prim.Native.String.{String}
use telegram.Prelude.Tests.{if◌then◌else◌, ltb, nat_eq}
use telegram.Prelude.Text.{Bytes, codes}

codes_leb : Bytes → Bytes → Bool
codes_leb [] ds = true
codes_leb (c ∷ cs) [] = false
codes_leb (c ∷ cs) (d ∷ ds) =
    let rest = codes_leb cs ds in if ltb c d then true else if nat_eq c d then rest else false

insert_text : String → List String → List String
unfolding codes_leb
insert_text t [] = t ∷ []
insert_text t (u ∷ us) = if codes_leb (codes t) (codes u) then t ∷ u ∷ us else u ∷ insert_text t us

-- `sorted(texts)`
unfoldable pub sort_texts : List String → List String
unfolding insert_text
sort_texts [] = []
sort_texts (t ∷ ts) = insert_text t (sort_texts ts)

sort_texts_runs : sort_texts ("u_bob" ∷ "u_al" ∷ "u_alice" ∷ []) ≡ "u_al" ∷ "u_alice" ∷ "u_bob" ∷ []
unfolding sort_texts
sort_texts_runs = refl
