-- ===== src/Drafts/Rules.antt =====
-- What a draft reads as after a save or a clear.
use telegram.Prelude.{
  eq_nat, eq_string, eq_pair, ◌==◌, ==_iff, if◌then◌else◌, Bool-cases, String, ◌≡◌, refl, sym, ap,
  ◌∙◌, inl, inr, Option, none, some,
}
use telegram.Prelude.Dict.{get, get-put, get-pop}
use telegram.State.{DraftRecord, InMemoryState, save_runtime_state}
use telegram.Drafts.{set_draft, clear_found, clear}

set_draft-drafts :
    (key at : String × String) (o : Option DraftRecord) (s : InMemoryState)
    → get at (set_draft key o s).drafts ≡ (if key == at then o else get at s.drafts)
unfolding set_draft save_runtime_state
set_draft-drafts key at none s = get-pop key at s.drafts
set_draft-drafts key at (some d) s = get-put key at d s.drafts

cleared :
    (key at : String × String) (o : Option DraftRecord) (s : InMemoryState)
    → get key s.drafts ≡ o
    → get at (clear_found key o s).0.drafts ≡ (if key == at then none else get at s.drafts)
unfolding clear_found
cleared key at (some d) s e = set_draft-drafts key at none s
cleared key at none s e = elim (Bool-cases (key == at)) [
  | inl same ↦ rw same (ap (λ x. get x s.drafts) (sym ((==_iff key at).0 same)) ∙ e)
  | inr other ↦ rw other refl
]

-- After a `clear` the user has no draft in the conversation, and every other draft is as before.
pub get-clear :
    (u c : String) (s : InMemoryState) (v d : String)
    → get (v, d) (clear u c s).0.drafts
      ≡ (if ◌==◌ {A = String × String} (u, c) (v, d) then none else get (v, d) s.drafts)
unfolding clear
get-clear u c s v d = cleared (u, c) (v, d) (get (u, c) s.drafts) s refl
