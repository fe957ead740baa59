-- ===== src/Chat/Uploads/Bounds.antt =====
-- The memory that uploads take.
use telegram.Prelude.{
  eq_nat, eq_string, eq_pair, ◌==◌, ==_iff, Bool-cases, length, keep, length-append, ℕ, suc, ◌+◌,
  ◌≤◌, ◌<◌, String, ◌≡◌, refl, sym, ap, subst, ◌∙◌, inl, inr, Bool, false, none, some, [], ◌∷◌,
  arith,
}
use telegram.Prelude.Dict.{Dict, get, put, pop, values, get-put, get-pop}
use telegram.Prelude.Text.{Bytes}
use telegram.Chat.{UploadSession}
use telegram.Chat.Uploads.{
  owned_by, extend, max_chunked_upload_bytes, max_active_uploads_total, max_active_uploads_per_user,
}

-- No upload holds more than it declared, none declares more than 64 MB, and the numbers of uploads
-- of everyone and of each user are within their limits.
pub record IsBounded (uploads : Dict String UploadSession) : Type 0 where
  pub filled :
      (id : String) (u : UploadSession)
      → get id uploads ≡ some u
      → length u.buffer ≤ u.total_size_bytes
  pub declared :
      (id : String) (u : UploadSession)
      → get id uploads ≡ some u
      → u.total_size_bytes ≤ max_chunked_upload_bytes
  pub total : length uploads ≤ max_active_uploads_total
  pub each :
      (user : String) → length (keep (owned_by user) (values uploads)) ≤ max_active_uploads_per_user

length-put-le :
    {V : Type 0} (k : String) (v : V) (d : Dict String V) → length (put k v d) ≤ suc (length d)
unfolding put
length-put-le k v [] = omega arith
length-put-le k v ((j, w) ∷ d) = ground (arith, length-put-le k v d)

length-put :
    {V : Type 0} (k : String) (v w : V) (d : Dict String V)
    → get k d ≡ some w
    → length (put k v d) ≡ length d
unfolding put get
length-put k v w [] h = cc h
length-put k v w ((j, x) ∷ d) h = ground (arith, length-put k v w d)

-- How many values pass a test.
abbrev count : {V : Type 0} (p : V → Bool) (d : Dict String V) → ℕ
count p d = length (keep p (values d))

count-put_new :
    {V : Type 0} (p : V → Bool) (k : String) (v : V) (d : Dict String V)
    → p v ≡ false
    → count p (put k v d) ≤ count p d
unfolding put
count-put_new p k v [] h = ground arith
count-put_new p k v ((j, w) ∷ d) h = ground (arith, count-put_new p k v d h)

count-put_le :
    {V : Type 0} (p : V → Bool) (k : String) (v : V) (d : Dict String V)
    → count p (put k v d) ≤ suc (count p d)
unfolding put
count-put_le p k v [] = ground arith
count-put_le p k v ((j, w) ∷ d) = ground (arith, count-put_le p k v d)

count-put_same :
    {V : Type 0} (p : V → Bool) (k : String) (v w : V) (d : Dict String V)
    → get k d ≡ some w
    → p v ≡ p w
    → count p (put k v d) ≡ count p d
unfolding put get
count-put_same p k v w [] h e = cc h
count-put_same p k v w ((j, x) ∷ d) h e = ground (arith, count-put_same p k v w d)

count-pop_le :
    {V : Type 0} (p : V → Bool) (k : String) (d : Dict String V) → count p (pop k d) ≤ count p d
unfolding pop
count-pop_le p k [] = omega arith
count-pop_le p k ((j, w) ∷ d) = ground (arith, count-pop_le p k d)

length-pop_le : {V : Type 0} (k : String) (d : Dict String V) → length (pop k d) ≤ length d
unfolding pop
length-pop_le k [] = omega arith
length-pop_le k ((j, w) ∷ d) = ground (arith, length-pop_le k d)

popped :
    {V : Type 0} (id j : String) (v : V) (d : Dict String V)
    → get j (pop id d) ≡ some v
    → get j d ≡ some v
popped id j v d e = elim (Bool-cases (id == j)) [
  | inl here ↦
      let gone : get j (pop id d) ≡ none = get-pop id j d ∙ rw here refl in absurd (cc (gone, e))
  | inr there ↦
      let before : get j (pop id d) ≡ get j d = get-pop id j d ∙ rw there refl in sym before ∙ e
]

-- What an upload that was written, or another one, has.
put-cases :
    {V : Type 0} (P : V → Type 0) (id j : String) (u v : V) (d : Dict String V)
    → get j (put id u d) ≡ some v
    → P u
    → (get j d ≡ some v → P v)
    → P v
put-cases P id j u v d e hu hv = elim (Bool-cases (id == j)) [
  | inl here ↦
      let now_u : get j (put id u d) ≡ some u = get-put id j u d ∙ rw here refl in
      let same : u ≡ v = cc (now_u, e) in subst P same hu
  | inr there ↦
      let before : get j (put id u d) ≡ get j d = get-put id j u d ∙ rw there refl in
      hv (sym before ∙ e)
]

module _ (uploads : Dict String UploadSession) (h : IsBounded uploads) (id : String) where
  -- A chunk that fits goes into an upload that is there.
  pub extended :
      (u : UploadSession) (chunk : Bytes)
      → get id uploads ≡ some u
      → length u.buffer + length chunk ≤ u.total_size_bytes
      → IsBounded (put id (extend chunk u) uploads)
  extended u chunk found fits = record {
    filled = λ j v e.
        put-cases (λ w. length w.buffer ≤ w.total_size_bytes) id j (extend chunk u) v uploads e
          (omega (arith, length-append u.buffer chunk, fits)) (h.filled j v);
    declared = λ j v e.
        put-cases (λ w. w.total_size_bytes ≤ max_chunked_upload_bytes) id j (extend chunk u) v
          uploads e (h.declared id u found) (h.declared j v);
    total = omega (arith, h.total, length-put id (extend chunk u) u uploads found);
    each = λ user. omega (
      arith,
      h.each user,
      count-put_same (owned_by user) id (extend chunk u) u uploads found refl,
    );
  }

  -- A new upload, or a new one in the place of another.
  pub begun :
      (u : UploadSession)
      → u.buffer ≡ []
      → u.total_size_bytes ≤ max_chunked_upload_bytes
      → length uploads < max_active_uploads_total
      → length (keep (owned_by u.user_id) (values uploads)) < max_active_uploads_per_user
      → IsBounded (put id u uploads)
  begun u empty small room few = record {
    filled = λ j v e.
        put-cases (λ w. length w.buffer ≤ w.total_size_bytes) id j u v uploads e
          (omega (arith, ap length empty)) (h.filled j v);
    declared = λ j v e.
        put-cases (λ w. w.total_size_bytes ≤ max_chunked_upload_bytes) id j u v uploads e small
          (h.declared j v);
    total = omega (arith, length-put-le id u uploads);
    each = λ user. elim (Bool-cases (u.user_id == user)) [
      | inl mine ↦
          subst
            (λ w.
              length (keep (owned_by w) (values (put id u uploads))) ≤ max_active_uploads_per_user)
            ((==_iff u.user_id user).0 mine)
            (omega (arith, few, count-put_le (owned_by u.user_id) id u uploads))
      | inr other ↦ omega (arith, h.each user, count-put_new (owned_by user) id u uploads other)
    ];
  }

  pub ended : IsBounded (pop id uploads)
  ended = record {
    filled = λ j v e. h.filled j v (popped id j v uploads e);
    declared = λ j v e. h.declared j v (popped id j v uploads e);
    total = omega (arith, h.total, length-pop_le id uploads);
    each = λ user. omega (arith, h.each user, count-pop_le (owned_by user) id uploads);
  }
