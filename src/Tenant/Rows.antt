-- ===== src/Tenant/Rows.antt =====
-- internal/tenant: what a transaction on the tables leaves, for a property of the store.
use racetify_api.Base.{
  String, ◌≡◌, refl, sym, ◌∙◌, Bool, true, false, List, [], ◌∷◌, some, inl, inr, ◌==◌, arith,
  Bool-cases, Option-cases, find, keep, modify_first,
}
use racetify_api.Domain.{ok, err, Result-cases}
use racetify_api.Database.{Tx, with_tx, with_tenant_tx}
use racetify_api.Tenant.{update_row, get_row}

with_tx-kept :
    {S A : Type 0} (I : S → Type 0) (m : Tx S A) (s : S)
    → I s
    → ((a : A) (s' : S) → m s ≡ ok (a, s') → I s')
    → I (with_tx m s).1
with_tx-kept I m s before after = elim (Result-cases (m s)) [
  | inl ((a, s'), e) ↦ rw (e, with_tx) (after a s' e)
  | inr (x, e) ↦ rw (e, with_tx) before
]

-- A transaction leaves the store it started from, or the one it committed.
pub with_tenant_tx-kept :
    {S A : Type 0} (I : S → Type 0) (tenant_id : String) (m : Tx S A) (s : S)
    → I s
    → ((a : A) (s' : S) → m s ≡ ok (a, s') → I s')
    → I (with_tenant_tx tenant_id m s).1
with_tenant_tx-kept I tenant_id m s before after = elim (Bool-cases (tenant_id == "")) [
  | inl t ↦ rw t before
  | inr t ↦ rw t (with_tx-kept I m s before after)
]

-- A transaction that succeeds committed what it says.
pub with_tenant_tx-eq-ok :
    {S A : Type 0} (tenant_id : String) (m : Tx S A) (s s' : S) (a : A)
    → with_tenant_tx tenant_id m s ≡ (ok a, s')
    → m s ≡ ok (a, s')
with_tenant_tx-eq-ok tenant_id m s s' a h = elim (Bool-cases (tenant_id == "")) [
  | inl t ↦ ground arith
  | inr t ↦ elim (Result-cases (m s)) [
    | inl ((b, s''), e) ↦
        let out : (ok b, s'') ≡ (ok a, s') = rw (e, with_tx) at (rw t at h) in e ∙ cc (out)
    | inr (x, e) ↦ let out : (err x, s) ≡ (ok a, s') = rw (e, with_tx) at (rw t at h) in cc (out)
  ]
]

pub update_row-eq-ok {ℓ} :
    {A : Type ℓ} (key where_ : A → Bool) (change : A → A) (xs ys : List A)
    → update_row key where_ change xs ≡ ok ys
    → (a : A) × (find key xs ≡ some a) × (where_ a ≡ true) × (ys ≡ modify_first key change xs)
unfolding update_row
update_row-eq-ok key where_ change xs ys h = elim (Option-cases (find key xs)) [
  | inl n ↦ let out = rw (n, update_row) at h in cc (out)
  | inr (a, e) ↦ elim (Bool-cases (where_ a)) [
    | inl t ↦ let out = rw t at (rw (e, update_row) at h) in (a, e, t, sym (ground (arith, out)))
    | inr t ↦ let out = rw t at (rw (e, update_row) at h) in cc (out)
  ]
]

pub get_row-eq-ok {ℓ} :
    {A : Type ℓ} (key : A → Bool) (xs : List A) (a : A)
    → get_row key xs ≡ ok a
    → find key xs ≡ some a
unfolding get_row
get_row-eq-ok key xs a h = ground arith

-- Changing the row with the key leaves a selection alone that has the row neither before nor after.
pub keep-modify_first_found {ℓ} :
    {A : Type ℓ} (p key : A → Bool) (f : A → A) (xs : List A) (a : A)
    → find key xs ≡ some a
    → p a ≡ false
    → p (f a) ≡ false
    → keep p (modify_first key f xs) ≡ keep p xs
keep-modify_first_found p key f [] a found off off' = refl
keep-modify_first_found p key f (x ∷ xs) a found off off' = elim (Bool-cases (key x)) [
  | inl t ↦
      let same : x ≡ a = ground arith in
      let gone : p x ≡ false = rw same off in
      let gone' : p (f x) ≡ false = rw same off' in ground (arith, gone, gone')
  | inr t ↦ ground (arith, keep-modify_first_found p key f xs a (ground arith) off off')
]

-- The row with the key is the changed one afterwards.
pub find-modify_first_found {ℓ} :
    {A : Type ℓ} (key : A → Bool) (f : A → A) (xs : List A) (a : A)
    → find key xs ≡ some a
    → key (f a) ≡ true
    → find key (modify_first key f xs) ≡ some (f a)
find-modify_first_found key f [] a found on = cc
find-modify_first_found key f (x ∷ xs) a found on = elim (Bool-cases (key x)) [
  | inl t ↦
      let same : x ≡ a = ground arith in
      let here : key (f x) ≡ true = rw same on in rw (sym same) (ground (arith, here))
  | inr t ↦ ground (arith, find-modify_first_found key f xs a (ground arith) on)
]
