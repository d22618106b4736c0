-- ===== src/Inventory/Refines.antt =====
-- The slice of profiles behaves as a map from names to profiles.
use manager.Prelude.{
  ◌≡◌, refl, sym, ap, ◌∙◌, inl, inr, Bool, true, false, not, Option, none, some, List, [], ◌∷◌,
  ◌++◌, String, ◌&&◌, ◌==◌, ==-self, string_eq, eq_iff, if◌then◌else◌, Result, is_ok, Bool-cases,
  Option-cases, arith,
}
use manager.Inventory.Catalog.{
  Profile, SliceError, find_row, change_row, drop_row, or_missing, profile, profile_name,
  create_profile, update_profile, delete_profile,
}

-- No two profiles have one name.
abbrev pub Distinct : List Profile → Type 0
Distinct [] = Unit
Distinct (p ∷ ps) = (find_row profile_name p.name ps ≡ none) × Distinct ps

find : String → List Profile → Option Profile
find k ps = find_row profile_name k ps

find-append :
    (k : String) (ps : List Profile) (p : Profile)
    → find_row profile_name p.name ps ≡ none
    → find_row profile_name k (ps ++ p ∷ [])
      ≡ (if p.name == k then some p else find_row profile_name k ps)
unfolding find_row
find-append k [] p n = refl
find-append k (q ∷ ps) p n =
    ground (arith, find-append k ps p, eq_iff q.name k, eq_iff p.name k, eq_iff q.name p.name)

abbrev pub has : {A : Type 0} → Option A → Bool
has none = false
has (some a) = true

find-change :
    (k : String) (p : Profile) (ps : List Profile)
    → find_row profile_name k (change_row profile_name p.name (λ _. p) ps).0 ≡ (
        if p.name == k && has (find_row profile_name p.name ps)
        then some p
        else find_row profile_name k ps)
unfolding find_row change_row
find-change k p [] = ground (arith, ==-self p.name)
find-change k p (q ∷ ps) =
    ground (arith, find-change k p ps, eq_iff q.name k, eq_iff p.name k, eq_iff q.name p.name)

found-change :
    (p : Profile) (ps : List Profile)
    → has (change_row profile_name p.name (λ _. p) ps).1 ≡ has (find_row profile_name p.name ps)
unfolding find_row change_row
found-change p [] = refl
found-change p (q ∷ ps) = ground (arith, found-change p ps)

-- A name that is not there is not there under an equal name.
find-same :
    (a k : String) (ps : List Profile)
    → (a == k) ≡ true
    → find_row profile_name a ps ≡ none
    → find_row profile_name k ps ≡ none
find-same a k ps e n = ap (λ x. find_row profile_name x ps) (sym ((eq_iff a k).0 e)) ∙ n

Distinct-change :
    (p : Profile) (ps : List Profile)
    → Distinct ps
    → Distinct (change_row profile_name p.name (λ _. p) ps).0
unfolding change_row
Distinct-change p [] d = tt
Distinct-change p (q ∷ ps) d = elim (Bool-cases (q.name == p.name)) [
  | inl e ↦ let gone = find-same q.name p.name ps e d.0 in rw e (gone, d.1)
  | inr e ↦ rw e (
    find-change q.name p ps ∙ ground (arith, eq_iff q.name p.name, eq_iff p.name q.name, e, d.0),
    Distinct-change p ps d.1,
  )
]

find-drop :
    (k name : String) (ps : List Profile)
    → Distinct ps
    → find_row profile_name k (drop_row profile_name name ps).0
      ≡ (if name == k then none else find_row profile_name k ps)
unfolding find_row drop_row
find-drop k name [] d = ground arith
find-drop k name (q ∷ ps) d = elim (Bool-cases (q.name == name)) [
  | inl e ↦
      ground
        (arith, e, find-same q.name k ps, d.0, eq_iff q.name k, eq_iff name k, eq_iff q.name name)
  | inr e ↦
      ground (arith, e, find-drop k name ps d.1, eq_iff q.name k, eq_iff name k, eq_iff q.name name)
]

dropped :
    (name : String) (ps : List Profile)
    → has (drop_row profile_name name ps).1 ≡ has (find_row profile_name name ps)
unfolding find_row drop_row
dropped name [] = refl
dropped name (q ∷ ps) = ground (arith, dropped name ps)

Distinct-drop :
    (name : String) (ps : List Profile) → Distinct ps → Distinct (drop_row profile_name name ps).0
unfolding drop_row
Distinct-drop name [] d = tt
Distinct-drop name (q ∷ ps) d = elim (Bool-cases (q.name == name)) [
  | inl e ↦ rw e d.1
  | inr e ↦ rw e (find-drop q.name name ps d.1 ∙ ground (arith, d.0), Distinct-drop name ps d.1)
]

Distinct-append :
    (p : Profile) (ps : List Profile)
    → find_row profile_name p.name ps ≡ none
    → Distinct ps
    → Distinct (ps ++ p ∷ [])
unfolding find_row
Distinct-append p [] n d = (refl, tt)
Distinct-append p (q ∷ ps) n d = elim (Bool-cases (q.name == p.name)) [
  | inl e ↦ absurd (let k = rw e at n in cc)
  | inr e ↦
      let rest = rw e at n in
      (
        find-append q.name ps p rest
            ∙ ground (arith, e, d.0, eq_iff q.name p.name, eq_iff p.name q.name),
        Distinct-append p ps rest d.1,
      )
]

-- A change to the profiles.
pub data ProfileOp : Type 0 where
  creates : Profile → ProfileOp
  updates : Profile → ProfileOp
  deletes : String → ProfileOp

unfoldable pub profile_step : ProfileOp → List Profile → List Profile × Result SliceError (Unit {0})
profile_step (creates p) ps = create_profile p ps
profile_step (updates p) ps = update_profile p ps
profile_step (deletes name) ps = delete_profile name ps

-- The name of the profile that an operation is about, and what the map has there afterwards.
abbrev pub subject : ProfileOp → String
subject (creates p) = p.name
subject (updates p) = p.name
subject (deletes name) = name

abbrev pub spec_result : ProfileOp → Option Profile
spec_result (creates p) = some p
spec_result (updates p) = some p
spec_result (deletes name) = none

-- Whether a map that has `found` under the name takes the operation.
unfoldable pub spec_accepts : ProfileOp → Option Profile → Bool
spec_accepts (creates p) found = not (has found)
spec_accepts (updates p) found = has found
spec_accepts (deletes name) found = has found

-- A map after the operation.
unfoldable pub spec_step : ProfileOp → (String → Option Profile) → String → Option Profile
unfolding spec_accepts
spec_step op m k =
    if subject op == k && spec_accepts op (m (subject op)) then spec_result op else m k

or_missing-ok : {A : Type 0} (r : List A × Option A) → is_ok (or_missing r).1 ≡ has r.1
unfolding or_missing
or_missing-ok (rows, none) = refl
or_missing-ok (rows, some a) = refl

or_missing-rows : {A : Type 0} (r : List A × Option A) → (or_missing r).0 ≡ r.0
unfolding or_missing
or_missing-rows (rows, none) = refl
or_missing-rows (rows, some a) = refl

-- The profiles of the memory store refine a map from names to profiles. When no two of them have one
-- name: after a creation, an update or a deletion Profile answers for every name as the map that only
-- the operation's own name was changed in, the operation succeeds exactly when the map takes it (a
-- creation needs the name free, the others need it in use), and still no two profiles have one name.
pub profile_step-refines :
    (op : ProfileOp) (ps : List Profile)
    → Distinct ps
    → ((k : String) → profile k (profile_step op ps).0 ≡ spec_step op (λ name. profile name ps) k)
      × (is_ok (profile_step op ps).1 ≡ spec_accepts op (profile (subject op) ps))
      × Distinct (profile_step op ps).0
unfolding profile_step profile spec_step spec_accepts create_profile update_profile delete_profile
profile_step-refines (creates p) ps d = elim (Option-cases (find_row profile_name p.name ps)) [
  | inl n ↦
      rw (n, create_profile)
        (λ k. find-append k ps p n ∙ ground arith, refl, Distinct-append p ps n d)
  | inr (x, n) ↦ rw (n, create_profile) (λ k. ground arith, refl, d)
]
profile_step-refines (updates p) ps d =
    let r = change_row profile_name p.name (λ _. p) ps in
    (
      λ k. ap (find_row profile_name k) (or_missing-rows r) ∙ find-change k p ps,
      or_missing-ok r ∙ found-change p ps,
      rw (or_missing-rows r) (Distinct-change p ps d),
    )
profile_step-refines (deletes name) ps d =
    let r = drop_row profile_name name ps in
    (
      λ k.
          ap (find_row profile_name k) (or_missing-rows r)
          ∙ find-drop k name ps d
          ∙ ground (arith, find-same k name ps, eq_iff name k, eq_iff k name),
      or_missing-ok r ∙ dropped name ps,
      rw (or_missing-rows r) (Distinct-drop name ps d),
    )
