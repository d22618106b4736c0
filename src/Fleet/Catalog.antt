-- ===== src/Fleet/Catalog.antt =====
-- What the calls on profiles do to the catalog and to the audit log.
use manager.Prelude.{
  ◌≡◌, ◌≢◌, ◌⊎◌, refl, sym, ap, subst, ◌∙◌, Bool-cases, arith, inl, inr, true, false, Option, none,
  some, List, [], ◌∷◌, ◌++◌, String, ◌==◌, string_eq, eq_iff, Result, ok, err, ok_eq, is_ok, >>=-ok,
  Result-cases, ◌>>=◌, ◌>>◌, refuse_if, Option-cases,
}
use manager.OperatorCa.Base.{Bytes}
use manager.Authz.{Identity}
use manager.Inventory.Catalog.{Profile, SliceError, profile}
use manager.Inventory.Refines.{
  Distinct, ProfileOp, creates, updates, deletes, subject, profile_step, spec_accepts, spec_step,
  profile_step-refines,
}
use manager.Fleet.{
  State, Refusal, invalid_argument, profile_exists, profile_not_found, require_admin,
}
use manager.Fleet.Removal.{
  IsAdmin, require_admin-IsAdmin, IsAdmin-require_admin, guards-ok, ok-guards,
}
use manager.Fleet.Profiles.{
  validate_profile, marshal_profile, to_store, after_store, create_row, update_row, delete_row,
  create_profile_call, update_profile_call, delete_profile_call,
}

-- The calls that change profiles.
pub data Call (M : Type 0) : Type 0 where
  create update : Option M → Call M
  remove : String → Call M

abbrev pub kind_of : ProfileOp → String
kind_of (creates p) = "profile-created"
kind_of (updates p) = "profile-updated"
kind_of (deletes name) = "profile-deleted"

-- The state after the operation.
abbrev pub Did : State → State → ProfileOp → Type 0
Did s t op =
    ((k : String) → profile k t.profiles ≡ spec_step op (λ name. profile name s.profiles) k)
    × (t.audit ≡ s.audit ++ record { kind = kind_of op; target_id = subject op } ∷ [])
    × (t.inventory ≡ s.inventory)
    × (t.enrollments ≡ s.enrollments)
    × Distinct t.profiles

module _ {M : Type 0} (name_of : M → String) (marshal : M → Option Bytes) where
  -- The row that a message asks for: its name, and its bytes as the specification.
  abbrev pub Describes : Option M → Profile → Type 0
  Describes none p = ⊥
  Describes (some m) p = (p.name ≡ name_of m) × (marshal m ≡ some p.spec)

  -- The operation that a call asks for.
  abbrev pub Asks : Call M → ProfileOp → Type 0
  Asks (create msg) (creates p) = Describes msg p
  Asks (update msg) (updates p) = Describes msg p
  Asks (remove name) (deletes name') = name ≡ name'
  Asks _ _ = ⊥

  -- An administrator's call asks for the operation, names a profile, and the map takes the operation.
  abbrev pub Allowed : Call M → Option Identity → State → ProfileOp → Type 0
  Allowed call caller s op =
      Asks call op
      × IsAdmin caller
      × (subject op ≢ "")
      × (spec_accepts op (profile (subject op) s.profiles) ≡ true)

  -- A call whose operation is not allowed is refused and changes nothing; another did its operation.
  abbrev pub Outcome : Call M → Option Identity → State → State × Result Refusal (Unit {0}) → Type 0
  Outcome call caller s r =
      ((is_ok r.1 ≡ false) × (r.0 ≡ s) × ((op : ProfileOp) → ¬ (Allowed call caller s op)))
      ⊎ ((is_ok r.1 ≡ true) × ((op : ProfileOp) × Allowed call caller s op × Did s r.0 op))

module _ {M : Type 0} (name_of : M → String) (marshal : M → Option Bytes) where
  unfoldable pub profile_call : Call M → Option Identity → State → State × Result Refusal (Unit {0})
  profile_call (create msg) caller s = create_profile_call name_of marshal caller msg s
  profile_call (update msg) caller s = update_profile_call name_of marshal caller msg s
  profile_call (remove name) caller s = delete_profile_call caller name s

  stored-Describes :
      (caller : Option Identity) (msg : Option M) (p : Profile)
      → to_store name_of marshal caller msg ≡ ok p
      → Describes name_of marshal msg p × IsAdmin caller × (p.name ≢ "")
  unfolding to_store validate_profile marshal_profile
  stored-Describes caller none p h =
      let (u, a, rest) = >>=-ok (require_admin caller) (λ _. err invalid_argument) h in absurd (cc)
  stored-Describes caller (some m) p h =
      let (u, a, rest) =
        >>=-ok (require_admin caller)
          (λ _. (refuse_if (name_of m == "") invalid_argument >> ok m) >>= λ x.
            marshal_profile name_of marshal x)
          h in
      elim (Bool-cases (name_of m == "")) [
        | inl e ↦ absurd (let k = rw e at rest in cc)
        | inr e ↦ elim (Option-cases (marshal m)) [
          | inl z ↦ absurd (let k = rw (e, marshal_profile, z) at rest in cc)
          | inr (raw, z) ↦
              let row : Profile = record { name = name_of m; spec = raw } in
              let same : row ≡ p = ok_eq (rw (e, marshal_profile, z) at rest) in
              rw (← same) (
                (refl, z),
                require_admin-IsAdmin caller a,
                λ q. let k = (eq_iff (name_of m) "").1 q in cc,
              )
        ]
      ]

  Describes-stored :
      (caller : Option Identity) (msg : Option M) (p : Profile)
      → Describes name_of marshal msg p
      → IsAdmin caller
      → p.name ≢ ""
      → to_store name_of marshal caller msg ≡ ok p
  unfolding to_store validate_profile marshal_profile
  Describes-stored caller none p d a ne = absurd d
  Describes-stored caller (some m) p (n, raw) a ne =
      let given : (name_of m == "") ≡ false = ground (arith, eq_iff (name_of m) "", n, ne) in
      rw (IsAdmin-require_admin caller a, given, marshal_profile, raw, ← n) refl

-- What the end of a call makes of an operation on the store.
abbrev Stored : ProfileOp → State → State × Result Refusal (Unit {0}) → Type 0
Stored op s r =
    ((is_ok r.1 ≡ false) × (r.0 ≡ s) × (spec_accepts op (profile (subject op) s.profiles) ≡ false))
    ⊎ ((is_ok r.1 ≡ true)
        × (spec_accepts op (profile (subject op) s.profiles) ≡ true)
        × Did s r.0 op)

after_store-Stored :
    (op : ProfileOp) (refusal : Refusal) (s : State)
    → Distinct s.profiles
    → Stored op s (after_store (kind_of op) (subject op) refusal s (profile_step op s.profiles))
unfolding after_store
after_store-Stored op refusal s d =
    let (looks, accepts, still) = profile_step-refines op s.profiles d in
    go (profile_step op s.profiles) looks accepts still
  where
    go :
        (r : List Profile × Result SliceError (Unit {0}))
        → ((k : String) → profile k r.0 ≡ spec_step op (λ name. profile name s.profiles) k)
        → is_ok r.1 ≡ spec_accepts op (profile (subject op) s.profiles)
        → Distinct r.0
        → Stored op s (after_store (kind_of op) (subject op) refusal s r)
    go (ps, err e) looks accepts still = inl (refl, refl, sym accepts)
    go (ps, ok u) looks accepts still = inr (refl, sym accepts, (looks, refl, refl, refl, still))

module _ {M : Type 0} (name_of : M → String) (marshal : M → Option Bytes) where
  -- The operation that a call asks for is the only one.
  only-Outcome :
      (call : Call M) (caller : Option Identity) (s : State) (op : ProfileOp)
      (r : State × Result Refusal (Unit {0}))
      → Asks name_of marshal call op
      → IsAdmin caller
      → subject op ≢ ""
      → ((other : ProfileOp) → Allowed name_of marshal call caller s other → other ≡ op)
      → Stored op s r
      → Outcome name_of marshal call caller s r
  only-Outcome call caller s op r asks a ne only (inl (bad, same, refused)) = inl (
    bad,
    same,
    λ other allowed.
        let it = only other allowed in
        let taken =
          subst (λ x. spec_accepts x (profile (subject x) s.profiles) ≡ true) it allowed.3 in
        cc,
  )
  only-Outcome call caller s op r asks a ne only (inr (done, taken, did)) =
      inr (done, (op, (asks, a, ne, taken), did))

  created :
      (caller : Option Identity) (msg : Option M) (s : State) (op : ProfileOp)
      → Allowed name_of marshal (create msg) caller s op
      → (p : Profile) × (op ≡ creates p) × (to_store name_of marshal caller msg ≡ ok p)
  created caller msg s (creates p) (d, a, ne, t) =
      (p, refl, Describes-stored name_of marshal caller msg p d a ne)
  created caller msg s (updates p) (d, a, ne, t) = absurd d
  created caller msg s (deletes name) (d, a, ne, t) = absurd d

  updated :
      (caller : Option Identity) (msg : Option M) (s : State) (op : ProfileOp)
      → Allowed name_of marshal (update msg) caller s op
      → (p : Profile) × (op ≡ updates p) × (to_store name_of marshal caller msg ≡ ok p)
  updated caller msg s (creates p) (d, a, ne, t) = absurd d
  updated caller msg s (updates p) (d, a, ne, t) =
      (p, refl, Describes-stored name_of marshal caller msg p d a ne)
  updated caller msg s (deletes name) (d, a, ne, t) = absurd d

  removed :
      (caller : Option Identity) (name : String) (s : State) (op : ProfileOp)
      → Allowed name_of marshal (remove name) caller s op
      → (op ≡ deletes name)
        × ((require_admin caller >> refuse_if (name == "") invalid_argument) ≡ ok tt)
  removed caller name s (creates p) (d, a, ne, t) = absurd d
  removed caller name s (updates p) (d, a, ne, t) = absurd d
  removed caller name s (deletes other) (d, a, ne, t) =
      (ap deletes (sym d), ok-guards caller name a (λ q. ne (sym d ∙ q)))

  same_row :
      (caller : Option Identity) (msg : Option M) (p q : Profile)
      → to_store name_of marshal caller msg ≡ ok p
      → to_store name_of marshal caller msg ≡ ok q
      → p ≡ q
  same_row caller msg p q h k = ok_eq (sym h ∙ k)

  -- A call that creates, updates or deletes a profile, in a catalog in which no two profiles have one name,
  -- asks for one operation on a map from names to profiles: to put the message's name with its bytes there
  -- anew or in place of what it has, or to take the given name out. Where the caller is an administrator,
  -- the name is not empty and the map takes the operation, the call does it, adds one event about that
  -- profile to the audit log, and changes nothing else; otherwise it is refused and changes nothing.
  pub profile_call-Outcome :
      (call : Call M) (caller : Option Identity) (s : State)
      → Distinct s.profiles
      → Outcome name_of marshal call caller s (profile_call name_of marshal call caller s)
  unfolding profile_call create_profile_call update_profile_call delete_profile_call create_row
      update_row delete_row profile_step
  profile_call-Outcome (create msg) caller s d =
      elim (Result-cases (to_store name_of marshal caller msg)) [
        | inr (e, q) ↦
            rw (q, create_row)
              (inl (
                refl,
                refl,
                λ op allowed.
                    let (p, same, stored) = created caller msg s op allowed in
                    let clash = sym q ∙ stored in cc,
              ))
        | inl (p, q) ↦
            let (asks, a, ne) = stored-Describes name_of marshal caller msg p q in
            rw (q, create_row)
              (only-Outcome (create msg) caller s (creates p) _ asks a ne
                (λ op allowed.
                  let (p', same, stored) = created caller msg s op allowed in
                  same ∙ ap creates (same_row caller msg p' p stored q))
                (after_store-Stored (creates p) profile_exists s d))
      ]
  profile_call-Outcome (update msg) caller s d =
      elim (Result-cases (to_store name_of marshal caller msg)) [
        | inr (e, q) ↦
            rw (q, update_row)
              (inl (
                refl,
                refl,
                λ op allowed.
                    let (p, same, stored) = updated caller msg s op allowed in
                    let clash = sym q ∙ stored in cc,
              ))
        | inl (p, q) ↦
            let (asks, a, ne) = stored-Describes name_of marshal caller msg p q in
            rw (q, update_row)
              (only-Outcome (update msg) caller s (updates p) _ asks a ne
                (λ op allowed.
                  let (p', same, stored) = updated caller msg s op allowed in
                  same ∙ ap updates (same_row caller msg p' p stored q))
                (after_store-Stored (updates p) profile_not_found s d))
      ]
  profile_call-Outcome (remove name) caller s d =
      elim (Result-cases (require_admin caller >> refuse_if (name == "") invalid_argument)) [
        | inr (e, q) ↦
            rw (q, delete_row)
              (inl (
                refl,
                refl,
                λ op allowed. let clash = sym q ∙ (removed caller name s op allowed).1 in cc,
              ))
        | inl (u, q) ↦
            let (a, ne) = guards-ok caller name q in
            rw (q, delete_row)
              (only-Outcome (remove name) caller s (deletes name) _ refl a ne
                (λ op allowed. (removed caller name s op allowed).0)
                (after_store-Stored (deletes name) profile_not_found s d))
      ]
