-- ===== src/Fleet/Profiles.antt =====
-- internal/fleet/profiles.go: the calls that change the catalog of profiles. A message is a
-- CertificateProfile; `name_of` is its GetName and `marshal` proto.Marshal.
use manager.Prelude.{
  Option, none, some, List, [], ◌∷◌, ◌++◌, String, ◌==◌, string_eq, Result, ok, err, ◌>>=◌, ◌>>◌,
  refuse_if,
}
use manager.OperatorCa.Base.{Bytes}
use manager.Authz.{Identity}
use manager.Inventory.Catalog.{Profile, SliceError, create_profile, update_profile, delete_profile}
use manager.Fleet.{
  State, Refusal, invalid_argument, internal, profile_exists, profile_not_found, require_admin,
}

module _ {M : Type 0} (name_of : M → String) (marshal : M → Option Bytes) where
  -- validateProfile
  unfoldable pub validate_profile : Option M → Result Refusal M
  validate_profile none = err invalid_argument
  validate_profile (some m) = refuse_if (name_of m == "") invalid_argument >> ok m

  -- marshalProfile
  unfoldable pub marshal_profile : M → Result Refusal Profile
  marshal_profile m = elim (marshal m) [
    | none ↦ err internal
    | some raw ↦ ok (record { name = name_of m; spec = raw })
  ]

  -- The guards of CreateProfile and UpdateProfile, and the row.
  unfoldable pub to_store : Option Identity → Option M → Result Refusal Profile
  unfolding validate_profile marshal_profile
  to_store caller msg = require_admin caller >> (validate_profile msg >>= λ m. marshal_profile m)

-- The end of the calls: the error of the store as a refusal, or the audit event.
unfoldable pub after_store :
    String
    → String
    → Refusal
    → State
    → List Profile × Result SliceError (Unit {0})
    → State × Result Refusal (Unit {0})
after_store kind name refusal s (profiles, err e) = (s, err refusal)
after_store kind name refusal s (profiles, ok u) = (
  record s {
    profiles = profiles;
    audit = s.audit ++ record { kind = kind; target_id = name } ∷ [];
  },
  ok tt,
)

unfoldable pub create_row : State → Result Refusal Profile → State × Result Refusal (Unit {0})
unfolding after_store
create_row s (err e) = (s, err e)
create_row s (ok p) =
    after_store "profile-created" p.name profile_exists s (create_profile p s.profiles)

unfoldable pub update_row : State → Result Refusal Profile → State × Result Refusal (Unit {0})
unfolding after_store
update_row s (err e) = (s, err e)
update_row s (ok p) =
    after_store "profile-updated" p.name profile_not_found s (update_profile p s.profiles)

module _ {M : Type 0} (name_of : M → String) (marshal : M → Option Bytes) where
  -- CreateProfile
  unfoldable pub create_profile_call :
      Option Identity → Option M → State → State × Result Refusal (Unit {0})
  unfolding to_store create_row
  create_profile_call caller msg s = create_row s (to_store name_of marshal caller msg)

  -- UpdateProfile
  unfoldable pub update_profile_call :
      Option Identity → Option M → State → State × Result Refusal (Unit {0})
  unfolding to_store update_row
  update_profile_call caller msg s = update_row s (to_store name_of marshal caller msg)

-- DeleteProfile
unfoldable pub delete_row :
    String → State → Result Refusal (Unit {0}) → State × Result Refusal (Unit {0})
unfolding after_store
delete_row name s (err e) = (s, err e)
delete_row name s (ok u) =
    after_store "profile-deleted" name profile_not_found s (delete_profile name s.profiles)

unfoldable pub delete_profile_call :
    Option Identity → String → State → State × Result Refusal (Unit {0})
unfolding delete_row
delete_profile_call caller name s =
    delete_row name s (require_admin caller >> refuse_if (name == "") invalid_argument)
