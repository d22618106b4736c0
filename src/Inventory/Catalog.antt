-- ===== src/Inventory/Catalog.antt =====
-- Profiles, adapters, enrollments and operator credentials of internal/store/memory/memory.go: rows
-- in a slice, found by a key.
use manager.Prelude.{
  ℕ, Bool, true, Option, none, some, List, [], ◌∷◌, ◌++◌, String, ◌==◌, string_eq, if◌then◌else◌,
  Result, ok, err,
}
use manager.OperatorCa.Base.{Bytes}

-- store.Profile
pub record Profile : Type 0 where
  pub name : String
  pub spec : Bytes

-- store.Adapter
pub record Adapter : Type 0 where
  pub kind : String
  pub name : String
  pub endpoint : String
  pub profile : String
  pub enabled : Bool
  pub challenges : List String
  pub gpo_template : String

-- store.Enrollment
pub record Enrollment : Type 0 where
  pub id : String
  pub proposed_name : String
  pub role : String
  pub parent_cn : String
  pub address : String
  pub status : String
  pub attestation_summary : String
  pub attestation_node_id : String
  pub csr_key_type : String
  pub csr_subject_cn : String
  pub requested_at : String
  pub rejection_reason : String
  pub admitted_node_name : String
  pub admitted_node_id : String
  pub kind : String
  pub pinned_key_sha256 : String
  pub attestation_ok : Bool
  pub profile : String

-- store.OperatorCredential
pub record OperatorCredential : Type 0 where
  pub common_name : String
  pub serial_hex : String
  pub level : String
  pub not_after : String
  pub revoked : Bool
  pub issuer_sha256 : String
  pub kind : String
  pub email : String
  pub full_name : String
  pub leaf_sha256 : String
  pub request_id : String
  pub first_seen_at : ℕ
  pub last_seen_at : ℕ

-- The two errors of the slices.
pub data SliceError : Type 0 where
  already_exists not_found : SliceError

module _ {A : Type 0} (key : A → String) where
  -- The loop that finds a row.
  unfoldable pub find_row : String → List A → Option A
  find_row k [] = none
  find_row k (a ∷ rows) = let rest = find_row k rows in if key a == k then some a else rest

  -- The loop that changes the first row with the key, and what it changed that row to.
  unfoldable pub change_row : String → (A → A) → List A → List A × Option A
  change_row k f [] = ([], none)
  change_row k f (a ∷ rows) =
      let rest = change_row k f rows in
      if key a == k then (f a ∷ rows, some (f a)) else (a ∷ rest.0, rest.1)

  -- The loop that takes the first row with the key out, and that row.
  unfoldable pub drop_row : String → List A → List A × Option A
  drop_row k [] = ([], none)
  drop_row k (a ∷ rows) =
      let rest = drop_row k rows in if key a == k then (rows, some a) else (a ∷ rest.0, rest.1)

-- The answer when a loop found its row, or else the error after the loop.
unfoldable pub or_missing : {A : Type 0} → List A × Option A → List A × Result SliceError (Unit {0})
or_missing (rows, some a) = (rows, ok tt)
or_missing (rows, none) = (rows, err not_found)

abbrev pub profile_name : Profile → String
profile_name p = p.name

-- Profile
unfoldable pub profile : String → List Profile → Option Profile
unfolding find_row
profile name profiles = find_row profile_name name profiles

-- CreateProfile
unfoldable pub create_profile : Profile → List Profile → List Profile × Result SliceError (Unit {0})
create_profile p profiles = elim (find_row profile_name p.name profiles) [
  | some existing ↦ (profiles, err already_exists)
  | none ↦ (profiles ++ p ∷ [], ok tt)
]

-- UpdateProfile
unfoldable pub update_profile : Profile → List Profile → List Profile × Result SliceError (Unit {0})
unfolding change_row or_missing
update_profile p profiles = or_missing (change_row profile_name p.name (λ _. p) profiles)

-- DeleteProfile
unfoldable pub delete_profile : String → List Profile → List Profile × Result SliceError (Unit {0})
unfolding drop_row or_missing
delete_profile name profiles = or_missing (drop_row profile_name name profiles)

abbrev pub adapter_name : Adapter → String
adapter_name a = a.name

unfoldable pub or_no_adapter :
    List Adapter × Option Adapter → List Adapter × Result SliceError Adapter
or_no_adapter (rows, some a) = (rows, ok a)
or_no_adapter (rows, none) = (rows, err not_found)

-- SetAdapterEnabled
unfoldable pub set_adapter_enabled :
    String → Bool → List Adapter → List Adapter × Result SliceError Adapter
unfolding change_row or_no_adapter
set_adapter_enabled name enabled adapters =
    or_no_adapter (change_row adapter_name name (λ a. record a { enabled = enabled }) adapters)

abbrev pub enrollment_id : Enrollment → String
enrollment_id e = e.id

-- AddEnrollment
unfoldable pub add_enrollment : Enrollment → List Enrollment → List Enrollment
add_enrollment e enrollments = enrollments ++ e ∷ []

-- Enrollment
unfoldable pub enrollment : String → List Enrollment → Option Enrollment
unfolding find_row
enrollment id enrollments = find_row enrollment_id id enrollments

-- UpdateEnrollment
unfoldable pub update_enrollment :
    String
    → (Enrollment → Enrollment)
    → List Enrollment
    → List Enrollment × Result SliceError (Unit {0})
unfolding change_row or_missing
update_enrollment id mutate enrollments =
    or_missing (change_row enrollment_id id mutate enrollments)

abbrev pub credential_serial : OperatorCredential → String
credential_serial c = c.serial_hex

-- AddOperatorCredential
unfoldable pub add_operator_credential :
    OperatorCredential → List OperatorCredential → List OperatorCredential
add_operator_credential c credentials = credentials ++ c ∷ []

-- MarkOperatorCredentialRevoked
unfoldable pub mark_operator_credential_revoked :
    String → List OperatorCredential → List OperatorCredential × Result SliceError (Unit {0})
unfolding change_row or_missing
mark_operator_credential_revoked serial credentials =
    or_missing (change_row credential_serial serial (λ c. record c { revoked = true }) credentials)
