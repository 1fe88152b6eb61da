-- ===== src/Licensing.antt =====
-- licensing/models.py and licensing/service.py: `LicensingService`. The identifiers of users are
-- numbers, 0 for one that is blank. The checks of Python types are the types of the model.
pub mod Access
mod Tests
use nexus_smarttrading.Prelude.{
  ℕ, Bool, true, false, not, Option, none, some, List, [], ◌∷◌, ◌==◌, if◌then◌else◌, Result, ok,
  raise, value_error, ◌>>◌, guard,
}

pub data LicenseType : Type 0 where
  open_source protected invite_only : LicenseType

pub record Script : Type 0 where
  pub author_id : ℕ
  pub license_type : LicenseType
  pub invited_user_ids : Option (List ℕ)

pub record AccessDecision : Type 0 where
  pub can_view_source : Bool
  pub can_execute : Bool

-- `user_id in ids`, `ids.add(user_id)` and `ids.discard(user_id)`.
unfoldable pub is_invited : ℕ → List ℕ → Bool
is_invited user_id [] = false
is_invited user_id (i ∷ ids) =
    let later = is_invited user_id ids in if i == user_id then true else later

unfoldable pub add : ℕ → List ℕ → List ℕ
add user_id ids = if is_invited user_id ids then ids else user_id ∷ ids

unfoldable pub discard : ℕ → List ℕ → List ℕ
discard user_id [] = []
discard user_id (i ∷ ids) =
    let later = discard user_id ids in if i == user_id then later else i ∷ later

unfoldable pub evaluate_access : ℕ → Script → AccessDecision
evaluate_access user_id s =
    if user_id == s.author_id
    then record { can_view_source = true; can_execute = true }
    else elim s.license_type [
      | open_source ↦ record { can_view_source = true; can_execute = true }
      | protected ↦ record { can_view_source = false; can_execute = true }
      | invite_only ↦ record {
        can_view_source = false;
        can_execute = elim s.invited_user_ids [ none ↦ false | some ids ↦ is_invited user_id ids ];
      }
    ]

unfoldable pub invite_user : Script → ℕ → Result Script
invite_user s user_id = do
  guard (not (user_id == 0)) value_error
  ok (record s {
    invited_user_ids = elim s.invited_user_ids [
      | none ↦ some (add user_id [])
      | some ids ↦ some (add user_id ids)
    ];
  })

unfoldable pub revoke_invite : Script → ℕ → Result Script
revoke_invite s user_id = do
  guard (not (user_id == 0)) value_error
  ok (record s {
    invited_user_ids = elim s.invited_user_ids [
      | none ↦ none
      | some ids ↦ some (discard user_id ids)
    ];
  })
