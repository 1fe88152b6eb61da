-- ===== src/Licensing/Tests.antt =====
-- A script of the author 1, and the theorem at it.
use nexus_smarttrading.Prelude.{◌≡◌, refl, true, false, some, [], ◌∷◌, ok}
use nexus_smarttrading.Licensing.{
  invite_only, Script, is_invited, add, evaluate_access, invite_user, revoke_invite,
}
use nexus_smarttrading.Licensing.Access.{Settles, invitation-Settles}

abbrev script : Script
script = record { author_id = 1; license_type = invite_only; invited_user_ids = some (2 ∷ 3 ∷ []) }

invited : invite_user script 4 ≡ ok (record script { invited_user_ids = some (4 ∷ 2 ∷ 3 ∷ []) })
unfolding invite_user add is_invited
invited = refl

left_out : evaluate_access 4 script ≡ record { can_view_source = false; can_execute = false }
unfolding evaluate_access is_invited
left_out = refl

invitation-Settles_example :
    Settles true script 4 4 (invite_user script 4)
    × Settles false script 4 4 (revoke_invite script 4)
invitation-Settles_example = invitation-Settles script 4 4
