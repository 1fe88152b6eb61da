-- ===== src/Licensing/Access.antt =====
-- What an invitation and its revocation change.
use nexus_smarttrading.Prelude.{
  ℕ, ◌≡◌, ◌≢◌, refl, Bool, true, false, not, ◌&&◌, List, [], ◌∷◌, ◌==◌, if◌then◌else◌, Result, ok,
  raise, value_error, arith, Bool-cases, Option-cases, inl, inr,
}
use nexus_smarttrading.Licensing.{
  invite_only, Script, AccessDecision, is_invited, add, discard, evaluate_access, invite_user,
  revoke_invite,
}

is_invited-add :
    (u v : ℕ) (ids : List ℕ)
    → is_invited v (add u ids) ≡ (if u == v then true else is_invited v ids)
unfolding is_invited add
is_invited-add u v [] = ground arith
is_invited-add u v (i ∷ ids) = ground (arith, is_invited-add u v ids)

is_invited-none : (v : ℕ) → is_invited v [] ≡ false
unfolding is_invited
is_invited-none v = refl

is_invited-discard :
    (u v : ℕ) (ids : List ℕ)
    → is_invited v (discard u ids) ≡ (if u == v then false else is_invited v ids)
unfolding is_invited discard
is_invited-discard u v [] = ground arith
is_invited-discard u v (i ∷ ids) = ground (arith, is_invited-discard u v ids)

-- The decision depends on an invitation.
abbrev pub needs_invitation : Script → ℕ → Bool
needs_invitation s v = elim s.license_type [ invite_only ↦ not (v == s.author_id) | _ ↦ false ]

-- The decision for `v` once the execution of `u` was settled.
abbrev pub settled : Bool → Script → ℕ → ℕ → AccessDecision
settled b s u v =
    if u == v && needs_invitation s v
    then record { can_view_source = false; can_execute = b }
    else evaluate_access v s

-- What the script after a call decides for `v`, or why the call raised.
abbrev pub Settles : Bool → Script → ℕ → ℕ → Result Script → Type 0
Settles b s u v (ok s') = (u ≢ 0) × (evaluate_access v s' ≡ settled b s u v)
Settles b s u v (raise e) = (u ≡ 0) × (e ≡ value_error)

module _ (s : Script) (u v : ℕ) where
  invite-Settles : Settles true s u v (invite_user s u)
  unfolding invite_user evaluate_access
  invite-Settles = elim (Bool-cases (u == 0)) [
    | inl blank ↦ rw blank (ground (arith, blank), refl)
    | inr named ↦ rw named (
      ground (arith, named),
      elim (Option-cases s.invited_user_ids) [
        | inl e ↦ ground (arith, e, is_invited-add u v [], is_invited-none v)
        | inr (ids, e) ↦ ground (arith, e, is_invited-add u v ids)
      ],
    )
  ]

  revoke-Settles : Settles false s u v (revoke_invite s u)
  unfolding revoke_invite evaluate_access
  revoke-Settles = elim (Bool-cases (u == 0)) [
    | inl blank ↦ rw blank (ground (arith, blank), refl)
    | inr named ↦ rw named (
      ground (arith, named),
      elim (Option-cases s.invited_user_ids) [
        | inl e ↦ ground (arith, e)
        | inr (ids, e) ↦ ground (arith, e, is_invited-discard u v ids)
      ],
    )
  ]

  -- An invitation lets the user execute an invite-only script of another author, and its revocation
  -- takes that away; no decision for another user changes, and none of a script with another
  -- license or for the author. Both raise `ValueError` for a blank identifier and no other.
  pub invitation-Settles :
      Settles true s u v (invite_user s u) × Settles false s u v (revoke_invite s u)
  invitation-Settles = (invite-Settles, revoke-Settles)
