-- ===== src/Rbac.antt =====
-- internal/rbac: roles, capabilities, and the one place that decides.
use sentinellog.Prelude.{
  ◌≡◌, ◌↔◌, ◌⊎◌, inl, inr, Text, codes, Bool, true, false, List, [], ◌∷◌, Option, none, some, arith,
  text_eq, text_beq, text_beq_iff,
}
use sentinellog.Prelude.Map.{lookup}

-- `Role` and `Action` are strings in the source, so unknown ones can turn up.
abbrev pub Role : Type 0
Role = Text

abbrev pub Action : Type 0
Action = Text

abbrev pub viewer : Role
viewer = codes "viewer"

abbrev pub responder : Role
responder = codes "responder"

abbrev pub admin : Role
admin = codes "admin"

abbrev pub action_search : Action
action_search = codes "search"

abbrev pub action_rag : Action
action_rag = codes "rag_query"

abbrev pub action_anomaly : Action
action_anomaly = codes "read_anomaly"

abbrev pub action_view_audit : Action
action_view_audit = codes "view_audit"

caps : List (Role × List (Action × Bool))
caps =
    (viewer, (action_search, true) ∷ [])
    ∷ (responder, (action_search, true) ∷ (action_rag, true) ∷ (action_anomaly, true) ∷ [])
    ∷ (
      admin,
      (action_search, true)
          ∷ (action_rag, true)
          ∷ (action_anomaly, true)
          ∷ (action_view_audit, true)
          ∷ [],
    )
    ∷ []

pub record Identity : Type 0 where
  pub actor : Text
  pub tenant_id : Text
  pub role : Role

-- `m[a]` of a missing action is false.
value_or_false : Option Bool → Bool
value_or_false none = false
value_or_false (some b) = b

has_action : Option (List (Action × Bool)) → Action → Bool
has_action none a = false
has_action (some m) a = value_or_false (lookup a m)

unfoldable pub can : Role → Action → Bool
unfolding caps has_action value_or_false lookup
can role a = has_action (lookup role caps) a

-- The capabilities as the package's documentation lists them.
abbrev pub Grants : Role → Action → Type 0
Grants role a =
    ((a ≡ action_search) × ((role ≡ viewer) ⊎ (role ≡ responder) ⊎ (role ≡ admin)))
    ⊎ ((a ≡ action_rag) × ((role ≡ responder) ⊎ (role ≡ admin)))
    ⊎ ((a ≡ action_anomaly) × ((role ≡ responder) ⊎ (role ≡ admin)))
    ⊎ ((a ≡ action_view_audit) × (role ≡ admin))

module _ (role : Role) (a : Action) where
  can-Grants : can role a ≡ true → Grants role a
  unfolding can
  can-Grants h = ground (
    arith,
    text_beq_iff viewer role,
    text_beq_iff responder role,
    text_beq_iff admin role,
    text_beq_iff action_search a,
    text_beq_iff action_rag a,
    text_beq_iff action_anomaly a,
    text_beq_iff action_view_audit a,
  )

  Grants-can : Grants role a → can role a ≡ true
  unfolding can text_beq
  Grants-can (inl (e, inl r)) = rw (e, r)
  Grants-can (inl (e, inr (inl r))) = rw (e, r)
  Grants-can (inl (e, inr (inr r))) = rw (e, r)
  Grants-can (inr (inl (e, inl r))) = rw (e, r)
  Grants-can (inr (inl (e, inr r))) = rw (e, r)
  Grants-can (inr (inr (inl (e, inl r)))) = rw (e, r)
  Grants-can (inr (inr (inl (e, inr r)))) = rw (e, r)
  Grants-can (inr (inr (inr (e, r)))) = rw (e, r)

  -- `Can` allows exactly what the documentation grants; an unknown role or action gets nothing.
  pub can_iff : (can role a ≡ true) ↔ Grants role a
  can_iff = (can-Grants, Grants-can)
