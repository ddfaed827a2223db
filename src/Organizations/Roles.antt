-- ===== src/Organizations/Roles.antt =====
-- Which roles the members of a workspace have.
use open_instinct.Base.{
  ℕ, ◌≡◌, refl, sym, ◌∙◌, ap, inl, inr, Bool, true, false, Option, none, some, List, [], ◌∷◌, ◌++◌,
  arith, find_first, find_first_sound, find_first-append_last, All, All-of, All-mono, All-append,
  update_where, is_null, Bool-cases, Option-cases, ◌==◌, ==_refl,
}
use open_instinct.Base.Results.{done, ensure, Holds-bind, with_transaction-Holds}
use open_instinct.Organizations.Rows.{
  admin, company, WorkspaceRole, owner, Workspace, WorkspaceMembership, Db,
}
use open_instinct.Organizations.Rbac.{
  assert_can_manage_members, assert_can_assign_role, WorkspaceKind, personal, shared,
  assert_workspace_role_for_kind,
}
use open_instinct.Organizations.Members.{
  actor_role, is_workspace_membership_of, create_company_workspace, load_workspace_membership,
  kind_of, upsert_workspace_membership, set_workspace_member_role,
}

abbrev pub fits : WorkspaceKind → WorkspaceRole → Bool
fits personal owner = true
fits shared (company _) = true
fits _ _ = false

-- A membership of a workspace of the table, with a role of its kind.
abbrev pub Fits : List Workspace → WorkspaceMembership → Type 0
Fits ws m =
    (w : Workspace) × (find_first (λ (x : Workspace). x.id == m.workspace_id) ws ≡ some w)
    × (fits (kind_of w.organization_id) m.role ≡ true)

abbrev pub RolesFit : Db → Type 0
RolesFit db = All (Fits db.workspaces) db.workspace_memberships

checked-fits :
    (k : WorkspaceKind) (r : WorkspaceRole) (u : Unit {0})
    → assert_workspace_role_for_kind k r ≡ done u
    → fits k r ≡ true
unfolding assert_workspace_role_for_kind
checked-fits personal owner u e = refl
checked-fits personal (company _) u e = cc
checked-fits shared owner u e = cc
checked-fits shared (company _) u e = refl

-- A row that a table has is found still when a row is put behind.
find_first-behind :
    (c : Workspace → Bool) (ws : List Workspace) (n w : Workspace)
    → find_first c ws ≡ some w
    → find_first c (ws ++ n ∷ []) ≡ some w
find_first-behind c [] n w e = cc
find_first-behind c (x ∷ ws) n w e = elim (Bool-cases (c x)) [
  | inl t ↦ rw t (rw t at e)
  | inr t ↦ rw t (find_first-behind c ws n w (rw t at e))
]

updated-Fits :
    (ws : List Workspace) (new : WorkspaceMembership) (ms : List WorkspaceMembership)
    → Fits ws new
    → All (Fits ws) ms
    → All (Fits ws) (
        update_where
          (is_workspace_membership_of new.workspace_id new.user_id)
          (λ (m : WorkspaceMembership). record m { role = new.role })
          ms)
unfolding is_workspace_membership_of
updated-Fits ws new [] fit h = tt
updated-Fits ws new (m ∷ ms) fit h =
    let rest = updated-Fits ws new ms fit h.1 in
    elim (Bool-cases (is_workspace_membership_of new.workspace_id new.user_id m)) [
      | inr t ↦ rw t (h.0, rest)
      | inl t ↦ rw t (
        (fit.0, (λ i. find_first (λ (x : Workspace). x.id == same m t i) ws) ∙ fit.1, fit.2),
        rest,
      )
    ]
  where
    same :
        (m : WorkspaceMembership)
        → is_workspace_membership_of new.workspace_id new.user_id m ≡ true
        → m.workspace_id ≡ new.workspace_id
    same m t = ground arith

upserted-Fits :
    (ws : List Workspace) (new : WorkspaceMembership) (ms : List WorkspaceMembership)
    → Fits ws new
    → All (Fits ws) ms
    → All (Fits ws) (upsert_workspace_membership new ms)
unfolding upsert_workspace_membership
upserted-Fits ws new ms fit h =
    elim (Option-cases (find_first (is_workspace_membership_of new.workspace_id new.user_id) ms)) [
      | inl e ↦ rw (e, upsert_workspace_membership) (All-append (Fits ws) ms (new ∷ []) h (fit, tt))
      | inr (m, e) ↦ rw (e, upsert_workspace_membership) (updated-Fits ws new ms fit h)
    ]

ensured-null :
    {A E : Type 0} (o : Option A) (e : E) (u : Unit {0}) → ensure (is_null o) e ≡ done u → o ≡ none
ensured-null none e u h = refl
ensured-null (some a) e u h = cc

-- A new workspace of a company, whose first member is an admin.
created-RolesFit :
    (organization_id workspace_id actor_user_id now : ℕ) (db : Db)
    → RolesFit db
    → RolesFit (create_company_workspace organization_id workspace_id actor_user_id now db).1
unfolding create_company_workspace
created-RolesFit organization_id workspace_id actor_user_id now db h =
    with_transaction-Holds RolesFit db _ h (
      Holds-bind _ (actor_role organization_id actor_user_id db) _ (λ role _.
        Holds-bind _ (assert_can_manage_members (company role)) _ (λ _ _.
          Holds-bind _ (assert_workspace_role_for_kind shared (company admin)) _ (λ _ _.
            Holds-bind _
              (ensure (is_null (find_first (λ (w : Workspace). w.id == workspace_id) db.workspaces))
                _)
              _
              (λ u t.
                Holds-bind _
                  (ensure
                    (is_null (
                      find_first (is_workspace_membership_of workspace_id actor_user_id)
                        db.workspace_memberships))
                    _)
                  _
                  (λ _ _.
                    All-append _ db.workspace_memberships _
                      (All-mono (Fits db.workspaces) _
                        (λ m (w, found, fit). (
                          w,
                          find_first-behind (λ (x : Workspace). x.id == m.workspace_id)
                              db.workspaces _ w found,
                          fit,
                        ))
                        db.workspace_memberships h)
                      (
                        (
                          _,
                          find_first-append_last (λ (x : Workspace). x.id == workspace_id)
                              db.workspaces _ (ensured-null _ _ u t) (==_refl workspace_id),
                          refl,
                        ),
                        tt,
                      )))))))

-- The workspace of an actor, and that its kind is the one that the call checks.
loaded_workspace :
    (workspace_id user_id : ℕ) (db : Db) (a : WorkspaceRole × Option ℕ)
    → load_workspace_membership workspace_id user_id db ≡ some a
    → (w : Workspace) × (find_first (λ (x : Workspace). x.id == workspace_id) db.workspaces
        ≡ some w)
      × (w.organization_id ≡ a.1)
unfolding load_workspace_membership is_workspace_membership_of
loaded_workspace workspace_id user_id db a e =
    let c = is_workspace_membership_of workspace_id user_id in
    elim (Option-cases (find_first c db.workspace_memberships)) [
      | inl f ↦ let k = rw (f, load_workspace_membership) at e in cc
      | inr (m, f) ↦
          elim (Option-cases
            (find_first (λ (x : Workspace). x.id == m.workspace_id) db.workspaces)) [
              | inl g ↦ let k = rw (f, load_workspace_membership, g) at e in cc
              | inr (w, g) ↦
                  let p =
                    find_first_sound (λ _. Unit {0}) c db.workspace_memberships m
                      (All-of _ (λ _. tt) db.workspace_memberships) f in
                  let same : m.workspace_id ≡ workspace_id = ground (arith, p.1) in
                  let k = rw (f, load_workspace_membership, g) at e in
                  (
                    w,
                    (λ i. find_first (λ (x : Workspace). x.id == sym same i) db.workspaces) ∙ g,
                    ground (arith, k),
                  )
            ]
    ]

set-RolesFit :
    (workspace_id actor_user_id target_user_id : ℕ) (role : WorkspaceRole) (now : ℕ) (db : Db)
    → RolesFit db
    → RolesFit (set_workspace_member_role workspace_id actor_user_id target_user_id role now db).1
unfolding set_workspace_member_role
set-RolesFit workspace_id actor_user_id target_user_id role now db h =
    with_transaction-Holds RolesFit db _ h
      (elim (Option-cases (load_workspace_membership workspace_id actor_user_id db)) [
        | inl e ↦ rw e tt
        | inr (actor, e) ↦ rw e (
            Holds-bind _ (assert_workspace_role_for_kind (kind_of actor.1) role) _ (λ u t.
              Holds-bind _ (assert_can_assign_role actor.0 role) _ (λ _ _.
                let (w, found, same) = loaded_workspace workspace_id actor_user_id db actor e in
                upserted-Fits db.workspaces _ db.workspace_memberships
                  (
                    w,
                    found,
                    ap (λ o. fits (kind_of o) role) same ∙ checked-fits (kind_of actor.1) role u t,
                  )
                  h)))
      ])

-- The calls that write workspaces and their members keep their roles apart: where every member belongs
-- to a workspace of the table, as its owner in a personal one and as an admin or a member in one of a
-- company, it is so after them, also where they fail.
pub workspace_calls-RolesFit :
    (organization_id workspace_id actor_user_id target_user_id : ℕ) (role : WorkspaceRole) (now : ℕ)
    (db : Db)
    → RolesFit db
    → RolesFit (create_company_workspace organization_id workspace_id actor_user_id now db).1
      × RolesFit (set_workspace_member_role workspace_id actor_user_id target_user_id role now db).1
workspace_calls-RolesFit organization_id workspace_id actor_user_id target_user_id role now db h = (
  created-RolesFit organization_id workspace_id actor_user_id now db h,
  set-RolesFit workspace_id actor_user_id target_user_id role now db h,
)
