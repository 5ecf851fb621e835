-- ===== src/Auth/Permission/Granted.antt =====
-- crates/rustee-auth/src/policy/permission.rs: whom a grant reaches, and whom the layer lets through.
use rustee_web_framework.Prelude.{
  ◌≡◌, refl, sym, ap, ◌∙◌, subst, fun_ext, ◌↔◌, ◌⊎◌, inl, inr, Bool, true, false, ◌&&◌, ◌||◌,
  Option, none, some, List, [], ◌∷◌, ◌++◌, arith, any, All, Any, all-All, All-map_lem, any-Any,
  is_empty, Bool-cases, Option-cases,
}
use rustee_web_framework.Prelude.Result.{ok}
use rustee_web_framework.Text.{Text, eqb, eqb_iff, eqb_refl}
use rustee_web_framework.AssocMap.{get, insert, get-insert, get-insert_other}
use rustee_web_framework.Auth.Permission.{
  Principal, RolePolicy, member, granted, grant, has_permission, permits, RequirePermissions,
  require_permissions, call, call_inner,
}

member-append :
    (text : Text) (xs ys : List Text) → member text (xs ++ ys) ≡ (member text xs || member text ys)
member-append text [] ys = refl
member-append text (x ∷ xs) ys = ground (arith, member-append text xs ys)

abbrev holds : Text → Option (List Text) → Bool
holds permission found = elim found [
  | none ↦ false
  | some permissions ↦ member permission permissions
]

-- The role grants the permission.
abbrev by_role : RolePolicy → Text → Text → Bool
by_role policy permission role = holds permission (get eqb role policy.grants)

or_false : (b : Bool) → b ≡ (b || false)
or_false true = refl
or_false false = refl

by_role-granted :
    (policy : RolePolicy) (permission role : Text)
    → by_role policy permission role ≡ member permission (granted role policy)
by_role-granted policy permission role = elim (Option-cases (get eqb role policy.grants)) [
  | inl absent ↦ ground arith
  | inr (permissions, there) ↦ ground arith
]

grant_grants :
    (policy granting : RolePolicy) (role : Text) (permissions : List Text)
    → grant policy role permissions ≡ ok granting
    → granting.grants ≡ insert eqb role (granted role policy ++ permissions) policy.grants
unfolding grant
grant_grants policy granting role permissions h = ground arith

by_role-grant :
    (policy granting : RolePolicy) (role : Text) (permissions : List Text) (permission other : Text)
    → grant policy role permissions ≡ ok granting
    → by_role granting permission other
      ≡ (by_role policy permission other || eqb other role && member permission permissions)
by_role-grant policy granting role permissions permission other h =
    let same = grant_grants policy granting role permissions h in
    elim (Bool-cases (eqb other role)) [
      | inl equal ↦
          let found =
            get-insert eqb eqb_iff role (granted role policy ++ permissions) policy.grants in
          let grown =
            ap (holds permission) (ap (get eqb role) same ∙ found)
            ∙ member-append permission (granted role policy) permissions in
          subst
            (λ (r : Text).
              by_role granting permission r
              ≡ (by_role policy permission r || eqb r role && member permission permissions))
            (sym ((eqb_iff other role).0 equal))
            (grown
              ∙ rw (eqb_refl role) (
                  ap (λ b. b || member permission permissions)
                    (sym (by_role-granted policy permission role))))
      | inr apart ↦
          let found =
            get-insert_other eqb eqb_iff role other (granted role policy ++ permissions)
              policy.grants apart in
          ap (holds permission) (ap (get eqb other) same ∙ found)
          ∙ rw apart (or_false (by_role policy permission other))
    ]

any-or :
    (f g : Text → Bool) (c : Bool) (roles : List Text)
    → any (λ r. f r || g r && c) roles ≡ (any f roles || any g roles && c)
any-or f g c [] = ground arith
any-or f g c (r ∷ roles) = ground (arith, any-or f g c roles)

or_or : (a b c : Bool) → (a || (b || c)) ≡ ((a || b) || c)
or_or true b c = refl
or_or false b c = refl

any-equal :
    (f g : Text → Bool) (roles : List Text)
    → ((role : Text) → f role ≡ g role)
    → any f roles ≡ any g roles
any-equal f g roles h = ap (λ (t : Text → Bool). any t roles) (fun_ext h)

-- After a grant a principal is permitted what it was before, and the granted permissions if it has
-- the role.
grant-permits :
    (policy granting : RolePolicy) (role : Text) (permissions : List Text) (principal : Principal)
    (permission : Text)
    → grant policy role permissions ≡ ok granting
    → permits granting principal permission ≡ (
        permits policy principal permission
        || member role principal.roles && member permission permissions)
unfolding permits
grant-permits policy granting role permissions principal permission h =
    let each =
      any-equal (by_role granting permission)
        (λ other.
          by_role policy permission other || eqb other role && member permission permissions)
        principal.roles
        (λ other. by_role-grant policy granting role permissions permission other h) in
    let all_roles =
      any-or (by_role policy permission) (λ other. eqb other role) (member permission permissions)
        principal.roles in
    ap (λ b. has_permission principal permission || b) (each ∙ all_roles)
    ∙ or_or (has_permission principal permission) (any (by_role policy permission) principal.roles)
        (member role principal.roles && member permission permissions)

-- The permission is the principal's own, or is granted to one of its roles.
abbrev IsPermitted : RolePolicy → Principal → Text → Type 0
IsPermitted policy p permission =
    (has_permission p permission ≡ true)
    ⊎ Any (λ role. member permission (granted role policy) ≡ true) p.roles

some_same : (a b : Principal) → some a ≡ some b → a ≡ b
some_same a b h = cc

or_true : (a b : Bool) → ((a || b) ≡ true) ↔ ((a ≡ true) ⊎ (b ≡ true))
or_true a b = (λ h. ground arith, λ h. ground arith)

permits_iff :
    (policy : RolePolicy) (p : Principal) (permission : Text)
    → (permits policy p permission ≡ true) ↔ IsPermitted policy p permission
unfolding permits
permits_iff policy p permission =
    let same =
      any-equal (by_role policy permission) (λ role. member permission (granted role policy))
        p.roles (by_role-granted policy permission) in
    let (to, from) =
      or_true (has_permission p permission) (any (by_role policy permission) p.roles) in
    let (listed, found) = any-Any (λ role. member permission (granted role policy)) p.roles in
    (
      λ h. elim (to h) [ inl own ↦ inl own | inr role ↦ inr (listed (sym same ∙ role)) ],
      λ h. from (elim h [ inl own ↦ inl own | inr role ↦ inr (same ∙ found role) ]),
    )

require_permissions_built :
    (required : List Text) (policy : RolePolicy) (layer : RequirePermissions)
    → require_permissions required policy ≡ ok layer
    → (layer ≡ record { required = required; policy = policy }) × (is_empty required ≡ false)
unfolding require_permissions
require_permissions_built required policy layer h = ground arith

call_built_iff :
    (required : List Text) (policy : RolePolicy) (principal : Option Principal)
    → (call (record { required = required; policy = policy }) principal ≡ call_inner)
      ↔ (p : Principal) × (principal ≡ some p) × All (IsPermitted policy p) required
unfolding call
call_built_iff required policy none =
    (λ h. absurd (ground arith), λ (p, e, _). absurd (ground arith))
call_built_iff required policy (some principal) =
    let (to, from) = all-All (permits policy principal) required in
    (
      λ h. (
        principal,
        refl,
        All-map_lem _ _ required (λ x. (permits_iff policy principal x).0) (to (ground arith)),
      ),
      λ (p, e, each).
          let own =
            subst (λ o. All (IsPermitted policy o) required) (sym (some_same principal p e)) each in
          let passes =
            from (All-map_lem _ _ required (λ x. (permits_iff policy principal x).1) own) in
          rw (passes) refl,
    )

-- The inner service is called exactly when the request carries a principal and each required
-- permission is one of the principal's own or is granted to one of its roles; and a layer that could
-- be made requires one permission at least.
pub call_inner_iff :
    (required : List Text) (policy : RolePolicy) (layer : RequirePermissions)
    (principal : Option Principal)
    → require_permissions required policy ≡ ok layer
    → (is_empty layer.required ≡ false)
      × ((call layer principal ≡ call_inner)
          ↔ (p : Principal) × (principal ≡ some p)
            × All
                (λ permission.
                  (has_permission p permission ≡ true)
                  ⊎ Any (λ role. member permission (granted role policy) ≡ true) p.roles)
                required)
call_inner_iff required policy layer principal h =
    let (built, some_required) = require_permissions_built required policy layer h in
    subst
      (λ (l : RequirePermissions).
        (is_empty l.required ≡ false)
        × ((call l principal ≡ call_inner)
            ↔ (p : Principal) × (principal ≡ some p) × All (IsPermitted policy p) required))
      (sym built) (some_required, call_built_iff required policy principal)
