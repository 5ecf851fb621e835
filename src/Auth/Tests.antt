-- ===== src/Auth/Tests.antt =====
-- A policy with one role, and a layer that requires one permission.
use rustee_web_framework.Auth.ConstantTime.{constant_time_eq, constant_time_eq_iff}
use rustee_web_framework.AssocMap.{get, insert}
use rustee_web_framework.Text.Trim.{trim}
use rustee_web_framework.Prelude.{
  ◌≡◌, refl, ◌↔◌, ◌⊎◌, true, false, none, some, [], ◌∷◌, All, Any, is_empty,
}
use rustee_web_framework.Prelude.Result.{ok, err}
use rustee_web_framework.Text.{byte_len, codes}
use rustee_web_framework.Auth.Permission.{
  exceeds_principal_authorization_value_limit, Principal, RolePolicy, RolePolicyError, member,
  granted, grant, has_permission, permits, RequirePermissions, require_permissions, call,
  call_inner, insufficient_permission,
}
use rustee_web_framework.Auth.Permission.Granted.{call_inner_iff}

abbrev empty : RolePolicy
empty = record { grants = [] }

abbrev readers : RolePolicy
readers = record { grants = (codes "reader", codes "orders:read" ∷ []) ∷ [] }

abbrev ada : Principal
ada = record {
  subject = codes "ada";
  issuer = none;
  tenant = none;
  scopes = codes "profile:read" ∷ [];
  roles = codes "reader" ∷ [];
  permissions = [];
}

abbrev read_orders : RequirePermissions
read_orders = record { required = codes "orders:read" ∷ []; policy = readers }

granted_readers : grant empty (codes "reader") (codes "orders:read" ∷ []) ≡ ok readers
unfolding grant trim exceeds_principal_authorization_value_limit byte_len insert get
granted_readers = refl

blank : grant empty (codes " ") (codes "orders:read" ∷ []) ≡ err RolePolicyError.blank_role
unfolding grant trim
blank = refl

made : require_permissions (codes "orders:read" ∷ []) readers ≡ ok read_orders
unfolding require_permissions trim exceeds_principal_authorization_value_limit byte_len
made = refl

let_through : call read_orders (some ada) ≡ call_inner
unfolding call permits get
let_through = refl

stopped : call read_orders (some (record ada { roles = [] })) ≡ insufficient_permission
unfolding call permits
stopped = refl

call_inner_iff_example :
    (is_empty read_orders.required ≡ false)
    × ((call read_orders (some ada) ≡ call_inner)
        ↔ (p : Principal) × (some ada ≡ some p)
          × All
              (λ permission.
                (has_permission p permission ≡ true)
                ⊎ Any (λ role. member permission (granted role readers) ≡ true) p.roles)
              (codes "orders:read" ∷ []))
call_inner_iff_example =
    call_inner_iff (codes "orders:read" ∷ []) readers read_orders (some ada) made

constant_time_eq_iff_example :
    (constant_time_eq (codes "abc") (codes "abd") ≡ true) ↔ (codes "abc" ≡ codes "abd")
constant_time_eq_iff_example = constant_time_eq_iff (codes "abc") (codes "abd")

differs : constant_time_eq (codes "abc") (codes "abd") ≡ false
unfolding constant_time_eq
differs = refl
