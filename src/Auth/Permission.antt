-- ===== src/Auth/Permission.antt =====
-- crates/rustee-auth/src/policy/permission.rs: role policies, and the service that requires
-- permissions. A set is a list here: only its members and its emptiness are read.
pub mod Granted
use rustee_web_framework.Prelude.{
  ℕ, Bool, true, false, not, ◌||◌, Option, none, some, List, [], ◌∷◌, ◌++◌, ltb, if◌then◌else◌, any,
  all, is_empty,
}
use rustee_web_framework.Prelude.Result.{Result, ok, err}
use rustee_web_framework.Text.{Text, eqb, byte_len}
use rustee_web_framework.Text.Trim.{trim}
use rustee_web_framework.AssocMap.{get, insert}

abbrev pub max_principal_authorization_value_bytes : ℕ
max_principal_authorization_value_bytes = 256

abbrev pub member : Text → List Text → Bool
member text texts = any (λ other. eqb other text) texts

-- `Principal` of crates/rustee-auth/src/principal/model.rs, with its sets as lists.
pub record Principal : Type 0 where
  pub subject : Text
  pub issuer : Option Text
  pub tenant : Option Text
  pub scopes : List Text
  pub roles : List Text
  pub permissions : List Text

pub record RolePolicy : Type 0 where
  pub grants : List (Text × List Text)

pub data RolePolicyError : Type 0 where
  blank_role empty_permissions blank_permission : RolePolicyError
  role_too_long permission_too_long : ℕ → RolePolicyError

pub data PermissionPolicyError : Type 0 where
  empty_requirement blank_permission : PermissionPolicyError
  permission_too_long : ℕ → PermissionPolicyError

unfoldable pub exceeds_principal_authorization_value_limit : Text → Bool
exceeds_principal_authorization_value_limit value =
    ltb max_principal_authorization_value_bytes (byte_len value)

abbrev pub is_blank : Text → Bool
is_blank value = is_empty (trim value)

-- `self.grants.entry(role).or_default()`.
abbrev pub granted : Text → RolePolicy → List Text
granted role policy = elim (get eqb role policy.grants) [
  | none ↦ []
  | some permissions ↦ permissions
]

-- `RolePolicy::grant`; the policy stays as it is after an error.
unfoldable pub grant : RolePolicy → Text → List Text → Result RolePolicy RolePolicyError
grant policy role permissions =
    if is_blank role
    then err RolePolicyError.blank_role
    else if exceeds_principal_authorization_value_limit role
    then err (RolePolicyError.role_too_long max_principal_authorization_value_bytes)
    else if is_empty permissions
    then err RolePolicyError.empty_permissions
    else if any is_blank permissions
    then err RolePolicyError.blank_permission
    else if any exceeds_principal_authorization_value_limit permissions
    then err (RolePolicyError.permission_too_long max_principal_authorization_value_bytes)
    else ok (record { grants = insert eqb role (granted role policy ++ permissions) policy.grants })

-- `Principal::has_permission`.
unfoldable pub has_permission : Principal → Text → Bool
has_permission principal permission = member permission principal.permissions

unfoldable pub permits : RolePolicy → Principal → Text → Bool
unfolding has_permission
permits policy principal permission =
    has_permission principal permission
    || any
        (λ role. elim (get eqb role policy.grants) [
          | none ↦ false
          | some permissions ↦ member permission permissions
        ])
        principal.roles

pub record RequirePermissions : Type 0 where
  pub required : List Text
  pub policy : RolePolicy

-- `RequirePermissionsLayer::new`.
unfoldable pub require_permissions :
    List Text → RolePolicy → Result RequirePermissions PermissionPolicyError
require_permissions required policy =
    if is_empty required
    then err PermissionPolicyError.empty_requirement
    else if any is_blank required
    then err PermissionPolicyError.blank_permission
    else if any exceeds_principal_authorization_value_limit required
    then err (PermissionPolicyError.permission_too_long max_principal_authorization_value_bytes)
    else ok (record { required = required; policy = policy })

-- A response of the layer itself, or the inner service's response to the request.
pub data PermissionOutcome : Type 0 where
  missing_bearer_token insufficient_permission call_inner : PermissionOutcome

-- `RequirePermissions::call`, on the principal that the request carries.
unfoldable pub call : RequirePermissions → Option Principal → PermissionOutcome
call layer none = missing_bearer_token
call layer (some principal) =
    if not (all (λ permission. permits layer.policy principal permission) layer.required)
    then insufficient_permission
    else call_inner
