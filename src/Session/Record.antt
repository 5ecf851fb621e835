-- ===== src/Session/Record.antt =====
-- crates/rustee-auth-session/src/model/session.rs: a session and its lifetime. The clock is read
-- by `unix_seconds()`: each reading is an argument here. `Uuid` is of another crate: an ID is the
-- 128 bits of its UUID, and what the code calls of that crate is a record of functions.
use rustee_web_framework.Prelude.{
  ℕ, ◌+◌, ◌-◌, Bool, not, ◌&&◌, Option, none, some, leb, false, ltb, ◌==◌, if◌then◌else◌, min,
}
use rustee_web_framework.Prelude.Result.{Result, ok, err}
use rustee_web_framework.Text.{Text, eqb, byte_len}
use rustee_web_framework.Text.Number.{u64_bound}
use rustee_web_framework.Auth.Permission.{Principal}

abbrev pub SessionId : Type 0
SessionId = ℕ

-- `Uuid::parse_str`, `Uuid::to_string`, `get_variant() == Variant::RFC4122`, `get_version_num`.
pub record UuidCrate : Type 0 where
  pub parse_str : Text → Option ℕ
  pub to_string : ℕ → Text
  pub is_rfc4122 : ℕ → Bool
  pub get_version_num : ℕ → ℕ

-- `SessionId::from_uuid`.
unfoldable pub from_uuid : UuidCrate → ℕ → Option SessionId
from_uuid uuids id = if uuids.is_rfc4122 id && uuids.get_version_num id == 4 then some id else none

-- `SessionId::parse`: only the text that the ID itself prints as.
unfoldable pub parse : UuidCrate → Text → Option SessionId
unfolding from_uuid
parse uuids value = elim (uuids.parse_str value) [
  | none ↦ none
  | some id ↦ if eqb (uuids.to_string id) value then from_uuid uuids id else none
]

pub record Session : Type 0 where
  pub id : SessionId
  pub principal : Principal
  pub csrf_token : Text
  pub expires_at_unix_seconds : ℕ

-- `Session::new`, with the ID and the token that are drawn for it.
unfoldable pub session_new : ℕ → SessionId → Text → Principal → ℕ → Session
session_new now id csrf_token principal ttl_seconds = record {
  id = id;
  principal = principal;
  csrf_token = csrf_token;
  expires_at_unix_seconds = min (now + ttl_seconds) (u64_bound - 1);
}

unfoldable pub valid_csrf_token : UuidCrate → Text → Bool
valid_csrf_token uuids value = byte_len value == 36 && elim (uuids.parse_str value) [
  | none ↦ false
  | some token ↦ eqb (uuids.to_string token) value
]

pub data RestoreError : Type 0 where
  invalid_csrf_token : RestoreError

-- `Session::from_serialized`; the record read is a session that is not checked yet.
unfoldable pub from_serialized : UuidCrate → Session → Result Session RestoreError
unfolding valid_csrf_token
from_serialized uuids serialized =
    if not (valid_csrf_token uuids serialized.csrf_token)
    then err RestoreError.invalid_csrf_token
    else ok serialized

abbrev pub is_expired : ℕ → Session → Bool
is_expired now session = leb session.expires_at_unix_seconds now

unfoldable pub remaining_ttl_seconds : ℕ → Session → Option ℕ
remaining_ttl_seconds now session =
    if ltb session.expires_at_unix_seconds now
    then none
    else let ttl = session.expires_at_unix_seconds - now in if ltb 0 ttl then some ttl else none
