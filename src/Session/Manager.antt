-- ===== src/Session/Manager.antt =====
-- crates/rustee-auth-session/src/model/manager.rs, `SessionManager`, over any session store. A new
-- session's ID and token are drawn at random: they are arguments. The clock is read when a session
-- is made and again when it is saved.
pub mod Rotation
use rustee_web_framework.Prelude.{ℕ}
use rustee_web_framework.Prelude.Result.{Result, ok, err}
use rustee_web_framework.Text.{Text}
use rustee_web_framework.Auth.Permission.{Principal}
use rustee_web_framework.Session.Record.{SessionId, UuidCrate, session_new}
use rustee_web_framework.Session.Cookie.{SessionCookieConfig, set_cookie, clear_cookie}
use rustee_web_framework.Session.Memory.{SessionStore}

pub record IssuedSession : Type 0 where
  pub csrf_token : Text
  pub set_cookie : Text

-- What is drawn for a new session, and when.
pub record Drawn : Type 0 where
  pub created : ℕ
  pub saved : ℕ
  pub id : SessionId
  pub csrf_token : Text

module _ (uuids : UuidCrate) (store : SessionStore) (cookie : SessionCookieConfig) where
  unfoldable pub establish :
      Drawn → Principal → store.State → Result IssuedSession store.Error × store.State
  establish drawn principal state =
      let session =
        session_new drawn.created drawn.id drawn.csrf_token principal cookie.ttl_seconds in
      let saved = store.save drawn.saved session state in
      elim saved.0 [
        | err e ↦ (err e, saved.1)
        | ok _ ↦ (
          ok (record {
            csrf_token = session.csrf_token;
            set_cookie = set_cookie cookie (uuids.to_string session.id);
          }),
          saved.1,
        )
      ]

  unfoldable pub rotate :
      SessionId → Drawn → Principal → store.State → Result IssuedSession store.Error × store.State
  unfolding establish
  rotate previous drawn principal state =
      let deleted = store.delete previous state in
      elim deleted.0 [ err e ↦ (err e, deleted.1) | ok _ ↦ establish drawn principal deleted.1 ]

  unfoldable pub invalidate : SessionId → store.State → Result Text store.Error × store.State
  invalidate id state =
      let deleted = store.delete id state in
      elim deleted.0 [ err e ↦ (err e, deleted.1) | ok _ ↦ (ok (clear_cookie cookie), deleted.1) ]
