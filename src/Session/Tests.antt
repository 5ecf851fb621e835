-- ===== src/Session/Tests.antt =====
-- Sessions under concrete calls.
use rustee_web_framework.Auth.ConstantTime.{constant_time_eq}
use rustee_web_framework.Text.Trim.{trim}
use rustee_web_framework.Text.Split.{split_once, split}
use rustee_web_framework.Prelude.{
  ◌≡◌, ◌≢◌, ◌⊎◌, refl, ◌↔◌, true, false, none, some, List, [], ◌∷◌, arith,
}
use rustee_web_framework.Prelude.Result.{ok}
use rustee_web_framework.Text.{byte_len, Text, codes}
use rustee_web_framework.Text.Number.{parse_u64, decimal}
use rustee_web_framework.AssocMap.{retain, contains_key, get}
use rustee_web_framework.Static.Header.{HeaderValue}
use rustee_web_framework.Auth.Permission.{Principal}
use rustee_web_framework.Session.Record.{
  session_new, UuidCrate, Session, parse, remaining_ttl_seconds,
}
use rustee_web_framework.Session.Cookie.{
  valid_cookie_name, SameSite, SessionCookieConfig, cookie_new, set_cookie, Setting, same_site_call,
  secure_call, configure_all,
}
use rustee_web_framework.Session.Cookie.Secure.{IsSound, cookie_new-configure_all}
use rustee_web_framework.Session.Memory.{InMemorySessionStore, same_id, save, load, in_memory}
use rustee_web_framework.Session.Memory.Steps.{load_call, delete_call, Call, run, Saved, Behaves}
use rustee_web_framework.Session.Memory.Refines.{run-refines}
use rustee_web_framework.Session.Manager.{IssuedSession, Drawn, establish, rotate}
use rustee_web_framework.Session.Manager.Rotation.{rotate-run_none, load-establish}
use rustee_web_framework.Session.Service.{
  csrf_response, session_store_response, csrf_call, SessionContext, GuardedOutcome, session_id,
  call, behind, csrf_header_value, is_safe_method,
}
use rustee_web_framework.Session.Service.Guarded.{
  anonymous, signed_in, Restores, behind-reached_iff,
}
use rustee_web_framework.Session.Service.Refused.{IsUnsafe, Fails, behind-refused_iff}

-- IDs that print as decimal numbers.
abbrev uuids : UuidCrate
uuids = record {
  parse_str = parse_u64;
  to_string = decimal;
  is_rfc4122 = λ _. true;
  get_version_num = λ _. 4;
}

abbrev ada : Principal
ada = record {
  subject = codes "ada";
  issuer = none;
  tenant = none;
  scopes = codes "profile:read" ∷ [];
  roles = codes "clerk" ∷ [];
  permissions = [];
}

abbrev old_session : Session
old_session = record {
  id = 7;
  principal = ada;
  csrf_token = codes "seven";
  expires_at_unix_seconds = 100;
}

abbrev store : InMemorySessionStore
store = record { sessions = (7, old_session) ∷ []; poisoned = false }

abbrev broken : InMemorySessionStore
broken = record { sessions = []; poisoned = true }

abbrev cookie : SessionCookieConfig
cookie = record { name = codes "id"; ttl_seconds = 60; secure = true; same_site = SameSite.lax }

cookie_made : cookie_new (codes "id") 60 ≡ ok cookie
unfolding cookie_new valid_cookie_name byte_len
cookie_made = refl

cookie_text :
    set_cookie cookie (codes "7") ≡ codes "id=7; Path=/; Max-Age=60; HttpOnly; Secure; SameSite=Lax"
unfolding set_cookie decimal
cookie_text = refl

ttl : remaining_ttl_seconds 40 old_session ≡ some 60
unfolding remaining_ttl_seconds
ttl = refl

abbrev saved : Saved
saved id = get same_id id store.sessions

abbrev calls : List Call
calls = load_call 50 7 ∷ delete_call 60 7 ∷ load_call 70 7 ∷ load_call 150 8 ∷ []

run-refines_example : Behaves false saved calls (run calls store).0
unfolding get
run-refines_example =
    run-refines 40 calls store saved (omega arith, (omega arith, (omega arith, (omega arith, tt))))
      ((refl, tt), λ id. refl)

abbrev drawn : Drawn
drawn = record { created = 50; saved = 51; id = 8; csrf_token = codes "eight" }

rotate-run_none_example :
    get same_id 7 (run calls (rotate uuids in_memory cookie 7 drawn ada store).1).1.sessions ≡ none
rotate-run_none_example =
    rotate-run_none uuids cookie 7 drawn ada store calls refl refl (tt, (tt, (tt, (tt, tt))))

abbrev issued : IssuedSession
issued = record {
  csrf_token = codes "eight";
  set_cookie = codes "id=8; Path=/; Max-Age=60; HttpOnly; Secure; SameSite=Lax";
}

establishes : (establish uuids in_memory cookie drawn ada store).0 ≡ ok issued
unfolding establish save session_new contains_key retain set_cookie decimal
establishes = refl

abbrev established : Session
established = record {
  id = 8;
  principal = ada;
  csrf_token = codes "eight";
  expires_at_unix_seconds = 110;
}

load-establish_example :
    (issued.csrf_token ≡ drawn.csrf_token)
    × ((load 90 8 (establish uuids in_memory cookie drawn ada store).1).0 ≡ ok (some established))
unfolding get
load-establish_example =
    load-establish uuids cookie 90 drawn ada store issued (refl, tt) establishes

abbrev settings : List Setting
settings = same_site_call SameSite.strict ∷ secure_call false ∷ []

abbrev local : SessionCookieConfig
local = record { name = codes "id"; ttl_seconds = 60; secure = false; same_site = SameSite.strict }

configured : configure_all settings cookie ≡ ok local
unfolding configure_all
configured = refl

cookie_new-configure_all_example : IsSound local
cookie_new-configure_all_example =
    cookie_new-configure_all (codes "id") 60 settings cookie local cookie_made configured

abbrev value : Text → HeaderValue
value text = record { bytes = text; text = some text }

abbrev cookies : List HeaderValue
cookies = value (codes "theme=dark; id=7") ∷ []

finds_id : session_id uuids cookies (codes "id") ≡ some 7
unfolding session_id split split_once trim parse parse_u64 decimal
finds_id = refl

refuses_two : session_id uuids (value (codes "id=7; id=8") ∷ []) (codes "id") ≡ none
unfolding session_id split split_once trim
refuses_two = refl

abbrev context : SessionContext
context = record { id = 7; csrf_token = codes "seven" }

abbrev tokens : List HeaderValue
tokens = value (codes "seven") ∷ []

posts :
    behind (call uuids in_memory (codes "id") 50 50 cookies anonymous store).0 (codes "POST") tokens
    ≡ GuardedOutcome.reached (signed_in ada context)
unfolding call split split_once trim parse parse_u64 decimal load csrf_call get retain
    constant_time_eq
posts = refl

turned_away :
    behind (call uuids in_memory (codes "id") 50 50 cookies anonymous store).0 (codes "POST") []
    ≡ GuardedOutcome.refused csrf_response
unfolding call split split_once trim parse parse_u64 decimal load csrf_call get retain
turned_away = refl

behind-refused_iff_example :
    (behind
        (call uuids in_memory (codes "id") 50 50 cookies anonymous broken).0
        (codes "POST")
        tokens
      ≡ GuardedOutcome.refused session_store_response)
    ↔ (((record {
      status = 503;
      code = codes "session_unavailable";
      message = codes "session service is unavailable";
    }
            ≡ session_store_response)
          × Fails uuids in_memory (codes "id") 50 cookies broken)
        ⊎ ((record {
          status = 403;
          code = codes "csrf_rejected";
          message = codes "CSRF validation failed";
        }
              ≡ session_store_response)
            × IsUnsafe (codes "POST")
            × (principal : Principal) × (context : SessionContext) × Restores uuids in_memory
                (codes "id")
                50
                50
                cookies
                broken
                principal
                context
            × (csrf_header_value tokens ≢ some context.csrf_token)))
behind-refused_iff_example =
    behind-refused_iff uuids in_memory (codes "id") (codes "POST") 50 50 cookies tokens broken
      session_store_response

unsafe : is_safe_method (codes "POST") ≡ false
unfolding is_safe_method
unsafe = refl

behind-reached_iff_example :
    (behind
        (call uuids in_memory (codes "id") 50 50 cookies anonymous store).0
        (codes "POST")
        tokens
      ≡ GuardedOutcome.reached (signed_in ada context))
    ↔ (Restores uuids in_memory (codes "id") 50 50 cookies store ada context
        × (csrf_header_value tokens ≡ some context.csrf_token))
behind-reached_iff_example =
    behind-reached_iff uuids in_memory (codes "id") (codes "POST") 50 50 cookies tokens store ada
      context unsafe
