-- ===== src/RateLimit/Tests.antt =====
-- A window of two requests.
use rustee_web_framework.Prelude.{
  ℕ, suc, ◌≡◌, ◌≤◌, ◌+◌, ◌*◌, ◌-◌, ◌==◌, ◌||◌, leb, refl, inl, inr, some, List, [], ◌∷◌,
  if◌then◌else◌, Bool-cases,
}
use rustee_web_framework.Prelude.Result.{Result, ok}
use rustee_web_framework.Text.{Text, codes, eqb, eqb_refl}
use rustee_web_framework.Duration.{from_secs}
use rustee_web_framework.RateLimit.Policy.{
  RateLimitKey, FixedWindow, RateLimitDecision, StoreFailurePolicy, fixed_window_new,
}
use rustee_web_framework.RateLimit.Layer.{Deployment, call}
use rustee_web_framework.RateLimit.Layer.Admission.{
  Counter, Counted, Tallies, CountsByKey, serve, serve-windows,
}

abbrev window : FixedWindow
window = record { limit = 2; window = from_secs 60; window_millis = 60000 }

accepted : fixed_window_new 2 (from_secs 60) ≡ ok window
unfolding fixed_window_new
accepted = refl

abbrev peer : RateLimitKey
peer = record { value = codes "peer" }

abbrev other_peer : RateLimitKey
other_peer = record { value = codes "other" }

-- A store whose clock goes on by 20 seconds with each request, and what it keeps for a key: the
-- counter, and the time at which its window opened.
record Entry : Type 0 where
  opened_at : ℕ
  counter : Counter

record Shelf : Type 0 where
  now : ℕ
  entry : Text → Entry

-- The entry after one more request of its key.
abbrev next_entry : ℕ → Entry → Entry
next_entry now entry =
    if entry.counter.used == 0 || leb (entry.opened_at + 60) now
    then record {
      opened_at = now;
      counter = record { windows = suc entry.counter.windows; used = 1 };
    }
    else record entry {
      counter = record { windows = entry.counter.windows; used = suc entry.counter.used };
    }

abbrev check_shelf :
    Shelf → RateLimitKey → FixedWindow → Result RateLimitDecision (Unit {0}) × Shelf
check_shelf shelf key policy =
    let entry = next_entry shelf.now (shelf.entry key.value) in
    (
      ok (record {
        allowed = leb entry.counter.used policy.limit;
        limit = policy.limit;
        remaining = policy.limit - entry.counter.used;
        reset_after = from_secs (entry.opened_at + 60 - shelf.now);
      }),
      record {
        now = shelf.now + 20;
        entry = λ name. if eqb key.value name then entry else shelf.entry name;
      },
    )

abbrev counter_of : Shelf → RateLimitKey → Counter
counter_of shelf key = (shelf.entry key.value).counter

-- Requests are their keys, and the application keeps the requests that it got.
abbrev service : Deployment RateLimitKey ℕ Shelf (List RateLimitKey) (Unit {0})
service = record {
  resolve = λ request. some request;
  check = check_shelf;
  inner = λ app request. (200, request ∷ app);
  insert_header = λ name value response. response;
  error_response = λ status code. status;
  policy = window;
  failure_policy = StoreFailurePolicy.fail_closed;
}

abbrev calls_of : List RateLimitKey → RateLimitKey → ℕ
calls_of [] key = 0
calls_of (request ∷ app) key =
    let rest = calls_of app key in if eqb request.value key.value then suc rest else rest

service-Tallies : Tallies service counter_of calls_of
service-Tallies app request key = refl

next_entry-Counted :
    (now : ℕ) (entry : Entry) → Counted entry.counter (next_entry now entry).counter
next_entry-Counted now entry =
    elim (Bool-cases (entry.counter.used == 0 || leb (entry.opened_at + 60) now)) [
      | inl new ↦ rw new (inr (refl, refl))
      | inr same ↦ rw same (inl (refl, refl))
    ]

service-CountsByKey : CountsByKey service counter_of calls_of
service-CountsByKey shelf key = (
  rw (eqb_refl key.value, counter_of) (next_entry-Counted shelf.now (shelf.entry key.value), refl),
  λ other away. rw (away, counter_of) refl,
)

abbrev shelf : Shelf
shelf = record {
  now = 0;
  entry = λ name. record { opened_at = 0; counter = record { windows = 0; used = 0 } };
}

abbrev requests : List RateLimitKey
requests = peer ∷ peer ∷ other_peer ∷ peer ∷ peer ∷ peer ∷ []

-- The last request of the first key comes when the limit of its second window is used up.
served : (serve service requests shelf []).1 ≡ peer ∷ peer ∷ other_peer ∷ peer ∷ peer ∷ []
unfolding serve call
served = refl

serve-windows_example : calls_of (serve service requests shelf []).1 peer ≤ 0 + 2 * 3
unfolding serve call
serve-windows_example =
    serve-windows service counter_of calls_of service-Tallies service-CountsByKey refl requests
      shelf [] peer
