-- ===== src/Tests/Web.antt =====
-- The browser's library at concrete inputs: web/src/lib.
use entra_shift.Common.{
  ℕ, zero, ◌+◌, ◌≤◌, false, none, some, [], length, select, ◌≡◌, ◌≢◌, refl, units, if◌then◌else◌,
  arith, Text, text_eq,
}
use entra_shift.Web.Settled.{Settled, resolved, rejected}
use entra_shift.Web.Poll.{Polling, tick, start, settle, Reach, done, later, wait, fire, answer}
use entra_shift.Web.Poll.Alive.{GoesOn, Reach-GoesOn}
use entra_shift.Web.Page.{Browser, Page, answered, ended, raised, out_of_fuel, post, is_unsafe}
use entra_shift.Web.Page.{◌>>=◌, pure}
use entra_shift.Web.Client.{request, send, refuse}
use entra_shift.Web.Loading.{Loading, effect, mounted}
use entra_shift.Web.Loading as Load
use entra_shift.Web.Client.Finishes.{request-finishes}
use entra_shift.Web.Client.Count.{request-sent, unsafe_sent}
use entra_shift.Web.Client.Announces.{request-announces, marked}

-- A poll that asked for five seconds: its first call is answered, and the timer fires in time.
abbrev waiting : Polling ℕ
waiting = settle 5000 (resolved 1) false (start 0)

abbrev called_twice : Polling ℕ
called_twice = tick (record (record waiting { now = waiting.now + 30000 }) { timer = none })

called_twice_reach : Reach 5000 called_twice
unfolding start tick settle
called_twice_reach = (
  0,
  later (later (later done (answer (resolved 1) false refl)) (wait 30000))
      (fire refl (omega arith)),
)

Reach-GoesOn_example : GoesOn 5000 called_twice
unfolding start tick settle
Reach-GoesOn_example = Reach-GoesOn 5000 called_twice_reach (rejected (units "down")) refl

-- A server that finds every token stale, and gives out another one.
abbrev stale_server : Browser
stale_server = record {
  Json = Text;
  api_base = [];
  fetch = λ sent m. answered (record {
    status = if is_unsafe m.method then 403 else 200;
    status_text = units "Forbidden";
    text = some (if is_unsafe m.method then units "csrf" else units "token");
  });
  parse = λ text. some text;
  error_code = λ j. some j;
  error_message = λ j. none;
  error_detail = λ j. none;
  csrf_of = λ j. some j;
}

abbrev fresh_page : Page
fresh_page = record { csrf_token = none; sent = []; announced = 0 }

request-finishes_example :
    (request stale_server 2 false post (units "/api/jobs") none fresh_page).0 ≢ ended out_of_fuel
request-finishes_example =
    request-finishes stale_server 0 false post (units "/api/jobs") none fresh_page

request-sent_example :
    let q = (request stale_server 2 false post (units "/api/jobs") none fresh_page).1 in
    (length q.sent ≤ 4) × (length (select unsafe_sent q.sent) ≤ 2)
request-sent_example = request-sent stale_server 0 false post (units "/api/jobs") none fresh_page

-- The test behind it: both tokens are tried, and the second refusal is final.
refused_twice :
    (request stale_server 2 false post (units "/api/jobs") none fresh_page).0
    ≡ ended (
        raised (record {
          code = units "csrf";
          message = units "Forbidden";
          status = 403;
          detail = none;
        }))
unfolding request send refuse pure units text_eq ◌>>=◌
refused_twice = refl

request-announces_example :
    let (o, q) = request stale_server 2 false post (units "/api/jobs") none fresh_page in
    q.announced ≡ 0 + marked stale_server (units "/api/jobs") o
request-announces_example =
    request-announces stale_server 2 false post (units "/api/jobs") none fresh_page

-- Two loads, of which the first ends after the second has begun.
abbrev two_ends : ℕ → Settled ℕ
two_ends zero = rejected (units "slow")
two_ends _ = resolved 7

abbrev superseded : Loading ℕ
superseded = Load.settle 0 (two_ends 0) (effect (effect mounted))
