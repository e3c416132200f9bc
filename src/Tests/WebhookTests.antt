-- ===== src/Tests/WebhookTests.antt =====
-- internal/notify: a signature, a dial and an answer.
use ruleraven.Common.{
  ◌≡◌, refl, ◌↔◌, String, ◌==◌, Bool, true, false, none, some, List, [], ◌∷◌, arith, if◌then◌else◌,
}
use ruleraven.Common.Int.{pos}
use ruleraven.Notify.Signing.{Signing, sign, verify, verify-sign}
use ruleraven.Notify.Webhook.{
  IpAddress, Lookup, addresses, dial, Response, WebhookLibrary, answer_of,
}
use ruleraven.Notify.Webhook.Safe.{IsDialed, IsAnswer, dial-IsDialed, answer_of-IsAnswer}

-- A text stands for its own hexadecimal form, and every code is the same 64 digits.
abbrev digits : String
digits = "0123456789abcdef0123456789abcdef0123456789abcdef0123456789abcdef"

abbrev signing : Signing
signing = record {
  hmac_sha256 = λ key message. digits;
  hex_encode = λ b. b;
  hex_decode = λ t. some t;
  unix_seconds = λ t. "1700000000";
}

verify-sign_example :
    verify signing "secret" (pos 5) "{}" digits ≡ true ↔ digits ≡ sign signing "secret" (pos 5) "{}"
verify-sign_example =
    verify-sign signing "secret" (pos 5) "{}" digits (λ b. refl) (λ key message. refl)

abbrev public : IpAddress
public = record {
  text = "203.0.113.9";
  is_nil = false;
  is_unspecified = false;
  is_loopback = false;
  is_private = false;
  is_link_local_unicast = false;
  is_link_local_multicast = false;
  is_multicast = false;
}

abbrev local : IpAddress
local = record public { text = "127.0.0.1"; is_loopback = true }

abbrev resolve : String → List IpAddress → Lookup × List IpAddress
resolve host s = (addresses (local ∷ public ∷ []), s)

abbrev connect : IpAddress → List IpAddress → Bool × List IpAddress
connect ip s = (true, ip ∷ s)

dial-IsDialed_example :
    IsDialed false
      (local ∷ public ∷ [])
      (dial connect (λ s. s) "hooks" false resolve (some "HOOKS") []).0
dial-IsDialed_example = dial-IsDialed connect (λ s. s) "hooks" false resolve (some "HOOKS") []

abbrev library : WebhookLibrary
library = record {
  signing = signing;
  marshal = λ e. some e.event_data;
  accepts_request = λ u. true;
  parse_int = λ s. if s == "120" then some (pos 120) else none;
  parse_time = λ s. none;
}

abbrev busy : Response
busy = record { status = pos 503; retry_after = "120"; size = some (pos 10) }

answer_of-IsAnswer_example :
    IsAnswer busy (pos 60000000000) (answer_of library (pos 100) busy (pos 5) (pos 60000000000))
answer_of-IsAnswer_example =
    answer_of-IsAnswer library (pos 100) busy (pos 5) (pos 60000000000) (omega arith)
