-- ===== src/Tests/Passwords.antt =====
-- Passwords that are asked for a phone number.
use lumigift_lumigift.Common.{◌≤◌, ◌≡◌, refl, arith, String, List, [], ◌∷◌, some}
use lumigift_lumigift.Otp.{store_otp}
use lumigift_lumigift.SendOtp.{SendRequest, check_rate_limit, send_otp_handler, send_otp_route}
use lumigift_lumigift.SendOtp.Limit.{InWindow, passwords_sent, three_passwords_sent}
use lumigift_lumigift.Tests.KeyStore.{key_store, no_keys}
use lumigift_lumigift.Tests.Guards.{token}
use lumigift_lumigift.Tests.Claims.{hmac, passes}

abbrev asking : String → SendRequest
asking ip = record {
  now = 3;
  header_token = some token;
  cookie_token = some token;
  body = some "+2348012345678";
  ip = ip;
  sent = some "123456";
}

abbrev askings : List SendRequest
askings = asking "a" ∷ asking "b" ∷ asking "c" ∷ asking "d" ∷ []

three_passwords_sent_example : passwords_sent key_store hmac "+2348012345678" 3 askings no_keys ≤ 3
unfolding InWindow
three_passwords_sent_example =
    three_passwords_sent key_store hmac "+2348012345678" 3 askings no_keys
      (
        omega arith,
        omega arith,
        (omega arith, omega arith, (omega arith, omega arith, (omega arith, omega arith, tt))),
      )
      (λ t le lt. refl)

-- Three of the four requests are answered with 200.
passwords_sent-askings : passwords_sent key_store hmac "+2348012345678" 3 askings no_keys ≡ 3
unfolding passwords_sent send_otp_route send_otp_handler check_rate_limit store_otp
passwords_sent-askings = rw passes refl
