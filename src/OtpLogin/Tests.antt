-- ===== src/OtpLogin/Tests.antt =====
-- Runs of the code login over a toy platform, and the theorems at concrete slots.
use adonis_authkit.Prelude.{
  ◌-◌, ◌≤◌, ◌≡◌, ◌↔◌, inr, refl, true, none, some, List, [], ◌∷◌, Text, codes, arith,
}
use adonis_authkit.OtpLogin.{
  ParsedOtpToken, from_ℕ, hex_64, encode_otp_token, decode_otp_token, hash_login_otp,
  safe_equal_hex, hex_bytes, ok, invalid, locked, expired, evaluate_login_otp,
}
use adonis_authkit.OtpLogin.Codec.{IsEncodable, decode-encode, safe_equal_hex_iff}
use adonis_authkit.OtpLogin.Verify.{
  Guess, IsOpenFor, comparisons, evaluate_login_otp-ok_iff, lockout_bound,
}
use adonis_authkit.OtpLogin.Toy.{strokes, toy_digest, toy, toy-PrintsNumbers}

abbrev link : Text
link = codes "00000000000000000000000000000000000000000000000000000000000000ff"

abbrev slot : ParsedOtpToken
slot = record {
  link_token = link;
  code_hash = toy_digest (codes "u:12");
  code_exp_ms = from_ℕ 9;
  attempts = 1;
}

slot-IsEncodable : IsEncodable slot
unfolding hex_64
slot-IsEncodable = record {
  link = refl;
  hash = inr refl;
  expiry = 9;
  expires = refl;
  expiry_safe = omega arith;
  attempts_safe = omega arith;
}

run : Unit {0}
unfolding evaluate_login_otp safe_equal_hex hex_bytes hash_login_otp encode_otp_token
    decode_otp_token strokes
run = tt

outcomes :
    ((evaluate_login_otp toy (codes "u") (codes "12") 9 3 (some slot)).result ≡ ok)
    × ((evaluate_login_otp toy (codes "u") (codes "123") 9 3 (some slot)).result ≡ invalid)
    × ((evaluate_login_otp toy (codes "u") (codes "123") 9 2 (some slot)).result ≡ locked)
    × ((evaluate_login_otp toy (codes "u") (codes "12") 10 3 (some slot)).result ≡ expired)
unfolding run
outcomes = (refl, refl, refl, refl)

decode-encode_example : decode_otp_token toy (some (encode_otp_token toy slot)) ≡ some slot
decode-encode_example = decode-encode toy toy-PrintsNumbers slot slot-IsEncodable

digest-hex_64 : hex_64 (hash_login_otp toy (codes "u") (codes "12")) ≡ true
unfolding hex_64 hash_login_otp
digest-hex_64 = refl

link-hex_64 : hex_64 link ≡ true
unfolding hex_64
link-hex_64 = refl

slot-hex_64 : hex_64 slot.code_hash ≡ true
unfolding hex_64
slot-hex_64 = refl

safe_equal_hex_iff_run : (safe_equal_hex link slot.code_hash ≡ true) ↔ (link ≡ slot.code_hash)
safe_equal_hex_iff_run = safe_equal_hex_iff link slot.code_hash link-hex_64 slot-hex_64

evaluate_login_otp-ok_iff_example :
    ((evaluate_login_otp toy (codes "u") (codes "12") 9 3 (some slot)).result ≡ ok)
    ↔ IsOpenFor toy (codes "u") (codes "12") 9 3 (some slot)
evaluate_login_otp-ok_iff_example =
    evaluate_login_otp-ok_iff toy (codes "u") (codes "12") 9 3 (some slot) digest-hex_64
      (inr slot-hex_64)

-- A slot without a code accepts none.
no_slot :
    ((evaluate_login_otp toy (codes "u") (codes "12") 9 3 none).result ≡ ok)
    ↔ IsOpenFor toy (codes "u") (codes "12") 9 3 none
no_slot = evaluate_login_otp-ok_iff toy (codes "u") (codes "12") 9 3 none digest-hex_64 tt

abbrev guess : Text → Guess
guess code = record { uid = codes "u"; code = code; now_ms = 5 }

abbrev tries : List Guess
tries = guess (codes "1") ∷ guess (codes "123") ∷ guess (codes "12") ∷ guess (codes "12") ∷ []

lockout_bound_example : comparisons toy 3 (some (encode_otp_token toy slot)) tries ≤ 3 - 1
lockout_bound_example =
    lockout_bound toy toy-PrintsNumbers 3 slot tries (omega arith) slot-IsEncodable
