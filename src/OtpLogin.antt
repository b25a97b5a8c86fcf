-- ===== src/OtpLogin.antt =====
-- Login by a typed code: packages/authkit-server/src/host/otp_login.ts. The slot holds
-- `ml2:<linkToken>:<codeHash>:<codeExpMs>:<attempts>`. SHA-256 and the conversions between numbers
-- and strings are parameters.
pub mod Codec
pub mod Verify
pub mod Toy
mod Tests
use adonis_authkit.Prelude.{
  ℕ, ◌+◌, ◌-◌, ◌*◌, ◌≤◌, ◌≡◌, Bool, true, false, ◌&&◌, ◌||◌, not, Option, none, some, List, [], ◌∷◌,
  ◌++◌, Text, codes, same, starts_with, drop, length, all, Lacks, ltb, leb, ◌==◌, if◌then◌else◌,
}
use adonis_authkit.Prelude.Integers.{
  ℤ, pos, negsuc, JsNumber, not_finite, integer, fraction, SettingNumber, whole, part, floor_or,
}

abbrev pub max_safe : ℕ
max_safe = 9007199254740991

pub record OtpLoginConfigInput : Type 0 where
  pub enabled : Option Bool
  pub digits : Option SettingNumber
  pub ttl_minutes : Option SettingNumber
  pub max_attempts : Option SettingNumber

pub record ResolvedOtpLoginConfig : Type 0 where
  pub enabled : Bool
  pub digits : ℕ
  pub ttl_minutes : ℕ
  pub max_attempts : ℕ

-- Between 4 and 10; a fraction above 10 is out of range.
abbrev pub digits_from : Option SettingNumber → ℕ
digits_from (some (whole (pos n))) = if leb 4 n && leb n 10 then n else 6
digits_from (some (part (pos n))) = if leb 4 n && ltb n 10 then n else 6
digits_from _ = 6

abbrev pub enabled_from : Option Bool → Bool
enabled_from none = false
enabled_from (some b) = b

unfoldable pub resolve_otp_login_config : OtpLoginConfigInput → ResolvedOtpLoginConfig
resolve_otp_login_config input = record {
  enabled = enabled_from input.enabled;
  digits = digits_from input.digits;
  ttl_minutes = floor_or 1 10 input.ttl_minutes;
  max_attempts = floor_or 1 5 input.max_attempts;
}

-- What the code uses of the platform: `Number(s)`, `String(n)` and the hex form of SHA-256.
pub record Platform : Type 0 where
  pub number : Text → JsNumber
  pub show : JsNumber → Text
  pub sha256 : Text → Text

abbrev pub from_ℕ : ℕ → JsNumber
from_ℕ n = integer (pos n)

-- A safe integer survives the way to its digits and back, and its digits hold no ':'.
pub record PrintsNumbers (js : Platform) : Type 0 where
  pub number_show : (n : ℕ) → n ≤ max_safe → js.number (js.show (from_ℕ n)) ≡ from_ℕ n
  pub show_plain : (n : ℕ) → Lacks b':' (js.show (from_ℕ n))

abbrev pub is_hex : ℕ → Bool
is_hex c = (leb b'0' c && leb c b'9') || (leb b'a' c && leb c b'f')

-- `HEX_64.test(s)`
unfoldable pub hex_64 : Text → Bool
hex_64 s = length s == 64 && all is_hex s

abbrev pub prefix : Text
prefix = codes "ml2:"

pub record ParsedOtpToken : Type 0 where
  pub link_token : Text
  pub code_hash : Text
  pub code_exp_ms : JsNumber
  pub attempts : ℕ

split_head : ℕ → List Text → List Text
split_head c [] = (c ∷ []) ∷ []
split_head c (t ∷ ts) = (c ∷ t) ∷ ts

-- `s.split(':')`
unfoldable pub split : Text → List Text
unfolding split_head
split [] = [] ∷ []
split (c ∷ s) = let rest = split s in if c == b':' then [] ∷ rest else split_head c rest

module _ (js : Platform) where
  unfoldable pub encode_otp_token : ParsedOtpToken → Text
  encode_otp_token t =
      prefix
      ++ (t.link_token
          ++ b':'
            ∷ (t.code_hash ++ b':' ∷ (js.show t.code_exp_ms ++ b':' ∷ js.show (from_ℕ t.attempts))))

  -- `Number.isFinite(codeExpMs)`, `Number.isInteger(attempts)` and `attempts >= 0`.
  unfoldable pub checked : Text → Text → JsNumber → JsNumber → Option ParsedOtpToken
  checked link hash not_finite att = none
  checked link hash exp (integer (pos n)) =
      some (record { link_token = link; code_hash = hash; code_exp_ms = exp; attempts = n })
  checked link hash exp att = none

  unfoldable pub decode_parts : List Text → Option ParsedOtpToken
  unfolding checked hex_64
  decode_parts (link ∷ hash ∷ exp ∷ att ∷ []) =
      if not (hex_64 link)
      then none
      else (if not (same hash []) && not (hex_64 hash)
          then none
          else checked link hash (js.number exp) (js.number att))
  decode_parts _ = none

  -- `null` and `undefined` are `none`.
  unfoldable pub decode_otp_token : Option Text → Option ParsedOtpToken
  unfolding decode_parts split
  decode_otp_token none = none
  decode_otp_token (some value) =
      if starts_with prefix value then decode_parts (split (drop (length prefix) value)) else none

  -- `sha256(<uid>:<code>)`
  unfoldable pub hash_login_otp : Text → Text → Text
  hash_login_otp uid code = js.sha256 (uid ++ b':' ∷ code)

-- The token of a URL `ml2:<linkToken>`.
unfoldable pub link_token_from_otp_url : Text → Option Text
unfolding hex_64
link_token_from_otp_url url =
    if starts_with prefix url
    then (let link = drop (length prefix) url in if hex_64 link then some link else none)
    else none

-- The value of a hex digit, of either case.
abbrev pub hex_value : ℕ → Option ℕ
hex_value c =
    if leb b'0' c && leb c b'9'
    then some (c - b'0')
    else (if leb b'a' c && leb c b'f'
        then some (c - b'a' + 10)
        else (if leb b'A' c && leb c b'F' then some (c - b'A' + 10) else none))

abbrev pub push_byte : Option ℕ → Option ℕ → List ℕ → List ℕ
push_byte (some a) (some b) rest = (16 * a + b) ∷ rest
push_byte _ _ rest = []

-- `Buffer.from(s, 'hex')`: pairs of digits, up to the first pair that is none.
unfoldable pub hex_bytes : Text → List ℕ
hex_bytes [] = []
hex_bytes (c ∷ []) = []
hex_bytes (c ∷ d ∷ s) = push_byte (hex_value c) (hex_value d) (hex_bytes s)

unfoldable pub safe_equal_hex : Text → Text → Bool
unfolding same
safe_equal_hex a b =
    if not (length a == length b) || length a == 0 then false else same (hex_bytes a) (hex_bytes b)

pub data OtpVerifyOutcome : Type 0 where
  ok invalid locked expired no_code : OtpVerifyOutcome

-- What happens to the slot: it is left (`undefined`), cleared (`null`), or written.
pub data NextToken : Type 0 where
  leave : NextToken
  clear : NextToken
  write : Text → NextToken

pub record OtpVerifyEvaluation : Type 0 where
  pub result : OtpVerifyOutcome
  pub next_token : NextToken

abbrev pub outcome : OtpVerifyOutcome → NextToken → OtpVerifyEvaluation
outcome r t = record { result = r; next_token = t }

-- `x < now`
abbrev pub before_ℤ : ℤ → ℕ → Bool
before_ℤ (pos n) now = ltb n now
before_ℤ (negsuc n) now = true

-- A fraction lies below a whole number exactly when its floor does.
abbrev pub before : JsNumber → ℕ → Bool
before not_finite now = false
before (integer z) now = before_ℤ z now
before (fraction z) now = before_ℤ z now

module _ (js : Platform) (uid code : Text) (now_ms max_attempts : ℕ) where
  unfoldable pub after_failure : ParsedOtpToken → OtpVerifyEvaluation
  after_failure p =
      if leb max_attempts (p.attempts + 1)
      then outcome locked
          (write (encode_otp_token js (record p { code_hash = []; attempts = p.attempts + 1 })))
      else outcome invalid (write (encode_otp_token js (record p { attempts = p.attempts + 1 })))

  unfoldable pub evaluate_login_otp : Option ParsedOtpToken → OtpVerifyEvaluation
  unfolding after_failure
  evaluate_login_otp none = outcome no_code leave
  evaluate_login_otp (some p) =
      if same p.code_hash [] || leb max_attempts p.attempts
      then outcome locked leave
      else (if before p.code_exp_ms now_ms
          then outcome expired leave
          else (if safe_equal_hex (hash_login_otp js uid code) p.code_hash
              then outcome ok clear
              else after_failure p))

-- What `verifyLoginCode` stores for an evaluation (accounts/lucid_store/core.ts).
abbrev pub slot_after : NextToken → Option Text → Option Text
slot_after leave slot = slot
slot_after clear slot = none
slot_after (write t) slot = some t
