-- ===== src/Passwords.antt =====
-- Passwords: packages/authkit-server/src/password/password_manager.ts and pwned.ts. HMAC-SHA256,
-- SHA-1, the hasher, the list of common passwords and the answers of the range service are
-- parameters.
pub mod Policy
pub mod Rotation
mod Tests
use adonis_authkit.Prelude.{
  ℕ, Bool, true, false, not, ◌&&◌, ◌||◌, Option, none, some, List, [], ◌∷◌, ◌++◌, Text, same, take,
  drop, if◌then◌else◌,
}
use adonis_authkit.Prelude.Integers.{pos, negsuc, JsNumber, integer, fraction, not_finite}
use adonis_authkit.Prelude.Words.{split, trim, has}
use adonis_authkit.Passwords.Policy.{
  PolicyViolation, PasswordPolicyInput, ResolvedPasswordPolicy, check_password_policy,
  resolve_password_policy,
}

-- The configured secret: none, one, or a list for rotation.
pub data Pepper : Type 0 where
  unset : Pepper
  one : Text → Pepper
  several : List Text → Pepper

-- An empty string counts as none, an empty list does not.
abbrev pub has_pepper : Pepper → Bool
has_pepper unset = false
has_pepper (one p) = not (same p [])
has_pepper (several ps) = true

-- The empty string at the end stands for no pepper.
unfoldable pub resolve_peppers : Pepper → List Text
resolve_peppers unset = [] ∷ []
resolve_peppers (one p) = if same p [] then [] ∷ [] else p ∷ [] ∷ []
resolve_peppers (several ps) = ps ++ [] ∷ []

abbrev pub is_current : Pepper → Text → Bool
is_current unset p = same p []
is_current (one q) p = same p q
is_current (several []) p = false
is_current (several (q ∷ qs)) p = same p q

-- A hook that throws counts as `false`.
abbrev pub caught : Option Bool → Bool
caught none = false
caught (some b) = b

pub record VerifyResult : Type 0 where
  pub ok : Bool
  pub rehash : Bool

-- What the store gives to a verification: the hasher's check and its opinion of the hash.
pub record Hooks : Type 0 where
  pub native_verify : Text → Text → Option Bool
  pub needs_rehash : Text → Option Bool

-- `none` is a format that the verifier does not know, or a throw.
abbrev pub LegacyVerifier : Type 0
LegacyVerifier = Text → Text → Option Bool

abbrev pub PasswordManager : Type 0
PasswordManager = Pepper × Option LegacyVerifier

abbrev pub any_legacy : LegacyVerifier → Text → List Text → Bool
any_legacy legacy hashed [] = false
any_legacy legacy hashed (c ∷ cs) = caught (legacy hashed c) || any_legacy legacy hashed cs

-- `hmac` is HMAC-SHA256 in hex, keyed by its first argument.
module _ (hmac : Text → Text → Text) where
  -- What the hasher is given for a pepper.
  abbrev pub peppered : Text → Text → Text
  peppered [] plain = plain
  peppered (c ∷ p) plain = hmac (c ∷ p) plain

  unfoldable pub apply_current_pepper : Pepper → Text → Text
  apply_current_pepper unset plain = plain
  apply_current_pepper (one p) plain = peppered p plain
  apply_current_pepper (several []) plain = plain
  apply_current_pepper (several (p ∷ ps)) plain = peppered p plain

  -- The first pepper under which the hash matches.
  unfoldable pub matching : Hooks → Text → Text → List Text → Option Text
  matching hooks hashed plain [] = none
  matching hooks hashed plain (p ∷ ps) =
      let rest = matching hooks hashed plain ps in
      if caught (hooks.native_verify hashed (peppered p plain)) then some p else rest

  abbrev pub candidates : Pepper → Text → List Text
  candidates pepper plain =
      if has_pepper pepper then apply_current_pepper pepper plain ∷ plain ∷ [] else plain ∷ []

  abbrev pub legacy_result : Option LegacyVerifier → Pepper → Text → Text → VerifyResult
  legacy_result none pepper hashed plain = record { ok = false; rehash = false }
  legacy_result (some legacy) pepper hashed plain =
      if any_legacy legacy hashed (candidates pepper plain)
      then record { ok = true; rehash = true }
      else record { ok = false; rehash = false }

  unfoldable pub verify : PasswordManager → Hooks → Text → Text → VerifyResult
  unfolding matching resolve_peppers apply_current_pepper
  verify (pepper, legacy) hooks hashed plain =
      elim (matching hooks hashed plain (resolve_peppers pepper)) [
        | some p ↦ record {
          ok = true;
          rehash = not (is_current pepper p) || caught (hooks.needs_rehash hashed);
        }
        | none ↦ legacy_result legacy pepper hashed plain
      ]

-- The answer of the range service: none (network, timeout), a status that is not OK, or a body.
pub data RangeAnswer : Type 0 where
  request_failed not_ok : RangeAnswer
  body : Text → RangeAnswer

-- `x > 0`, for what `Number` reads of digits.
abbrev pub is_positive : JsNumber → Bool
is_positive (integer (pos ℕ.zero)) = false
is_positive (integer (pos (ℕ.suc n))) = true
is_positive (fraction (pos n)) = true
is_positive _ = false

-- A line `<suffix>:<count>` of the body.
abbrev pub is_hit : (Text → JsNumber) → Text → List Text → Bool
is_hit number suffix (candidate ∷ count ∷ _) = same candidate suffix && is_positive (number count)
is_hit number suffix _ = false

abbrev pub any_hit : (Text → JsNumber) → Text → List Text → Bool
any_hit number suffix [] = false
any_hit number suffix (line ∷ lines) =
    is_hit number suffix (split b':' (trim line)) || any_hit number suffix lines

-- `sha1` in upper-case hex; the service sees its first five digits. Whatever fails is no hit.
unfoldable pub is_password_pwned :
    (Text → Text) → (Text → JsNumber) → (Text → RangeAnswer) → Text → Bool
unfolding split trim
is_password_pwned sha1 number range password = elim (range (take 5 (sha1 password))) [
  | request_failed ↦ false
  | not_ok ↦ false
  | body text ↦ any_hit number (drop 5 (sha1 password)) (split 10 text)
]

pub record PolicyOverride : Type 0 where
  pub policy : PasswordPolicyInput
  pub check_pwned : Option Bool
  pub block_common : Option Bool

pub data PolicyError : Type 0 where
  violation : PolicyViolation → PolicyError
  pwned common : PolicyError

abbrev pub effective_policy : Option PolicyOverride → ResolvedPasswordPolicy
effective_policy none = resolve_password_policy none
effective_policy (some o) = resolve_password_policy (some o.policy)

-- Common passwords are refused unless that is switched off; leaks are looked up if that is on.
abbrev pub blocks_common : Option PolicyOverride → Bool
blocks_common none = true
blocks_common (some o) = elim o.block_common [ some false ↦ false | some true ↦ true | none ↦ true ]

abbrev pub checks_pwned : Option PolicyOverride → Bool
checks_pwned none = false
checks_pwned (some o) = caught o.check_pwned

-- `none` is an acceptable password.
unfoldable pub assert_acceptable :
    (Text → Bool) → (Text → Bool) → Option PolicyOverride → Text → Option PolicyError
unfolding check_password_policy resolve_password_policy
assert_acceptable is_common is_pwned override password =
    elim (check_password_policy password (effective_policy override)) [
      | some v ↦ some (violation v)
      | none ↦
          if blocks_common override && is_common password
          then some common
          else if checks_pwned override && is_pwned password
          then some pwned
          else none
    ]
