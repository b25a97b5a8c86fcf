-- ===== src/Passwords/Policy.antt =====
-- The password policy: packages/authkit-server/src/password/policy.ts.
use adonis_authkit.Prelude.{
  ℕ, ◌≤◌, ◌≡◌, ◌↔◌, Bool, true, false, not, ◌&&◌, ◌||◌, Option, none, some, Text, length, some_of,
  ltb, leb, if◌then◌else◌, arith,
}

pub record PasswordPolicyInput : Type 0 where
  pub min_length : Option ℕ
  pub require_uppercase : Option Bool
  pub require_lowercase : Option Bool
  pub require_numbers : Option Bool
  pub require_symbols : Option Bool

pub record ResolvedPasswordPolicy : Type 0 where
  pub min_length : ℕ
  pub require_uppercase : Bool
  pub require_lowercase : Bool
  pub require_numbers : Bool
  pub require_symbols : Bool

pub data PolicyViolation : Type 0 where
  min_length uppercase lowercase numbers symbols : PolicyViolation

abbrev given {ℓ} : {A : Type ℓ} → A → Option A → A
given fallback none = fallback
given fallback (some a) = a

unfoldable pub resolve_password_policy : Option PasswordPolicyInput → ResolvedPasswordPolicy
resolve_password_policy none = record {
  min_length = 8;
  require_uppercase = false;
  require_lowercase = false;
  require_numbers = false;
  require_symbols = false;
}
resolve_password_policy (some input) = record {
  min_length = given 8 input.min_length;
  require_uppercase = given false input.require_uppercase;
  require_lowercase = given false input.require_lowercase;
  require_numbers = given false input.require_numbers;
  require_symbols = given false input.require_symbols;
}

-- `[A-Z]`, `[a-z]`, `[0-9]` and `[^A-Za-z0-9]`
abbrev pub is_upper : ℕ → Bool
is_upper c = leb b'A' c && leb c b'Z'

abbrev pub is_lower : ℕ → Bool
is_lower c = leb b'a' c && leb c b'z'

abbrev pub is_number : ℕ → Bool
is_number c = leb b'0' c && leb c b'9'

abbrev pub is_symbol : ℕ → Bool
is_symbol c = not (is_upper c || is_lower c || is_number c)

-- The first rule that the password breaks.
unfoldable pub check_password_policy : Text → ResolvedPasswordPolicy → Option PolicyViolation
check_password_policy password policy =
    if ltb (length password) policy.min_length
    then some min_length
    else if policy.require_uppercase && not (some_of is_upper password)
    then some uppercase
    else if policy.require_lowercase && not (some_of is_lower password)
    then some lowercase
    else if policy.require_numbers && not (some_of is_number password)
    then some numbers
    else if policy.require_symbols && not (some_of is_symbol password)
    then some symbols
    else none

-- A password passes exactly when it is long enough and holds a character of every kind that is
-- required.
pub check_password_policy-none_iff :
    (password : Text) (policy : ResolvedPasswordPolicy)
    → (check_password_policy password policy ≡ none) ↔ (
        (policy.min_length ≤ length password)
        × ((not policy.require_uppercase || some_of is_upper password) ≡ true)
        × ((not policy.require_lowercase || some_of is_lower password) ≡ true)
        × ((not policy.require_numbers || some_of is_number password) ≡ true)
        × ((not policy.require_symbols || some_of is_symbol password) ≡ true))
unfolding check_password_policy
check_password_policy-none_iff password policy = ((λ e. ground arith), (λ e. ground arith))
