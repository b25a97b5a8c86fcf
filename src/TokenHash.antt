-- ===== src/TokenHash.antt =====
-- The form of the tokens that the account store keeps:
-- packages/authkit-server/src/accounts/lucid_store/token_hash.ts. The random part is hashed, the
-- prefix and the deadline are kept as they are.
pub mod Deadline
use adonis_authkit.Prelude.{
  ℕ, Bool, true, false, ◌&&◌, Option, none, some, List, [], ◌∷◌, ◌++◌, Text, starts_with, drop,
  length, all, leb, ◌==◌, if◌then◌else◌,
}
use adonis_authkit.Prelude.Integers.{JsNumber}
use adonis_authkit.OtpLogin.{Platform, from_ℕ}

pub record IssuedToken : Type 0 where
  pub raw : Text
  pub db_value : Text

-- `raw.startsWith(prefix) ? raw.slice(prefix.length) : raw`
abbrev pub without : Text → Text → Text
without prefix raw = if starts_with prefix raw then drop (length prefix) raw else raw

-- What stands before the first ':' and what behind it.
unfoldable pub split_colon : Text → Option (Text × Text)
split_colon [] = none
split_colon (c ∷ s) =
    let rest = split_colon s in
    if c == b':'
    then some ([], s)
    else elim rest [ none ↦ none | some (before, behind) ↦ some (c ∷ before, behind) ]

abbrev pub is_digit : ℕ → Bool
is_digit c = leb b'0' c && leb c b'9'

-- `/^\d+$/.test(s)`
abbrev pub all_digits : Text → Bool
all_digits [] = false
all_digits (c ∷ s) = is_digit c && all is_digit s

unfoldable pub split_expiring_raw : Text → Text → Option (Text × Text)
unfolding split_colon
split_expiring_raw prefix raw = split_colon (without prefix raw)

module _ (js : Platform) where
  -- `random` is what the generator draws.
  unfoldable pub generate_hashed_token : Text → Text → IssuedToken
  generate_hashed_token prefix random = record {
    raw = prefix ++ random;
    db_value = prefix ++ js.sha256 random;
  }

  unfoldable pub raw_to_db_token : Text → Text → Text
  raw_to_db_token prefix raw = prefix ++ js.sha256 (without prefix raw)

  abbrev pub expiring : Text → Text → Text → Text
  expiring prefix exp rest = prefix ++ (exp ++ b':' ∷ rest)

  unfoldable pub generate_expiring_hashed_token : Text → ℕ → Text → IssuedToken
  generate_expiring_hashed_token prefix exp random = record {
    raw = expiring prefix (js.show (from_ℕ exp)) random;
    db_value = expiring prefix (js.show (from_ℕ exp)) (js.sha256 random);
  }

  unfoldable pub raw_to_expiring_db_token : Text → Text → Text
  unfolding split_expiring_raw
  raw_to_expiring_db_token prefix raw = elim (split_expiring_raw prefix raw) [
    | none ↦ prefix ++ js.sha256 (without prefix raw)
    | some (exp, random) ↦ expiring prefix exp (js.sha256 random)
  ]

  unfoldable pub parse_expiring_token_exp : Text → Text → Option JsNumber
  unfolding split_expiring_raw
  parse_expiring_token_exp prefix raw = elim (split_expiring_raw prefix raw) [
    | none ↦ none
    | some (exp, random) ↦ if all_digits exp then some (js.number exp) else none
  ]
