-- ===== src/Passkeys/Tests.antt =====
-- The theorem on passkeys at a concrete account.
use adonis_authkit.Prelude.{◌≡◌, refl, true, false, none, some, [], codes, String, str_eq, arith}
use adonis_authkit.Db.{Table}
use adonis_authkit.Db.Memory.{memory}
use adonis_authkit.Mfa.{
  MfaState, MfaContext, get_mfa_state, upsert, verify_totp, consume_recovery_code,
}
use adonis_authkit.Passkeys.{
  Credential, RegistrationInfo, Ceremonies, PasskeyWorld, enable_mfa, verify_passkey_registration,
  generate_passkey_authentication_options, verify_passkey_authentication, remove_passkey,
}
use adonis_authkit.Passkeys.Removal.{remove_passkey-leaves_mfa}

abbrev db : Table Credential
db = memory (λ a b. str_eq a.id b.id)

abbrev mfa : Table MfaState
mfa = memory (λ a b. false)

abbrev ctx : MfaContext
ctx = record {
  seal_secret = λ s. s;
  open_secret = λ s. some s;
  sha256 = λ s. s;
  keyuri = λ email s. email;
  verify_token = λ code s now. true;
  check_delta = λ code s now. none;
  period = 30;
}

abbrev info : RegistrationInfo
info = record { id = "k"; public_key = codes "p"; counter = 0; transports = none }

-- A response is the id of the credential.
abbrev ceremonies : Ceremonies
ceremonies = record {
  Response = String;
  response_id = λ r. r;
  verify_registration = λ r c. some info;
  verify_authentication = λ r c cred. some 7;
}

abbrev World : Type 0
World = PasskeyWorld db mfa ctx ceremonies

abbrev start : World
start = record { credentials = []; factors = [] }

abbrev registered : World
registered = (verify_passkey_registration db mfa ctx ceremonies "u" true "k" (codes "c") 60 start).1

run : Unit {0}
unfolding upsert enable_mfa verify_passkey_registration verify_passkey_authentication
run = tt

registration :
    verify_passkey_registration db mfa ctx ceremonies "u" true "k" (codes "c") 60 start
    ≡ (some true, registered)
unfolding run
registration = refl

authentication :
    ((verify_passkey_authentication db mfa ctx ceremonies "u" "k" (codes "c") registered).0 ≡ true)
    × ((verify_passkey_authentication db mfa ctx ceremonies "v" "k" (codes "c") registered).0
        ≡ false)
unfolding run
authentication = (refl, refl)

abbrev removed : World
removed = remove_passkey db mfa ctx ceremonies "u" "k" registered

remove_passkey-leaves_mfa_example :
    ((get_mfa_state mfa ctx "u" removed.factors).0 ≡ true)
    × ((verify_totp mfa ctx "u" (codes "1") 90 removed.factors).0 ≡ some false)
    × ((consume_recovery_code mfa ctx "u" (codes "1") removed.factors).0 ≡ some false)
    × (generate_passkey_authentication_options db mfa ctx ceremonies "u" removed ≡ none)
    × ((verify_passkey_authentication db mfa ctx ceremonies "u" "k" (codes "c") removed).0 ≡ false)
remove_passkey-leaves_mfa_example =
    remove_passkey-leaves_mfa db mfa ctx ceremonies "u" "k" "k" (codes "c") (codes "c") (codes "1")
      info 60 90 start registered (omega arith) refl refl refl registration
