-- ===== src/TokenExchange/Tests.antt =====
-- Exchanges at a concrete provider, over a limiter in memory.
use adonis_authkit.Prelude.{
  same, ◌≡◌, refl, true, false, none, some, [], ◌∷◌, if◌then◌else◌, String, str_eq, codes, all,
}
use adonis_authkit.Prelude.Words.{split, join, has, push_new, drop_spaces, reversed_onto, trim}
use adonis_authkit.AccountLockout.Tests.{limiter, lower, fresh}
use adonis_authkit.TokenExchange.{
  absent, single, repeated, is_supported, TokenExchangeDeps, TokenExchangeAccount, Params, Client,
  Body, ExchangeWorld, not_permitted, ok, throw, exchange, client_scopes, subject_of, actor_of,
  target_of, exchange_for, check_status, check_request, scope_of, intersect_scopes, issue,
}
use adonis_authkit.TokenExchange.Grant.{
  IsEntitled, exchange-refused, exchange-IsEntitled, exchange-scope_within,
}

abbrev account : String → TokenExchangeAccount
account id = record {
  id = id;
  email = none;
  name = none;
  global_roles = if str_eq id "ann" then some ("ADMIN" ∷ []) else none;
}

abbrev deps : TokenExchangeDeps
deps = record {
  find_access_token = λ t. some (record { account_id = t; client_id = "web"; is_expired = false });
  find_account = λ id. some (account id);
  resolve_token_roles = none;
  admin_roles = none;
  admin_role = none;
  supported_resources = none;
  account_store = none;
}

abbrev web : Client
web = record { client_id = "web"; scope = some (codes "openid  email") }

abbrev request : String → Params
request token = record {
  subject_token_type = "urn:ietf:params:oauth:token-type:access_token";
  subject_token = some token;
  requested_subject = some "bob";
  audience = absent;
  resource = absent;
  scope = some (codes "email admin email");
}

abbrev none_yet : ExchangeWorld limiter true lower deps none
none_yet = record { host = fresh; tokens = [] }

abbrev granted : Body
granted = record {
  access_token = record { account_id = "bob"; client_id = "web"; scope = codes "email" };
  id_token = record {
    sub = "bob";
    email = none;
    name = none;
    roles = [];
    act = "ann";
    scope = codes "email";
  };
}

all_exchange : Unit {0}
unfolding exchange subject_of actor_of target_of exchange_for check_status check_request scope_of
    intersect_scopes client_scopes issue split join push_new drop_spaces reversed_onto trim same
all_exchange = tt

ann_may : (exchange limiter true lower deps none (request "ann") web none_yet).0 ≡ ok granted
unfolding all_exchange
ann_may = refl

bob_may_not :
    (exchange limiter true lower deps none (request "bob") web none_yet).0 ≡ throw not_permitted
unfolding all_exchange
bob_may_not = refl

declared : client_scopes web ≡ codes "openid" ∷ codes "email" ∷ []
unfolding all_exchange
declared = refl

exchange-IsEntitled_example :
    IsEntitled limiter true lower deps none (request "ann") web granted
    × ((exchange limiter true lower deps none (request "ann") web none_yet).1.tokens
        ≡ granted.access_token ∷ [])
exchange-IsEntitled_example =
    exchange-IsEntitled limiter true lower deps none (request "ann") web none_yet granted ann_may

exchange-scope_within_example :
    all (λ t. has t (client_scopes web)) (split 32 (codes "email")) ≡ true
exchange-scope_within_example =
    exchange-scope_within limiter true lower deps none (request "ann") web none_yet granted
      (codes "openid") (codes "email" ∷ []) declared ann_may

exchange-refused_run :
    (exchange limiter true lower deps none (request "bob") web none_yet).1.tokens ≡ []
exchange-refused_run =
    exchange-refused limiter true lower deps none (request "bob") web none_yet not_permitted
      bob_may_not

-- Without a supported resource, a single target is refused, and a repeated one is not looked at.
targets :
    (is_supported limiter true lower deps none (single "x") ≡ false)
    × (is_supported limiter true lower deps none (repeated ("x" ∷ "y" ∷ [])) ≡ true)
targets = (refl, refl)
