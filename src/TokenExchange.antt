-- ===== src/TokenExchange.antt =====
-- Impersonation by token exchange: packages/authkit-server/src/provider/token_exchange.ts.
pub mod Grant
pub mod Scope
mod Tests
use adonis_authkit.Prelude.{
  ◌≡◌, refl, ◌⊎◌, inl, inr, Bool, true, false, not, Option, none, some, List, [], ◌∷◌, map,
  if◌then◌else◌, String, str_eq, Text, codes, all, some_of,
}
use adonis_authkit.Prelude.Words.{split, join, trim, non_empty, has, push_new}
use adonis_authkit.Audit.{AuditEvent, impersonation}
use adonis_authkit.Limiter.{Limiter}
use adonis_authkit.AccountLockout.{LockoutKey, LockoutWorld}
use adonis_authkit.AccountStatus.{LoginConfig}
use adonis_authkit.LoginAttempt.{
  LoginAllowedInput, LoginAllowedResult, allowed, refused, assert_account_enabled,
}

pub record TokenExchangeAccount : Type 0 where
  pub id : String
  pub email : Option String
  pub name : Option String
  pub global_roles : Option (List String)

-- What the provider keeps for an access token.
pub record SubjectToken : Type 0 where
  pub account_id : String
  pub client_id : String
  pub is_expired : Bool

-- The client that the provider has authenticated, with the scope of its metadata.
pub record Client : Type 0 where
  pub client_id : String
  pub scope : Option Text

pub record TokenExchangeDeps : Type 0 where
  pub find_access_token : String → Option SubjectToken
  pub find_account : String → Option TokenExchangeAccount
  pub resolve_token_roles : Option (TokenExchangeAccount → String → List String)
  pub admin_roles : Option (List String)
  pub admin_role : Option String
  pub supported_resources : Option (List String)
  pub account_store : Option LoginConfig

-- `audience` and `resource` may be repeated, and are then arrays.
pub data Target : Type 0 where
  absent : Target
  single : String → Target
  repeated : List String → Target

-- Another parameter that is no string is `none`.
pub record Params : Type 0 where
  pub subject_token_type : String
  pub subject_token : Option String
  pub requested_subject : Option String
  pub audience : Target
  pub resource : Target
  pub scope : Option Text

-- The throws, in the order of the code.
pub data ExchangeError : Type 0 where
  unsupported_type token_required token_invalid other_client : ExchangeError
  not_permitted subject_required subject_not_found subject_disabled : ExchangeError
  unsupported_target scope_not_allowed : ExchangeError

pub data Result (A : Type 0) : Type 0 where
  throw : ExchangeError → Result A
  ok : A → Result A

pub Result-cases :
    {A : Type 0} → (r : Result A) → ((e : ExchangeError) × (r ≡ throw e)) ⊎ ((a : A) × (r ≡ ok a))
Result-cases (throw e) = inl (e, refl)
Result-cases (ok a) = inr (a, refl)

pub record IssuedToken : Type 0 where
  pub account_id : String
  pub client_id : String
  pub scope : Text

pub record IdToken : Type 0 where
  pub sub : String
  pub email : Option String
  pub name : Option String
  pub roles : List String
  pub act : String
  pub scope : Text

pub record Body : Type 0 where
  pub access_token : IssuedToken
  pub id_token : IdToken

abbrev access_token_type : String
access_token_type = "urn:ietf:params:oauth:token-type:access_token"

-- An empty string counts as missing.
abbrev pub given : Option String → Option String
given none = none
given (some s) = if str_eq s "" then none else some s

abbrev pub given_text : Option Text → Text
given_text none = []
given_text (some s) = s

abbrev pub list_or : List String → Option (List String) → List String
list_or fallback none = fallback
list_or fallback (some xs) = xs

abbrev pub scope_words : Text → List Text
scope_words s = map trim (split 32 s)

unfoldable pub intersect_scopes : Text → List Text → Text
intersect_scopes requested permitted =
    join 32
      (push_new (λ t. if non_empty t then has t permitted else false) [] (scope_words requested))

-- The set of the scopes that the client declares.
unfoldable pub client_scopes : Client → List Text
client_scopes client = push_new non_empty [] (scope_words (given_text client.scope))

abbrev default_scope : Text
default_scope = codes "openid profile email"

-- With a declared list, what is asked for within it, or all of it; else what is asked for.
unfoldable pub scope_of : Params → Client → Result Text
scope_of params client = elim (client_scopes client) [
  | [] ↦ ok (if non_empty (given_text params.scope) then given_text params.scope else default_scope)
  | s ∷ ss ↦
      if non_empty (given_text params.scope)
      then (if non_empty (intersect_scopes (given_text params.scope) (s ∷ ss))
          then ok (intersect_scopes (given_text params.scope) (s ∷ ss))
          else throw scope_not_allowed)
      else ok (join 32 (s ∷ ss))
]

-- `ip` is the address of the request.
module _ (l : Limiter LockoutKey) (loaded : Bool) (normalize : String → String)
    (deps : TokenExchangeDeps) (ip : Option String) where
  pub record ExchangeWorld : Type 0 where
    pub host : LockoutWorld l loaded normalize
    pub tokens : List IssuedToken

  abbrev pub permitted_roles : List String
  permitted_roles = elim deps.admin_roles [
    | some roles ↦ roles
    | none ↦ elim (given deps.admin_role) [ some role ↦ role ∷ [] | none ↦ "ADMIN" ∷ [] ]
  ]

  abbrev pub roles_of : TokenExchangeAccount → Client → List String
  roles_of account client = elim deps.resolve_token_roles [
    | some resolve ↦ resolve account client.client_id
    | none ↦ list_or [] account.global_roles
  ]

  unfoldable pub subject_of : Params → Client → Result SubjectToken
  subject_of params client =
      if str_eq params.subject_token_type access_token_type
      then elim (given params.subject_token) [
        | none ↦ throw token_required
        | some token ↦ elim (deps.find_access_token token) [
          | none ↦ throw token_invalid
          | some at ↦
              if at.is_expired
              then throw token_invalid
              else if str_eq at.client_id client.client_id
              then ok at
              else throw other_client
        ]
      ]
      else throw unsupported_type

  -- One of the roles is on the list.
  abbrev pub is_permitted : List String → Bool
  is_permitted roles = some_of (λ r. some_of (str_eq r) permitted_roles) roles

  unfoldable pub actor_of : SubjectToken → Client → Result TokenExchangeAccount
  actor_of at client = elim (deps.find_account at.account_id) [
    | none ↦ throw not_permitted
    | some actor ↦ if is_permitted (roles_of actor client) then ok actor else throw not_permitted
  ]

  unfoldable pub target_of : Params → Result TokenExchangeAccount
  target_of params = elim (given params.requested_subject) [
    | none ↦ throw subject_required
    | some id ↦ elim (deps.find_account id) [
      | none ↦ throw subject_not_found
      | some target ↦ ok target
    ]
  ]

  abbrev pub string_or_empty : Option String → String
  string_or_empty none = ""
  string_or_empty (some s) = s

  abbrev pub status_input : TokenExchangeAccount → LoginAllowedInput
  status_input target = record {
    email = string_or_empty target.email;
    ip = ip;
    client_id = none;
    settings = none;
    passwordless = false;
  }

  -- A disabled target is recorded as a failed login.
  unfoldable pub check_status :
      TokenExchangeAccount
      → LockoutWorld l loaded normalize
      → LoginAllowedResult × LockoutWorld l loaded normalize
  check_status target w = elim deps.account_store [
    | none ↦ (allowed, w)
    | some cfg ↦ assert_account_enabled l loaded normalize cfg 0 target.id (status_input target) w
  ]

  -- An array is no string: the filter drops it, and it is not looked at.
  abbrev pub is_supported : Target → Bool
  is_supported absent = true
  is_supported (single v) =
      if str_eq v "" then true else some_of (str_eq v) (list_or [] deps.supported_resources)
  is_supported (repeated vs) = true

  unfoldable pub check_request : Params → Client → Result Text
  check_request params client =
      if is_supported params.audience
      then (if is_supported params.resource
          then scope_of params client
          else throw unsupported_target)
      else throw unsupported_target

  abbrev pub issued : TokenExchangeAccount → Client → Text → IssuedToken
  issued target client scope = record {
    account_id = target.id;
    client_id = client.client_id;
    scope = scope;
  }

  -- The access token is saved, and the exchange recorded.
  unfoldable pub issue :
      TokenExchangeAccount
      → TokenExchangeAccount
      → Client
      → Text
      → ExchangeWorld
      → Body × ExchangeWorld
  issue actor target client scope w = (
    record {
      access_token = issued target client scope;
      id_token = record {
        sub = target.id;
        email = target.email;
        name = target.name;
        roles = roles_of target client;
        act = actor.id;
        scope = scope;
      };
    },
    record {
      host = record w.host {
        audit =
            impersonation actor.id target.id target.email client.client_id ip scope ∷ w.host.audit;
      };
      tokens = issued target client scope ∷ w.tokens;
    },
  )

  unfoldable pub exchange_for :
      TokenExchangeAccount
      → TokenExchangeAccount
      → Params
      → Client
      → ExchangeWorld
      → Result Body × ExchangeWorld
  unfolding check_status check_request issue
  exchange_for actor target params client w =
      let (status, host) = check_status target w.host in
      elim status [
        | refused _ ↦ (throw subject_disabled, record w { host = host })
        | allowed ↦ elim (check_request params client) [
          | throw e ↦ (throw e, record w { host = host })
          | ok scope ↦
              let (body, w') = issue actor target client scope (record w { host = host }) in
              (ok body, w')
        ]
      ]

  -- The handler of the grant.
  unfoldable pub exchange : Params → Client → ExchangeWorld → Result Body × ExchangeWorld
  unfolding subject_of actor_of target_of exchange_for
  exchange params client w = elim (subject_of params client) [
    | throw e ↦ (throw e, w)
    | ok at ↦ elim (actor_of at client) [
      | throw e ↦ (throw e, w)
      | ok actor ↦ elim (target_of params) [
        | throw e ↦ (throw e, w)
        | ok target ↦ exchange_for actor target params client w
      ]
    ]
  ]
