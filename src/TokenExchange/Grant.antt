-- ===== src/TokenExchange/Grant.antt =====
-- token_exchange.ts: who may impersonate whom, and what a token then holds.
use adonis_authkit.Prelude.{
  ◌≡◌, refl, Bool, true, false, Option, none, some, List, [], ◌∷◌, ap, ◌∙◌, sym, String, str_eq,
  Text, all, some_of, arith, inl, inr, Option-cases,
}
use adonis_authkit.Prelude.Words.{split, has}
use adonis_authkit.Limiter.{Limiter}
use adonis_authkit.AccountLockout.{LockoutKey}
use adonis_authkit.AccountStatus.{holds_for}
use adonis_authkit.LoginAttempt.{allowed, assert_account_enabled}
use adonis_authkit.TokenExchange.{
  Target, single, list_or, Params, Client, SubjectToken, TokenExchangeAccount, TokenExchangeDeps,
  ok, throw, Result-cases, ExchangeError, Body, ExchangeWorld, given, access_token_type, scope_of,
  client_scopes, subject_of, actor_of, target_of, check_status, check_request, is_permitted,
  is_supported, roles_of, issued, issue, exchange_for, exchange,
}
use adonis_authkit.TokenExchange.Scope.{scope_of-within}

module _ (l : Limiter LockoutKey) (loaded : Bool) (normalize : String → String)
    (deps : TokenExchangeDeps) (ip : Option String) where
  -- A host without an account store disables nobody.
  abbrev pub is_disabled : TokenExchangeAccount → Bool
  is_disabled target = elim deps.account_store [
    | none ↦ false
    | some cfg ↦ holds_for cfg.store.is_disabled false target.id
  ]

  -- A resource indicator that the host supports.
  abbrev pub IsIndicator : String → Type 0
  IsIndicator v = some_of (str_eq v) (list_or [] deps.supported_resources) ≡ true

  is_supported-single :
      (t : Target) (v : String)
      → is_supported l loaded normalize deps ip t ≡ true
      → t ≡ single v
      → str_eq v "" ≡ false
      → IsIndicator v
  is_supported-single t v ok_ one_ set =
      let here : is_supported l loaded normalize deps ip (single v) ≡ true = rw (one_) at ok_ in
      rw (set) at here

  -- Everything that an exchange asks for before it issues a token.
  pub record IsEntitled (params : Params) (client : Client) (body : Body) : Type 0 where
    pub token : String
    pub at : SubjectToken
    pub actor : TokenExchangeAccount
    pub target_id : String
    pub target : TokenExchangeAccount
    pub of_type : str_eq params.subject_token_type access_token_type ≡ true
    pub has_token : given params.subject_token ≡ some token
    pub known : deps.find_access_token token ≡ some at
    pub alive : at.is_expired ≡ false
    pub same_client : str_eq at.client_id client.client_id ≡ true
    pub actor_known : deps.find_account at.account_id ≡ some actor
    pub actor_permitted :
        is_permitted l loaded normalize deps ip (roles_of l loaded normalize deps ip actor client)
        ≡ true
    pub has_target : given params.requested_subject ≡ some target_id
    pub target_known : deps.find_account target_id ≡ some target
    pub enabled : is_disabled target ≡ false
    pub audience : (v : String) → params.audience ≡ single v → str_eq v "" ≡ false → IsIndicator v
    pub resource : (v : String) → params.resource ≡ single v → str_eq v "" ≡ false → IsIndicator v
    pub scope : scope_of params client ≡ ok body.access_token.scope
    pub for_target :
        body.access_token ≡ issued l loaded normalize deps ip target client body.access_token.scope
    pub as_actor : body.id_token.act ≡ actor.id

  subject_of_lem :
      (params : Params) (client : Client) (at : SubjectToken)
      → subject_of l loaded normalize deps ip params client ≡ ok at
      → (str_eq params.subject_token_type access_token_type ≡ true)
        × (token : String) × (given params.subject_token ≡ some token)
        × (deps.find_access_token token ≡ some at)
        × (at.is_expired ≡ false)
        × (str_eq at.client_id client.client_id ≡ true)
  unfolding subject_of
  subject_of_lem params client at e = elim (Option-cases (given params.subject_token)) [
    | inl missing ↦ absurd (ground arith)
    | inr (token, sent) ↦ (ground arith, token, sent, ground arith, ground arith, ground arith)
  ]

  actor_of_lem :
      (client : Client) (at : SubjectToken) (actor : TokenExchangeAccount)
      → actor_of l loaded normalize deps ip at client ≡ ok actor
      → (deps.find_account at.account_id ≡ some actor)
        × (is_permitted l loaded normalize deps ip
              (roles_of l loaded normalize deps ip actor client)
            ≡ true)
  unfolding actor_of
  actor_of_lem client at actor e = ground arith

  target_of_lem :
      (params : Params) (target : TokenExchangeAccount)
      → target_of l loaded normalize deps ip params ≡ ok target
      → (id : String) × (given params.requested_subject ≡ some id)
        × (deps.find_account id ≡ some target)
  unfolding target_of
  target_of_lem params target e = elim (Option-cases (given params.requested_subject)) [
    | inl missing ↦ absurd (ground arith)
    | inr (id, sent) ↦ (id, sent, ground arith)
  ]

  exchange_for-refused :
      (actor target : TokenExchangeAccount) (params : Params) (client : Client)
      (w : ExchangeWorld l loaded normalize deps ip) (x : ExchangeError)
      → (exchange_for l loaded normalize deps ip actor target params client w).0 ≡ throw x
      → (exchange_for l loaded normalize deps ip actor target params client w).1.tokens ≡ w.tokens
  unfolding exchange_for
  exchange_for-refused actor target params client w e = ground arith

  check_request_lem :
      (params : Params) (client : Client) (scope : Text)
      → check_request l loaded normalize deps ip params client ≡ ok scope
      → (is_supported l loaded normalize deps ip params.audience ≡ true)
        × (is_supported l loaded normalize deps ip params.resource ≡ true)
        × (scope_of params client ≡ ok scope)
  unfolding check_request
  check_request_lem params client scope e = ground arith

  check_status-enabled :
      (target : TokenExchangeAccount) (w : ExchangeWorld l loaded normalize deps ip)
      → (check_status l loaded normalize deps ip target w.host).0 ≡ allowed
      → is_disabled target ≡ false
  unfolding check_status assert_account_enabled
  check_status-enabled target w h = ground arith

  exchange_for-ok :
      (actor target : TokenExchangeAccount) (params : Params) (client : Client)
      (w : ExchangeWorld l loaded normalize deps ip) (body : Body)
      → let (result, w') = exchange_for l loaded normalize deps ip actor target params client w in
        result ≡ ok body
        → ((check_status l loaded normalize deps ip target w.host).0 ≡ allowed)
          × (check_request l loaded normalize deps ip params client ≡ ok body.access_token.scope)
          × (body.access_token
              ≡ issued l loaded normalize deps ip target client body.access_token.scope)
          × (body.id_token.act ≡ actor.id)
          × (w'.tokens ≡ body.access_token ∷ w.tokens)
  unfolding exchange_for issue
  exchange_for-ok actor target params client w body e = ground arith

  exchange_cases :
      (params : Params) (client : Client) (w : ExchangeWorld l loaded normalize deps ip)
      (body : Body)
      → (exchange l loaded normalize deps ip params client w).0 ≡ ok body
      → (at : SubjectToken) × (actor : TokenExchangeAccount) × (target : TokenExchangeAccount)
        × (subject_of l loaded normalize deps ip params client ≡ ok at)
        × (actor_of l loaded normalize deps ip at client ≡ ok actor)
        × (target_of l loaded normalize deps ip params ≡ ok target)
        × (exchange l loaded normalize deps ip params client w
            ≡ exchange_for l loaded normalize deps ip actor target params client w)
  unfolding exchange
  exchange_cases params client w body e =
      elim (Result-cases (subject_of l loaded normalize deps ip params client)) [
        | inl (x, bad) ↦ absurd (ground arith)
        | inr (at, found) ↦ elim (Result-cases (actor_of l loaded normalize deps ip at client)) [
          | inl (x, bad) ↦ absurd (ground arith)
          | inr (actor, may) ↦ elim (Result-cases (target_of l loaded normalize deps ip params)) [
            | inl (x, bad) ↦ absurd (ground arith)
            | inr (target, there) ↦
                (at, actor, target, found, may, there, rw (exchange, found, may, there) refl)
          ]
        ]
      ]

  -- A refused exchange issues no token.
  pub exchange-refused :
      (params : Params) (client : Client) (w : ExchangeWorld l loaded normalize deps ip)
      (x : ExchangeError)
      → (exchange l loaded normalize deps ip params client w).0 ≡ throw x
      → (exchange l loaded normalize deps ip params client w).1.tokens ≡ w.tokens
  unfolding exchange
  exchange-refused params client w x e =
      elim (Result-cases (subject_of l loaded normalize deps ip params client)) [
        | inl (y, bad) ↦ rw (exchange, bad) refl
        | inr (at, found) ↦ elim (Result-cases (actor_of l loaded normalize deps ip at client)) [
          | inl (y, bad) ↦ rw (exchange, found, bad) refl
          | inr (actor, may) ↦ elim (Result-cases (target_of l loaded normalize deps ip params)) [
            | inl (y, bad) ↦ rw (exchange, found, may, bad) refl
            | inr (target, there) ↦
                rw (exchange, found, may, there)
                  (exchange_for-refused actor target params client w x
                    (rw (exchange, found, may, there) at e))
          ]
        ]
      ]

  -- An exchange that succeeds was asked for with a live access token that the same client holds,
  -- by an account with one of the permitted roles, for an account that exists and that the store
  -- does not hold disabled; an `audience` or `resource` that was sent once, and not empty, is a
  -- supported resource (one that was repeated is not looked at); its access token is for that
  -- account, its id token names the actor, and it is the one token issued.
  pub exchange-IsEntitled :
      (params : Params) (client : Client) (w : ExchangeWorld l loaded normalize deps ip)
      (body : Body)
      → (exchange l loaded normalize deps ip params client w).0 ≡ ok body
      → IsEntitled params client body
        × ((exchange l loaded normalize deps ip params client w).1.tokens
            ≡ body.access_token ∷ w.tokens)
  exchange-IsEntitled params client w body e =
      let (at, actor, target, found, may, there, same) = exchange_cases params client w body e in
      let (status, request, for_target, as_actor, saved) =
        exchange_for-ok actor target params client w body (ap (λ r. r.0) (sym same) ∙ e) in
      let (of_type, token, has_token, known, alive, same_client) =
        subject_of_lem params client at found in
      let (actor_known, permitted) = actor_of_lem client at actor may in
      let (target_id, has_target, target_known) = target_of_lem params target there in
      let (audience, resource, scope) =
        check_request_lem params client body.access_token.scope request in
      (
        record {
          token = token;
          at = at;
          actor = actor;
          target_id = target_id;
          target = target;
          of_type = of_type;
          has_token = has_token;
          known = known;
          alive = alive;
          same_client = same_client;
          actor_known = actor_known;
          actor_permitted = permitted;
          has_target = has_target;
          target_known = target_known;
          enabled = check_status-enabled target w status;
          audience = λ v. is_supported-single params.audience v audience;
          resource = λ v. is_supported-single params.resource v resource;
          scope = scope;
          for_target = for_target;
          as_actor = as_actor;
        },
        ap (λ r. r.1.tokens) same ∙ saved,
      )

  -- Where the client declares scopes, every word of the scope that an exchange grants, as it is
  -- split on blanks, is one of them, whatever the request asks for.
  pub exchange-scope_within :
      (params : Params) (client : Client) (w : ExchangeWorld l loaded normalize deps ip)
      (body : Body) (s : Text) (ss : List Text)
      → client_scopes client ≡ s ∷ ss
      → (exchange l loaded normalize deps ip params client w).0 ≡ ok body
      → all (λ t. has t (client_scopes client)) (split 32 body.access_token.scope) ≡ true
  exchange-scope_within params client w body s ss declared e =
      scope_of-within params client body.access_token.scope s ss declared
        (exchange-IsEntitled params client w body e).0.scope
