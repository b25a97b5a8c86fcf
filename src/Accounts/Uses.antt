-- ===== src/Accounts/Uses.antt =====
-- core.ts: uses of the tokens of a reset and of a link.
use adonis_authkit.Prelude.{
  ℕ, ◌≤◌, ◌≡◌, ◌≢◌, refl, sym, ap, ◌∙◌, Bool, true, false, not, ◌||◌, Option, none, some, List, [],
  ◌∷◌, ◌++◌, Text, same_sound, starts_with, String, eq_refl, first, first-holds, count,
  if◌then◌else◌, arith, Option-cases, Bool-cases, inl, inr, all,
}
use adonis_authkit.Db.{Table, amend}
use adonis_authkit.Db.Finding.{first-amend-used}
use adonis_authkit.OtpLogin.{Platform, prefix, hex_64, link_token_from_otp_url}
use adonis_authkit.TokenHash.{raw_to_db_token}
use adonis_authkit.TokenHash.Deadline.{Hashes}
use adonis_authkit.Accounts.{
  UserRow, StoreContext, StoreWorld, rows, save, policy_error, refused, done, has_id,
}
use adonis_authkit.Accounts.Tokens.{
  magic_link_prefix, holds, begins, has_slot, slot_expired, without_slot, with_password, reset_row,
  consume_password_reset_token, use_up, consume_magic_link_token,
}

-- What the flows of the magic link write begins with `ml:` or `ml2:`.
abbrev pub is_link_slot : Option Text → Bool
is_link_slot none = true
is_link_slot (some v) = starts_with magic_link_prefix v || starts_with prefix v

all-first :
    {A : Type 0}
    → (p q : A → Bool) (xs : List A) {x : A} → all p xs ≡ true
    → first q xs ≡ some x
    → p x ≡ true
all-first p q [] h e = absurd (cc e)
all-first p q (y ∷ xs) {x} h e = ground (arith, all-first p q xs {x = x})

plain_hex :
    (js : Platform) → Hashes js → (token : Text) → hex_64 (raw_to_db_token js [] token) ≡ true
unfolding raw_to_db_token
plain_hex js hash token = hash.digest token

hex-not_link : (v : Text) → hex_64 v ≡ true → is_link_slot (some v) ≡ false
unfolding hex_64
hex-not_link [] h = absurd (cc h)
hex-not_link (c ∷ v) h = ground arith

link_slot-hex :
    (slot : Option Text) (v : Text)
    → is_link_slot slot ≡ true
    → holds v slot ≡ true
    → hex_64 v ≡ true
    → ⊥
link_slot-hex none v link held hex = cc held
link_slot-hex (some s) v link held hex =
    cc (sym link ∙ ap (λ t. is_link_slot (some t)) (same_sound s v held) ∙ hex-not_link v hex)

abbrev pub is_empty : Option Text → Bool
is_empty none = true
is_empty (some v) = false

abbrev slot_of : Option UserRow → Option Text
slot_of none = none
slot_of (some r) = r.password_reset_token

-- The row is another account's, or its slot is empty.
abbrev pub is_spent : String → UserRow → Bool
is_spent id r = is_empty r.password_reset_token || not (has_id id r)

is_spent-amend :
    (id : String) (xs : List UserRow) → all (is_spent id) (amend (has_id id) without_slot xs) ≡ true
is_spent-amend id [] = refl
is_spent-amend id (r ∷ rs) = elim (Bool-cases (has_id id r)) [
  | inl own ↦ rw (own) (is_spent-amend id rs)
  | inr other ↦ ground (arith, other, is_spent-amend id rs)
]

abbrev row_or : UserRow → Option UserRow → UserRow
row_or fallback none = fallback
row_or fallback (some r) = r

module _ (db : Table UserRow) (ctx : StoreContext) where
  -- What a reset that was carried out has found.
  pub record IsReset (token password : Text) (now : ℕ) (w : StoreWorld db ctx)
      (u : StoreWorld db ctx) : Type 0 where
    pub row : UserRow
    pub plain : (starts_with magic_link_prefix token || starts_with prefix token) ≡ false
    pub found : reset_row db ctx token w ≡ some row
    pub in_time : slot_expired row.password_reset_expires_at now ≡ false
    pub acceptable : policy_error db ctx password ≡ none
    pub saved : u ≡ save db ctx row (with_password db ctx password now) w

  consume_password_reset_token-IsReset :
      (token password : Text) (now : ℕ) (w : StoreWorld db ctx) {u : StoreWorld db ctx}
      → consume_password_reset_token db ctx token password now w ≡ (done, u)
      → IsReset token password now w u
  unfolding consume_password_reset_token
  consume_password_reset_token-IsReset token password now w {u} e =
      elim (Bool-cases (starts_with magic_link_prefix token || starts_with prefix token)) [
        | inl other ↦ absurd (cc (rw (consume_password_reset_token, other) at e))
        | inr plain ↦ elim (Option-cases (reset_row db ctx token w)) [
          | inl unknown ↦ absurd (cc (rw (consume_password_reset_token, plain, unknown) at e))
          | inr (row, found) ↦ elim (Bool-cases (slot_expired row.password_reset_expires_at now)) [
            | inl late ↦ absurd (cc (rw (consume_password_reset_token, plain, found, late) at e))
            | inr in_time ↦ elim (Option-cases (policy_error db ctx password)) [
              | inr (x, bad) ↦
                  absurd (cc (rw (consume_password_reset_token, plain, found, in_time, bad) at e))
              | inl fine ↦ record {
                row = row;
                plain = plain;
                found = found;
                in_time = in_time;
                acceptable = fine;
                saved = sym (
                    ap (λ p. p.1)
                      (rw (consume_password_reset_token, plain, found, in_time, fine) at e));
              }
            ]
          ]
        ]
      ]

  -- A password reset token works once: after it was used, it is refused at any time and for any
  -- password. No other account holds the same token.
  pub consume_password_reset_token-once :
      (token password again : Text) (now later : ℕ) (w u : StoreWorld db ctx)
      → count (has_slot (raw_to_db_token ctx.js [] token)) (rows db ctx w) ≤ 1
      → consume_password_reset_token db ctx token password now w ≡ (done, u)
      → consume_password_reset_token db ctx token again later u ≡ (refused, u)
  unfolding consume_password_reset_token
  consume_password_reset_token-once token password again now later w u once e =
      let r = consume_password_reset_token-IsReset token password now w e in
      let gone : reset_row db ctx token u ≡ none =
        rw (r.saved, db.rows_update)
          (first-amend-used (has_slot (raw_to_db_token ctx.js [] token)) (has_id r.row.id)
            (with_password db ctx password now) (rows db ctx w) r.found (eq_refl r.row.id)
            (λ x. refl) once) in
      rw (consume_password_reset_token, r.plain, gone) refl

  -- Links and codes reset no password: where every slot is empty or was written by one of those two
  -- flows, no token at all, under whatever password and at whatever time, is accepted as a reset.
  pub consume_password_reset_token-apart :
      (token password : Text) (now : ℕ) (w u : StoreWorld db ctx)
      → Hashes ctx.js
      → all (λ r. is_link_slot r.password_reset_token) (rows db ctx w) ≡ true
      → consume_password_reset_token db ctx token password now w ≢ (done, u)
  consume_password_reset_token-apart token password now w u hash links e =
      let r = consume_password_reset_token-IsReset token password now w e in
      let held : has_slot (raw_to_db_token ctx.js [] token) r.row ≡ true =
        first-holds (has_slot (raw_to_db_token ctx.js [] token)) (rows db ctx w) r.found in
      link_slot-hex r.row.password_reset_token (raw_to_db_token ctx.js [] token)
        (all-first (λ x. is_link_slot x.password_reset_token) _ (rows db ctx w) links r.found) held
        (plain_hex ctx.js hash token)

  use_up-once :
      (q : UserRow → Bool) (now : ℕ) (w u : StoreWorld db ctx) (row : UserRow)
      → ((x : UserRow) → q (without_slot x) ≡ false)
      → count q (rows db ctx w) ≤ 1
      → use_up db ctx (first q (rows db ctx w)) now w ≡ (some row, u)
      → (first q (rows db ctx u) ≡ none)
        × (row.password_reset_token ≡ none)
        × (all (is_spent row.id) (rows db ctx u) ≡ true)
  use_up-once q now w u row lost once e = elim (Option-cases (first q (rows db ctx w))) [
    | inl unknown ↦ absurd (cc (rw (unknown) at e))
    | inr (r, found) ↦ elim (Bool-cases (slot_expired r.password_reset_expires_at now)) [
      | inl late ↦ absurd (cc (rw (found, late) at e))
      | inr in_time ↦
          let saved : save db ctx r without_slot w ≡ u = ap (λ p. p.1) (rw (found, in_time) at e) in
          (
            rw (← saved, db.rows_update)
                (first-amend-used q (has_id r.id) without_slot (rows db ctx w) found (eq_refl r.id)
                  lost once),
            sym (ap (λ p. slot_of p.0) (rw (found, in_time) at e)),
            rw (← ap (λ p. row_or r p.0) (rw (found, in_time) at e), ← saved, db.rows_update)
                (is_spent-amend r.id (rows db ctx w)),
          )
    ]
  ]

  -- The rows whose link the token is.
  abbrev pub is_opened_by : Text → UserRow → Bool
  is_opened_by token =
      if starts_with prefix token
      then elim (link_token_from_otp_url token) [
        | none ↦ λ row. false
        | some link ↦
            λ row. begins (prefix ++ (ctx.js.sha256 link ++ b':' ∷ [])) row.password_reset_token
      ]
      else has_slot (raw_to_db_token ctx.js magic_link_prefix token)

  -- A link that was used works no more, with a code or without, and the code of the same mail is
  -- gone with it: the row that is returned has an empty slot, and so has every stored row with its
  -- id. The link belongs to one account only.
  pub consume_magic_link_token-once :
      (token : Text) (now later : ℕ) (w u : StoreWorld db ctx) (row : UserRow)
      → count (is_opened_by token) (rows db ctx w) ≤ 1
      → consume_magic_link_token db ctx token now w ≡ (some row, u)
      → (consume_magic_link_token db ctx token later u ≡ (none, u))
        × (row.password_reset_token ≡ none)
        × (all (is_spent row.id) (rows db ctx u) ≡ true)
  unfolding consume_magic_link_token
  consume_magic_link_token-once token now later w u row once e =
      elim (Bool-cases (starts_with prefix token)) [
        | inl coded ↦ elim (Option-cases (link_token_from_otp_url token)) [
          | inl bad ↦ absurd (cc (rw (consume_magic_link_token, coded, bad) at e))
          | inr (link, good) ↦
              let (gone, emptied, spent) =
                use_up-once
                  (λ r. begins (prefix ++ (ctx.js.sha256 link ++ b':' ∷ [])) r.password_reset_token)
                  now w u row (λ x. refl) (rw (coded, good) at once)
                  (rw (consume_magic_link_token, coded, good) at e) in
              (rw (consume_magic_link_token, coded, good, gone) refl, emptied, spent)
        ]
        | inr plain ↦ elim (Bool-cases (starts_with magic_link_prefix token)) [
          | inr bad ↦ absurd (cc (rw (consume_magic_link_token, plain, bad) at e))
          | inl good ↦
              let (gone, emptied, spent) =
                use_up-once (has_slot (raw_to_db_token ctx.js magic_link_prefix token)) now w u row
                  (λ x. refl) (rw (plain) at once)
                  (rw (consume_magic_link_token, plain, good) at e) in
              (rw (consume_magic_link_token, plain, good, gone) refl, emptied, spent)
        ]
      ]
