-- ===== src/OidcAdapter/View.antt =====
-- database_adapter.ts: the adapter as a map from a model and an id to a payload.
use adonis_authkit.Prelude.{
  ℕ, ◌/◌, ◌≡◌, refl, Bool, true, false, not, ◌&&◌, Option, none, some, if◌then◌else◌, String,
  str_eq, first, count, arith, eq_iff, inl, inr, Option-cases, Bool-cases, &&-eq-true,
}
use adonis_authkit.Db.{Table}
use adonis_authkit.Db.Finding.{
  first-append-here, first-append-other, first-keep-not, first-amend-here, first-keep-other,
  first-amend-other,
}
use adonis_authkit.Db.Counting.{count-keep-none, count-keep-other}
use adonis_authkit.OidcAdapter.{
  OidcPayload, PayloadRow, holds, is_row, expiry, row_of, expired, parse, upsert, find, consume,
  destroy, revoke_by_grant_id,
}

-- Rows of two keys are different rows.
keys_apart :
    (name key model id : String) (r : PayloadRow)
    → (str_eq name model && str_eq key id) ≡ false
    → is_row name key r ≡ true
    → is_row model id r ≡ false
keys_apart name key model id r h k =
    ground (arith, eq_iff r.model_name name, eq_iff r.id key, eq_iff name model, eq_iff key id)

abbrev pub marked : ℕ → Option OidcPayload → Option OidcPayload
marked now none = none
marked now (some payload) = some (record payload { consumed = some (now / 1000) })

own_row : (name id : String) → (str_eq name name && str_eq id id) ≡ true
own_row name id = rw ((eq_iff name name).1 refl, (eq_iff id id).1 refl) refl

module _ (db : Table PayloadRow) (name : String) where
  upsert-same :
      (id : String) (payload : OidcPayload) (expires_in now later : ℕ) (s : db.State) {t : db.State}
      → upsert db name id payload expires_in now s ≡ some t
      → find db name id later t
        ≡ (if expired (expiry expires_in now) later then none else some payload)
  unfolding upsert find parse
  upsert-same id payload expires_in now later s {t} e =
      elim (Option-cases (first (is_row name id) (db.rows s))) [
        | inr (row, there) ↦
            let same : db.update (is_row name id)
                  (λ r. row_of name id payload (expiry expires_in now)) s
                ≡ t =
              cc (rw (upsert, there) at e) in
            rw
              (
                find,
                ← same,
                db.rows_update,
                first-amend-here (is_row name id)
                    (λ r. row_of name id payload (expiry expires_in now)) (db.rows s)
                    (λ y k. own_row name id) there,
                parse,
              )
              refl
        | inl none_yet ↦
            rw
              (
                find,
                db.rows_insert (row_of name id payload (expiry expires_in now)) s
                    (rw (upsert, none_yet) at e),
                first-append-here (is_row name id) (db.rows s)
                    (row_of name id payload (expiry expires_in now)) none_yet (own_row name id),
                parse,
              )
              refl
      ]

  upsert-other :
      (id model i : String) (payload : OidcPayload) (expires_in now later : ℕ) (s : db.State)
      {t : db.State}
      → (str_eq name model && str_eq id i) ≡ false
      → upsert db name id payload expires_in now s ≡ some t
      → find db model i later t ≡ find db model i later s
  unfolding upsert find
  upsert-other id model i payload expires_in now later s {t} other e =
      elim (Option-cases (first (is_row name id) (db.rows s))) [
        | inr (row, there) ↦
            let same : db.update (is_row name id)
                  (λ r. row_of name id payload (expiry expires_in now)) s
                ≡ t =
              cc (rw (upsert, there) at e) in
            rw
              (
                find,
                ← same,
                db.rows_update,
                first-amend-other (is_row name id) (is_row model i)
                    (λ r k. keys_apart name id model i r other k)
                    (λ r. row_of name id payload (expiry expires_in now)) (db.rows s)
                    (λ y k. other),
              )
              refl
        | inl none_yet ↦
            rw
              (
                find,
                db.rows_insert (row_of name id payload (expiry expires_in now)) s
                    (rw (upsert, none_yet) at e),
                first-append-other (is_row model i) (db.rows s)
                    (row_of name id payload (expiry expires_in now)) other,
              )
              refl
      ]

  -- What was stored is found until it expires, under its model and id only; what was stored under
  -- every other one is found as before. A lifetime of 0 never expires.
  pub upsert-find :
      (id model i : String) (payload : OidcPayload) (expires_in now later : ℕ) (s t : db.State)
      → upsert db name id payload expires_in now s ≡ some t
      → find db model i later t ≡ (
          if str_eq name model && str_eq id i
          then (if expired (expiry expires_in now) later then none else some payload)
          else find db model i later s)
  upsert-find id model i payload expires_in now later s t e =
      elim (Bool-cases (str_eq name model && str_eq id i)) [
        | inr other ↦ rw other (upsert-other id model i payload expires_in now later s other e)
        | inl same ↦
            let (m, k) = &&-eq-true (str_eq name model) (str_eq id i) same in
            rw (same, ← (eq_iff name model).0 m, ← (eq_iff id i).0 k)
              (upsert-same id payload expires_in now later s e)
      ]

  -- What is destroyed is not found any more, and everything else is found as before.
  pub destroy-find :
      (id model i : String) (later : ℕ) (s : db.State)
      → find db model i later (destroy db name id s)
        ≡ (if str_eq name model && str_eq id i then none else find db model i later s)
  unfolding destroy find parse
  destroy-find id model i later s = elim (Bool-cases (str_eq name model && str_eq id i)) [
    | inr other ↦
        rw
          (
            other,
            db.rows_delete,
            first-keep-other (is_row name id) (is_row model i)
                (λ r k. keys_apart name id model i r other k) (db.rows s),
          )
          refl
    | inl same ↦
        let (m, k) = &&-eq-true (str_eq name model) (str_eq id i) same in
        rw
          (
            same,
            ← (eq_iff name model).0 m,
            ← (eq_iff id i).0 k,
            db.rows_delete,
            first-keep-not (is_row name id) (db.rows s),
          )
          refl
  ]

  found_payload :
      (now : ℕ) (row : PayloadRow) (payload : OidcPayload)
      → parse (some row) now ≡ some payload
      → row.payload ≡ payload
  unfolding parse
  found_payload now row payload e = ground arith

  marked-parse :
      (now later : ℕ) (row : PayloadRow)
      → parse
          (some (record row { payload = record row.payload { consumed = some (now / 1000) } }))
          later
        ≡ marked now (parse (some row) later)
  unfolding parse
  marked-parse now later row = elim (Bool-cases (expired row.expires_at later)) [
    | inl e ↦ rw (parse, e) refl
    | inr e ↦ rw (parse, e) refl
  ]

  consume-same :
      (id : String) (now later : ℕ) (s : db.State) (payload : OidcPayload)
      → find db name id now s ≡ some payload
      → find db name id later (consume db name id now s) ≡ marked now (find db name id later s)
  unfolding consume find parse
  consume-same id now later s payload e = elim (Option-cases (first (is_row name id) (db.rows s))) [
    | inl none_yet ↦ absurd (cc (rw (find, none_yet, parse) at e))
    | inr (row, there) ↦
        let same = found_payload now row payload (rw (find, there) at e) in
        rw
          (
            find,
            consume,
            e,
            db.rows_update,
            there,
            first-amend-here (is_row name id)
                (λ r. record r { payload = record payload { consumed = some (now / 1000) } })
                (db.rows s) (λ y k. k) there,
            ← same,
          )
          (marked-parse now later row)
  ]

  -- What is consumed and has not expired is found with the time of it, in seconds, until it expires;
  -- everything else is found as before.
  pub consume-find :
      (id model i : String) (now later : ℕ) (s : db.State) (payload : OidcPayload)
      → find db name id now s ≡ some payload
      → find db model i later (consume db name id now s) ≡ (
          if str_eq name model && str_eq id i
          then marked now (find db name id later s)
          else find db model i later s)
  unfolding consume find parse
  consume-find id model i now later s payload e =
      elim (Bool-cases (str_eq name model && str_eq id i)) [
        | inr other ↦
            rw
              (
                other,
                consume,
                e,
                db.rows_update,
                first-amend-other (is_row name id) (is_row model i)
                    (λ r k. keys_apart name id model i r other k)
                    (λ r. record r { payload = record payload { consumed = some (now / 1000) } })
                    (db.rows s) (λ y k. keys_apart name id model i y other k),
              )
              refl
        | inl same ↦
            let (m, k) = &&-eq-true (str_eq name model) (str_eq id i) same in
            rw (same, ← (eq_iff name model).0 m, ← (eq_iff id i).0 k)
              (consume-same id now later s payload e)
      ]

  -- A revocation leaves no artifact of the grant, of any model, and as many of every other kind as
  -- there were.
  pub revoke_by_grant_id_lem :
      (grant : String) (p : PayloadRow → Bool) (s : db.State)
      → (count (λ r. holds grant r.grant_id) (db.rows (revoke_by_grant_id db name grant s)) ≡ 0)
        × (count
              (λ r. not (holds grant r.grant_id) && p r)
              (db.rows (revoke_by_grant_id db name grant s))
            ≡ count (λ r. not (holds grant r.grant_id) && p r) (db.rows s))
  unfolding revoke_by_grant_id
  revoke_by_grant_id_lem grant p s = rw (db.rows_delete) (
    count-keep-none (λ r. true) (λ r. holds grant r.grant_id) (db.rows s),
    count-keep-other (λ r. not (holds grant r.grant_id) && p r) (λ r. holds grant r.grant_id)
        (λ r h. ground arith) (db.rows s),
  )
