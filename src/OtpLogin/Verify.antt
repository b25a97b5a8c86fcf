-- ===== src/OtpLogin/Verify.antt =====
-- otp_login.ts: one evaluation of a code, and the lockout over a sequence of guesses.
use adonis_authkit.Prelude.{
  ℕ, ◌+◌, ◌-◌, ◌≤◌, ◌<◌, ◌≡◌, ◌↔◌, inl, inr, refl, true, false, ◌||◌, ◌≢◌, Option, none, some, List,
  [], ◌∷◌, Text, same, leb, arith, Bool-cases, ◌⊎◌, sym, ap, ◌∙◌,
}
use adonis_authkit.OtpLogin.{
  Platform, PrintsNumbers, ParsedOtpToken, max_safe, hex_64, encode_otp_token, decode_otp_token,
  hash_login_otp, safe_equal_hex, before, OtpVerifyOutcome, ok, NextToken, leave, clear, write,
  after_failure, evaluate_login_otp, slot_after,
}
use adonis_authkit.OtpLogin.Codec.{IsEncodable, decode-encode, safe_equal_hex_iff}

hash_not_empty : (h : Text) → hex_64 h ≡ true → same h [] ≡ false
unfolding hex_64 same
hash_not_empty [] h = ground arith
hash_not_empty (c ∷ s) h = refl

after_failure-ne-ok :
    (js : Platform) (uid code : Text) (now_ms max_attempts : ℕ) (p : ParsedOtpToken)
    → (after_failure js uid code now_ms max_attempts p).result ≢ ok
unfolding after_failure
after_failure-ne-ok js uid code now_ms max_attempts p = ground arith

-- The hash of a slot is left empty by the lockout, and is 64 hex digits otherwise.
abbrev pub IsStored : Option ParsedOtpToken → Type 0
IsStored none = Unit
IsStored (some p) = (p.code_hash ≡ []) ⊎ (hex_64 p.code_hash ≡ true)

-- The slot holds the hash of the code, with attempts left, at a time before its expiry.
abbrev pub IsOpenFor : Platform → Text → Text → ℕ → ℕ → Option ParsedOtpToken → Type 0
IsOpenFor js uid code now_ms max_attempts none = ⊥
IsOpenFor js uid code now_ms max_attempts (some p) =
    (p.code_hash ≡ hash_login_otp js uid code)
    × (p.attempts < max_attempts)
    × (before p.code_exp_ms now_ms ≡ false)

-- A code is accepted exactly when the slot holds a code, its hash is that of the interaction and
-- the code, the counter is below the limit and the code has not expired: no slot and no slot that
-- the lockout has emptied accepts any. SHA-256 gives 64 lower-case hex digits, and what a slot
-- holds as a hash is such digits or empty.
pub evaluate_login_otp-ok_iff :
    (js : Platform) (uid code : Text) (now_ms max_attempts : ℕ) (slot : Option ParsedOtpToken)
    → hex_64 (hash_login_otp js uid code) ≡ true
    → IsStored slot
    → ((evaluate_login_otp js uid code now_ms max_attempts slot).result ≡ ok)
      ↔ IsOpenFor js uid code now_ms max_attempts slot
unfolding evaluate_login_otp same
evaluate_login_otp-ok_iff js uid code now_ms max_attempts none h k = ((λ e. cc e), (λ c. absurd c))
evaluate_login_otp-ok_iff js uid code now_ms max_attempts (some p) h (inl emptied) =
    let filled = hash_not_empty (hash_login_otp js uid code) h in
    (
      (λ e. absurd (cc (rw (evaluate_login_otp, emptied) at e))),
      (λ c. absurd (cc (sym filled ∙ ap (λ t. same t []) (sym c.0 ∙ emptied)))),
    )
evaluate_login_otp-ok_iff js uid code now_ms max_attempts (some p) h (inr k) =
    let (to, from) = safe_equal_hex_iff _ _ h k in
    let filled = hash_not_empty p.code_hash k in
    let failed = after_failure-ne-ok js uid code now_ms max_attempts p in
    ((λ e. ground (arith, to)), (λ c. ground (arith, from)))

pub record Guess : Type 0 where
  pub uid : Text
  pub code : Text
  pub now_ms : ℕ

abbrev touches : NextToken → ℕ
touches leave = 0
touches clear = 1
touches (write t) = 1

module _ (js : Platform) (max_attempts : ℕ) where
  abbrev evaluation : Option ParsedOtpToken → Guess → NextToken
  evaluation p g = (evaluate_login_otp js g.uid g.code g.now_ms max_attempts p).next_token

  -- A platform that hashes every text to what the slot holds: to it, every guess is the right code.
  abbrev fooled : ParsedOtpToken → Platform
  fooled p = record js { sha256 = λ s. p.code_hash }

  abbrev one_if_ok : OtpVerifyOutcome → ℕ
  one_if_ok ok = 1
  one_if_ok _ = 0

  -- A guess counts if it would be accepted at its time were it the right code, that is, if its hash
  -- were the one of the slot.
  pub compared : Option ParsedOtpToken → Guess → ℕ
  unfolding evaluate_login_otp
  compared none g = one_if_ok (evaluate_login_otp js g.uid g.code g.now_ms max_attempts none).result
  compared (some p) g =
      one_if_ok (evaluate_login_otp (fooled p) g.uid g.code g.now_ms max_attempts (some p)).result

  -- How many of the guesses are compared, when each one finds the slot that the one before it left.
  pub comparisons : Option Text → List Guess → ℕ
  comparisons slot [] = 0
  comparisons slot (g ∷ gs) =
      let p = decode_otp_token js slot in
      compared p g + comparisons (slot_after (evaluation p g) slot) gs

  touches-evaluation :
      (p : Option ParsedOtpToken) (g : Guess) → compared p g ≤ touches (evaluation p g)
  unfolding compared evaluate_login_otp after_failure
  touches-evaluation none g = omega arith
  touches-evaluation (some p) g = ground arith

module _ (js : Platform) (laws : PrintsNumbers js) (max_attempts : ℕ) where
  comparisons-none : (gs : List Guess) → comparisons js max_attempts none gs ≡ 0
  unfolding comparisons compared evaluate_login_otp decode_otp_token
  comparisons-none [] = refl
  comparisons-none (g ∷ gs) = omega (arith, comparisons-none gs)

  -- What one evaluation does to the slot of `p`.
  data Effect (p : ParsedOtpToken) : NextToken → Type 0 where
    left : Effect p leave
    cleared : p.attempts < max_attempts → Effect p clear
    counted :
        (q : ParsedOtpToken) {t : Text}
        → p.attempts < max_attempts
        → q.attempts ≡ p.attempts + 1
        → IsEncodable q
        → t ≡ encode_otp_token js q
        → Effect p (write t)

  after_failure-Effect :
      (p : ParsedOtpToken) (g : Guess)
      → p.attempts < max_attempts
      → max_attempts ≤ max_safe
      → IsEncodable p
      → Effect p (after_failure js g.uid g.code g.now_ms max_attempts p).next_token
  unfolding after_failure
  after_failure-Effect p g lt safe e = elim (Bool-cases (leb max_attempts (p.attempts + 1))) [
    | inl last ↦ rw last (
        counted (record p { code_hash = []; attempts = p.attempts + 1 }) lt refl
          (record {
            link = e.link;
            hash = inl refl;
            expiry = e.expiry;
            expires = e.expires;
            expiry_safe = e.expiry_safe;
            attempts_safe = omega arith;
          })
          refl)
    | inr more ↦ rw more (
        counted (record p { attempts = p.attempts + 1 }) lt refl
          (record {
            link = e.link;
            hash = e.hash;
            expiry = e.expiry;
            expires = e.expires;
            expiry_safe = e.expiry_safe;
            attempts_safe = omega arith;
          })
          refl)
  ]

  evaluate-Effect :
      (p : ParsedOtpToken) (g : Guess)
      → max_attempts ≤ max_safe
      → IsEncodable p
      → Effect p (evaluation js max_attempts (some p) g)
  unfolding evaluate_login_otp
  evaluate-Effect p g safe e =
      elim (Bool-cases (same p.code_hash [] || leb max_attempts p.attempts)) [
        | inl shut ↦ rw (evaluation, shut) left
        | inr open_ ↦ elim (Bool-cases (before p.code_exp_ms g.now_ms)) [
          | inl late ↦ rw (evaluation, open_, late) left
          | inr live ↦
              elim (Bool-cases (safe_equal_hex (hash_login_otp js g.uid g.code) p.code_hash)) [
                | inl hit ↦ rw (evaluation, open_, live, hit) (cleared (ground arith))
                | inr miss ↦
                    rw (evaluation, open_, live, miss)
                      (after_failure-Effect p g (ground arith) safe e)
              ]
        ]
      ]

  comparisons_from :
      (gs : List Guess) (p : ParsedOtpToken)
      → max_attempts ≤ max_safe
      → IsEncodable p
      → comparisons js max_attempts (some (encode_otp_token js p)) gs ≤ max_attempts - p.attempts
  unfolding comparisons
  comparisons_from [] p safe e = omega arith
  comparisons_from (g ∷ gs) p safe e =
      let counted_ = touches-evaluation js max_attempts (some p) g in
      let bound = by_effect _ (evaluate-Effect p g safe e) (comparisons_from gs) in
      rw (decode-encode js laws p e) (omega (arith, counted_, bound))
    where
      by_effect :
          (next : NextToken)
          → Effect p next
          → ((q : ParsedOtpToken)
              → max_attempts ≤ max_safe
              → IsEncodable q
              → comparisons js max_attempts (some (encode_otp_token js q)) gs
                ≤ max_attempts - q.attempts)
          → touches next
              + comparisons js max_attempts (slot_after next (some (encode_otp_token js p))) gs
            ≤ max_attempts - p.attempts
      by_effect leave left ih = omega (arith, ih p safe e)
      by_effect clear (cleared lt) ih = omega (arith, comparisons-none gs)
      by_effect (write t) (counted q lt more eq te) ih = rw te (omega (arith, ih q safe eq))

-- However many codes are tried, in whatever order and at whatever times, at most `max_attempts`
-- of them, less those already counted, are tried against one issued code, in the sense that the
-- right code in their place would have been accepted. The limit is a safe integer, and the slot is
-- one that the program writes.
pub lockout_bound :
    (js : Platform)
    → PrintsNumbers js
    → (max_attempts : ℕ) (p : ParsedOtpToken) (gs : List Guess) → max_attempts ≤ max_safe
    → IsEncodable p
    → comparisons js max_attempts (some (encode_otp_token js p)) gs ≤ max_attempts - p.attempts
lockout_bound js laws max_attempts p gs safe e = comparisons_from js laws max_attempts gs p safe e
