-- ===== src/Passwords/Rotation.antt =====
-- password_manager.ts: what verifies under which pepper.
use adonis_authkit.Prelude.{
  ◌≡◌, ◌⊎◌, ◌++◌, if◌then◌else◌, refl, sym, ap, ◌∙◌, Bool, true, false, ◌||◌, Option, none, some,
  List, [], ◌∷◌, Text, same, same_refl, same_sound, some_of, arith, Bool-cases, Option-cases, inl,
  inr,
}
use mathlib.Core.List.{Memᴰ}
use mathlib.Core.List.Memᴰ
use adonis_authkit.Passwords.{
  Pepper, unset, one, several, resolve_peppers, is_current, caught, Hooks, LegacyVerifier, peppered,
  apply_current_pepper, matching, candidates, any_legacy, legacy_result, verify,
}

-- The peppers that are configured, and none at all.
abbrev pub IsConfigured : Pepper → Text → Type 0
IsConfigured unset q = q ≡ []
IsConfigured (one p) q = (q ≡ p) ⊎ (q ≡ [])
IsConfigured (several ps) q = Memᴰ q ps ⊎ (q ≡ [])

-- The pepper of new passwords. An empty list has none.
abbrev pub newest : Pepper → Option Text
newest unset = some []
newest (one p) = some p
newest (several []) = none
newest (several (p ∷ ps)) = some p

some_of-append :
    (q : Text) (ps : List Text) → Memᴰ q ps ⊎ (q ≡ []) → some_of (same q) (ps ++ [] ∷ []) ≡ true
unfolding same
some_of-append q [] (inl m) = absurd (Memᴰ.not-nil m)
some_of-append q [] (inr e) = rw (e) refl
some_of-append q (p ∷ ps) h = elim (Bool-cases (same q p)) [
  | inl own ↦ rw (own) refl
  | inr other ↦ rw (other) (some_of-append q ps (later other h))
]
  where
    later : same q p ≡ false → Memᴰ q (p ∷ ps) ⊎ (q ≡ []) → Memᴰ q ps ⊎ (q ≡ [])
    later other (inr e) = inr e
    later other (inl m) = elim (Memᴰ.cases_cons m) [
      | inl here ↦ absurd (cc (sym other ∙ ap (λ t. same t p) here ∙ same_refl p))
      | inr there ↦ inl there
    ]

resolve_peppers-IsConfigured :
    (pepper : Pepper) (q : Text)
    → IsConfigured pepper q
    → some_of (same q) (resolve_peppers pepper) ≡ true
unfolding resolve_peppers same
resolve_peppers-IsConfigured unset q h = rw (h) refl
resolve_peppers-IsConfigured (one p) q h = elim (Bool-cases (same p [])) [
  | inl bare ↦ rw (bare, bare_or (same_sound p [] bare) h) refl
  | inr set ↦ rw (set) (listed h)
]
  where
    bare_or : p ≡ [] → (q ≡ p) ⊎ (q ≡ []) → q ≡ []
    bare_or bare (inl own) = own ∙ bare
    bare_or bare (inr none_) = none_

    listed : (q ≡ p) ⊎ (q ≡ []) → some_of (same q) (p ∷ [] ∷ []) ≡ true
    listed (inl own) = rw (own, same_refl p) refl
    listed (inr none_) = rw (none_) (ground arith)
resolve_peppers-IsConfigured (several ps) q h = some_of-append q ps h

newest-cases :
    (pepper : Pepper)
    → ((newest pepper ≡ none) × ((p : Text) → is_current pepper p ≡ false))
      ⊎ ((n : Text) × (rest : List Text) × (newest pepper ≡ some n)
          × (resolve_peppers pepper ≡ n ∷ rest)
          × ((p : Text) → is_current pepper p ≡ same p n))
unfolding resolve_peppers same
newest-cases unset = inr ([], [], refl, refl, λ p. refl)
newest-cases (one p) = elim (Bool-cases (same p [])) [
  | inl bare ↦ inr (p, [], refl, rw (same_sound p [] bare) refl, λ q. refl)
  | inr set ↦ inr (p, [] ∷ [], refl, rw (set) refl, λ q. refl)
]
newest-cases (several []) = inl (refl, λ p. refl)
newest-cases (several (p ∷ ps)) = inr (p, ps ++ [] ∷ [], refl, refl, λ q. refl)

-- The hasher of the store: a hash verifies for the text that it was made of, and for no other.
pub record Hasher (hooks : Hooks) : Type 0 where
  pub make : Text → Text
  pub checks : (x y : Text) → hooks.native_verify (make x) y ≡ some (same x y)

abbrev pub legacy_ok : Option LegacyVerifier → Text → List Text → Bool
legacy_ok none hashed cs = false
legacy_ok (some legacy) hashed cs = any_legacy legacy hashed cs

module _ (hmac : Text → Text → Text) (hooks : Hooks) where
  abbrev pub native_ok : Text → Text → Text → Bool
  native_ok hashed plain p = caught (hooks.native_verify hashed (peppered hmac p plain))

  matching-none :
      (hashed plain : Text) (ps : List Text)
      → matching hmac hooks hashed plain ps ≡ none
      → some_of (native_ok hashed plain) ps ≡ false
  unfolding matching
  matching-none hashed plain [] e = refl
  matching-none hashed plain (p ∷ ps) e = ground (arith, matching-none hashed plain ps)

  matching-some :
      (hashed plain : Text) (ps : List Text) {p : Text}
      → matching hmac hooks hashed plain ps ≡ some p
      → (native_ok hashed plain p ≡ true) × (some_of (native_ok hashed plain) ps ≡ true)
  unfolding matching
  matching-some hashed plain [] e = absurd (cc e)
  matching-some hashed plain (q ∷ ps) {p} e = ground (arith, matching-some hashed plain ps {p = p})

  -- A password is accepted exactly when the hasher accepts it under one of the peppers, or under
  -- none, or the verifier of old hashes accepts it under the current pepper or under none.
  pub verify-ok :
      (pepper : Pepper) (legacy : Option LegacyVerifier) (hashed plain : Text)
      → (verify hmac (pepper, legacy) hooks hashed plain).ok ≡ (
          some_of (native_ok hashed plain) (resolve_peppers pepper)
          || legacy_ok legacy hashed (candidates hmac pepper plain))
  unfolding verify
  verify-ok pepper legacy hashed plain =
      elim (Option-cases (matching hmac hooks hashed plain (resolve_peppers pepper))) [
        | inl e ↦
            rw (verify, e, matching-none hashed plain (resolve_peppers pepper) e)
              (legacy_case legacy)
        | inr (p, e) ↦
            rw (verify, e, (matching-some hashed plain (resolve_peppers pepper) {p = p} e).1) refl
      ]
    where
      legacy_case :
          (v : Option LegacyVerifier)
          → (legacy_result hmac v pepper hashed plain).ok
            ≡ legacy_ok v hashed (candidates hmac pepper plain)
      legacy_case none = refl
      legacy_case (some v) = ground arith

  is_current-apply :
      (pepper : Pepper) (p plain : Text)
      → is_current pepper p ≡ true
      → peppered hmac p plain ≡ apply_current_pepper hmac pepper plain
  unfolding apply_current_pepper
  is_current-apply unset p plain e = rw (same_sound p [] e) refl
  is_current-apply (one q) p plain e = rw (same_sound p q e) refl
  is_current-apply (several []) p plain e = absurd (cc e)
  is_current-apply (several (q ∷ qs)) p plain e = rw (same_sound p q e) refl

  module _ (hasher : Hasher hooks) (legacy : Option LegacyVerifier) where
    own_pepper : (q plain : Text) → native_ok (hasher.make (peppered hmac q plain)) plain q ≡ true
    own_pepper q plain =
        rw (hasher.checks (peppered hmac q plain) (peppered hmac q plain))
          (same_refl (peppered hmac q plain))

    matching_any :
        (hashed plain q : Text) (ps : List Text)
        → some_of (same q) ps ≡ true
        → native_ok hashed plain q ≡ true
        → (p : Text) × (matching hmac hooks hashed plain ps ≡ some p)
    unfolding matching
    matching_any hashed plain q [] m e = absurd (cc m)
    matching_any hashed plain q (p ∷ ps) m e = elim (Bool-cases (native_ok hashed plain p)) [
      | inl match ↦ (p, rw (matching, match) refl)
      | inr no_ ↦ elim (Bool-cases (same q p)) [
        | inl same_ ↦
            absurd (cc (sym no_ ∙ ap (native_ok hashed plain) (sym (same_sound q p same_)) ∙ e))
        | inr other ↦
            let (r, found) = matching_any hashed plain q ps (rw other at m) e in
            (r, rw (matching, no_) found)
      ]
    ]

    -- What was stored under a pepper that is no longer current.
    pub verify-old_pepper :
        (pepper : Pepper) (q plain : Text)
        → some_of (same q) (resolve_peppers pepper) ≡ true
        → same (peppered hmac q plain) (apply_current_pepper hmac pepper plain) ≡ false
        → verify hmac (pepper, legacy) hooks (hasher.make (peppered hmac q plain)) plain
          ≡ record { ok = true; rehash = true }
    unfolding verify
    verify-old_pepper pepper q plain listed other =
        let hashed = hasher.make (peppered hmac q plain) in
        let (p, found) =
          matching_any hashed plain q (resolve_peppers pepper) listed (own_pepper q plain) in
        elim (Bool-cases (is_current pepper p)) [
          | inr old ↦ rw (verify, found, old) refl
          | inl current ↦
              let accepted =
                (matching-some hashed plain (resolve_peppers pepper) {p = p} found).0 in
              let same_ : same (peppered hmac q plain) (peppered hmac p plain) ≡ true =
                rw (hasher.checks (peppered hmac q plain) (peppered hmac p plain)) at accepted in
              absurd (
                cc (
                  sym other
                  ∙ ap (same (peppered hmac q plain))
                      (sym (is_current-apply pepper p plain current))
                  ∙ same_))
        ]

    -- Whether a password asks for a new hash: not if it is stored as the pepper of new passwords
    -- gives it, unless the hasher asks for one.
    abbrev pub asks_rehash : Pepper → Text → Text → Bool
    asks_rehash pepper q plain = elim (newest pepper) [
      | none ↦ true
      | some n ↦
          if same (peppered hmac q plain) (peppered hmac n plain)
          then caught (hooks.needs_rehash (hasher.make (peppered hmac q plain)))
          else true
    ]

    -- A rotation of peppers locks nobody out: a password that was stored under any configured
    -- pepper, the current one included, or under none, is accepted. It is marked for a new hash
    -- unless it is stored as under the current pepper, where the hasher decides; an empty list of
    -- peppers marks all. The hasher accepts the text that a hash was made of, and no other.
    pub verify-rotation :
        (pepper : Pepper) (q plain : Text)
        → IsConfigured pepper q
        → verify hmac (pepper, legacy) hooks (hasher.make (peppered hmac q plain)) plain
          ≡ record { ok = true; rehash = asks_rehash pepper q plain }
    unfolding verify matching
    verify-rotation pepper q plain listed =
        let hashed = hasher.make (peppered hmac q plain) in
        let (p, found) =
          matching_any hashed plain q (resolve_peppers pepper)
            (resolve_peppers-IsConfigured pepper q listed) (own_pepper q plain) in
        elim (newest-cases pepper) [
          | inl (no_, never) ↦ rw (verify, found, never p, asks_rehash, no_) refl
          | inr (n, rest, new, list, current) ↦
              elim (Bool-cases (same (peppered hmac q plain) (peppered hmac n plain))) [
                | inl hit ↦
                    rw
                      (
                        verify,
                        list,
                        matching,
                        hasher.checks (peppered hmac q plain) (peppered hmac n plain),
                        hit,
                        current n,
                        same_refl n,
                        asks_rehash,
                        new,
                        hit,
                      )
                      (refl)
                | inr miss ↦
                    rw (verify, found, current p, apart n p found miss, asks_rehash, new, miss) refl
              ]
        ]
      where
        apart :
            (n p : Text)
            → matching hmac hooks
                (hasher.make (peppered hmac q plain))
                plain
                (resolve_peppers pepper)
              ≡ some p
            → same (peppered hmac q plain) (peppered hmac n plain) ≡ false
            → same p n ≡ false
        apart n p found miss = elim (Bool-cases (same p n)) [
          | inr other ↦ other
          | inl own ↦
              let hashed = hasher.make (peppered hmac q plain) in
              let accepted =
                (matching-some hashed plain (resolve_peppers pepper) {p = p} found).0 in
              let hit : same (peppered hmac q plain) (peppered hmac p plain) ≡ true =
                rw (hasher.checks (peppered hmac q plain) (peppered hmac p plain)) at accepted in
              absurd (
                cc (
                  sym miss
                  ∙ ap (λ t. same (peppered hmac q plain) (peppered hmac t plain))
                      (sym (same_sound p n own))
                  ∙ hit))
        ]
