-- ===== src/TokenHash/Deadline.antt =====
-- token_hash.ts: tokens, what is stored for them, and their deadlines.
use adonis_authkit.Prelude.{
  ℕ, ◌≡◌, ◌≢◌, refl, sym, ap, ◌∙◌, true, false, Option, none, some, [], ◌∷◌, ◌++◌, Text,
  starts_with, drop, length, Lacks, arith, ◌==◌, Option-cases, Bool-cases, ==_iff, inl, inr, ◌≤◌,
}
use adonis_authkit.OtpLogin.{Platform, PrintsNumbers, from_ℕ, hex_64, max_safe}
use adonis_authkit.OtpLogin.Codec.{Lacks-hex_64}
use adonis_authkit.TokenHash.{
  without, split_colon, split_expiring_raw, all_digits, generate_hashed_token, raw_to_db_token,
  generate_expiring_hashed_token, raw_to_expiring_db_token, parse_expiring_token_exp,
}

-- SHA-256 in hex: 64 lower-case digits.
pub record Hashes (js : Platform) : Type 0 where
  pub digest : (s : Text) → hex_64 (js.sha256 s) ≡ true
  pub digits : (n : ℕ) → all_digits (js.show (from_ℕ n)) ≡ true

pub starts_with-append : (p s : Text) → starts_with p (p ++ s) ≡ true
starts_with-append [] s = refl
starts_with-append (c ∷ p) s = ground (arith, starts_with-append p s)

drop-append : (p s : Text) → drop (length p) (p ++ s) ≡ s
drop-append [] s = refl
drop-append (c ∷ p) s = drop-append p s

pub without-append : (p s : Text) → without p (p ++ s) ≡ s
without-append p s = rw (starts_with-append p s) (drop-append p s)

pub split_colon-append : (a s : Text) → Lacks b':' a → split_colon (a ++ b':' ∷ s) ≡ some (a, s)
unfolding split_colon
split_colon-append [] s h = refl
split_colon-append (c ∷ a) s (n, h) = ground (arith, split_colon-append a s h)

abbrev pair_or : Option (Text × Text) → Text × Text
pair_or none = ([], [])
pair_or (some p) = p

ne_of : {a b : ℕ} → (a == b) ≡ false → a ≢ b
ne_of {a} {b} h e = ground arith

split_colon-Lacks : (s : Text) → Lacks b':' s → split_colon s ≡ none
unfolding split_colon
split_colon-Lacks [] h = refl
split_colon-Lacks (c ∷ s) (n, h) = ground (arith, split_colon-Lacks s h)

-- What is in front of the first ':' holds none.
split_colon-front :
    (s : Text) {a r : Text} → split_colon s ≡ some (a, r) → (Lacks b':' a) × (s ≡ a ++ b':' ∷ r)
unfolding split_colon
split_colon-front [] e = absurd (cc e)
split_colon-front (c ∷ s) {a} {r} e = elim (Bool-cases (c == b':')) [
  | inl colon ↦
      let e' : some ([], s) ≡ some (a, r) = rw (split_colon, colon) at e in
      let at_front : [] ≡ a = ap (λ o. (pair_or o).0) e' in
      let behind : s ≡ r = ap (λ o. (pair_or o).1) e' in
      rw (← at_front, ← behind, (==_iff c b':').0 colon) (tt, refl)
  | inr other ↦ elim (Option-cases (split_colon s)) [
    | inl none_yet ↦ absurd (cc (rw (split_colon, other, none_yet) at e))
    | inr (p, found) ↦
        let e' : some (c ∷ p.0, p.1) ≡ some (a, r) = rw (split_colon, other, found) at e in
        let at_front : c ∷ p.0 ≡ a = ap (λ o. (pair_or o).0) e' in
        let behind : p.1 ≡ r = ap (λ o. (pair_or o).1) e' in
        let (lacks, rest) = split_colon-front s {a = p.0} {r = p.1} found in
        rw (← at_front, ← behind) ((ne_of other, lacks), ap (λ t. c ∷ t) rest)
  ]
]

append_cancel : (p : Text) {a b : Text} → p ++ a ≡ p ++ b → a ≡ b
append_cancel [] e = e
append_cancel (c ∷ p) {a} {b} e = append_cancel p (ap (drop 1) e)

module _ (js : Platform) (laws : PrintsNumbers js) (hash : Hashes js) where
  -- The lookup of what was sent out finds what was stored for it.
  pub raw_to_db_token-generate :
      (prefix random : Text)
      → raw_to_db_token js prefix (generate_hashed_token js prefix random).raw
        ≡ (generate_hashed_token js prefix random).db_value
  unfolding raw_to_db_token generate_hashed_token
  raw_to_db_token-generate prefix random =
      ap (λ t. prefix ++ js.sha256 t) (without-append prefix random)

  pub raw_to_expiring_db_token-generate :
      (prefix random : Text) (exp : ℕ)
      → raw_to_expiring_db_token js prefix (generate_expiring_hashed_token js prefix exp random).raw
        ≡ (generate_expiring_hashed_token js prefix exp random).db_value
  unfolding raw_to_expiring_db_token generate_expiring_hashed_token split_expiring_raw
  raw_to_expiring_db_token-generate prefix random exp =
      rw
        (
          raw_to_expiring_db_token,
          without-append prefix _,
          split_colon-append _ random (laws.show_plain exp),
        )
        refl

  -- A token that leads to a stored value carries the deadline that was stored, whatever else was
  -- written into it.
  pub same_deadline :
      (prefix random raw : Text) (exp : ℕ)
      → exp ≤ max_safe
      → raw_to_expiring_db_token js prefix raw
        ≡ (generate_expiring_hashed_token js prefix exp random).db_value
      → parse_expiring_token_exp js prefix raw ≡ some (from_ℕ exp)
  unfolding raw_to_expiring_db_token generate_expiring_hashed_token split_expiring_raw
      parse_expiring_token_exp
  same_deadline prefix random raw exp safe e =
      elim (Option-cases (split_colon (without prefix raw))) [
        | inl plain ↦ absurd (
            let same : js.sha256 (without prefix raw)
                ≡ js.show (from_ℕ exp) ++ b':' ∷ js.sha256 random =
              append_cancel prefix (rw (raw_to_expiring_db_token, plain) at e) in
            let unsplit =
              split_colon-Lacks (js.sha256 (without prefix raw)) (Lacks-hex_64 _ (hash.digest _)) in
            let split_ =
              split_colon-append (js.show (from_ℕ exp)) (js.sha256 random) (laws.show_plain exp) in
            cc (sym unsplit ∙ ap split_colon same ∙ split_))
        | inr (p, parts) ↦
            (let same : p.0 ++ b':' ∷ js.sha256 p.1
                  ≡ js.show (from_ℕ exp) ++ b':' ∷ js.sha256 random =
                append_cancel prefix (rw (raw_to_expiring_db_token, parts) at e) in
              let (front, rest) =
                split_colon-front (without prefix raw) {a = p.0} {r = p.1} parts in
              let heads : p.0 ≡ js.show (from_ℕ exp) =
                ap (λ o. (pair_or o).0)
                  (sym (split_colon-append p.0 (js.sha256 p.1) front)
                    ∙ ap split_colon same
                    ∙ split_colon-append (js.show (from_ℕ exp)) (js.sha256 random)
                        (laws.show_plain exp)) in
              rw
                (parse_expiring_token_exp, parts, heads, hash.digits exp, laws.number_show exp safe)
                refl)
      ]
