-- ===== src/OtpLogin/Codec.antt =====
-- otp_login.ts: the slot's text form, and the constant-time comparison.
use adonis_authkit.Prelude.{
  ℕ, ◌+◌, ◌-◌, ◌*◌, ◌%◌, ◌<◌, ◌∙◌, not, leb, Bool-cases, ◌≤◌, ◌≡◌, ◌↔◌, ◌⊎◌, inl, inr, refl, sym,
  ap, true, false, some, List, [], ◌∷◌, ◌++◌, Text, same, same_refl, same_sound, length, all, Lacks,
  arith, ◌&&◌,
}
use adonis_authkit.OtpLogin.{
  Platform, PrintsNumbers, ParsedOtpToken, from_ℕ, max_safe, is_hex, hex_64, split,
  encode_otp_token, decode_otp_token, decode_parts, hex_bytes, hex_value, push_byte, safe_equal_hex,
}

split_last : (s : Text) → Lacks b':' s → split s ≡ s ∷ []
unfolding split
split_last [] h = refl
split_last (c ∷ s) (n, h) = ground (arith, split_last s h)

split_step : (s t : Text) → Lacks b':' s → split (s ++ b':' ∷ t) ≡ s ∷ split t
unfolding split
split_step [] t h = refl
split_step (c ∷ s) t (n, h) = ground (arith, split_step s t h)

Lacks-all_hex : (s : Text) → all is_hex s ≡ true → Lacks b':' s
Lacks-all_hex [] h = tt
Lacks-all_hex (c ∷ s) h = (ground arith, Lacks-all_hex s (ground arith))

pub Lacks-hex_64 : (s : Text) → hex_64 s ≡ true → Lacks b':' s
unfolding hex_64
Lacks-hex_64 s h = Lacks-all_hex s (ground arith)

abbrev pub IsDigest : Text → Type 0
IsDigest h = (h ≡ []) ⊎ (hex_64 h ≡ true)

Lacks-IsDigest : (h : Text) → IsDigest h → Lacks b':' h
Lacks-IsDigest h (inl e) = rw e tt
Lacks-IsDigest h (inr e) = Lacks-hex_64 h e

digest_test : (h : Text) → IsDigest h → (not (same h []) && not (hex_64 h)) ≡ false
unfolding same
digest_test h (inl e) = rw e refl
digest_test h (inr e) = rw e (ground arith)

-- What the program itself puts into a slot.
pub record IsEncodable (t : ParsedOtpToken) : Type 0 where
  pub link : hex_64 t.link_token ≡ true
  pub hash : IsDigest t.code_hash
  pub expiry : ℕ
  pub expires : t.code_exp_ms ≡ from_ℕ expiry
  pub expiry_safe : expiry ≤ max_safe
  pub attempts_safe : t.attempts ≤ max_safe

module _ (js : Platform) (laws : PrintsNumbers js) (t : ParsedOtpToken) (e : IsEncodable t) where
  number_expiry : js.number (js.show t.code_exp_ms) ≡ t.code_exp_ms
  number_expiry = rw e.expires (laws.number_show e.expiry e.expiry_safe)

  decode_parts-encoded :
      decode_parts js
        (t.link_token ∷ t.code_hash ∷ js.show t.code_exp_ms ∷ js.show (from_ℕ t.attempts) ∷ [])
      ≡ some t
  unfolding decode_parts
  decode_parts-encoded = rw (
    e.link,
    digest_test t.code_hash e.hash,
    number_expiry,
    laws.number_show t.attempts e.attempts_safe,
    e.expires,
  )

  split-encoded :
      split (
        t.link_token
        ++ b':'
          ∷ (t.code_hash ++ b':' ∷ (js.show t.code_exp_ms ++ b':' ∷ js.show (from_ℕ t.attempts))))
      ≡ t.link_token ∷ t.code_hash ∷ js.show t.code_exp_ms ∷ js.show (from_ℕ t.attempts) ∷ []
  split-encoded = rw (
    split_step t.link_token _ (Lacks-hex_64 _ e.link),
    split_step t.code_hash _ (Lacks-IsDigest _ e.hash),
    split_step (js.show t.code_exp_ms) _ (rw e.expires (laws.show_plain e.expiry)),
    split_last _ (laws.show_plain t.attempts),
  )

-- A slot that the program can write decodes to the state that was written: the link token is 64
-- hex digits, the hash is that or empty, and the expiry and the counter are safe integers.
pub decode-encode :
    (js : Platform)
    → PrintsNumbers js
    → (t : ParsedOtpToken) → IsEncodable t
    → decode_otp_token js (some (encode_otp_token js t)) ≡ some t
unfolding decode_otp_token encode_otp_token
decode-encode js laws t e = rw (split-encoded js laws t e) (decode_parts-encoded js laws t e)

digit : (c : ℕ) → is_hex c ≡ true → (v : ℕ) × (hex_value c ≡ some v) × (v < 16)
digit c h = elim (Bool-cases (leb b'0' c && leb c b'9')) [
  | inl e ↦ (c - b'0', ground arith, ground arith)
  | inr e ↦ (c - b'a' + 10, ground arith, ground arith)
]

-- The value of a digit determines it among the lower-case digits.
hex_value-injective :
    (c d : ℕ) → is_hex c ≡ true → is_hex d ≡ true → hex_value c ≡ hex_value d → c ≡ d
hex_value-injective c d h k e = ground arith

hex_pair-injective :
    (c d c' d' : ℕ) (r r' : List ℕ)
    → is_hex c ≡ true
    → is_hex d ≡ true
    → is_hex c' ≡ true
    → is_hex d' ≡ true
    → push_byte (hex_value c) (hex_value d) r ≡ push_byte (hex_value c') (hex_value d') r'
    → (c ≡ c') × (d ≡ d') × (r ≡ r')
hex_pair-injective c d c' d' r r' h1 h2 h3 h4 e =
    let (a, ea, la) = digit c h1 in
    let (b, eb, lb) = digit d h2 in
    let (a', ea', la') = digit c' h3 in
    let (b', eb', lb') = digit d' h4 in
    let same_bytes : ◌≡◌ {A = List ℕ} ((16 * a + b) ∷ r) ((16 * a' + b') ∷ r') =
      (rw (ea, eb, ea', eb') at e) in
    let heads : 16 * a + b ≡ 16 * a' + b' = cc in
    (
      hex_value-injective c c' h1 h3 (ea ∙ ap some (omega arith) ∙ sym ea'),
      hex_value-injective d d' h2 h4 (eb ∙ ap some (omega arith) ∙ sym eb'),
      cc,
    )

hex_bytes-injective :
    (a b : Text)
    → all is_hex a ≡ true
    → all is_hex b ≡ true
    → length a % 2 ≡ 0
    → length a ≡ length b
    → hex_bytes a ≡ hex_bytes b
    → a ≡ b
unfolding hex_bytes
hex_bytes-injective [] [] h k p l e = refl
hex_bytes-injective [] (c ∷ b) h k p l e = absurd (omega arith)
hex_bytes-injective (c ∷ a) [] h k p l e = absurd (omega arith)
hex_bytes-injective (c ∷ []) (c' ∷ b) h k p l e = absurd (omega arith)
hex_bytes-injective (c ∷ d ∷ a) (c' ∷ []) h k p l e = absurd (omega arith)
hex_bytes-injective (c ∷ d ∷ a) (c' ∷ d' ∷ b) h k p l e =
    let (p1, p2, p3) =
      hex_pair-injective c d c' d' _ _ (ground arith) (ground arith) (ground arith) (ground arith)
        e in
    let rest =
      hex_bytes-injective a b (ground arith) (ground arith) (omega arith) (omega arith) p3 in
    cc

-- On two SHA-256 digests in lower-case hex the constant-time comparison is equality.
pub safe_equal_hex_iff :
    (a b : Text) → hex_64 a ≡ true → hex_64 b ≡ true → (safe_equal_hex a b ≡ true) ↔ (a ≡ b)
unfolding hex_64 safe_equal_hex
safe_equal_hex_iff a b h k = (
  λ e.
      hex_bytes-injective a b (ground arith) (ground arith) (ground arith) (ground arith)
        (same_sound _ _ (ground arith)),
  λ e. rw e (ground (arith, same_refl (hex_bytes b))),
)
