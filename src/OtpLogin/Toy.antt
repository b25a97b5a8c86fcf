-- ===== src/OtpLogin/Toy.antt =====
-- A platform to run the models on: numbers are written as strokes, and a digest ends in a digit of
-- the length.
use adonis_authkit.Prelude.{
  ℕ, zero, suc, ◌+◌, ◌-◌, ◌%◌, ◌<◌, ◌≡◌, refl, true, [], ◌∷◌, ◌++◌, Text, codes, Lacks, length, ap,
  arith,
}
use adonis_authkit.Prelude.Integers.{pos, JsNumber, integer}
use adonis_authkit.OtpLogin.{Platform, PrintsNumbers, from_ℕ, hex_64, is_hex}

unfoldable pub strokes : ℕ → Text
strokes zero = []
strokes (suc n) = b'1' ∷ strokes n

abbrev pub shown : JsNumber → Text
shown (integer (pos n)) = b'1' ∷ strokes n
shown _ = []

length-strokes : (n : ℕ) → length (strokes n) ≡ n
unfolding strokes
length-strokes zero = refl
length-strokes (suc n) = ap suc (length-strokes n)

strokes-Lacks : (n : ℕ) → Lacks b':' (strokes n)
unfolding strokes
strokes-Lacks zero = tt
strokes-Lacks (suc n) = ((omega arith), strokes-Lacks n)

abbrev pub toy_digest : Text → Text
toy_digest s =
    codes "00000000000000000000000000000000000000000000000000000000000000a"
    ++ (b'0' + length s % 10) ∷ []

abbrev pub toy : Platform
toy = record { number = λ s. integer (pos (length s - 1)); show = shown; sha256 = toy_digest }

pub toy-PrintsNumbers : PrintsNumbers toy
unfolding strokes
toy-PrintsNumbers = record {
  number_show = λ n _. ap from_ℕ (omega (arith, length-strokes n));
  show_plain = λ n. ((omega arith), strokes-Lacks n);
}

ends_hex : (d : ℕ) → d < 10 → is_hex (b'0' + d) ≡ true
ends_hex d h = ground arith

pub toy-digest : (s : Text) → hex_64 (toy.sha256 s) ≡ true
unfolding hex_64
toy-digest s = rw (ends_hex (length s % 10) (omega arith)) refl
