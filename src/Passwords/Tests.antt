-- ===== src/Passwords/Tests.antt =====
-- The theorems on passwords at concrete peppers.
use adonis_authkit.Prelude.{
  ◌≡◌, refl, inl, true, false, none, some, [], ◌∷◌, ◌++◌, Text, codes, same,
}
use mathlib.Core.List.Memᴰ
use adonis_authkit.Passwords.{
  Pepper, several, Hooks, matching, resolve_peppers, apply_current_pepper, verify,
}
use adonis_authkit.Passwords.Rotation.{Hasher, verify-rotation}

abbrev hmac : Text → Text → Text
hmac key s = key ++ s

abbrev hooks : Hooks
hooks = record { native_verify = λ h p. some (same h p); needs_rehash = λ h. some false }

abbrev hasher : Hasher hooks
hasher = record { make = λ s. s; checks = λ x y. refl }

abbrev peppers : Pepper
peppers = several (codes "new" ∷ codes "old" ∷ [])

run : Unit {0}
unfolding same matching resolve_peppers apply_current_pepper verify
run = tt

current_pepper :
    verify hmac (peppers, none) hooks (codes "newsecret") (codes "secret")
    ≡ record { ok = true; rehash = false }
unfolding run
current_pepper = refl

wrong_password :
    verify hmac (peppers, none) hooks (codes "newsecret") (codes "other")
    ≡ record { ok = false; rehash = false }
unfolding run
wrong_password = refl

-- What is stored under the current pepper.
current_pepper_rotation :
    verify hmac (peppers, none) hooks (codes "newsecret") (codes "secret")
    ≡ record { ok = true; rehash = false }
unfolding run
current_pepper_rotation =
    verify-rotation hmac hooks hasher none peppers (codes "new") (codes "secret")
      (inl (Memᴰ.head refl))

verify-rotation_example :
    verify hmac (peppers, none) hooks (codes "oldsecret") (codes "secret")
    ≡ record { ok = true; rehash = true }
unfolding run
verify-rotation_example =
    verify-rotation hmac hooks hasher none peppers (codes "old") (codes "secret")
      (inl (Memᴰ.tail (Memᴰ.head refl)))
