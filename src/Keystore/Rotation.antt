-- ===== src/Keystore/Rotation.antt =====
-- keystore_manager.ts and keystore.ts: rotations, and what is made public.
use adonis_authkit.Prelude.{
  ℕ, zero, suc, ◌≡◌, refl, Bool, true, false, Option, none, some, List, [], ◌∷◌, map, if◌then◌else◌,
  String, arith, take, drop, keep, ap, ◌∙◌, ap₂, eq_iff,
}
use adonis_authkit.Keystore.{
  Jwk, Keystore, Encryption, Json, CodecOptions, Vault, read_keystore, write_keystore, rotate,
  rotated, Rotated, plan, plan_rotation, RotationPlan, effective_keep, keys_or_none, kid, field,
  is_private_name, is_public, to_public_jwks,
}
use adonis_authkit.Keystore.Codec.{RoundTrips, Decrypts, decode-encode_store}

-- A vault that answers and gives back the blob that it holds.
pub record Holds (T : Type 0) (vault : Vault T) : Type 0 where
  pub content : vault.State → Option T
  pub after_write : T → vault.State → vault.State
  pub read_lem : (s : vault.State) → vault.read s ≡ some (content s)
  pub write_lem : (b : T) (s : vault.State) → vault.write b s ≡ some (after_write b s)
  pub content_write : (b : T) (s : vault.State) → content (after_write b s) ≡ some b

map-drop :
    {A B : Type 0} → (f : A → B) (n : ℕ) (xs : List A) → map f (drop n xs) ≡ drop n (map f xs)
map-drop f zero xs = refl
map-drop f (suc n) [] = refl
map-drop f (suc n) (x ∷ xs) = map-drop f n xs

map-take :
    {A B : Type 0} → (f : A → B) (n : ℕ) (xs : List A) → map f (take n xs) ≡ take n (map f xs)
map-take f zero xs = refl
map-take f (suc n) [] = refl
map-take f (suc n) (x ∷ xs) = ap (λ ys. f x ∷ ys) (map-take f n xs)

-- What an earlier cut leaves is enough for a later one.
take-take : {A : Type 0} → (n : ℕ) (xs : List A) → take n (take (suc n) xs) ≡ take n xs
take-take zero xs = refl
take-take (suc n) [] = refl
take-take (suc n) (x ∷ xs) = ap (λ ys. x ∷ ys) (take-take n xs)

effective_keep-suc : (n : ℕ) → effective_keep (suc n) false ≡ suc n
effective_keep-suc n = ground arith

effective_keep-suc_of : (n : ℕ) (retire : Bool) → (m : ℕ) × (effective_keep n retire ≡ suc m)
effective_keep-suc_of n true = (0, refl)
effective_keep-suc_of zero false = (0, refl)
effective_keep-suc_of (suc n) false = (n, effective_keep-suc n)

-- The keys of a row of rotations in front of those that were there, the latest first.
pub newest_first : List Jwk → Keystore → Keystore
newest_first [] current = current
newest_first (f ∷ fs) current = newest_first fs (f ∷ current)

module _ (json : Json) (vault : Vault json.Printed) (options : CodecOptions json.Printed)
    (h : Holds json.Printed vault) (j : RoundTrips json) (e : Encryption json.Printed)
    (d : Decrypts json.Printed e) (has_enc : options.enc ≡ some e) where
  write-read :
      (store : Keystore) (s : vault.State)
      → (t : vault.State) × (write_keystore json vault options store s ≡ some t)
        × (read_keystore json vault options t ≡ some (some store))
  unfolding write_keystore read_keystore
  write-read store s =
      let (blob, written, back) = decode-encode_store json options e store j d has_enc in
      (
        h.after_write blob s,
        rw (write_keystore, written, h.write_lem) refl,
        rw (read_keystore, h.read_lem, h.content_write, back) refl,
      )

  rotate-read :
      (n : ℕ) (retire : Bool) (fresh : Jwk) (s : vault.State) (found : Option Keystore)
      → read_keystore json vault options s ≡ some found
      → (t : vault.State) × (rotate json vault options n retire fresh s
          ≡ some (
            rotated json vault options n retire fresh (keys_or_none json vault options found),
            t,
          ))
        × (read_keystore json vault options t
            ≡ some (
                some
                  (rotated json vault options n retire fresh
                    (keys_or_none json vault options found)).store))
  unfolding rotate
  rotate-read n retire fresh s found there =
      let (t, written, back) =
        write-read
          (rotated json vault options n retire fresh (keys_or_none json vault options found)).store
          s in
      (t, rw (rotate, there, written) refl, back)

  -- With a vault that keeps the text it is given, an encryption service that decrypts what it
  -- encrypted and a vault that is empty or readable, a rotation succeeds and does what its plan
  -- says: the keys that it drops are those that the plan drops, the keys that stay are the new one,
  -- in front, and those that the plan keeps; and this is what the vault then holds.
  pub rotate-plan :
      (n : ℕ) (retire : Bool) (fresh : Jwk) (s : vault.State) (found : Option Keystore)
      → read_keystore json vault options s ≡ some found
      → (r : Rotated) × (t : vault.State) × (p : RotationPlan) × (rotate json vault options n retire
            fresh s
          ≡ some (r, t))
        × (plan json vault options n retire s ≡ some p)
        × (read_keystore json vault options t ≡ some (some r.store))
        × (r.retired_kids ≡ p.retired_kids)
        × (map kid r.store ≡ r.new_kid ∷ drop 1 p.kept_kids)
  unfolding plan plan_rotation
  rotate-plan n retire fresh s found there =
      let (t, done, back) = rotate-read n retire fresh s found there in
      let current = keys_or_none json vault options found in
      let (m, positive) = effective_keep-suc_of n retire in
      (
        rotated json vault options n retire fresh current,
        t,
        plan_rotation current n retire,
        done,
        rw (plan, there) refl,
        back,
        rw positive (map-drop kid m current),
        rw positive (ap (λ ks. kid fresh ∷ ks) (map-take kid m current)),
      )

  -- Rotations in a row, each with `keep`.
  pub rotations : ℕ → List Jwk → vault.State → Option vault.State
  rotations n [] s = some s
  rotations n (f ∷ fs) s = elim (rotate json vault options n false f s) [
    | none ↦ none
    | some (_, t) ↦ rotations n fs t
  ]

  rotations-onto :
      (n : ℕ) (fs : List Jwk) (s : vault.State) (keys : Keystore)
      → read_keystore json vault options s ≡ some (some (take (suc n) keys))
      → (t : vault.State) × (rotations (suc n) fs s ≡ some t)
        × (read_keystore json vault options t ≡ some (some (take (suc n) (newest_first fs keys))))
  unfolding rotations newest_first
  rotations-onto n [] s keys there = (s, refl, there)
  rotations-onto n (f ∷ fs) s keys there =
      let (t, done, back) = rotate-read (suc n) false f s (some (take (suc n) keys)) there in
      let cut : take (effective_keep (suc n) false) (f ∷ take (suc n) keys)
          ≡ take (suc n) (f ∷ keys) =
        rw (effective_keep-suc n, take-take n keys) refl in
      let (u, rest, end) =
        rotations-onto n fs t (f ∷ keys) (back ∙ ap (λ ks. some (some ks)) cut) in
      (u, rw (rotations, done) rest, end)

  -- With a vault that keeps the text it is given, an encryption service that decrypts what it
  -- encrypted and a vault that is empty or readable, rotations in a row never fail, and leave the
  -- newest keys, as many as are to be kept, the latest first: a key stays until that many newer
  -- ones have come.
  pub rotations-read :
      (n : ℕ) (f : Jwk) (fs : List Jwk) (s : vault.State) (found : Option Keystore)
      → read_keystore json vault options s ≡ some found
      → (t : vault.State) × (rotations (suc n) (f ∷ fs) s ≡ some t)
        × (read_keystore json vault options t
            ≡ some (
                some
                  (take (suc n) (newest_first (f ∷ fs) (keys_or_none json vault options found)))))
  unfolding rotations newest_first
  rotations-read n f fs s found there =
      let current = keys_or_none json vault options found in
      let (t, done, back) = rotate-read (suc n) false f s found there in
      let cut : take (effective_keep (suc n) false) (f ∷ current) ≡ take (suc n) (f ∷ current) =
        rw (effective_keep-suc n) refl in
      let (u, rest, end) =
        rotations-onto n fs t (f ∷ current) (back ∙ ap (λ ks. some (some ks)) cut) in
      (u, rw (rotations, done) rest, end)

field-keep :
    (name : String) (jwk : Jwk)
    → field name (keep is_public jwk) ≡ (if is_private_name name then none else field name jwk)
field-keep name [] = ground arith
field-keep name ((key, value) ∷ jwk) = ground (arith, field-keep name jwk, eq_iff key name)

-- The public keys have no private field, and every other field with the value that it has in the
-- private key, in the order of the keys.
pub to_public_jwks_lem :
    (name : String) (keys : Keystore)
    → map (field name) (to_public_jwks keys)
      ≡ map (λ jwk. if is_private_name name then none else field name jwk) keys
unfolding to_public_jwks
to_public_jwks_lem name [] = refl
to_public_jwks_lem name (jwk ∷ keys) =
    ap₂ (λ f fs. f ∷ fs) (field-keep name jwk) (to_public_jwks_lem name keys)
