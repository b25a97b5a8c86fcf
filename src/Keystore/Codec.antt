-- ===== src/Keystore/Codec.antt =====
-- keystore_codec.ts: what is written is read back.
use adonis_authkit.Prelude.{◌≡◌, refl, some, Bool-cases, inl, inr}
use adonis_authkit.Keystore.{
  Keystore, Encryption, plain, aes, Envelope, Json, CodecOptions, encode, decode,
}

-- JSON text parses to what it was printed from.
pub record RoundTrips (json : Json) : Type 0 where
  pub store : (k : Keystore) → json.parse_store (json.print_store k) ≡ some k
  pub envelope : (e : Envelope json.Printed) → json.parse_envelope (json.print_envelope e) ≡ some e

pub record Decrypts (T : Type 0) (e : Encryption T) : Type 0 where
  pub back : (s : T) → e.decrypt (e.encrypt s) ≡ some s

-- With an encryption service that decrypts what it encrypted, and JSON that parses to what was
-- printed, every keystore can be written, encrypted or not, and what was written is read back as
-- the same keystore.
pub decode-encode_store :
    (json : Json) (options : CodecOptions json.Printed) (e : Encryption json.Printed)
    (store : Keystore)
    → RoundTrips json
    → Decrypts json.Printed e
    → options.enc ≡ some e
    → (blob : json.Printed) × (encode json options store ≡ some blob)
      × (decode json options blob ≡ some store)
unfolding encode decode
decode-encode_store json options e store j d has_enc = elim (Bool-cases options.encrypt) [
  | inl on ↦ (
    json.print_envelope (record { enc = aes; content = e.encrypt (json.print_store store) }),
    rw (encode, on, has_enc) refl,
    rw (decode, j.envelope, has_enc, d.back, j.store) refl,
  )
  | inr off ↦ (
    json.print_envelope (record { enc = plain; content = json.print_store store }),
    rw (encode, off) refl,
    rw (decode, j.envelope, j.store) refl,
  )
]
