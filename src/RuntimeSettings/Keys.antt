-- ===== src/RuntimeSettings/Keys.antt =====
-- runtime_settings.ts, cacheKey: keys and scopes.
use adonis_authkit.Prelude.{
  ℕ, ◌≡◌, refl, sym, ap, ◌∙◌, Bool, true, false, ◌&&◌, Option, none, some, List, [], ◌∷◌, Text,
  same, same_refl, same_sound, Lacks, arith, Bool-cases, inl, inr,
}
use adonis_authkit.RuntimeSettings.{SettingRecord, scope, scoped_key, cache_key, in_org, in_scope}

head_or {ℓ} : {A : Type ℓ} → A → List A → A
head_or a [] = a
head_or a (x ∷ xs) = x

tail_of {ℓ} : {A : Type ℓ} → List A → List A
tail_of [] = []
tail_of (x ∷ xs) = xs

longer :
    {c d : ℕ} {s t : Text} {a b : Option Text}
    → (s ≡ t) × (a ≡ b)
    → c ≡ d
    → ((c ∷ s) ≡ (d ∷ t)) × (a ≡ b)
longer {c} {d} {s} {t} h e = (rw (e, h.0) refl, h.1)

-- A key without a zero and a scope can be read off the key of the cache.
scoped_key-injective :
    (key other : Text) (a b : Option Text)
    → Lacks 0 key
    → Lacks 0 other
    → scoped_key key a ≡ scoped_key other b
    → (key ≡ other) × (a ≡ b)
unfolding head_or tail_of
scoped_key-injective [] [] none none h k e = (refl, refl)
scoped_key-injective [] [] none (some o) h k e = absurd (cc e)
scoped_key-injective [] [] (some o) none h k e = absurd (cc e)
scoped_key-injective [] [] (some o) (some p) h k e = (refl, ap (λ t. some (tail_of t)) e)
scoped_key-injective [] (d ∷ t) none none h k e = absurd (cc e)
scoped_key-injective [] (d ∷ t) none (some p) h k e = absurd (cc e)
scoped_key-injective [] (d ∷ t) (some o) none h k e = absurd (k.0 (sym (ap (head_or 1) e)))
scoped_key-injective [] (d ∷ t) (some o) (some p) h k e = absurd (k.0 (sym (ap (head_or 1) e)))
scoped_key-injective (c ∷ s) [] none none h k e = absurd (cc e)
scoped_key-injective (c ∷ s) [] (some o) none h k e = absurd (cc e)
scoped_key-injective (c ∷ s) [] none (some p) h k e = absurd (h.0 (ap (head_or 1) e))
scoped_key-injective (c ∷ s) [] (some o) (some p) h k e = absurd (h.0 (ap (head_or 1) e))
scoped_key-injective (c ∷ s) (d ∷ t) none none h k e =
    longer (scoped_key-injective s t none none h.1 k.1 (ap tail_of e)) (ap (head_or 1) e)
scoped_key-injective (c ∷ s) (d ∷ t) none (some p) h k e =
    longer (scoped_key-injective s t none (some p) h.1 k.1 (ap tail_of e)) (ap (head_or 1) e)
scoped_key-injective (c ∷ s) (d ∷ t) (some o) none h k e =
    longer (scoped_key-injective s t (some o) none h.1 k.1 (ap tail_of e)) (ap (head_or 1) e)
scoped_key-injective (c ∷ s) (d ∷ t) (some o) (some p) h k e =
    longer (scoped_key-injective s t (some o) (some p) h.1 k.1 (ap tail_of e)) (ap (head_or 1) e)

pub cache_key-injective :
    (key other : Text) (org own : Option Text)
    → Lacks 0 key
    → Lacks 0 other
    → cache_key key org ≡ cache_key other own
    → (key ≡ other) × (scope org ≡ scope own)
unfolding cache_key
cache_key-injective key other org own h k e =
    scoped_key-injective key other (scope org) (scope own) h k e

in_org_sound : (a b : Option Text) → in_org a b ≡ true → a ≡ b
in_org_sound none none e = refl
in_org_sound none (some p) e = absurd (cc e)
in_org_sound (some o) none e = absurd (cc e)
in_org_sound (some o) (some p) e = ap some (same_sound o p e)

pub cache_key-scope :
    (key other : Text) (org own : Option Text)
    → key ≡ other
    → scope org ≡ scope own
    → cache_key key org ≡ cache_key other own
unfolding cache_key
cache_key-scope key other org own e f = rw (e, f) refl

parts : {a b : Bool} → (a && b) ≡ true → (a ≡ true) × (b ≡ true)
parts {a} {b} h = ground arith

-- Rows of one scope are not rows of another.
pub scopes_apart :
    (key other : Text) (org own : Option Text)
    → same (cache_key key org) (cache_key other own) ≡ false
    → (row : SettingRecord) → in_scope key org row ≡ true
    → in_scope other own row ≡ false
scopes_apart key other org own apart row e = elim (Bool-cases (in_scope other own row)) [
  | inr out ↦ out
  | inl both ↦ absurd (
      let (k, o) = parts e in
      let (k', o') = parts both in
      let keys : key ≡ other = sym (same_sound row.key key k) ∙ same_sound row.key other k' in
      let orgs : scope org ≡ scope own =
        in_org_sound (scope org) row.organization_id o
        ∙ sym (in_org_sound (scope own) row.organization_id o') in
      cc (
        sym apart
        ∙ ap (same (cache_key key org)) (sym (cache_key-scope key other org own keys orgs))
        ∙ same_refl (cache_key key org)))
]

scope-scope : (org : Option Text) → scope (scope org) ≡ scope org
scope-scope none = refl
scope-scope (some []) = refl
scope-scope (some (c ∷ s)) = refl

-- A row that is written for a scope is not seen in another.
pub record_outside :
    (key other : Text) (org own : Option Text)
    → same (cache_key key org) (cache_key other own) ≡ false
    → (same key other && in_org (scope own) org) ≡ false
record_outside key other org own apart =
    elim (Bool-cases (same key other && in_org (scope own) org)) [
      | inr out ↦ out
      | inl both ↦ absurd (
          let (k, o) = parts {a = same key other} {b = in_org (scope own) org} both in
          let orgs : scope org ≡ scope own =
            ap scope (sym (in_org_sound (scope own) org o)) ∙ scope-scope own in
          cc (
            sym apart
            ∙ ap (same (cache_key key org))
                (sym (cache_key-scope key other org own (same_sound key other k) orgs))
            ∙ same_refl (cache_key key org)))
    ]
