-- ===== src/Prelude/Words.antt =====
-- `split`, `trim` and `join` of JavaScript strings, and the laws of them that the code relies on.
use Prim.Native.Nat.{ℕ}
use mathlib.Core.Path.{◌≡◌, refl, ap, ◌∙◌}
use mathlib.Core.Bool.{Bool, true, false, not, ◌&&◌, ◌||◌}
use mathlib.Core.List.{List, [], ◌∷◌, ◌++◌, map}
use native.Mathlib.Omega.{arith}
use adonis_authkit.Prelude.Tests.{◌==◌, leb, if◌then◌else◌, &&-eq-true, Bool-cases}
use mathlib.Core.Logic.{inl, inr}
use adonis_authkit.Prelude.Lists.{all, some_of}
use adonis_authkit.Prelude.Texts.{Text, same, same_refl}

abbrev pub onto : ℕ → List Text → List Text
onto d [] = (d ∷ []) ∷ []
onto d (w ∷ ws) = (d ∷ w) ∷ ws

-- `s.split(c)`, for one code unit.
unfoldable pub split : ℕ → Text → List Text
split c [] = [] ∷ []
split c (d ∷ s) = let rest = split c s in if d == c then [] ∷ rest else onto d rest

-- `ws.join(c)`
unfoldable pub join : ℕ → List Text → Text
join c [] = []
join c (w ∷ []) = w
join c (w ∷ v ∷ ws) = w ++ c ∷ join c (v ∷ ws)

-- White space and line ends.
abbrev pub is_space : ℕ → Bool
is_space d =
    leb 9 d && leb d 13
    || d == 32
    || d == 160
    || d == 5760
    || leb 8192 d && leb d 8202
    || d == 8232
    || d == 8233
    || d == 8239
    || d == 8287
    || d == 12288
    || d == 65279

unfoldable pub drop_spaces : Text → Text
drop_spaces [] = []
drop_spaces (d ∷ s) = let rest = drop_spaces s in if is_space d then rest else d ∷ s

unfoldable pub reversed_onto : Text → Text → Text
reversed_onto t [] = t
reversed_onto t (d ∷ s) = reversed_onto (d ∷ t) s

-- `s.trim()`
unfoldable pub trim : Text → Text
unfolding drop_spaces reversed_onto
trim s = reversed_onto [] (drop_spaces (reversed_onto [] (drop_spaces s)))

abbrev pub non_empty : Text → Bool
non_empty [] = false
non_empty (d ∷ s) = true

-- `ws.includes(t)`
abbrev pub has : Text → List Text → Bool
has t ws = some_of (same t) ws

-- The items that pass and are not there yet, in order behind `out`.
unfoldable pub push_new : (Text → Bool) → List Text → List Text → List Text
push_new passes out [] = out
push_new passes out (t ∷ ts) =
    push_new passes (if passes t && not (has t out) then out ++ t ∷ [] else out) ts

-- No code unit of the text is `c`.
abbrev pub lacks : ℕ → Text → Bool
lacks c s = all (λ d. not (d == c)) s

pub all_append :
    {A : Type 0}
    → (p : A → Bool) (xs : List A) (x : A) → all p xs ≡ true
    → p x ≡ true
    → all p (xs ++ x ∷ []) ≡ true
all_append p [] x h k = ground arith
all_append p (y ∷ xs) x h k = ground (arith, all_append p xs x)

pub all_mono :
    {A : Type 0}
    → (p q : A → Bool) (xs : List A) → ((x : A) → p x ≡ true → q x ≡ true)
    → all p xs ≡ true
    → all q xs ≡ true
all_mono p q [] f h = refl
all_mono p q (x ∷ xs) f h =
    let (head, tail) = &&-eq-true (p x) (all p xs) h in rw (f x head, all_mono p q xs f tail) refl

pub push_new-passes :
    (passes : Text → Bool) (ts out : List Text)
    → all passes out ≡ true
    → all passes (push_new passes out ts) ≡ true
unfolding push_new
push_new-passes passes [] out h = h
push_new-passes passes (t ∷ ts) out h =
    push_new-passes passes ts _ (ground (arith, all_append passes out t))

pub push_new-all :
    (q passes : Text → Bool) (ts out : List Text)
    → all q out ≡ true
    → all q ts ≡ true
    → all q (push_new passes out ts) ≡ true
unfolding push_new
push_new-all q passes [] out h k = h
push_new-all q passes (t ∷ ts) out h k =
    push_new-all q passes ts _ (ground (arith, all_append q out t)) (ground arith)

lacks-onto :
    (c d : ℕ) (ws : List Text)
    → (d == c) ≡ false
    → all (lacks c) ws ≡ true
    → all (lacks c) (onto d ws) ≡ true
lacks-onto c d [] e h = ground arith
lacks-onto c d (w ∷ ws) e h = ground arith

pub lacks-split : (c : ℕ) (s : Text) → all (lacks c) (split c s) ≡ true
unfolding split
lacks-split c [] = refl
lacks-split c (d ∷ s) = ground (arith, lacks-split c s, lacks-onto c d (split c s))

lacks-drop_spaces : (c : ℕ) (s : Text) → lacks c s ≡ true → lacks c (drop_spaces s) ≡ true
unfolding drop_spaces
lacks-drop_spaces c [] h = refl
lacks-drop_spaces c (d ∷ s) h = elim (Bool-cases (is_space d)) [
  | inl e ↦ rw e (lacks-drop_spaces c s (&&-eq-true (not (d == c)) (lacks c s) h).1)
  | inr e ↦ rw e h
]

lacks-reversed_onto :
    (c : ℕ) (t s : Text) → lacks c t ≡ true → lacks c s ≡ true → lacks c (reversed_onto t s) ≡ true
unfolding reversed_onto
lacks-reversed_onto c t [] h k = h
lacks-reversed_onto c t (d ∷ s) h k = lacks-reversed_onto c (d ∷ t) s (ground arith) (ground arith)

lacks-trim : (c : ℕ) (s : Text) → lacks c s ≡ true → lacks c (trim s) ≡ true
unfolding trim
lacks-trim c s h =
    lacks-reversed_onto c [] _ refl
      (lacks-drop_spaces c _ (lacks-reversed_onto c [] _ refl (lacks-drop_spaces c s h)))

pub lacks-map-trim :
    (c : ℕ) (ws : List Text) → all (lacks c) ws ≡ true → all (lacks c) (map trim ws) ≡ true
lacks-map-trim c [] h = refl
lacks-map-trim c (w ∷ ws) h =
    let (head, tail) = &&-eq-true (lacks c w) (all (lacks c) ws) h in
    rw (lacks-trim c w head, lacks-map-trim c ws tail) refl

split-lacks : (c : ℕ) (w : Text) → lacks c w ≡ true → split c w ≡ w ∷ []
unfolding split
split-lacks c [] h = refl
split-lacks c (d ∷ w) h =
    let (head, tail) = &&-eq-true (not (d == c)) (lacks c w) h in
    rw (split-lacks c w tail) (ground arith)

split-append : (c : ℕ) (w s : Text) → lacks c w ≡ true → split c (w ++ c ∷ s) ≡ w ∷ split c s
unfolding split
split-append c [] s h = ground arith
split-append c (d ∷ w) s h =
    let (head, tail) = &&-eq-true (not (d == c)) (lacks c w) h in
    rw (split-append c w s tail) (ground arith)

-- Splitting what was joined gives the words back, where none holds the separator.
pub split-join :
    (c : ℕ) (w : Text) (ws : List Text)
    → all (lacks c) (w ∷ ws) ≡ true
    → split c (join c (w ∷ ws)) ≡ w ∷ ws
unfolding join
split-join c w [] h = split-lacks c w (ground arith)
split-join c w (v ∷ ws) h =
    let (head, tail) = &&-eq-true (lacks c w) (all (lacks c) (v ∷ ws)) h in
    split-append c w (join c (v ∷ ws)) head ∙ ap (λ vs. w ∷ vs) (split-join c v ws tail)

pub has_self : (ws : List Text) → all (λ t. has t ws) ws ≡ true
has_self [] = refl
has_self (w ∷ ws) =
    rw
      (
        same_refl w,
        all_mono (λ t. has t ws) (λ t. has t (w ∷ ws)) ws (λ t h. ground arith) (has_self ws),
      )
      refl
