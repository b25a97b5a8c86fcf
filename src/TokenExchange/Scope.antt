-- ===== src/TokenExchange/Scope.antt =====
-- token_exchange.ts: the scope of the issued token.
use adonis_authkit.Prelude.{
  ◌≡◌, refl, Bool, true, false, List, [], ◌∷◌, ap, sym, ◌∙◌, if◌then◌else◌, Text, all, arith,
  Bool-cases, inl, inr,
}
use adonis_authkit.Prelude.Words.{
  split, join, non_empty, has, push_new-passes, push_new-all, lacks, lacks-split, lacks-map-trim,
  split-join, has_self, all_mono,
}
use adonis_authkit.TokenExchange.{
  Params, Client, ok, client_scopes, intersect_scopes, scope_of, scope_words, given_text,
}

lacks-scope_words : (s : Text) → all (lacks 32) (scope_words s) ≡ true
lacks-scope_words s = lacks-map-trim 32 (split 32 s) (lacks-split 32 s)

-- The words of a joined list that lacks blanks are in it again.
all-split-join :
    (q : Text → Bool) (ws : List Text)
    → non_empty (join 32 ws) ≡ true
    → all (lacks 32) ws ≡ true
    → all q ws ≡ true
    → all q (split 32 (join 32 ws)) ≡ true
unfolding join
all-split-join q [] some_word plain h = ground arith
all-split-join q (w ∷ ws) some_word plain h = rw (split-join 32 w ws plain) h

intersect_scopes-within :
    (requested : Text) (permitted : List Text)
    → non_empty (intersect_scopes requested permitted) ≡ true
    → all (λ t. has t permitted) (split 32 (intersect_scopes requested permitted)) ≡ true
unfolding intersect_scopes
intersect_scopes-within requested permitted some_word =
    all-split-join (λ t. has t permitted) _ some_word
      (push_new-all (lacks 32) _ (scope_words requested) [] refl (lacks-scope_words requested))
      (all_mono _ (λ t. has t permitted) _ (λ t h. ground arith)
        (push_new-passes (λ t. if non_empty t then has t permitted else false)
          (scope_words requested) [] refl))

client_scopes-split :
    (client : Client) (s : Text) (ss : List Text)
    → client_scopes client ≡ s ∷ ss
    → split 32 (join 32 (s ∷ ss)) ≡ s ∷ ss
unfolding client_scopes
client_scopes-split client s ss e = split-join 32 s ss (
    ap (all (lacks 32)) (sym e)
    ∙ push_new-all (lacks 32) non_empty (scope_words (given_text client.scope)) [] refl
        (lacks-scope_words (given_text client.scope)))

pub scope_of-within :
    (params : Params) (client : Client) (scope : Text) (s : Text) (ss : List Text)
    → client_scopes client ≡ s ∷ ss
    → scope_of params client ≡ ok scope
    → all (λ t. has t (client_scopes client)) (split 32 scope) ≡ true
unfolding scope_of
scope_of-within params client scope s ss declared e =
    elim (Bool-cases (non_empty (given_text params.scope))) [
      | inl asked ↦
          elim (Bool-cases (non_empty (intersect_scopes (given_text params.scope) (s ∷ ss)))) [
            | inl some_word ↦
                let same : intersect_scopes (given_text params.scope) (s ∷ ss) ≡ scope =
                  cc (rw (scope_of, declared, asked, some_word) at e) in
                rw (declared, ← same)
                  (intersect_scopes-within (given_text params.scope) (s ∷ ss) some_word)
            | inr no_word ↦ absurd (cc (rw (scope_of, declared, asked, no_word) at e))
          ]
      | inr all_of ↦
          let same : join 32 (s ∷ ss) ≡ scope = cc (rw (scope_of, declared, all_of) at e) in
          rw (declared, ← same, client_scopes-split client s ss declared) (has_self (s ∷ ss))
    ]
