-- ===== src/Accounts/Sealing.antt =====
-- A token that is stored can be read back.
use Prim.Native.String.{◌++◌}
use Prim.Native.Char.{char}
use text.Mathlib.TextLemmas.{cons-append, nil-append, append_assoc}
use clutch.Prelude.{◌≡◌, refl, ap, ◌∙◌, String, true, false, some, [], ◌∷◌}
use clutch.Prelude.Text.{is_empty}
use clutch.Prelude.Chars.{
  starts_with, starts_with-append, split, push, is_free, split-append, split_of_free,
}
use clutch.Accounts.Tokens.{
  Environment, Cipher, Sealed, Seals, IsEncoded, token_prefix, sealed_text, as_answer,
  resolve_token_protection_secret, protect_sensitive_token, reveal_parts, reveal_sensitive_token,
}

-- The text that stands for a sealed token.
stored_text : Sealed → String
stored_text parts = token_prefix ++ sealed_text parts

stored_text_starts : (parts : Sealed) → starts_with (token_prefix ++ ":") (stored_text parts) ≡ true
unfolding stored_text
stored_text_starts parts =
    rw
      (← append_assoc token_prefix ":"
        (parts.iv ++ (":" ++ (parts.auth_tag ++ (":" ++ parts.ciphertext)))))
      (starts_with-append (token_prefix ++ ":")
        (parts.iv ++ (":" ++ (parts.auth_tag ++ (":" ++ parts.ciphertext)))))

stored_text_inked : (parts : Sealed) → is_empty (stored_text parts) ≡ false
unfolding stored_text
stored_text_inked parts = rw (cons-append (char 101 tt) "nc:v1" (sealed_text parts)) refl

split_colon : (s t : String) → is_free 58 s ≡ true → split 58 (s ++ (":" ++ t)) ≡ s ∷ split 58 t
split_colon s t h =
    rw (cons-append (char 58 tt) "" t, nil-append t) (split-append (char 58 tt) s t h)

split-stored_text :
    (parts : Sealed)
    → IsEncoded parts.iv
    → IsEncoded parts.auth_tag
    → IsEncoded parts.ciphertext
    → split 58 (stored_text parts)
      ≡ "enc" ∷ "v1" ∷ parts.iv ∷ parts.auth_tag ∷ parts.ciphertext ∷ []
unfolding stored_text split push
split-stored_text parts (i, _) (t, _) (c, _) =
    let last = split_of_free 58 parts.ciphertext c in
    let tag = split_colon parts.auth_tag parts.ciphertext t in
    let iv = split_colon parts.iv (parts.auth_tag ++ (":" ++ parts.ciphertext)) i in
    let tail = parts.iv ++ (":" ++ (parts.auth_tag ++ (":" ++ parts.ciphertext))) in
    let after : split 58 (parts.iv ++ (":" ++ (parts.auth_tag ++ (":" ++ parts.ciphertext))))
        ≡ parts.iv ∷ parts.auth_tag ∷ parts.ciphertext ∷ [] =
      iv ∙ ap (λ l. parts.iv ∷ l) (tag ∙ ap (λ l. parts.auth_tag ∷ l) last) in
    let shown : token_prefix ++ (":" ++ tail) ≡ "enc" ++ (":" ++ ("v1" ++ (":" ++ tail))) =
      append_assoc "enc" ":v1" (":" ++ tail)
      ∙ ap (λ s. "enc" ++ s) (append_assoc ":" "v1" (":" ++ tail)) in
    rw shown (
      split_colon "enc" ("v1" ++ (":" ++ tail)) refl
      ∙ ap (λ l. "enc" ∷ l) (split_colon "v1" tail refl ∙ ap (λ l. "v1" ∷ l) after))

-- A provider's token that is protected is read back as it was, and protecting what is stored changes
-- nothing: with a secret at hand, for a token that is not empty and does not begin with the prefix of
-- the protected ones.
pub reveal-protect_sensitive_token :
    (env : Environment) (cipher : Cipher) (iv iv' token secret : String)
    → resolve_token_protection_secret env ≡ some secret
    → is_empty token ≡ false
    → starts_with (token_prefix ++ ":") token ≡ false
    → Seals cipher secret iv token
    → (stored : String) × (protect_sensitive_token env cipher iv (some token) ≡ some (some stored))
      × (reveal_sensitive_token env cipher (some stored) ≡ some (some token))
      × (protect_sensitive_token env cipher iv' (some stored) ≡ some (some stored))
unfolding protect_sensitive_token reveal_sensitive_token stored_text reveal_parts
reveal-protect_sensitive_token env cipher iv iv' token secret known inked fresh seals =
    let parts = cipher.encrypt secret iv token in
    let starts = stored_text_starts parts in
    let read = split-stored_text parts seals.iv_encoded seals.tag_encoded seals.text_encoded in
    let there : is_empty (stored_text parts) ≡ false = stored_text_inked parts in
    (
      stored_text parts,
      rw (inked, fresh, known) refl,
      rw (there, starts, read, seals.iv_encoded.1, seals.tag_encoded.1, seals.text_encoded.1, known)
          (ap as_answer seals.opens),
      rw (there, starts) refl,
    )
