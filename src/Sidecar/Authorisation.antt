-- ===== src/Sidecar/Authorisation.antt =====
-- crates/pgvisor-core/src/auth.rs, and the middleware of crates/pgvisor-sidecar/src/control/auth.rs that
-- guards the control server. The digest of the secret, in hexadecimal, is a parameter.
use pgvisor.Prelude.{
  ◌≡◌, Bool, true, false, not, ◌&&◌, Option, none, some, ◌++◌, eqb, ltb, length, take, drop,
  is_empty, ◌==◌, same_iff, if◌then◌else◌, if_elim, arith,
}
use pgvisor.Prelude.Texts.{Text, text, chars_key, trim, to_ascii_uppercase}

abbrev pub bearer_prefix : Text
bearer_prefix = text "Bearer "

-- From the variable's value.
unfoldable pub cluster_secret : Option Text → Option Text
cluster_secret none = none
cluster_secret (some s) = if is_empty (trim s) then none else some (trim s)

unfoldable pub make_auth_header_value : (Text → Text) → Text → Text
make_auth_header_value derive secret = bearer_prefix ++ derive secret

-- The text of a header is ASCII, so that a character is a byte.
unfoldable pub validate_trimmed : (Text → Text) → Text → Text → Bool
validate_trimmed derive secret header =
    if ltb 7 (length header)
      && (to_ascii_uppercase (take 7 header) == to_ascii_uppercase bearer_prefix)
    then if not (eqb (length (trim (drop 7 header))) (length (derive secret)))
      then false
      else trim (drop 7 header) == derive secret
    else false

unfoldable pub validate_bearer_token : (Text → Text) → Text → Text → Bool
validate_bearer_token derive secret header = validate_trimmed derive secret (trim header)

-- Whether the request goes on to its handler; the header is missing, or no text, or a text.
unfoldable pub cluster_auth_middleware : (Text → Text) → Option Text → Option Text → Bool
cluster_auth_middleware derive none header = true
cluster_auth_middleware derive (some secret) none = false
cluster_auth_middleware derive (some secret) (some header) =
    validate_bearer_token derive secret header

validate_trimmed-token :
    (derive : Text → Text) (secret header : Text)
    → validate_trimmed derive secret header ≡ true
    → trim (drop 7 header) ≡ derive secret
unfolding validate_trimmed
validate_trimmed-token derive secret header =
    if_elim (λ (b : Bool). b ≡ true → trim (drop 7 header) ≡ derive secret)
      (ltb 7 (length header)
        && (to_ascii_uppercase (take 7 header) == to_ascii_uppercase bearer_prefix))
      (λ e.
        if_elim (λ (b : Bool). b ≡ true → trim (drop 7 header) ≡ derive secret)
          (not (eqb (length (trim (drop 7 header))) (length (derive secret))))
          (λ d h. absurd (ground (arith, h)))
          (λ d h. (same_iff (trim (drop 7 header)) (derive secret)).0 h))
      (λ e h. absurd (ground (arith, h)))

-- A request that reaches its handler, where a secret is configured, has a header whose text behind the
-- first seven characters is the token of that secret.
pub cluster_auth_middleware-token :
    (derive : Text → Text) (secret header : Text)
    → cluster_auth_middleware derive (some secret) (some header) ≡ true
    → trim (drop 7 (trim header)) ≡ derive secret
unfolding cluster_auth_middleware validate_bearer_token
cluster_auth_middleware-token derive secret header h =
    validate_trimmed-token derive secret (trim header) h
