-- ===== src/Dashboard/Guard/Tokens.antt =====
-- The administrator's token in dashboard/security.rs.
use pgvisor.Prelude.{
  ◌≡◌, ◌↔◌, ◌≢◌, refl, sym, ap, subst, ◌∙◌, inl, inr, true, not, Option, none, some, List, [], ◌∷◌,
  drop, ◌==◌, same_iff, is_empty, if◌then◌else◌, if_elim, Bool-cases, arith,
}
use pgvisor.Prelude.Texts.{Text, text, chars_key, trim, starts_with}
use pgvisor.Dashboard.Guard.{
  ok, err, unauthorized, without_bearer, verify_admin_token, HeaderMap, token_or,
  from_authorization, from_custom, pair_token, split_pairs, find_token, from_cookie, before, after,
  extract_token_from_headers,
}

-- A token that was found is not empty.
abbrev pub IsToken : Option Text → Type 0
IsToken none = Unit
IsToken (some token) = token ≢ []

filled : (t : Text) → not (is_empty t) ≡ true → t ≢ []
filled [] e h = absurd (ground (arith, e))
filled (c ∷ t) e h = absurd (ground (arith, ap is_empty h))

token_or-IsToken : (t : Text) (rest : Option Text) → IsToken rest → IsToken (token_or t rest)
unfolding token_or
token_or-IsToken t rest r = if_elim IsToken (not (is_empty t)) (λ e. filled t e) (λ e. r)

from_authorization-IsToken :
    (value rest : Option Text) → IsToken rest → IsToken (from_authorization value rest)
unfolding from_authorization
from_authorization-IsToken none rest r = r
from_authorization-IsToken (some value) rest r =
    if_elim IsToken (starts_with (trim value) (text "Bearer "))
      (λ e. token_or-IsToken (trim (drop 7 (trim value))) rest r)
      (λ e. token_or-IsToken (trim value) rest r)

from_custom-IsToken : (value rest : Option Text) → IsToken rest → IsToken (from_custom value rest)
unfolding from_custom
from_custom-IsToken none rest r = r
from_custom-IsToken (some value) rest r = token_or-IsToken (trim value) rest r

pair_token-IsToken :
    (key : Text) (value rest : Option Text) → IsToken rest → IsToken (pair_token key value rest)
unfolding pair_token
pair_token-IsToken key none rest r = r
pair_token-IsToken key (some value) rest r =
    if_elim IsToken (trim key == text "pgvisor_token") (λ e. token_or-IsToken (trim value) rest r)
      (λ e. r)

find_token-IsToken : (pairs : List Text) → IsToken (find_token pairs)
unfolding find_token
find_token-IsToken [] = tt
find_token-IsToken (pair ∷ pairs) =
    pair_token-IsToken (before 61 pair) (after 61 pair) (find_token pairs)
      (find_token-IsToken pairs)

from_cookie-IsToken : (value : Option Text) → IsToken (from_cookie value)
unfolding from_cookie
from_cookie-IsToken none = tt
from_cookie-IsToken (some value) =
    find_token-IsToken ((split_pairs value).0 ∷ (split_pairs value).1)

-- A token that is extracted from the headers, whichever it comes from, is not empty.
pub extract_token_from_headers-IsToken : (h : HeaderMap) → IsToken (extract_token_from_headers h)
unfolding extract_token_from_headers
extract_token_from_headers-IsToken h =
    from_authorization-IsToken h.authorization (from_custom h.x_admin_token (from_cookie h.cookie))
      (from_custom-IsToken h.x_admin_token (from_cookie h.cookie) (from_cookie-IsToken h.cookie))

verify_admin_token-trim :
    (header expected : Text)
    → verify_admin_token (some header) expected ≡ ok tt
    → trim (without_bearer header) ≡ trim expected
unfolding verify_admin_token
verify_admin_token-trim header expected e =
    elim (Bool-cases (trim (without_bearer header) == trim expected)) [
      | inl same ↦ (same_iff (trim (without_bearer header)) (trim expected)).0 same
      | inr other ↦
          absurd (ground (arith, sym (ap (λ b. if b then ok tt else err unauthorized) other) ∙ e))
    ]

-- A request is let in exactly if it has the header, and its value, without the word Bearer and the
-- spaces at both ends, is the expected token without the spaces at its ends.
pub verify_admin_token_iff :
    (header : Option Text) (expected : Text)
    → (verify_admin_token header expected ≡ ok tt)
      ↔ ((value : Text) × (header ≡ some value) × (trim (without_bearer value) ≡ trim expected))
unfolding verify_admin_token
verify_admin_token_iff none expected =
    (λ e. absurd (ground (arith, e)), λ w. absurd (ground (arith, w.1)))
verify_admin_token_iff (some value) expected =
    (λ e. (value, refl, verify_admin_token-trim value expected e), λ w. accepted value w.0 w.1 w.2)
  where
    accepted :
        (v w : Text)
        → some v ≡ some w
        → trim (without_bearer w) ≡ trim expected
        → verify_admin_token (some v) expected ≡ ok tt
    accepted v w e t =
        rw
          ((same_iff (trim (without_bearer v)) (trim expected)).1 (
            subst (λ x. trim (without_bearer x) ≡ trim expected)
              (sym (ap (λ o. elim o [ none ↦ w | some a ↦ a ]) e)) t))
          refl
