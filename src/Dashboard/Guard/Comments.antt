-- ===== src/Dashboard/Guard/Comments.antt =====
-- `strip_comments` of dashboard/security.rs on SQL with and without comments.
use pgvisor.Prelude.{
  neither, ℕ, ◌≡◌, refl, ap, ◌∙◌, Bool, true, false, ◌||◌, ◌&&◌, [], ◌∷◌, ◌++◌, eqb, if◌then◌else◌,
  arith,
}
use pgvisor.Prelude.Texts.{Text}
use pgvisor.Dashboard.Guard.{plain, single_comment, block_comment, strip_from, strip_comments}

-- A text that opens no comment, also not by its last character and the next one.
unfoldable pub opens_not : Text → Bool
opens_not [] = true
opens_not (c ∷ []) = if eqb c 45 || eqb c 47 then false else true
opens_not (c ∷ d ∷ s) =
    let rest = opens_not (d ∷ s) in
    if (eqb c 45 && eqb d 45) || (eqb c 47 && eqb d 42) then false else rest

plain_step :
    (c d : ℕ) (s : Text)
    → eqb c 45 && eqb d 45 ≡ false
    → eqb c 47 && eqb d 42 ≡ false
    → strip_from plain (c ∷ d ∷ s) ≡ c ∷ strip_from plain (d ∷ s)
unfolding strip_from
plain_step c d s h k =
    ap
      (λ b. elim b [
        | true ↦ strip_from single_comment s
        | false ↦ elim (eqb c 47 && eqb d 42) [
          | true ↦ strip_from block_comment s
          | false ↦ c ∷ strip_from plain (d ∷ s)
        ]
      ])
      h
    ∙ ap (λ b. elim b [ true ↦ strip_from block_comment s | false ↦ c ∷ strip_from plain (d ∷ s) ])
        k

block_step :
    (c d : ℕ) (s : Text)
    → eqb c 42 && eqb d 47 ≡ false
    → strip_from block_comment (c ∷ d ∷ s) ≡ strip_from block_comment (d ∷ s)
unfolding strip_from
block_step c d s h =
    ap (λ b. elim b [ true ↦ 32 ∷ strip_from plain s | false ↦ strip_from block_comment (d ∷ s) ]) h

line_step :
    (c : ℕ) (s : Text)
    → eqb c 10 ≡ false
    → strip_from single_comment (c ∷ s) ≡ strip_from single_comment s
unfolding strip_from
line_step c s h =
    ap (λ b. elim b [ true ↦ 32 ∷ strip_from plain s | false ↦ strip_from single_comment s ]) h

stays : (a b : Bool) → (if a then false else b) ≡ true → (a ≡ false) × (b ≡ true)
stays true b e = absurd (ground (arith, e))
stays false b e = (refl, e)

and_false : (a b : Bool) → a ≡ false → a && b ≡ false
and_false a b e = ap (λ x. x && b) e

one_left : (c : ℕ) → strip_from plain (c ∷ []) ≡ c ∷ []
unfolding strip_from
one_left c = refl

closed : (rest : Text) → strip_from block_comment (42 ∷ 47 ∷ rest) ≡ 32 ∷ strip_from plain rest
unfolding strip_from
closed rest = refl

line_ended : (rest : Text) → strip_from single_comment (10 ∷ rest) ≡ 32 ∷ strip_from plain rest
unfolding strip_from
line_ended rest = refl

opened_block : (s : Text) → strip_from plain (47 ∷ 42 ∷ s) ≡ strip_from block_comment s
unfolding strip_from
opened_block s = refl

opened_line : (s : Text) → strip_from plain (45 ∷ 45 ∷ s) ≡ strip_from single_comment s
unfolding strip_from
opened_line s = refl

strip_from-plain :
    (s rest : Text) → opens_not s ≡ true → strip_from plain (s ++ rest) ≡ s ++ strip_from plain rest
unfolding opens_not strip_from
strip_from-plain [] rest e = refl
strip_from-plain (c ∷ []) [] e = one_left c
strip_from-plain (c ∷ []) (d ∷ rest) e =
    let parts = neither (eqb c 45) (eqb c 47) (stays (eqb c 45 || eqb c 47) true e).0 in
    plain_step c d rest (and_false (eqb c 45) (eqb d 45) parts.0)
      (and_false (eqb c 47) (eqb d 42) parts.1)
strip_from-plain (c ∷ d ∷ s) rest e =
    let after = stays ((eqb c 45 && eqb d 45) || (eqb c 47 && eqb d 42)) (opens_not (d ∷ s)) e in
    let parts = neither (eqb c 45 && eqb d 45) (eqb c 47 && eqb d 42) after.0 in
    plain_step c d (s ++ rest) parts.0 parts.1 ∙ ap (◌∷◌ c) (strip_from-plain (d ∷ s) rest after.1)

-- The body of a block comment: it does not close it before its end.
unfoldable pub closes_not : Text → Bool
closes_not [] = true
closes_not (c ∷ []) = true
closes_not (c ∷ d ∷ s) =
    let rest = closes_not (d ∷ s) in if eqb c 42 && eqb d 47 then false else rest

strip_from-block :
    (body rest : Text)
    → closes_not body ≡ true
    → strip_from block_comment (body ++ 42 ∷ 47 ∷ rest) ≡ 32 ∷ strip_from plain rest
unfolding closes_not
strip_from-block [] rest e = closed rest
strip_from-block (c ∷ []) rest e = block_step c 42 (47 ∷ rest) (ground arith) ∙ closed rest
strip_from-block (c ∷ d ∷ s) rest e =
    let after = stays (eqb c 42 && eqb d 47) (closes_not (d ∷ s)) e in
    block_step c d (s ++ 42 ∷ 47 ∷ rest) after.0 ∙ strip_from-block (d ∷ s) rest after.1

-- The body of a comment to the end of the line.
unfoldable pub is_line : Text → Bool
is_line [] = true
is_line (c ∷ s) = let rest = is_line s in if eqb c 10 then false else rest

strip_from-line :
    (body rest : Text)
    → is_line body ≡ true
    → strip_from single_comment (body ++ 10 ∷ rest) ≡ 32 ∷ strip_from plain rest
unfolding is_line
strip_from-line [] rest e = line_ended rest
strip_from-line (c ∷ s) rest e =
    let after = stays (eqb c 10) (is_line s) e in
    line_step c (s ++ 10 ∷ rest) after.0 ∙ strip_from-line s rest after.1

-- A block comment (`/*` is 47 42) is replaced by one space, what stands before it is kept, and what comes after it is
-- stripped in the same way.
pub strip_comments-block :
    (sql body rest : Text)
    → opens_not sql ≡ true
    → closes_not body ≡ true
    → strip_comments (sql ++ 47 ∷ 42 ∷ (body ++ 42 ∷ 47 ∷ rest)) ≡ sql ++ 32 ∷ strip_comments rest
unfolding strip_comments
strip_comments-block sql body rest o e =
    strip_from-plain sql (47 ∷ 42 ∷ (body ++ 42 ∷ 47 ∷ rest)) o
    ∙ ap (◌++◌ sql) (opened_block (body ++ 42 ∷ 47 ∷ rest) ∙ strip_from-block body rest e)

-- A comment to the end of the line (`--` is 45 45) is replaced by one space with its line break, what stands before
-- it is kept, and what comes after it is stripped in the same way.
pub strip_comments-line :
    (sql body rest : Text)
    → opens_not sql ≡ true
    → is_line body ≡ true
    → strip_comments (sql ++ 45 ∷ 45 ∷ (body ++ 10 ∷ rest)) ≡ sql ++ 32 ∷ strip_comments rest
unfolding strip_comments
strip_comments-line sql body rest o e =
    strip_from-plain sql (45 ∷ 45 ∷ (body ++ 10 ∷ rest)) o
    ∙ ap (◌++◌ sql) (opened_line (body ++ 10 ∷ rest) ∙ strip_from-line body rest e)
