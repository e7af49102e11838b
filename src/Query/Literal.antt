-- ===== src/Query/Literal.antt =====
-- What a reader of the query makes of the text in a `WHERE` clause.
use mathlib.Core.List.{append_assoc, append-nil}
use quick_mpc.Prelude.{
  Text, codes, Lacks, ℕ, ◌≡◌, refl, ap, ◌∙◌, false, [], ◌∷◌, ◌++◌, ◌==◌, arith, inl, inr,
  Bool-cases, ==_iff,
}
use quick_mpc.Query.{replace_char, escape_injection, n1ql_where_param, where_clause}

-- What the database documents of a text in double quotes, read behind the first quote: the result is
-- the text and what follows. Two quotes are one of the text, a quote before another character ends
-- it, a backslash before a quote makes it one of the text, and any other character, but a backslash,
-- stands for itself.
pub record IsReader (read_literal : Text → Text × Text) : Type 0 where
  pub plain :
      (x : ℕ) (text : Text)
      → (x == b'"') ≡ false
      → (x == b'\\') ≡ false
      → read_literal (x ∷ text) ≡ (x ∷ (read_literal text).0, (read_literal text).1)
  pub doubled :
      (text : Text)
      → read_literal (b'"' ∷ b'"' ∷ text) ≡ (b'"' ∷ (read_literal text).0, (read_literal text).1)
  pub ended :
      (c : ℕ) (text : Text) → (c == b'"') ≡ false → read_literal (b'"' ∷ c ∷ text) ≡ ([], c ∷ text)
  pub backslash :
      (text : Text)
      → read_literal (b'\\' ∷ b'"' ∷ text) ≡ (b'"' ∷ (read_literal text).0, (read_literal text).1)

module _ (read_literal : Text → Text × Text) (r : IsReader read_literal) where
  -- Quotes doubled are read as they were before, whatever follows.
  read-replace :
      (text more : Text)
      → Lacks b'\\' text
      → read_literal (replace_char b'"' (codes "\"\"") text ++ more)
        ≡ (text ++ (read_literal more).0, (read_literal more).1)
  unfolding replace_char Lacks
  read-replace [] more lacks = refl
  read-replace (x ∷ text) more (other, lacks) = elim (Bool-cases (x == b'"')) [
    | inl quote ↦
        let e : b'"' ≡ x = ground (arith, ==_iff x b'"') in
        rw (replace_char, quote)
          (r.doubled (replace_char b'"' (codes "\"\"") text ++ more)
            ∙ rw (read-replace text more lacks, e) refl)
    | inr plain ↦
        rw (replace_char, plain)
          (r.plain x (replace_char b'"' (codes "\"\"") text ++ more) plain other
            ∙ rw (read-replace text more lacks) refl)
  ]

-- Single quotes are replaced by no backslash.
Lacks-replace_char :
    (text : Text) → Lacks b'\\' text → Lacks b'\\' (replace_char b'\'' (codes "''") text)
unfolding replace_char Lacks
Lacks-replace_char [] lacks = tt
Lacks-replace_char (x ∷ text) (other, lacks) = elim (Bool-cases (x == b'\'')) [
  | inl quote ↦ rw (replace_char, quote) (refl, (refl, Lacks-replace_char text lacks))
  | inr plain ↦ rw (replace_char, plain) (other, Lacks-replace_char text lacks)
]

-- For a reader that reads texts as the database documents it, in a query with a `WHERE` clause,
-- whatever follows the clause, the text between the quotes ends where the clause ends, if the text
-- given has no backslash: read as a text in double quotes it is the text given, except that each
-- single quote in it is doubled.
pub where_clause_lem :
    (read_literal : Text → Text × Text) (key data_text more : Text)
    → IsReader read_literal
    → Lacks b'\\' data_text
    → (before : Text) × (literal : Text) × (where_clause key data_text ++ more ≡ before ++ literal)
      × (before ≡ codes "WHERE x." ++ escape_injection key n1ql_where_param ++ codes " = \"")
      × (read_literal literal ≡ (replace_char b'\'' (codes "''") data_text, b' ' ∷ more))
unfolding where_clause escape_injection
where_clause_lem read_literal key data_text more r lacks =
    let escaped = replace_char b'\'' (codes "''") data_text in
    (
      codes "WHERE x." ++ escape_injection key n1ql_where_param ++ codes " = \"",
      escape_injection data_text n1ql_where_param ++ b'"' ∷ b' ' ∷ more,
      simp append_assoc,
      refl,
      read-replace read_literal r escaped (b'"' ∷ b' ' ∷ more) (Lacks-replace_char data_text lacks)
          ∙ rw (r.ended b' ' more refl, append-nil escaped) refl,
    )

replace_char-append :
    (c : ℕ) (by xs ys : Text)
    → replace_char c by (xs ++ ys) ≡ replace_char c by xs ++ replace_char c by ys
unfolding replace_char
replace_char-append c by [] ys = refl
replace_char-append c by (x ∷ xs) ys = elim (Bool-cases (x == c)) [
  | inl e ↦ rw (replace_char, e, replace_char-append c by xs ys) (simp append_assoc)
  | inr n ↦ rw (replace_char, n, replace_char-append c by xs ys) refl
]

escape_injection-backslash :
    (data_text : Text)
    → escape_injection (data_text ++ b'\\' ∷ []) n1ql_where_param
      ≡ escape_injection data_text n1ql_where_param ++ b'\\' ∷ []
unfolding escape_injection replace_char
escape_injection-backslash data_text =
    ap (replace_char b'"' (codes "\"\""))
      (replace_char-append b'\'' (codes "''") data_text (b'\\' ∷ []))
    ∙ replace_char-append b'"' (codes "\"\"") (replace_char b'\'' (codes "''") data_text)
        (b'\\' ∷ [])

-- For a reader that reads texts as the database documents it, in a query with a `WHERE` clause, a
-- text that has no backslash but at its end does not end where the clause ends: the quote of the
-- clause is one of the text, and what follows the clause is read as the text too.
pub where_clause-backslash :
    (read_literal : Text → Text × Text) (key data_text more : Text)
    → IsReader read_literal
    → Lacks b'\\' data_text
    → (before : Text) × (literal : Text) × (where_clause key (data_text ++ b'\\' ∷ []) ++ more
        ≡ before ++ literal)
      × (before ≡ codes "WHERE x." ++ escape_injection key n1ql_where_param ++ codes " = \"")
      × (read_literal literal ≡ (
        replace_char b'\'' (codes "''") data_text ++ b'"' ∷ b' ' ∷ (read_literal more).0,
        (read_literal more).1,
      ))
unfolding where_clause escape_injection
where_clause-backslash read_literal key data_text more r lacks =
    let escaped = replace_char b'\'' (codes "''") data_text in
    let literal = escape_injection data_text n1ql_where_param in
    let tail : Text = b'"' ∷ b' ' ∷ more in
    (
      codes "WHERE x." ++ escape_injection key n1ql_where_param ++ codes " = \"",
      escape_injection (data_text ++ b'\\' ∷ []) n1ql_where_param ++ b'"' ∷ b' ' ∷ more,
      simp append_assoc,
      refl,
      ap (λ t. read_literal (t ++ tail)) (escape_injection-backslash data_text)
          ∙ ap read_literal (append_assoc literal (b'\\' ∷ []) tail)
          ∙ read-replace read_literal r escaped (b'\\' ∷ tail) (Lacks-replace_char data_text lacks)
          ∙ rw (r.backslash (b' ' ∷ more), r.plain b' ' more refl refl) refl,
    )

-- A text without single quotes is the one that is read.
replace_char-same : (c : ℕ) (by text : Text) → Lacks c text → replace_char c by text ≡ text
unfolding replace_char Lacks
replace_char-same c by [] lacks = refl
replace_char-same c by (x ∷ text) (other, lacks) =
    rw (replace_char, other) (ap (λ t. x ∷ t) (replace_char-same c by text lacks))
