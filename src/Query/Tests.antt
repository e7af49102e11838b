-- ===== src/Query/Tests.antt =====
-- Queries at concrete texts.
use quick_mpc.Prelude.{
  ℕ, ◌<◌, ◌≡◌, refl, inl, inr, zero, suc, ◌==◌, if◌then◌else◌, Lacks, some, List, [], ◌∷◌, ◌++◌,
  arith, Text, codes,
}
use quick_mpc.Query.{
  N1qlValue, to_value_set_string, replace_char, escape_injection, n1ql_where_param, insert_clause,
  where_clause, returning_clause, bulkinsert, bulk_values, delete_order, delete_clause,
  limit_clause, to_string, digits, CasState, get_cas,
}
use quick_mpc.Query.Literal.{IsReader, where_clause_lem, where_clause-backslash}
use quick_mpc.Query.Cas.{IsBehind, HasLater, get_cas_lem}

-- The text that would end the condition and begin another.
abbrev hostile : Text
hostile = codes "1\" or \"1\" = \"1"

escaped_hostile :
    where_clause (codes "id") hostile ≡ codes "WHERE x.id = \"1\"\" or \"\"1\"\" = \"\"1\" "
unfolding where_clause escape_injection replace_char
escaped_hostile = refl

-- The query that deletes twelve entries.
delete_twelve :
    delete_order (codes "share") 12
    ≡ codes "DELETE FROM `share` x LIMIT 12 RETURNING x.*, meta().id "
unfolding delete_order delete_clause limit_clause to_string digits returning_clause
delete_twelve = refl

abbrev two_entries : List N1qlValue
two_entries =
    record { value = codes "1"; key = codes "a" }
    ∷ record { value = codes "2"; key = codes "b" }
    ∷ []

bulk_two :
    bulkinsert (codes "share") two_entries
    ≡ codes "INSERT INTO `share` (KEY, VALUE) VALUES (\"a\",1),(\"b\",2)RETURNING x.*, meta().id "
unfolding bulkinsert bulk_values insert_clause to_value_set_string returning_clause
bulk_two = refl

-- A reader: in the text, behind a quote, and behind a backslash.
unfoldable in_text : ℕ → Text → Text × Text
in_text mode [] = ([], [])
in_text zero (c ∷ text) =
    let quote = in_text 1 text in
    let escape = in_text 2 text in
    let (read, rest) = in_text 0 text in
    if c == b'"' then quote else if c == b'\\' then escape else (c ∷ read, rest)
in_text (suc zero) (c ∷ text) =
    let (read, rest) = in_text 0 text in if c == b'"' then (b'"' ∷ read, rest) else ([], c ∷ text)
in_text (suc (suc mode)) (c ∷ text) = let (read, rest) = in_text 0 text in (c ∷ read, rest)

in_text-IsReader : IsReader (in_text 0)
unfolding in_text
in_text-IsReader = record {
  plain = λ x text other_quote other. rw (in_text, other_quote, other) refl;
  doubled = λ text. refl;
  ended = λ c text other. rw (in_text, other) refl;
  backslash = λ text. refl;
}

where_clause_lem_example :
    (before : Text) × (literal : Text) × (where_clause (codes "id") hostile ++ codes "LIMIT 1"
      ≡ before ++ literal)
    × (before ≡ codes "WHERE x." ++ escape_injection (codes "id") n1ql_where_param ++ codes " = \"")
    × (in_text 0 literal ≡ (replace_char b'\'' (codes "''") hostile, codes " LIMIT 1"))
unfolding Lacks
where_clause_lem_example =
    where_clause_lem (in_text 0) (codes "id") hostile (codes "LIMIT 1") in_text-IsReader (
      refl,
      (
        refl,
        (
          refl,
          (
            refl,
            (refl, (refl, (refl, (refl, (refl, (refl, (refl, (refl, (refl, (refl, tt)))))))))),
          ),
        ),
      ),
    )

where_clause-backslash_example :
    (before : Text) × (literal : Text) × (where_clause (codes "id") (codes "1" ++ b'\\' ∷ [])
        ++ codes "LIMIT 1"
      ≡ before ++ literal)
    × (before ≡ codes "WHERE x." ++ escape_injection (codes "id") n1ql_where_param ++ codes " = \"")
    × (in_text 0 literal ≡ (codes "1\" LIMIT 1", []))
unfolding in_text Lacks replace_char
where_clause-backslash_example =
    where_clause-backslash (in_text 0) (codes "id") (codes "1") (codes "LIMIT 1") in_text-IsReader
      (refl, tt)

-- The clock stands still for one reading, in which the counter wraps around.
abbrev last_number : CasState
last_number = record { precas = 131071; counter = 0 }

get_cas_lem_example :
    (cas : ℕ) × (next : CasState) × (get_cas last_number (70000 ∷ 200000 ∷ []) ≡ some (cas, next))
    × (131071 < cas)
    × (next.precas ≡ cas)
    × IsBehind 0 next
unfolding HasLater
get_cas_lem_example =
    get_cas_lem 0 last_number (70000 ∷ 200000 ∷ []) refl (λ e. ground (arith, e)) (omega arith)
      (inr (inl (omega arith)))
