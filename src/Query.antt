-- ===== src/Query.antt =====
-- src/ComputationContainer/Client/AnyToDb/N1QL.cpp and N1QL.hpp: the texts of the queries and the
-- numbers of new entries. A text is the list of its bytes.
pub mod Literal
pub mod Bulk
pub mod Cas
mod Tests
use quick_mpc.Prelude.{
  ℕ, zero, suc, ◌+◌, ◌-◌, ◌*◌, ◌/◌, ◌%◌, Bool, ◌&&◌, not, Option, none, some, List, [], ◌∷◌, ◌++◌,
  ltb, ◌==◌, if◌then◌else◌, length, ◌^◌, Text, codes,
}

pub record N1qlValue : Type 0 where
  pub value : Text
  pub key : Text

unfoldable pub to_value_set_string : N1qlValue → Text
to_value_set_string v = codes "(\"" ++ v.key ++ codes "\"," ++ v.value ++ codes ")"

-- `std::to_string` of a number, whose digits `fuel` bounds.
pub digits : ℕ → ℕ → Text
digits zero n = []
digits (suc fuel) n =
    let rest = digits fuel (n / 10) in (if ltb n 10 then [] else rest) ++ (n % 10 + b'0') ∷ []

-- 32 bits have at most ten digits.
pub to_string : ℕ → Text
to_string n = digits 10 n

-- `regex_replace` with the regular expression of one character.
unfoldable pub replace_char : ℕ → Text → Text → Text
replace_char c by [] = []
replace_char c by (x ∷ target) =
    let rest = replace_char c by target in if x == c then by ++ rest else x ∷ rest

pub data ParamType : Type 0 where
  n1ql_select_param n1ql_where_param : ParamType

unfoldable pub escape_injection : Text → ParamType → Text
escape_injection target n1ql_select_param = replace_char b'`' (codes "`") target
escape_injection target n1ql_where_param =
    replace_char b'"' (codes "\"\"") (replace_char b'\'' (codes "''") target)

-- `N1QLClause`.
unfoldable pub insert_clause : Text → Text → Text
insert_clause bucket value =
    codes "INSERT INTO `" ++ bucket ++ codes "` (KEY, VALUE) VALUES " ++ value

pub update_clause : Text → Text → Text → Text
update_clause bucket path expr =
    codes "UPDATE `" ++ bucket ++ codes "` x SET x." ++ path ++ codes " = " ++ expr ++ codes " "

pub select_clause : Text → Text
select_clause bucket = codes "SELECT x.*, meta().id FROM `" ++ bucket ++ codes "` x "

pub delete_clause : Text → Text
delete_clause bucket = codes "DELETE FROM `" ++ bucket ++ codes "` x "

pub where_clause : Text → Text → Text
where_clause key data_text =
    codes "WHERE x."
    ++ escape_injection key n1ql_where_param
    ++ codes " = \""
    ++ escape_injection data_text n1ql_where_param
    ++ codes "\" "

pub returning_clause : Text
returning_clause = codes "RETURNING x.*, meta().id "

pub limit_clause : ℕ → Text
limit_clause lim = codes "LIMIT " ++ to_string lim ++ codes " "

-- `N1QL`: the queries.
unfoldable pub insert : Text → N1qlValue → Text
insert bucket data_value = insert_clause bucket (to_value_set_string data_value) ++ returning_clause

-- The loop of `bulkinsert` from the index `i` on, over the values that are left of `size`.
unfoldable pub bulk_values : ℕ → ℕ → List N1qlValue → Text → Text
bulk_values size i [] values = values
bulk_values size i (v ∷ datas) values =
    bulk_values size (i + 1) datas
      (values ++ to_value_set_string v ++ (if i == size - 1 then [] else codes ","))

unfoldable pub bulkinsert : Text → List N1qlValue → Text
bulkinsert bucket datas =
    insert_clause bucket (bulk_values (length datas) 0 datas []) ++ returning_clause

pub update : Text → Text × Text → Text × Text → Text
update bucket cond path_expr =
    update_clause bucket path_expr.0 path_expr.1 ++ where_clause cond.0 cond.1 ++ returning_clause

pub select_id : Text → Text → Text → Text
select_id bucket id_name id = select_clause bucket ++ where_clause id_name id

pub delete_id : Text → Text → Text → Text
delete_id bucket id_name id = delete_clause bucket ++ where_clause id_name id ++ returning_clause

pub delete_order : Text → ℕ → Text
delete_order bucket amount = delete_clause bucket ++ limit_clause amount ++ returning_clause

-- The static variables of `getCas` and `getLogicalCounter`.
pub record CasState : Type 0 where
  pub precas : ℕ
  pub counter : ℕ

-- `createCas`: the counter, of 16 bits, takes the place of the low 16 bits of the timestamp.
pub create_cas : ℕ → ℕ → ℕ
create_cas timestamp logical_counter = timestamp / 2 ^ 16 * 2 ^ 16 + logical_counter

-- `getCas`, on the timestamps, of 64 bits, that the clock gives from now on; `none` where the loop
-- is not left with the last of them.
pub get_cas : CasState → List ℕ → Option (ℕ × CasState)
get_cas s [] = none
get_cas s (timestamp ∷ timestamps) =
    let cas = create_cas timestamp s.counter in
    let counter = (s.counter + 1) % 2 ^ 16 in
    let rest = get_cas (record s { counter = counter }) timestamps in
    if not (s.precas == 0) && ltb cas s.precas
    then rest
    else some (cas, record { precas = cas; counter = counter })
