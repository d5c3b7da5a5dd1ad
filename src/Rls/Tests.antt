-- ===== src/Rls/Tests.antt =====
-- Small inputs for row level security, and instances of the theorems.
use sblite.Prelude.{
  All, ◌≢◌, replace_all, codes, if◌then◌else◌, ◌≡◌, refl, arith, [], ◌∷◌, ◌++◌, some, false,
  has_prefix, str_eq, replace_from, ◌||◌, ◌&&◌, not,
}
use sblite.Rls.{
  Patterns, AuthContext, Policy, get_select_conditions, get_conditions, substitute_all_functions,
  literal_of, substitute_auth_functions, escape_sql_string, conditions, join_and,
}
use sblite.Pgtranslate.Token.{Position}
use sblite.Realtime.Protocol.{end}
use sblite.Rls.Conditions.{get_conditions-further}
use sblite.Rls.Substitution.{
  next_token-substitute_auth_functions, replace_from-none, ReadsAs, HasNoCall,
}

-- Patterns that occur nowhere.
abbrev no_patterns : Patterns
no_patterns = record {
  replace_jwt = λ value expr. expr;
  substitute_storage_functions = λ expr. expr;
  sprint = λ v. [];
}

abbrev ann : AuthContext
ann = record {
  user_id = codes "o'n";
  email = [];
  role = codes "authenticated";
  claims = end;
  bypass_rls = false;
}

abbrev owns : Policy
owns = record { command = codes "SELECT"; using_expr = codes "o=auth.uid()"; check_expr = [] }

abbrev shown : Policy
shown = record { command = codes "ALL"; using_expr = codes "v"; check_expr = [] }

owner_condition :
    get_select_conditions no_patterns (some ann) (some (owns ∷ shown ∷ []))
    ≡ some (codes "(o='o''n') AND (v)")
unfolding get_select_conditions get_conditions substitute_all_functions substitute_auth_functions
    literal_of escape_sql_string replace_from has_prefix conditions join_and str_eq
owner_condition = refl

-- A role that spells a later function: the email is put inside the role's literal, which ends there.
abbrev nested : AuthContext
nested = record ann { role = codes "auth.email()"; email = codes " OR 1 OR " }

nested_condition :
    substitute_auth_functions no_patterns (some nested) (codes "r=auth.role()")
    ≡ codes "r='' OR 1 OR ''"
unfolding substitute_auth_functions literal_of escape_sql_string replace_from has_prefix
nested_condition = refl

abbrev start : Position
start = record { offset = 0; line = 1; column = 1 }

-- A pattern that knows the key `role` only.
abbrev role_claim : Patterns
role_claim = record no_patterns {
  replace_jwt = λ value expr. replace_all (codes "auth.jwt()->>'role'") (value (codes "role")) expr;
}

ann_has_no_calls :
    All (λ s. HasNoCall s × All (λ c. c ≢ 0) s) (ann.user_id ∷ ann.role ∷ ann.email ∷ [])
ann_has_no_calls = ground arith

next_token-substitute_auth_functions_example :
    ReadsAs role_claim ann 2 start (codes "o=") (codes " AND p") (codes "auth.uid()") ann.user_id
    × ReadsAs role_claim ann 2 start (codes "o=") (codes " AND p") (codes "auth.role()") ann.role
    × ReadsAs role_claim ann 2 start (codes "o=") (codes " AND p") (codes "auth.email()") ann.email
next_token-substitute_auth_functions_example =
    next_token-substitute_auth_functions role_claim ann 2 start (codes "o=") (codes " AND p")
      (λ value s h.
        replace_from-none (codes "auth.jwt") (codes ")->>'role'") (value (codes "role")) s h)
      (ground arith) (ground arith) (omega arith) ann_has_no_calls

owns_condition :
    get_conditions no_patterns (some ann) (some (owns ∷ [])) (λ p. p.using_expr) (codes "SELECT")
    ≡ some (codes "(o='o''n')")
unfolding get_conditions substitute_all_functions substitute_auth_functions literal_of
    escape_sql_string replace_from has_prefix conditions join_and str_eq
owns_condition = refl

get_conditions-further_example :
    get_conditions no_patterns
      (some ann)
      (some (owns ∷ shown ∷ []))
      (λ p. p.using_expr)
      (codes "SELECT")
    ≡ some (
        if (str_eq shown.command (codes "SELECT") || str_eq shown.command (codes "ALL"))
          && not (str_eq shown.using_expr [])
        then (if str_eq (codes "(o='o''n')") [] then [] else codes "(o='o''n')" ++ codes " AND ")
          ++ (b'(' ∷ (substitute_all_functions no_patterns (some ann) (codes "v") ++ b')' ∷ []))
        else codes "(o='o''n')")
get_conditions-further_example =
    get_conditions-further no_patterns (some ann) (owns ∷ []) shown (λ p. p.using_expr)
      (codes "SELECT") (codes "(o='o''n')") refl owns_condition
