-- ===== src/Rls.antt =====
-- Row level security (internal/rls/enforcer.go, and SubstituteAuthFunctions of rewriter.go). What the
-- package regexp does is the record `Patterns`; the policies of a table come from the database and are
-- arguments.
mod Tests
pub mod Substitution
pub mod Conditions
use sblite.Prelude.{
  ℕ, zero, suc, Text, codes, str_eq, has_prefix, length, ◌-◌, Option, none, some, List, [], ◌∷◌,
  ◌++◌, Bool, true, false, not, ◌&&◌, ◌||◌, if◌then◌else◌, replace_from, replace_all,
}
use sblite.Realtime.Protocol.{Any, Fields, text, bool, get_field}

-- A row of the policy table, as far as it is read here.
pub record Policy : Type 0 where
  pub command : Text
  pub using_expr : Text
  pub check_expr : Text

pub record AuthContext : Type 0 where
  pub user_id : Text
  pub email : Text
  pub role : Text
  pub claims : Fields
  pub bypass_rls : Bool

-- `replace_jwt` puts in place of each match of auth.jwt()->>'key' what its argument gives for the
-- key; `substitute_storage_functions` is three replacements by patterns; `sprint` is fmt's %v.
pub record Patterns : Type 0 where
  pub replace_jwt : (Text → Text) → Text → Text
  pub substitute_storage_functions : Text → Text
  pub sprint : Any → Text

unfoldable pub escape_sql_string : Text → Text
unfolding replace_from
escape_sql_string s = replace_all (b'\'' ∷ []) (b'\'' ∷ b'\'' ∷ []) s

-- "'" + escapeSQLString(s) + "'"
unfoldable pub literal_of : Text → Text
unfolding escape_sql_string
literal_of s = b'\'' ∷ (escape_sql_string s ++ b'\'' ∷ [])

module _ (patterns : Patterns) where
  unfoldable pub to_string : Any → Text
  to_string (text s) = s
  to_string (bool true) = codes "true"
  to_string (bool false) = codes "false"
  to_string v = patterns.sprint v

  -- What stands for auth.jwt()->>'key'.
  unfoldable pub jwt_value : AuthContext → Text → Text
  unfolding literal_of to_string get_field
  jwt_value ctx key = elim (get_field key ctx.claims) [
    | none ↦ codes "NULL"
    | some v ↦ literal_of (to_string v)
  ]

  unfoldable pub substitute_auth_functions : Option AuthContext → Text → Text
  unfolding literal_of replace_from jwt_value
  substitute_auth_functions none expr = expr
  substitute_auth_functions (some ctx) expr =
      let with_uid = replace_all (codes "auth.uid()") (literal_of ctx.user_id) expr in
      let with_role = replace_all (codes "auth.role()") (literal_of ctx.role) with_uid in
      let with_email = replace_all (codes "auth.email()") (literal_of ctx.email) with_role in
      patterns.replace_jwt (jwt_value ctx) with_email

  unfoldable pub substitute_all_functions : Option AuthContext → Text → Text
  unfolding substitute_auth_functions
  substitute_all_functions ctx expr =
      patterns.substitute_storage_functions (substitute_auth_functions ctx expr)

-- len(list) == 0
abbrev pub is_empty_list {ℓ} : {A : Type ℓ} → List A → Bool
is_empty_list [] = true
is_empty_list (_ ∷ _) = false

-- The loop over the policies: `expr_of` picks USING or CHECK.
unfoldable pub conditions : (Policy → Text) → (Text → Text) → Text → List Policy → List Text
conditions expr_of substitute command [] = []
conditions expr_of substitute command (p ∷ ps) =
    let rest = conditions expr_of substitute command ps in
    let condition = b'(' ∷ (substitute (expr_of p) ++ b')' ∷ []) in
    if (str_eq p.command command || str_eq p.command (codes "ALL")) && not (str_eq (expr_of p) [])
    then condition ∷ rest
    else rest

-- strings.Join(conditions, " AND ")
unfoldable pub join_and : List Text → Text
join_and [] = []
join_and (s ∷ []) = s
join_and (s ∷ t ∷ ss) = s ++ (codes " AND " ++ join_and (t ∷ ss))

abbrev pub bypasses : Option AuthContext → Bool
bypasses none = false
bypasses (some ctx) = ctx.bypass_rls

-- `none` is the error of `GetPoliciesForTable`, whose answer is `policies`.
module _ (patterns : Patterns) (ctx : Option AuthContext) (policies : Option (List Policy)) where
  unfoldable pub get_conditions : (Policy → Text) → Text → Option Text
  unfolding join_and conditions substitute_all_functions
  get_conditions expr_of command = if bypasses ctx then some [] else elim policies [
    | none ↦ none
    | some ps ↦
        some (join_and (conditions expr_of (substitute_all_functions patterns ctx) command ps))
  ]

  unfoldable pub get_select_conditions : Option Text
  unfolding get_conditions
  get_select_conditions = get_conditions (λ p. p.using_expr) (codes "SELECT")

  unfoldable pub get_insert_conditions : Option Text
  unfolding get_conditions
  get_insert_conditions = get_conditions (λ p. p.check_expr) (codes "INSERT")

  unfoldable pub get_update_conditions : Option Text
  unfolding get_conditions
  get_update_conditions = get_conditions (λ p. p.using_expr) (codes "UPDATE")

  unfoldable pub get_delete_conditions : Option Text
  unfolding get_conditions
  get_delete_conditions = get_conditions (λ p. p.using_expr) (codes "DELETE")
