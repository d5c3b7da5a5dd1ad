-- ===== src/Realtime/Changes/Access.antt =====
-- checkRLSAccess of internal/realtime/hub.go against GetSelectConditions of internal/rls/enforcer.go.
use sblite.Prelude.{
  Text, ◌≡◌, [], List, Option, none, some, Bool, true, false, str_eq, if◌then◌else◌, ◌&&◌,
}
use sblite.Realtime.Protocol.{Fields, end, field}
use sblite.Realtime.Changes.{Policies, build_auth_context, AuthContext}
use sblite.Rls.{Policy, substitute_auth_functions, substitute_all_functions, AuthContext}

-- Whether there is a database that finds the row, which has some column, with the condition.
abbrev pub finds : Policies → Text → Option Fields → Bool
finds rls c none = false
finds rls c (some end) = false
finds rls c (some (field k v row)) = rls.has_db && rls.finds_row c (field k v row)

-- Whether the row is one that a query with the condition returns; `none` is an error, and the empty
-- text is no condition.
abbrev pub admits : Policies → Option Fields → Option Text → Bool
admits rls row none = false
admits rls row (some c) = if str_eq c [] then true else finds rls c row

-- The policies that were read.
abbrev pub read_policies : Option (List Policy) → List Policy
read_policies none = []
read_policies (some ps) = ps

module _ (rls : Policies) (row claims : Option Fields) where
  abbrev ctx_of_claims : Option AuthContext
  ctx_of_claims = some (build_auth_context claims)

  -- The policy's expression has no storage functions.
  abbrev pub IsWithoutStorage : Policy → Type 0
  IsWithoutStorage p =
      substitute_all_functions rls.patterns ctx_of_claims p.using_expr
      ≡ substitute_auth_functions rls.patterns ctx_of_claims p.using_expr
