-- ===== src/Rls/Conditions.antt =====
-- The WHERE and CHECK conditions of a table's policies: `Get*Conditions` of internal/rls/enforcer.go.
use sblite.Prelude.{
  Text, codes, ◌≡◌, refl, arith, [], ◌∷◌, ◌++◌, List, some, false, All, append_assoc, str_eq,
  All-append, Option, ◌||◌, ◌&&◌, not, Bool-cases, inl, inr, if◌then◌else◌, Bool, true, ap, sym,
  ◌∙◌, Bool,
}
use sblite.Rls.{
  Policy, conditions, join_and, get_conditions, is_empty_list, Patterns, AuthContext, bypasses,
  substitute_all_functions,
}

-- Both of two conditions, where the empty text is no condition.
abbrev pub both : Text → Text → Text
both [] b = b
both (c ∷ a) [] = c ∷ a
both (c ∷ a) (d ∷ b) = (c ∷ a) ++ (codes " AND " ++ (d ∷ b))

conditions-append :
    (expr_of : Policy → Text) (substitute : Text → Text) (command : Text) (ps qs : List Policy)
    → conditions expr_of substitute command (ps ++ qs)
      ≡ conditions expr_of substitute command ps ++ conditions expr_of substitute command qs
unfolding conditions
conditions-append expr_of substitute command [] qs = refl
conditions-append expr_of substitute command (p ∷ ps) qs =
    ground (arith, conditions-append expr_of substitute command ps qs)

-- A condition is not the empty text.
abbrev pub IsFilled : Text → Type 0
IsFilled s = is_empty_list s ≡ false

pub conditions-IsFilled :
    (expr_of : Policy → Text) (substitute : Text → Text) (command : Text) (ps : List Policy)
    → All IsFilled (conditions expr_of substitute command ps)
unfolding conditions
conditions-IsFilled expr_of substitute command [] = tt
conditions-IsFilled expr_of substitute command (p ∷ ps) =
    let rest = conditions-IsFilled expr_of substitute command ps in
    let taken =
      (str_eq p.command command || str_eq p.command (codes "ALL")) && not (str_eq (expr_of p) []) in
    elim (Bool-cases taken) [
      | inl yes_taken ↦ rw yes_taken (refl, rest)
      | inr no_taken ↦ rw no_taken rest
    ]

join_and_cons :
    (s : Text) (ss : List Text)
    → IsFilled s
    → All IsFilled ss
    → join_and (s ∷ ss) ≡ both s (join_and ss)
unfolding join_and
join_and_cons [] ss h hs = cc
join_and_cons (c ∷ s) [] h hs = refl
join_and_cons (c ∷ s) ([] ∷ ss) h (g, hs) = cc
join_and_cons (c ∷ s) ((d ∷ t) ∷ []) h hs = refl
join_and_cons (c ∷ s) ((d ∷ t) ∷ u ∷ ss) h hs = refl

both_assoc : (a b c : Text) → both (both a b) c ≡ both a (both b c)
both_assoc [] b c = refl
both_assoc (x ∷ a) [] c = refl
both_assoc (x ∷ a) (y ∷ b) [] = refl
both_assoc (x ∷ a) (y ∷ b) (z ∷ c) = rw append_assoc refl

join_and-append :
    (ss ts : List Text)
    → All IsFilled ss
    → All IsFilled ts
    → join_and (ss ++ ts) ≡ both (join_and ss) (join_and ts)
join_and-append [] ts _ ht = unfold join_and in refl
join_and-append (s ∷ ss) ts (h, hs) ht =
    let more = All-append IsFilled ss ts hs ht in
    rw
      (
        join_and_cons s (ss ++ ts) h more,
        join_and_cons s ss h hs,
        join_and-append ss ts hs ht,
        both_assoc s (join_and ss) (join_and ts),
      )
      refl

-- For a request that does not bypass row level security, the condition of two lists of policies
-- together is that of the first and that of the second, put together with AND.
get_conditions-append :
    (patterns : Patterns) (ctx : Option AuthContext) (ps qs : List Policy) (expr_of : Policy → Text)
    (command a b : Text)
    → bypasses ctx ≡ false
    → get_conditions patterns ctx (some ps) expr_of command ≡ some a
    → get_conditions patterns ctx (some qs) expr_of command ≡ some b
    → get_conditions patterns ctx (some (ps ++ qs)) expr_of command ≡ some (both a b)
unfolding get_conditions
get_conditions-append patterns ctx ps qs expr_of command a b h ha hb =
    let sub = substitute_all_functions patterns ctx in
    let fa = rw h at ha in
    let fb = rw h at hb in
    rw
      (
        h,
        conditions-append expr_of sub command ps qs,
        join_and-append (conditions expr_of sub command ps) (conditions expr_of sub command qs)
            (conditions-IsFilled expr_of sub command ps)
            (conditions-IsFilled expr_of sub command qs),
      )
      cc

both_policy :
    (a expr : Text) (taken : Bool)
    → both a (if taken then b'(' ∷ (expr ++ b')' ∷ []) else []) ≡ (
        if taken
        then (if str_eq a [] then [] else a ++ codes " AND ") ++ (b'(' ∷ (expr ++ b')' ∷ []))
        else a)
unfolding str_eq
both_policy [] expr true = refl
both_policy [] expr false = refl
both_policy (c ∷ a) expr true = ap (λ r. c ∷ r) (sym (append_assoc a (codes " AND ") _))
both_policy (c ∷ a) expr false = refl

-- The condition of one policy, if it is for the command and has an expression.
policy_condition :
    (expr_of : Policy → Text) (substitute : Text → Text) (command : Text) (p : Policy)
    → join_and (conditions expr_of substitute command (p ∷ [])) ≡ (
        if (str_eq p.command command || str_eq p.command (codes "ALL"))
          && not (str_eq (expr_of p) [])
        then b'(' ∷ (substitute (expr_of p) ++ b')' ∷ [])
        else [])
unfolding conditions join_and
policy_condition expr_of substitute command p =
    elim (Bool-cases (
      (str_eq p.command command || str_eq p.command (codes "ALL"))
      && not (str_eq (expr_of p) []))) [ inl taken ↦ rw taken refl | inr passed ↦ rw passed refl ]

-- For a request that does not bypass row level security, a policy behind others that is for the
-- command or for ALL, and whose expression is not empty, changes their condition to that condition
-- and, behind AND where it is not empty, the policy's expression with its functions substituted, put
-- in parentheses. Any other policy leaves the condition as it is.
pub get_conditions-further :
    (patterns : Patterns) (ctx : Option AuthContext) (ps : List Policy) (p : Policy)
    (expr_of : Policy → Text) (command a : Text)
    → bypasses ctx ≡ false
    → get_conditions patterns ctx (some ps) expr_of command ≡ some a
    → get_conditions patterns ctx (some (ps ++ p ∷ [])) expr_of command
      ≡ some (
          if (str_eq p.command command || str_eq p.command (codes "ALL"))
            && not (str_eq (expr_of p) [])
          then (if str_eq a [] then [] else a ++ codes " AND ")
            ++ (b'(' ∷ (substitute_all_functions patterns ctx (expr_of p) ++ b')' ∷ []))
          else a)
unfolding get_conditions
get_conditions-further patterns ctx ps p expr_of command a h ha =
    let sub = substitute_all_functions patterns ctx in
    let one : get_conditions patterns ctx (some (p ∷ [])) expr_of command
        ≡ some (join_and (conditions expr_of sub command (p ∷ []))) =
      rw h refl in
    get_conditions-append patterns ctx ps (p ∷ []) expr_of command a _ h ha one
    ∙ ap some (
        ap (both a) (policy_condition expr_of sub command p)
        ∙ both_policy a (sub (expr_of p)) (
            (str_eq p.command command || str_eq p.command (codes "ALL"))
            && not (str_eq (expr_of p) [])))
