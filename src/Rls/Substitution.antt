-- ===== src/Rls/Substitution.antt =====
-- The literals that SubstituteAuthFunctions of internal/rls/rewriter.go puts in place of auth.uid()
-- and the like, for the lexer of internal/pgtranslate.
use sblite.Prelude.{
  ℕ, suc, Text, head_or_zero, ◌≡◌, ◌≢◌, refl, arith, All, [], ◌∷◌, ◌++◌, append_assoc, has_prefix,
  replace_from, Bool-cases, All-append, false, length, ap, ◌==◌, ◌<◌, ◌≤◌, inl, inr, length-append,
  codes, ◌∙◌, some,
}
use mathlib.Core.Path.{subst}
use sblite.Pgtranslate.Token.{Position, token_string}
use sblite.Pgtranslate.Lexer.Quotes.{double_byte, ReadsToken, next_token-quoted_string}
use sblite.Rls.{
  escape_sql_string, literal_of, Patterns, AuthContext, substitute_auth_functions, jwt_value,
}

pub replace_from-double_byte :
    (q : ℕ) (s : Text) → replace_from (q ∷ []) (q ∷ q ∷ []) 0 s ≡ double_byte q s
unfolding replace_from double_byte has_prefix
replace_from-double_byte q [] = refl
replace_from-double_byte q (c ∷ s) = ground (arith, replace_from-double_byte q s)

literal_of-double_byte :
    (s rest : Text) → literal_of s ++ rest ≡ b'\'' ∷ (double_byte b'\'' s ++ (b'\'' ∷ rest))
unfolding literal_of escape_sql_string
literal_of-double_byte s rest = rw (replace_from-double_byte b'\'' s, append_assoc) refl

-- A literal without a byte 0 is read by the SQL lexer as one string token whose value is what it was
-- made of, with what stands behind it left to read, if that does not start with a single quote.
next_token-literal_of :
    (fuel : ℕ) (s rest : Text) (p : Position)
    → head_or_zero rest ≢ b'\''
    → All (λ c. c ≢ 0) s
    → ReadsToken
        (suc fuel)
        (record { rest = literal_of s ++ rest; at = p })
        token_string
        b'\''
        s
        rest
next_token-literal_of fuel s rest p h k =
    rw literal_of-double_byte (next_token-quoted_string fuel s rest p h k)

-- No call is in the text.
abbrev pub HasNoCall : Text → Type 0
HasNoCall s = All (λ c. c ≢ b'(') s

double_byte-HasNoCall : (s : Text) → HasNoCall s → HasNoCall (double_byte b'\'' s)
unfolding double_byte
double_byte-HasNoCall [] _ = tt
double_byte-HasNoCall (c ∷ s) (h, hs) =
    let more = double_byte-HasNoCall s hs in
    elim (Bool-cases (c == b'\'')) [
      | inl same ↦ rw same (omega arith, (omega arith, more))
      | inr other ↦ rw other (h, more)
    ]

literal_of-HasNoCall :
    (s rest : Text) → HasNoCall s → HasNoCall rest → HasNoCall (literal_of s ++ rest)
literal_of-HasNoCall s rest h k = rw (literal_of-double_byte s rest) (
  omega arith,
  All-append (λ c. c ≢ b'(') (double_byte b'\'' s) (b'\'' ∷ rest) (double_byte-HasNoCall s h)
      (omega arith, k),
)

-- A pattern with a parenthesis behind `v` is no prefix of a text without one, nor of one with more
-- bytes than `v` before its first.
has_prefix-short : (s v w : Text) → HasNoCall s → has_prefix s (v ++ b'(' ∷ w) ≡ false
unfolding has_prefix
has_prefix-short [] [] w _ = refl
has_prefix-short [] (d ∷ v) w _ = refl
has_prefix-short (c ∷ s) [] w (h, hs) = ground arith
has_prefix-short (c ∷ s) (d ∷ v) w (h, hs) = ground (arith, has_prefix-short s v w hs)

has_prefix-early :
    (s t v w : Text)
    → HasNoCall s
    → length v < length s
    → has_prefix (s ++ t) (v ++ b'(' ∷ w) ≡ false
unfolding has_prefix
has_prefix-early [] t v w _ less = ground arith
has_prefix-early (c ∷ s) t [] w (h, hs) _ = ground arith
has_prefix-early (c ∷ s) t (d ∷ v) w (h, hs) less =
    ground (arith, has_prefix-early s t v w hs (omega arith))

pub replace_from-none : (v w new s : Text) → HasNoCall s → replace_from (v ++ b'(' ∷ w) new 0 s ≡ s
unfolding replace_from
replace_from-none v w new [] _ = refl
replace_from-none v w new (c ∷ s) (h, hs) =
    rw (has_prefix-short (c ∷ s) v w (h, hs)) (ap (λ r. c ∷ r) (replace_from-none v w new s hs))

replace_from-before :
    (v w new before call t : Text)
    → HasNoCall before
    → HasNoCall call
    → length v ≤ length call
    → replace_from (v ++ b'(' ∷ w) new 0 (before ++ (call ++ t))
      ≡ before ++ replace_from (v ++ b'(' ∷ w) new 0 (call ++ t)
unfolding replace_from
replace_from-before v w new [] call t _ k less = refl
replace_from-before v w new (c ∷ before) call t (h, hs) k less =
    let all = All-append (λ c. c ≢ b'(') (c ∷ before) call (h, hs) k in
    let no_match : has_prefix (c ∷ (before ++ (call ++ t))) (v ++ b'(' ∷ w) ≡ false =
      subst (λ r. has_prefix r (v ++ b'(' ∷ w) ≡ false) (append_assoc (c ∷ before) call t)
        (has_prefix-early ((c ∷ before) ++ call) t v w all
          (omega (arith, length-append before call))) in
    rw no_match (ap (λ r. c ∷ r) (replace_from-before v w new before call t hs k less))

uid_plain : HasNoCall (codes "auth.uid")
uid_plain = ground arith

role_plain : HasNoCall (codes "auth.role")
role_plain = ground arith

email_plain : HasNoCall (codes "auth.email")
email_plain = ground arith

-- The three patterns: each call in the text is replaced by its literal, and the other two patterns
-- match nowhere.
module _ (patterns : Patterns) (ctx : AuthContext) (before rest : Text) where
  abbrev Replaced : Text → Text → Type 0
  Replaced call value =
      substitute_auth_functions patterns (some ctx) (before ++ (call ++ rest))
      ≡ before ++ (literal_of value ++ rest)

  module _
      (no_jwt : (value_of : Text → Text) (s : Text)
        → HasNoCall s
        → patterns.replace_jwt value_of s ≡ s)
      (h : HasNoCall before) (k : HasNoCall rest) where
    done : (value : Text) → HasNoCall value → HasNoCall (before ++ (literal_of value ++ rest))
    done value hv =
        All-append (λ c. c ≢ b'(') before (literal_of value ++ rest) h
          (literal_of-HasNoCall value rest hv k)

    -- A call that the pattern is not.
    kept_call :
        (v call new : Text)
        → HasNoCall call
        → length v ≤ length call
        → replace_from (v ++ codes "()") new 0 (call ++ (codes "()" ++ rest))
          ≡ call ++ (codes "()" ++ rest)
        → replace_from (v ++ codes "()") new 0 (before ++ (call ++ (codes "()" ++ rest)))
          ≡ before ++ (call ++ (codes "()" ++ rest))
    kept_call v call new hc less same =
        replace_from-before v (codes ")") new before call (codes "()" ++ rest) h hc less
        ∙ ap (λ r. before ++ r) same

    taken_call :
        (v new : Text)
        → HasNoCall v
        → replace_from (v ++ codes "()") new 0 (v ++ (codes "()" ++ rest))
          ≡ new ++ replace_from (v ++ codes "()") new 0 rest
        → replace_from (v ++ codes "()") new 0 (before ++ (v ++ (codes "()" ++ rest)))
          ≡ before ++ (new ++ rest)
    taken_call v new hv same =
        replace_from-before v (codes ")") new before v (codes "()" ++ rest) h hv (omega arith)
        ∙ ap (λ r. before ++ r)
            (same ∙ ap (λ r. new ++ r) (replace_from-none v (codes ")") new rest k))

    -- No call is left behind the first three patterns.
    in_turn :
        (expr value with_uid with_role : Text)
        → HasNoCall value
        → replace_from (codes "auth.uid()") (literal_of ctx.user_id) 0 expr ≡ with_uid
        → replace_from (codes "auth.role()") (literal_of ctx.role) 0 with_uid ≡ with_role
        → replace_from (codes "auth.email()") (literal_of ctx.email) 0 with_role
          ≡ before ++ (literal_of value ++ rest)
        → substitute_auth_functions patterns (some ctx) expr ≡ before ++ (literal_of value ++ rest)
    unfolding substitute_auth_functions
    in_turn expr value with_uid with_role hv first second third =
        let role = replace_from (codes "auth.role()") (literal_of ctx.role) 0 in
        let email = replace_from (codes "auth.email()") (literal_of ctx.email) 0 in
        let jwt = patterns.replace_jwt (jwt_value patterns ctx) in
        ap (λ s. jwt (email (role s))) first
        ∙ (ap (λ s. jwt (email s)) second
            ∙ (ap jwt third ∙ no_jwt (jwt_value patterns ctx) _ (done value hv)))

    uid-Replaced : HasNoCall ctx.user_id → Replaced (codes "auth.uid()") ctx.user_id
    uid-Replaced hv =
        let all = done ctx.user_id hv in
        in_turn _ ctx.user_id _ _ hv
          (taken_call (codes "auth.uid") (literal_of ctx.user_id) uid_plain
            (unfold replace_from has_prefix in refl))
          (replace_from-none (codes "auth.role") (codes ")") (literal_of ctx.role) _ all)
          (replace_from-none (codes "auth.email") (codes ")") (literal_of ctx.email) _ all)

    role-Replaced : HasNoCall ctx.role → Replaced (codes "auth.role()") ctx.role
    role-Replaced hv =
        in_turn _ ctx.role _ _ hv
          (kept_call (codes "auth.uid") (codes "auth.role") (literal_of ctx.user_id) role_plain
            (omega arith)
            (unfold replace_from has_prefix in
              ap (λ r. codes "auth.role()" ++ r)
                (replace_from-none (codes "auth.uid") (codes ")") (literal_of ctx.user_id) rest k)))
          (taken_call (codes "auth.role") (literal_of ctx.role) role_plain
            (unfold replace_from has_prefix in refl))
          (replace_from-none (codes "auth.email") (codes ")") (literal_of ctx.email) _
            (done ctx.role hv))

    email-Replaced : HasNoCall ctx.email → Replaced (codes "auth.email()") ctx.email
    email-Replaced hv =
        in_turn _ ctx.email _ _ hv
          (kept_call (codes "auth.uid") (codes "auth.email") (literal_of ctx.user_id) email_plain
            (omega arith)
            (unfold replace_from has_prefix in
              ap (λ r. codes "auth.email()" ++ r)
                (replace_from-none (codes "auth.uid") (codes ")") (literal_of ctx.user_id) rest k)))
          (kept_call (codes "auth.role") (codes "auth.email") (literal_of ctx.role) email_plain
            (omega arith)
            (unfold replace_from has_prefix in
              ap (λ r. codes "auth.email()" ++ r)
                (replace_from-none (codes "auth.role") (codes ")") (literal_of ctx.role) rest k)))
          (taken_call (codes "auth.email") (literal_of ctx.email) email_plain
            (unfold replace_from has_prefix in refl))

-- In the text that SubstituteAuthFunctions returns, what stands in place of the call, behind `before`,
-- is read by the SQL lexer as one string token with that value, and `rest` is left to read.
abbrev pub ReadsAs : Patterns → AuthContext → ℕ → Position → Text → Text → Text → Text → Type 0
ReadsAs patterns ctx fuel p before rest call value =
    (t : Text) × (substitute_auth_functions patterns (some ctx) (before ++ (call ++ rest))
      ≡ before ++ t)
    × ReadsToken (suc fuel) (record { rest = t; at = p }) token_string b'\'' value rest

-- An expression with one of auth.uid(), auth.role() and auth.email(), and no "(" otherwise:
-- SubstituteAuthFunctions replaces the call, and only it, by what the SQL lexer reads as one string
-- token whose value is the user's id, role or email, with what was behind the call left to read. The
-- value has no "(" and no byte 0, what is behind the call does not start with a single quote, and the
-- pattern of auth.jwt() matches nothing in a text without "(".
pub next_token-substitute_auth_functions :
    (patterns : Patterns) (ctx : AuthContext) (fuel : ℕ) (p : Position) (before rest : Text)
    → ((value_of : Text → Text) (s : Text) → HasNoCall s → patterns.replace_jwt value_of s ≡ s)
    → HasNoCall before
    → HasNoCall rest
    → head_or_zero rest ≢ b'\''
    → All (λ s. HasNoCall s × All (λ c. c ≢ 0) s) (ctx.user_id ∷ ctx.role ∷ ctx.email ∷ [])
    → ReadsAs patterns ctx fuel p before rest (codes "auth.uid()") ctx.user_id
      × ReadsAs patterns ctx fuel p before rest (codes "auth.role()") ctx.role
      × ReadsAs patterns ctx fuel p before rest (codes "auth.email()") ctx.email
next_token-substitute_auth_functions patterns ctx fuel p before rest no_jwt h k ends
      ((uid, uid_zero), ((role, role_zero), ((email, email_zero), _))) =
    (
      (
        literal_of ctx.user_id ++ rest,
        uid-Replaced patterns ctx before rest no_jwt h k uid,
        next_token-literal_of fuel ctx.user_id rest p ends uid_zero,
      ),
      (
        literal_of ctx.role ++ rest,
        role-Replaced patterns ctx before rest no_jwt h k role,
        next_token-literal_of fuel ctx.role rest p ends role_zero,
      ),
      (
        literal_of ctx.email ++ rest,
        email-Replaced patterns ctx before rest no_jwt h k email,
        next_token-literal_of fuel ctx.email rest p ends email_zero,
      ),
    )
