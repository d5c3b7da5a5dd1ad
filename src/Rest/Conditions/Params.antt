-- ===== src/Rest/Conditions/Params.antt =====
-- The parameters of an SQL text: the "?" outside of quoted names and string literals.
use sblite.Prelude.{
  ℕ, Text, ◌==◌, ◌≡◌, ◌≢◌, ◌+◌, refl, arith, [], ◌∷◌, ◌++◌, List, All, if◌then◌else◌, ◌∙◌, join,
  length,
}
use sblite.Pgtranslate.Lexer.Quotes.{double_byte}
use sblite.Rls.Substitution.{replace_from-double_byte}
use sblite.Rest.Conditions.{quote_identifier, Sql}

pub data Mode : Type 0 where
  outside : Mode
  in_name : Mode
  in_literal : Mode

abbrev pub step : Mode → ℕ → Mode
step outside c = if c == b'"' then in_name else if c == b'\'' then in_literal else outside
step in_name c = if c == b'"' then outside else in_name
step in_literal c = if c == b'\'' then outside else in_literal

abbrev pub mark : Mode → ℕ → ℕ
mark outside c = if c == b'?' then 1 else 0
mark in_name c = 0
mark in_literal c = 0

unfoldable pub after : Mode → Text → Mode
after m [] = m
after m (c ∷ s) = after (step m c) s

unfoldable pub params : Mode → Text → ℕ
params m [] = 0
params m (c ∷ s) = mark m c + params (step m c) s

-- The text leaves no quote open, and has `n` parameters.
pub record Binds (s : Text) (n : ℕ) : Type 0 where
  pub closed : after outside s ≡ outside
  pub counted : params outside s ≡ n

after-append : (m : Mode) (s t : Text) → after m (s ++ t) ≡ after (after m s) t
unfolding after
after-append m [] t = refl
after-append m (c ∷ s) t = after-append (step m c) s t

params-append : (m : Mode) (s t : Text) → params m (s ++ t) ≡ params m s + params (after m s) t
unfolding params after
params-append m [] t = omega arith
params-append m (c ∷ s) t = omega (arith, params-append (step m c) s t)

pub Binds-append : (s t : Text) {a b : ℕ} → Binds s a → Binds t b → Binds (s ++ t) (a + b)
Binds-append s t x y = record {
  closed = rw (after-append, x.closed) y.closed;
  counted = rw (params-append, x.closed) (omega (arith, x.counted, y.counted));
}

pub Binds-eq : (s : Text) {a b : ℕ} → a ≡ b → Binds s a → Binds s b
Binds-eq s e x = record { closed = x.closed; counted = x.counted ∙ e }

-- A text in full.
pub constant : (s : Text) (n : ℕ) → after outside s ≡ outside → params outside s ≡ n → Binds s n
constant s n h k = record { closed = h; counted = k }

pub Binds-nil : Binds [] 0
Binds-nil = unfold after params in record { closed = refl; counted = refl }

after_name : (s : Text) → after in_name (double_byte b'"' s ++ b'"' ∷ []) ≡ outside
unfolding after double_byte
after_name [] = refl
after_name (c ∷ s) = ground (arith, after_name s)

params_name : (s : Text) → params in_name (double_byte b'"' s ++ b'"' ∷ []) ≡ 0
unfolding params double_byte
params_name [] = refl
params_name (c ∷ s) = ground (arith, params_name s)

-- A quoted name is whole, whatever it is the name of.
pub quote_identifier-Binds : (name : Text) → Binds (quote_identifier name) 0
unfolding quote_identifier after params
quote_identifier-Binds name =
    rw replace_from-double_byte
      (record { closed = after_name name; counted = omega (arith, params_name name) })

-- A text without a single quote stays inside a literal.
after_literal : (s : Text) → All (λ c. c ≢ b'\'') s → after in_literal s ≡ in_literal
unfolding after
after_literal [] _ = refl
after_literal (c ∷ s) (h, hs) = ground (arith, after_literal s hs)

params_literal : (s : Text) → All (λ c. c ≢ b'\'') s → params in_literal s ≡ 0
unfolding params
params_literal [] _ = refl
params_literal (c ∷ s) (h, hs) = ground (arith, params_literal s hs)

pub literal-Binds : (s : Text) → All (λ c. c ≢ b'\'') s → Binds (b'\'' ∷ (s ++ b'\'' ∷ [])) 0
unfolding after params
literal-Binds s h = record {
  closed = rw (after-append, after_literal s h) refl;
  counted = rw (params-append, after_literal s h) (omega (arith, params_literal s h));
}

-- The parameters of texts that are put one behind the other.
pub data BindAll : List Text → ℕ → Type 0 where
  no_texts : BindAll [] 0
  and_text :
      {s : Text} {ss : List Text} {a b n : ℕ}
      → Binds s a
      → BindAll ss b
      → n ≡ a + b
      → BindAll (s ∷ ss) n

pub join-Binds :
    (separator : Text) (ss : List Text) (n : ℕ)
    → Binds separator 0
    → BindAll ss n
    → Binds (join separator ss) n
unfolding join
join-Binds separator [] n q no_texts = Binds-nil
join-Binds separator (s ∷ []) n q (and_text x no_texts e) = Binds-eq s (omega (arith, e)) x
join-Binds separator (s ∷ t ∷ ss) n q (and_text x xs e) =
    let rest = join-Binds separator (t ∷ ss) _ q xs in
    Binds-eq (s ++ (separator ++ join separator (t ∷ ss))) (omega (arith, e)) (
      Binds-append s (separator ++ join separator (t ∷ ss)) x
        (Binds-append separator (join separator (t ∷ ss)) q rest))

-- As many parameters as arguments, and no open quote.
pub record SqlBinds (x : Sql) : Type 0 where
  pub binds : Binds x.0 (length x.1)
