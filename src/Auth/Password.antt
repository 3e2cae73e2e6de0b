-- ===== src/Auth/Password.antt =====
-- The password policy of services/auth.py.
use Prim.Native.Char.{Char, code}
use Prim.Native.String.{count}
use multi_agent_ad_optimizer.Prelude.{
  ℕ, String, Bool, true, false, ◌&&◌, ◌||◌, List, [], ◌∷◌, ◌++◌, leb, string_eq,
}
use multi_agent_ad_optimizer.Auth.Records.{Problem}

-- `any(char in … for char in password)`
unfoldable pub any_char : (Char → Bool) → String → Bool
any_char p String.[] = false
any_char p (String.◌∷◌ c s) = p c || any_char p s

abbrev pub is_password_digit : Char → Bool
is_password_digit c = leb 48 (code c) && leb (code c) 57

abbrev pub is_password_letter : Char → Bool
is_password_letter c = leb 65 (code c) && leb (code c) 90 || leb 97 (code c) && leb (code c) 122

abbrev pub char_in : String → Char → Bool
char_in text c = any_char (λ d. leb (code c) (code d) && leb (code d) (code c)) text

abbrev pub is_password_symbol : Char → Bool
is_password_symbol c = char_in "!@#$%^&*()-_=+[]{};:,.<>/?" c

abbrev pub problem_unless : Bool → Problem → List Problem
problem_unless true problem = []
problem_unless false problem = problem ∷ []

-- What `validate_password_strength` collects.
unfoldable pub problems : ℕ → String → List Problem
problems minimum password =
    problem_unless (leb minimum (count password)) (Problem.at_least minimum)
    ++ (problem_unless (any_char is_password_digit password) Problem.digit
        ++ (problem_unless (any_char is_password_letter password) Problem.letter
            ++ problem_unless (any_char is_password_symbol password) Problem.symbol))
