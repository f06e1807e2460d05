-- ===== src/Prelude/Texts.antt =====
-- Texts by their characters.
use Prim.Native.String
use Prim.Native.Char.{Char, code}
use text.Mathlib.TextLemmas.{nil-append, cons-append}
use Prim.Native.Nat.{ℕ, zero, suc, ◌≤◌}
use Prim.Native.String.{String}
use mathlib.Core.Path.{◌≡◌, refl, sym, subst}
use mathlib.Core.Bool.{Bool, true, false, ◌||◌, ◌&&◌}
use native.Mathlib.Omega.{arith}

-- whether a code point of a text meets a test
unfoldable pub any_code : (ℕ → Bool) → String → Bool
any_code p String.[] = false
any_code p (String.◌∷◌ c s) = p (code c) || any_code p s

-- `len(s)`, `s[:n]` and `s[n:]`
unfoldable pub text_length : String → ℕ
text_length String.[] = 0
text_length (String.◌∷◌ c s) = suc (text_length s)

unfoldable pub text_take : ℕ → String → String
text_take zero s = ""
text_take (suc n) String.[] = ""
text_take (suc n) (String.◌∷◌ c s) = String.◌∷◌ c (text_take n s)

unfoldable pub text_drop : ℕ → String → String
text_drop zero s = s
text_drop (suc n) String.[] = ""
text_drop (suc n) (String.◌∷◌ c s) = text_drop n s

unfoldable pub all_chars : (Char → Bool) → String → Bool
all_chars p String.[] = true
all_chars p (String.◌∷◌ c s) = p c && all_chars p s

pub any_code_of_append :
    (p : ℕ → Bool) (s t : String) → any_code p (String.◌++◌ s t) ≡ (any_code p s || any_code p t)
unfolding any_code
any_code_of_append p String.[] t = rw (nil-append t) refl
any_code_of_append p (String.◌∷◌ c s) t =
    rw (cons-append c s t) (ground (arith, any_code_of_append p s t))

pub any_code-append :
    (p : ℕ → Bool) (s t : String) → any_code p (String.◌++◌ s t) ≡ false → any_code p t ≡ false
unfolding any_code
any_code-append p String.[] t h = rw (sym (nil-append t)) h
any_code-append p (String.◌∷◌ c s) t h =
    any_code-append p s t (ground (arith, subst (λ v. any_code p v ≡ false) (cons-append c s t) h))

pub text_drop-append : (p u : String) → text_drop (text_length p) (String.◌++◌ p u) ≡ u
unfolding text_drop text_length
text_drop-append String.[] u = nil-append u
text_drop-append (String.◌∷◌ c p) u = rw (cons-append c p u) (text_drop-append p u)

pub text_length-take : (n : ℕ) (s : String) → n ≤ text_length s → text_length (text_take n s) ≡ n
unfolding text_length text_take
text_length-take zero s h = refl
text_length-take (suc n) String.[] h = ground (arith)
text_length-take (suc n) (String.◌∷◌ c s) h = omega (arith, text_length-take n s (omega arith))

pub all_chars-take :
    (p : Char → Bool) (n : ℕ) (s : String)
    → all_chars p s ≡ true
    → all_chars p (text_take n s) ≡ true
unfolding all_chars text_take
all_chars-take p zero s h = refl
all_chars-take p (suc n) String.[] h = refl
all_chars-take p (suc n) (String.◌∷◌ c s) h =
    let rest : all_chars p (text_take n s) ≡ true = all_chars-take p n s (ground arith) in
    ground (arith, rest)
