-- ===== src/Base/Text.antt =====
-- Texts: the functions of Go's `strings` and `strconv` that the code calls, and the order of texts.
use Prim.Native.Nat.{ℕ, zero, suc, ◌/◌, ◌%◌, ◌-◌}
use Prim.Native.Char.{Char, code}
use Prim.Native.String.{String}
use Prim.Native.String
use mathlib.Core.Path.{◌≡◌, refl}
use text.Mathlib.Text.{◌==◌}
use mathlib.Core.Bool.{Bool, true, false, ◌&&◌, ◌||◌}
use mathlib.Core.List.{List, [], ◌∷◌}
use native.Mathlib.Omega.{arith}
use fluxseer_rca.Base.Tests.{ltb, leb, eqb, if◌then◌else◌}
use fluxseer_rca.Base.Int.{ℤ, pos, negsuc}

infixr 65 ◌+++◌
abbrev pub ◌+++◌ : String → String → String
s +++ t = String.◌++◌ s t

-- The code points of a text.
abbrev pub codes : String → List ℕ
codes String.[] = []
codes (String.◌∷◌ c s) = code c ∷ codes s

-- Go compares texts by their UTF-8 bytes, which is the order of the code points.
unfoldable pub lex_lt : List ℕ → List ℕ → Bool
lex_lt [] [] = false
lex_lt [] (y ∷ ys) = true
lex_lt (x ∷ xs) [] = false
lex_lt (x ∷ xs) (y ∷ ys) = ltb x y || (eqb x y && lex_lt xs ys)

unfoldable pub str_lt : String → String → Bool
unfolding lex_lt
str_lt s t = lex_lt (codes s) (codes t)

-- `unicode.IsSpace`.
unfoldable pub is_space : ℕ → Bool
is_space c =
    (leb 9 c && leb c 13)
    || eqb c 32
    || eqb c 0x85
    || eqb c 0xA0
    || eqb c 0x1680
    || (leb 0x2000 c && leb c 0x200A)
    || eqb c 0x2028
    || eqb c 0x2029
    || eqb c 0x202F
    || eqb c 0x205F
    || eqb c 0x3000

unfoldable pub trim_left : String → String
trim_left String.[] = String.[]
trim_left (String.◌∷◌ c s) =
    let rest = trim_left s in if is_space (code c) then rest else String.◌∷◌ c s

unfoldable pub cons_trimmed : Char → String → String
cons_trimmed c String.[] = if is_space (code c) then String.[] else String.◌∷◌ c String.[]
cons_trimmed c (String.◌∷◌ d s) = String.◌∷◌ c (String.◌∷◌ d s)

unfoldable pub trim_right : String → String
trim_right String.[] = String.[]
trim_right (String.◌∷◌ c s) = cons_trimmed c (trim_right s)

-- `strings.TrimSpace`.
unfoldable pub trim_space : String → String
unfolding trim_left trim_right cons_trimmed is_space
trim_space s = trim_right (trim_left s)

-- The character at a place of a text, or `d` past its end.
char_or : String → ℕ → Char → Char
char_or String.[] n d = d
char_or (String.◌∷◌ c s) zero d = c
char_or (String.◌∷◌ c s) (suc n) d = char_or s n d

-- `unicode.ToLower` at ASCII; `beyond` stands for the tables of the other characters.
lower_char : (Char → Char) → Char → Char
lower_char beyond c =
    if leb b'A' (code c) && leb (code c) b'Z'
    then char_or "abcdefghijklmnopqrstuvwxyz" (code c - b'A') c
    else if ltb (code c) 0x80
    then c
    else beyond c

-- `strings.ToLower`.
unfoldable pub to_lower : (Char → Char) → String → String
unfolding lower_char char_or
to_lower beyond String.[] = String.[]
to_lower beyond (String.◌∷◌ c s) = String.◌∷◌ (lower_char beyond c) (to_lower beyond s)

lex_lt_asymm : (xs ys : List ℕ) → lex_lt xs ys ≡ true → lex_lt ys xs ≡ false
unfolding lex_lt
lex_lt_asymm [] [] h = refl
lex_lt_asymm [] (y ∷ ys) h = refl
lex_lt_asymm (x ∷ xs) [] h = cc
lex_lt_asymm (x ∷ xs) (y ∷ ys) h = ground (arith, lex_lt_asymm xs ys)

lex_lt_not_trans :
    (xs ys zs : List ℕ) → lex_lt ys xs ≡ false → lex_lt zs ys ≡ false → lex_lt zs xs ≡ false
unfolding lex_lt
lex_lt_not_trans [] [] [] h k = refl
lex_lt_not_trans [] [] (z ∷ zs) h k = refl
lex_lt_not_trans [] (y ∷ ys) [] h k = cc
lex_lt_not_trans [] (y ∷ ys) (z ∷ zs) h k = refl
lex_lt_not_trans (x ∷ xs) [] zs h k = cc
lex_lt_not_trans (x ∷ xs) (y ∷ ys) [] h k = cc
lex_lt_not_trans (x ∷ xs) (y ∷ ys) (z ∷ zs) h k = ground (arith, lex_lt_not_trans xs ys zs)

pub str_lt_asymm : (s t : String) → str_lt s t ≡ true → str_lt t s ≡ false
unfolding str_lt
str_lt_asymm s t = lex_lt_asymm (codes s) (codes t)

pub str_lt_not_trans :
    (s t u : String) → str_lt t s ≡ false → str_lt u t ≡ false → str_lt u s ≡ false
unfolding str_lt
str_lt_not_trans s t u = lex_lt_not_trans (codes s) (codes t) (codes u)

digit : ℕ → String
digit zero = "0"
digit (suc zero) = "1"
digit (suc (suc zero)) = "2"
digit (suc (suc (suc zero))) = "3"
digit (suc (suc (suc (suc zero)))) = "4"
digit (suc (suc (suc (suc (suc zero))))) = "5"
digit (suc (suc (suc (suc (suc (suc zero)))))) = "6"
digit (suc (suc (suc (suc (suc (suc (suc zero))))))) = "7"
digit (suc (suc (suc (suc (suc (suc (suc (suc zero)))))))) = "8"
digit _ = "9"

-- A decimal number; the fuel is a digit for each unit, more than enough.
decimal : ℕ → ℕ → String → String
decimal zero n rest = rest
decimal (suc fuel) n rest =
    let shown = digit (n % 10) +++ rest in
    let more = decimal fuel (n / 10) shown in if ltb n 10 then shown else more

-- `strconv.Itoa`, and the verb `%d`.
unfoldable pub itoa : ℤ → String
unfolding decimal digit
itoa (pos n) = decimal (suc n) n ""
itoa (negsuc n) = "-" +++ decimal (suc (suc n)) (suc n) ""

to_lower_test : to_lower (λ c. c) "CrItical z" ≡ "critical z"
unfolding to_lower
to_lower_test = refl

itoa_test : itoa (negsuc 1206) ≡ "-1207"
unfolding itoa
itoa_test = refl

trim_space_test : trim_space "  a b \n" ≡ "a b"
unfolding trim_space
trim_space_test = refl

str_lt_test : str_lt "prod/a" "prod/b" ≡ true
unfolding str_lt
str_lt_test = refl

push_char : Char → List String → List String
push_char c [] = String.◌∷◌ c String.[] ∷ []
push_char c (w ∷ ws) = String.◌∷◌ c w ∷ ws

split_spaces : String → List String
split_spaces String.[] = "" ∷ []
split_spaces (String.◌∷◌ c s) =
    let rest = split_spaces s in if is_space (code c) then "" ∷ rest else push_char c rest

without_empty : List String → List String
without_empty [] = []
without_empty (w ∷ ws) = let rest = without_empty ws in if w == "" then rest else w ∷ rest

-- `strings.Fields`.
unfoldable pub fields : String → List String
unfolding split_spaces push_char without_empty is_space
fields s = without_empty (split_spaces s)

fields_test : fields "  a bc  d " ≡ ("a" ∷ "bc" ∷ "d" ∷ [])
unfolding fields
fields_test = refl
