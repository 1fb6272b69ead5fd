-- ===== src/Prelude/Texts.antt =====
-- Text: the joins and splits that the source makes at a `.`, and its searches.
use Prim.Native.Char.{Char, char, nul, code}
use Prim.Native.Nat.{ℕ, Ordering, compare, ◌+◌, ◌/◌, ◌%◌}
use mathlib.Core.Path.{◌≡◌, refl}
use Prim.Native.String.{String}
use mathlib.Core.List.{List, [], ◌∷◌}
use mathlib.Core.Bool.{Bool, true, false, ◌&&◌, ◌||◌}
use mathlib.Core.Option
use mathlib.Core.Option.{Option, none, some}
use go_saga_orchestration.Prelude.Tests.{ltb, ◌==◌, if◌then◌else◌, nat_eq}
pub use Prim.Native.String.{◌++◌ as concat}

-- Puts a character in front of the first part.
abbrev push_char : String → List String → List String
push_char c [] = c ∷ []
push_char c (p ∷ ps) = concat c p ∷ ps

-- The parts of a key between its dots; a key with no dot is one part.
unfoldable pub split_dots : String → List String
split_dots String.[] = "" ∷ []
split_dots (String.◌∷◌ c s) =
    let rest = split_dots s in
    if code c == b'.' then "" ∷ rest else push_char (String.◌∷◌ c String.[]) rest

-- The bytes of a character in UTF-8.
abbrev utf8 : ℕ → List ℕ
utf8 n =
    if ltb n 128
    then n ∷ []
    else if ltb n 2048
    then (192 + n / 64) ∷ (128 + n % 64) ∷ []
    else if ltb n 65536
    then (224 + n / 4096) ∷ (128 + n / 64 % 64) ∷ (128 + n % 64) ∷ []
    else (240 + n / 262144) ∷ (128 + n / 4096 % 64) ∷ (128 + n / 64 % 64) ∷ (128 + n % 64) ∷ []

abbrev scalar_or_nul : (n : ℕ) (o : Ordering) → compare n 55296 ≡ o → Char
scalar_or_nul n Ordering.lt e = char n (rw e tt)
scalar_or_nul n Ordering.eq e = nul
scalar_or_nul n Ordering.gt e = nul

-- `string(b)` of each byte: the character with the number of the byte.
abbrev bytes_text : List ℕ → String
bytes_text [] = ""
bytes_text (b ∷ bs) = String.◌∷◌ (scalar_or_nul b (compare b 55296) refl) (bytes_text bs)

-- The parts of a key between its dots, taken byte by byte, each byte as a character of its own: a key
-- with characters beyond ASCII comes out with others in their place.
unfoldable pub split_bytes : String → List String
split_bytes String.[] = "" ∷ []
split_bytes (String.◌∷◌ c s) =
    let rest = split_bytes s in
    if code c == b'.' then "" ∷ rest else push_char (bytes_text (utf8 (code c))) rest

-- The text before the first dot and the text behind it.
unfoldable pub cut_dot : String → Option (String × String)
cut_dot String.[] = none
cut_dot (String.◌∷◌ c s) =
    let rest = cut_dot s in
    if code c == b'.' then some ("", s) else Option.map (λ p. (String.◌∷◌ c p.0, p.1)) rest

-- `strings.HasPrefix`
unfoldable pub has_prefix : String → String → Bool
has_prefix String.[] s = true
has_prefix (String.◌∷◌ c p) String.[] = false
has_prefix (String.◌∷◌ c p) (String.◌∷◌ d s) = (code c == code d) && has_prefix p s

-- `strings.Contains`
unfoldable pub contains : String → String → Bool
unfolding has_prefix
contains String.[] p = has_prefix p ""
contains (String.◌∷◌ c s) p = has_prefix p (String.◌∷◌ c s) || contains s p
