-- ===== src/Prelude/Text.antt =====
-- Text as a list of code points, with the built-in methods that the services call: `strip`,
-- `split` and `join` on whitespace, `len`.
use Prim.Native.Nat.{ℕ}
use Prim.Native.Char.{code}
use Prim.Native.String.{String}
use mathlib.Core.Bool.{Bool, ◌||◌, ◌&&◌}
use mathlib.Core.Path.{◌≡◌, refl, ap, ◌∙◌}
use text.Mathlib.Text as TextLib
use text.Mathlib.TextEquality.{eq_iff}
use mathlib.Core.List.{List, [], ◌∷◌, reverse}
use apparel_network.Prelude.Tests.{&&_split, ==_iff, leb, ◌==◌, if◌then◌else◌}

abbrev pub Text : Type 0
Text = List ℕ

-- The code points of a literal.
unfoldable pub codes : String → Text
codes String.[] = []
codes (String.◌∷◌ c s) = code c ∷ codes s

-- The code points for which `str.isspace` holds.
unfoldable pub is_space : ℕ → Bool
is_space c =
    (leb 9 c && leb c 13)
    || (leb 28 c && leb c 32)
    || c == 133
    || c == 160
    || c == 5760
    || (leb 8192 c && leb c 8202)
    || c == 8232
    || c == 8233
    || c == 8239
    || c == 8287
    || c == 12288

unfoldable pub lstrip : Text → Text
unfolding is_space
lstrip [] = []
lstrip (c ∷ s) = let rest = lstrip s in if is_space c then rest else c ∷ s

unfoldable pub strip : Text → Text
unfolding lstrip
strip s = reverse (lstrip (reverse (lstrip s)))

-- `" ".join(value.split())`: the words of a text, one space between two of them. The accumulator
-- says whether a space is owed before the next word.
unfoldable pub join_words : Bool → Bool → Text → Text
unfolding is_space
join_words started owed [] = []
join_words started owed (c ∷ s) =
    let skip = join_words started Bool.true s in
    let take_it = join_words Bool.true Bool.false s in
    if is_space c then skip else if started && owed then 32 ∷ c ∷ take_it else c ∷ take_it

unfoldable pub normalize : Text → Text
unfolding join_words
normalize s = join_words Bool.false Bool.false s

-- Equality of two strings, and of a nullable string and a string, as SQL tests them.
unfoldable pub eq_string : String → String → Bool
eq_string a b = TextLib.◌==◌ a b

pub eq_string→eq : (a b : String) → eq_string a b ≡ Bool.true → a ≡ b
unfolding eq_string
eq_string→eq a b h = (eq_iff a b).0 h

pub eq_string_refl : (a : String) → eq_string a a ≡ Bool.true
unfolding eq_string
eq_string_refl a = (eq_iff a a).1 refl

unfoldable pub eq_text : Text → Text → Bool
eq_text [] [] = Bool.true
eq_text (c ∷ s) (d ∷ t) = c == d && eq_text s t
eq_text _ _ = Bool.false

pub eq_text→eq : (a b : Text) → eq_text a b ≡ Bool.true → a ≡ b
unfolding eq_text
eq_text→eq [] [] h = refl
eq_text→eq [] (d ∷ t) h = cc
eq_text→eq (c ∷ s) [] h = cc
eq_text→eq (c ∷ s) (d ∷ t) h =
    let parts = &&_split (c == d) (eq_text s t) h in
    ap (λ x. x ∷ s) ((==_iff c d).0 parts.0) ∙ ap (λ rest. d ∷ rest) (eq_text→eq s t parts.1)
