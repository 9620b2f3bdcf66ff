-- ===== src/Text.antt =====
-- Text that the code walks, as the list of its code points: Python's `str` operations on it.
use Prim.Native.Char.{code}
use skeino.Base.{
  ℕ, ◌+◌, ◌≡◌, refl, String, Bool, true, false, List, [], ◌∷◌, arith, ◌==◌, ltb, if◌then◌else◌,
}

abbrev pub Text : Type 0
Text = List ℕ

abbrev pub codes : String → Text
codes String.[] = []
codes (String.◌∷◌ c s) = code c ∷ codes s

-- s == t
unfoldable pub text_eq : Text → Text → Bool
text_eq [] [] = true
text_eq [] (d ∷ t) = false
text_eq (c ∷ s) [] = false
text_eq (c ∷ s) (d ∷ t) = let rest = text_eq s t in if c == d then rest else false

-- t in ts
unfoldable pub text_elem : Text → List Text → Bool
unfolding text_eq
text_elem t [] = false
text_elem t (u ∷ us) = if text_eq u t then true else text_elem t us

-- s.startswith(t)
unfoldable pub starts_with : Text → Text → Bool
starts_with s [] = true
starts_with [] (d ∷ t) = false
starts_with (c ∷ s) (d ∷ t) = let rest = starts_with s t in if c == d then rest else false

-- base, sep, _ = s.partition(chr(d)): `base`, and whether `sep` is there
unfoldable pub partition : ℕ → Text → Text × Bool
partition d [] = ([], false)
partition d (c ∷ s) =
    let rest = partition d s in if c == d then ([], true) else (c ∷ rest.0, rest.1)

-- len(s.encode("utf-8"))
unfoldable pub utf8_length : Text → ℕ
utf8_length [] = 0
utf8_length (c ∷ s) =
    (if ltb c 0x80 then 1 else if ltb c 0x800 then 2 else if ltb c 0x10000 then 3 else 4)
    + utf8_length s

pub text_eq_refl : (s : Text) → text_eq s s ≡ true
unfolding text_eq
text_eq_refl [] = refl
text_eq_refl (c ∷ s) = ground (arith, text_eq_refl s)

pub eq_of_text_eq : (s t : Text) → text_eq s t ≡ true → s ≡ t
unfolding text_eq
eq_of_text_eq [] [] h = refl
eq_of_text_eq [] (d ∷ t) h = absurd (cc)
eq_of_text_eq (c ∷ s) [] h = absurd (cc)
eq_of_text_eq (c ∷ s) (d ∷ t) h = ground (arith, eq_of_text_eq s t)
