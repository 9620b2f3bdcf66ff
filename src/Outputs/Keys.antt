-- ===== src/Outputs/Keys.antt =====
-- streaming/runner.py: which keys of a graph a client may see, and the tests of the code for it.
use skeino.Base.{
  ◌≡◌, ◌⊎◌, refl, sym, ap, subst, ◌∙◌, Bool, true, false, Option, none, some, List, [], ◌∷◌, ◌++◌,
  String, arith, ◌==◌, ==_iff, ◌&&◌, Bool-cases, inl, inr,
}
use mathlib.Core.List.{reverse, reverse-append, reverse-reverse}
use skeino.Text.{Text, codes, text_eq, text_elem, starts_with, text_eq_refl, eq_of_text_eq}
use skeino.Outputs.{is_reserved, ends_with, is_allowed}

-- A reserved channel's name begins and ends with two underscores.
abbrev pub Reserved : String → Type 0
Reserved key =
    ((rest : Text) × (codes key ≡ codes "__" ++ rest))
    × ((front : Text) × (codes key ≡ front ++ codes "__"))

abbrev pub Listed : Text → List Text → Type 0
Listed text [] = ⊥
Listed text (key ∷ keys) = (key ≡ text) ⊎ Listed text keys

-- A client may see every key of a graph without an output schema, and else the reserved channels and the
-- keys of the schema.
abbrev pub MayPass : Option (List Text) → String → Type 0
MayPass none key = Unit
MayPass (some keys) key = Reserved key ⊎ Listed (codes key) keys

-- The rest of a text after its prefix.
begins : (s t : Text) → starts_with s t ≡ true → (rest : Text) × (s ≡ t ++ rest)
unfolding starts_with
begins s [] h = (s, refl)
begins [] (d ∷ t) h = absurd (cc)
begins (c ∷ s) (d ∷ t) h = elim (Bool-cases (c == d)) [
  | inl same ↦ let (rest, e) = begins s t (rw same at h) in (rest, λ i. (==_iff c d).0 same i ∷ e i)
  | inr other ↦ let h' : false ≡ true = rw other at h in absurd (cc)
]

starts_with-append : (t rest : Text) → starts_with (t ++ rest) t ≡ true
unfolding starts_with
starts_with-append [] rest = refl
starts_with-append (c ∷ t) rest = ground (arith, starts_with-append t rest)

ended : (s t : Text) → ends_with s t ≡ true → (front : Text) × (s ≡ front ++ t)
unfolding ends_with
ended s t h =
    let (rest, e) = begins (reverse s) (reverse t) h in
    (
      reverse rest,
      sym (reverse-reverse s)
          ∙ ap reverse e
          ∙ reverse-append (reverse t) rest
          ∙ ap (λ (l : Text). reverse rest ++ l) (reverse-reverse t),
    )

ends_with-append : (front t : Text) → ends_with (front ++ t) t ≡ true
unfolding ends_with
ends_with-append front t =
    rw (reverse-append front t) (starts_with-append (reverse t) (reverse front))

both : (a b : Bool) → a && b ≡ true → (a ≡ true) × (b ≡ true)
both true b h = (refl, h)
both false b h = absurd (cc)

pub is_reserved-Reserved : (key : String) → is_reserved key ≡ true → Reserved key
unfolding is_reserved
is_reserved-Reserved key h =
    let (b, e) =
      both (starts_with (codes key) (codes "__")) (ends_with (codes key) (codes "__")) h in
    (begins (codes key) (codes "__") b, ended (codes key) (codes "__") e)

pub Reserved-is_reserved : (key : String) → Reserved key → is_reserved key ≡ true
unfolding is_reserved
Reserved-is_reserved key ((rest, e), (front, g)) =
    let b : starts_with (codes key) (codes "__") ≡ true =
      subst (λ s. starts_with s (codes "__") ≡ true) (sym e)
        (starts_with-append (codes "__") rest) in
    let f : ends_with (codes key) (codes "__") ≡ true =
      subst (λ s. ends_with s (codes "__") ≡ true) (sym g) (ends_with-append front (codes "__")) in
    λ i. b i && f i

text_elem-Listed : (text : Text) (keys : List Text) → text_elem text keys ≡ true → Listed text keys
unfolding text_elem
text_elem-Listed text [] h = absurd (cc)
text_elem-Listed text (key ∷ keys) h = elim (Bool-cases (text_eq key text)) [
  | inl same ↦ inl (eq_of_text_eq key text same)
  | inr other ↦ inr (text_elem-Listed text keys (rw other at h))
]

Listed-text_elem : (text : Text) (keys : List Text) → Listed text keys → text_elem text keys ≡ true
unfolding text_elem
Listed-text_elem text [] h = absurd h
Listed-text_elem text (key ∷ keys) (inl same) = rw same (rw (text_eq_refl text))
Listed-text_elem text (key ∷ keys) (inr later) = ground (arith, Listed-text_elem text keys later)

pub is_allowed-MayPass :
    (output_keys : Option (List Text)) (key : String)
    → is_allowed output_keys key ≡ true
    → MayPass output_keys key
unfolding is_allowed
is_allowed-MayPass none key h = tt
is_allowed-MayPass (some keys) key h = elim (Bool-cases (is_reserved key)) [
  | inl y ↦ inl (is_reserved-Reserved key y)
  | inr n ↦ inr (text_elem-Listed (codes key) keys (rw n at h))
]

pub MayPass-is_allowed :
    (output_keys : Option (List Text)) (key : String)
    → MayPass output_keys key
    → is_allowed output_keys key ≡ true
unfolding is_allowed
MayPass-is_allowed none key h = ground arith
MayPass-is_allowed (some keys) key (inl r) = rw (Reserved-is_reserved key r)
MayPass-is_allowed (some keys) key (inr l) = ground (arith, Listed-text_elem (codes key) keys l)

-- A test that answers for a predicate decides it.
pub decided :
    {P : Type 0} (test : Bool)
    → (test ≡ true → P)
    → (P → test ≡ true)
    → (P × (test ≡ true)) ⊎ ((¬ P) × (test ≡ false))
decided true f g = inl (f refl, refl)
decided false f g = inr (λ p. let h = g p in absurd (cc), refl)
