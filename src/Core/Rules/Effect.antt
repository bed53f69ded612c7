-- ===== src/Core/Rules/Effect.antt =====
-- What a valid rule matches, in terms of where its phrase stands, and what it does to a state.
use inoreader.Prelude.{
  ◌≡◌, refl, ap, sym, ◌∙◌, ◌↔◌, ◌⊎◌, inl, inr, true, not, ◌&&◌, ◌||◌, Option, List, [], ◌∷◌, ◌++◌,
  arith, any, ok, Bool-cases, eqb_iff, eqb, &&-eq_true, nat_eq, list_eq,
}
use inoreader.Prelude.Text.{Text, starts_with, contains_text}
use inoreader.Core.Article.{ArticleState}
use inoreader.Core.Rules.{
  Rule, RuleField, title, text, both, validate, check_needles, matches, in_field, or_empty, apply,
}

-- The phrase stands somewhere in the text.
abbrev pub Occurs : Text → Text → Type 0
Occurs n hay = (before : Text) × (after : Text) × (hay ≡ before ++ (n ++ after))

abbrev IsPrefixOf : Text → Text → Type 0
IsPrefixOf n s = (after : Text) × (s ≡ n ++ after)

starts_with_sound : (s n : Text) → starts_with s n ≡ true → IsPrefixOf n s
unfolding starts_with
starts_with_sound s [] h = (s, refl)
starts_with_sound [] (p ∷ ps) h = absurd (cc h)
starts_with_sound (c ∷ s) (p ∷ ps) h =
    let (same, rest) = &&-eq_true (eqb c p) (starts_with s ps) h in
    let (after, e) = starts_with_sound s ps rest in (after, cc ((eqb_iff c p).0 same, e))

starts_with-append : (n after : Text) → starts_with (n ++ after) n ≡ true
unfolding starts_with
starts_with-append [] after = refl
starts_with-append (p ∷ ps) after = rw ((eqb_iff p p).1 refl) (starts_with-append ps after)

contains_text_sound : (hay n : Text) → contains_text hay n ≡ true → Occurs n hay
unfolding contains_text
contains_text_sound [] n h = let (after, e) = starts_with_sound [] n h in ([], after, e)
contains_text_sound (c ∷ s) n h = elim (Bool-cases (starts_with (c ∷ s) n)) [
  | inl here ↦ let (after, e) = starts_with_sound (c ∷ s) n here in ([], after, e)
  | inr later ↦
      let (before, after, e) = contains_text_sound s n (ground arith) in
      (c ∷ before, after, ap (λ (t : Text). c ∷ t) e)
]

Occurs-contains_text : (before n after : Text) → contains_text (before ++ (n ++ after)) n ≡ true
unfolding contains_text
Occurs-contains_text [] n after = contains_text-prefix (n ++ after) n (starts_with-append n after)
  where
    contains_text-prefix : (s m : Text) → starts_with s m ≡ true → contains_text s m ≡ true
    contains_text-prefix [] m h = h
    contains_text-prefix (c ∷ s) m h = rw h
Occurs-contains_text (c ∷ before) n after = rw (Occurs-contains_text before n after) (ground arith)

-- Where a rule looks for its phrase.
abbrev pub OccursIn : RuleField → Text → Text → Text → Type 0
OccursIn title n title_ text_ = Occurs n title_
OccursIn text n title_ text_ = Occurs n text_
OccursIn both n title_ text_ = Occurs n title_ ⊎ Occurs n text_

in_field-OccursIn :
    (f : RuleField) (n title_ text_ : Text)
    → in_field f title_ text_ n ≡ true
    → OccursIn f n title_ text_
unfolding in_field
in_field-OccursIn title n title_ text_ h = contains_text_sound title_ n h
in_field-OccursIn text n title_ text_ h = contains_text_sound text_ n h
in_field-OccursIn both n title_ text_ h = elim (Bool-cases (contains_text title_ n)) [
  | inl found ↦ inl (contains_text_sound title_ n found)
  | inr absent ↦ inr (contains_text_sound text_ n (ground arith))
]

found : (n hay : Text) → Occurs n hay → contains_text hay n ≡ true
found n hay (before, after, e) = rw e (Occurs-contains_text before n after)

OccursIn-in_field :
    (f : RuleField) (n title_ text_ : Text)
    → OccursIn f n title_ text_
    → in_field f title_ text_ n ≡ true
unfolding in_field
OccursIn-in_field title n title_ text_ h = found n title_ h
OccursIn-in_field text n title_ text_ h = found n text_ h
OccursIn-in_field both n title_ text_ (inl h) = rw (found n title_ h)
OccursIn-in_field both n title_ text_ (inr h) = rw (found n text_ h) (ground arith)

one_needle : (ns : List Text) → check_needles ns ≡ ok tt → (n : Text) × (ns ≡ n ∷ [])
unfolding check_needles
one_needle [] h = absurd (cc h)
one_needle (n ∷ []) h = (n, refl)
one_needle (n ∷ m ∷ ns) h = absurd (cc h)

module _ (to_lowercase : Text → Text) where
  matches-one :
      (r : Rule) (n title_ : Text) (text_ : Option Text)
      → r.needles ≡ n ∷ []
      → matches to_lowercase r title_ text_ ≡ (
          r.enabled
          && in_field r.field
              (to_lowercase title_)
              (to_lowercase (or_empty text_))
              (to_lowercase n))
  unfolding matches any
  matches-one r n title_ text_ e = ground arith

  -- A rule that passes `validate` has one phrase, and it matches an article exactly if it is
  -- enabled and that phrase stands in the field that the rule names, both in lowercase.
  pub matches_iff :
      (r : Rule) (title_ : Text) (text_ : Option Text)
      → validate r ≡ ok tt
      → (n : Text) × (r.needles ≡ n ∷ [])
        × ((matches to_lowercase r title_ text_ ≡ true) ↔ (
            (r.enabled ≡ true)
            × OccursIn r.field
                (to_lowercase n)
                (to_lowercase title_)
                (to_lowercase (or_empty text_))))
  unfolding validate
  matches_iff r title_ text_ valid =
      let (n, e) = one_needle r.needles valid in
      (
        n,
        e,
        (
          λ h.
              let (on, here) =
                &&-eq_true r.enabled
                  (in_field r.field (to_lowercase title_) (to_lowercase (or_empty text_))
                    (to_lowercase n))
                  (sym (matches-one r n title_ text_ e) ∙ h) in
              (
                on,
                in_field-OccursIn r.field (to_lowercase n) (to_lowercase title_)
                    (to_lowercase (or_empty text_)) here,
              ),
          λ (on, here).
              rw (matches-one r n title_ text_ e, on)
                (OccursIn-in_field r.field (to_lowercase n) (to_lowercase title_)
                  (to_lowercase (or_empty text_)) here),
        ),
      )

-- Applying a rule changes the read mark alone: it sets it unless the article is protected, and
-- applying the rule again changes nothing more.
apply_lem :
    (r : Rule) (s : ArticleState)
    → (apply r s ≡ record s { read = s.read || not s.protect_unread })
      × (apply r (apply r s) ≡ apply r s)
unfolding apply
apply_lem r s = (ground arith, ground arith)
