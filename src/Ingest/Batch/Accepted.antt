-- ===== src/Ingest/Batch/Accepted.antt =====
-- Which responses a batch is made of, and how much of it is committed at once.
use mathlib.Core.List.{append-nil}
use inoreader.Prelude.{
  ℕ, ◌≤◌, ◌≡◌, refl, ◌↔◌, subst, ap, ◌∙◌, sym, Bool, true, false, ◌||◌, Option, none, some, List,
  [], ◌∷◌, ◌++◌, ◌⊎◌, inl, inr, Bool-cases, map, arith, nat_eq, list_eq, contains, ltb, length, All,
  IsDistinct, cat_options, traverse, take-drop, length-take, ok, err, >>=-eq-ok, refuse_if-ok,
  ==_sym,
}
use inoreader.Prelude.Text.{Text}
use inoreader.Ingest.Error.{parse}
use inoreader.Ingest.Batch.{Intake, PolledRecord, add_some, step, batch, split_initial}

add_some-cat_options :
    {A : Type 0} (o : Option A) (os : List (Option A))
    → add_some o (cat_options os) ≡ cat_options (o ∷ os)
add_some-cat_options none os = refl
add_some-cat_options (some a) os = refl

module _ {Url Item : Type 0} (intake : Intake Url Item) where
  open intake use {id_of, repeated}

  -- Each item's identity is new to `seen`.
  abbrev IsNewTo : List Text → List Item → Type 0
  IsNewTo seen xs = All (λ x. contains seen (id_of x) ≡ false) xs

  -- The identities differ, each item is taken in, and the records are what that gives.
  pub record IsBatch (xs : List Item) (records : List (PolledRecord Url)) : Type 0 where
    pub distinct : IsDistinct (map id_of xs)
    pub values : List (Option (PolledRecord Url))
    pub taken_in : traverse (step intake) xs ≡ ok values
    pub kept : records ≡ cat_options values

  IsNewTo-head :
      (seen : List Text) (x : Text) (xs : List Item)
      → IsNewTo (x ∷ seen) xs
      → IsNewTo seen xs × (contains (map id_of xs) x ≡ false)
  unfolding contains
  IsNewTo-head seen x [] h = (tt, refl)
  IsNewTo-head seen x (y ∷ ys) h =
      let (p, q) = IsNewTo-head seen x ys h.1 in
      ((ground arith, p), ground (arith, ==_sym x (id_of y)))

  batch-IsBatch_from :
      (seen : List Text) (xs : List Item) (records : List (PolledRecord Url))
      → batch intake seen xs ≡ ok records
      → IsNewTo seen xs × IsBatch xs records
  unfolding batch traverse
  batch-IsBatch_from seen [] records h =
      (tt, record { distinct = tt; values = []; taken_in = refl; kept = cc h })
  batch-IsBatch_from seen (x ∷ xs) records h =
      let (new_, h₁) = refuse_if-ok (contains seen (id_of x)) (parse repeated) _ h in
      let (value, took, h₂) = >>=-eq-ok (step intake x) _ h₁ in
      let (rest, there, h₃) = >>=-eq-ok (batch intake (id_of x ∷ seen) xs) _ h₂ in
      let (apart, b) = batch-IsBatch_from (id_of x ∷ seen) xs rest there in
      let (p, q) = IsNewTo-head seen (id_of x) xs apart in
      let e : add_some value rest ≡ records = cc h₃ in
      (
        (new_, p),
        record {
          distinct = (q, b.distinct);
          values = value ∷ b.values;
          taken_in = rw (took, b.taken_in) refl;
          kept = sym e ∙ (ap (add_some value) b.kept ∙ add_some-cat_options value b.values);
        },
      )

  IsNewTo-cons :
      (seen : List Text) (x : Text) (xs : List Item)
      → IsNewTo seen xs
      → contains (map id_of xs) x ≡ false
      → IsNewTo (x ∷ seen) xs
  unfolding contains
  IsNewTo-cons seen x [] h d = tt
  IsNewTo-cons seen x (y ∷ ys) h d =
      (ground (arith, ==_sym x (id_of y)), IsNewTo-cons seen x ys h.1 (ground arith))

  IsBatch-batch_from :
      (seen : List Text) (xs : List Item) (values : List (Option (PolledRecord Url)))
      → IsNewTo seen xs
      → IsDistinct (map id_of xs)
      → traverse (step intake) xs ≡ ok values
      → batch intake seen xs ≡ ok (cat_options values)
  unfolding batch traverse
  IsBatch-batch_from seen [] values new_ d h =
      let e : [] ≡ values = cc h in subst (λ v. batch intake seen [] ≡ ok (cat_options v)) e refl
  IsBatch-batch_from seen (x ∷ xs) values new_ d h =
      let (value, took, h₁) = >>=-eq-ok (step intake x) _ h in
      let (rest, there, h₂) = >>=-eq-ok (traverse (step intake) xs) _ h₁ in
      let e : value ∷ rest ≡ values = cc h₂ in
      subst (λ v. batch intake seen (x ∷ xs) ≡ ok (cat_options v)) e
        (rw
          (
            new_.0,
            took,
            IsBatch-batch_from (id_of x ∷ seen) xs rest (IsNewTo-cons seen (id_of x) xs new_.1 d.0)
                d.1 there,
          )
          (ap ok (add_some-cat_options value rest)))

  IsNewTo-none : (xs : List Item) → IsNewTo [] xs
  unfolding contains
  IsNewTo-none [] = tt
  IsNewTo-none (x ∷ xs) = (refl, IsNewTo-none xs)

  -- A response is turned into records exactly if no identity is in it twice and every item is taken
  -- in by itself; the records are then those of the items that are new or changed, in their order.
  pub batch_iff :
      (xs : List Item) (records : List (PolledRecord Url))
      → (batch intake [] xs ≡ ok records) ↔ IsBatch xs records
  batch_iff xs records = (
    λ h. (batch-IsBatch_from [] xs records h).1,
    λ b.
        IsBatch-batch_from [] xs b.values (IsNewTo-none xs) b.distinct b.taken_in
        ∙ ap ok (sym b.kept),
  )

  repeated_from :
      (seen : List Text) (xs zs : List Item) (y : Item) (values : List (Option (PolledRecord Url)))
      → IsNewTo seen xs
      → IsDistinct (map id_of xs)
      → traverse (step intake) xs ≡ ok values
      → (contains seen (id_of y) || contains (map id_of xs) (id_of y)) ≡ true
      → batch intake seen (xs ++ y ∷ zs) ≡ err (parse repeated)
  unfolding batch traverse contains
  repeated_from seen [] zs y values new_ d h twice =
      let again : contains seen (id_of y) ≡ true = ground arith in rw again refl
  repeated_from seen (x ∷ xs) zs y values new_ d h twice =
      let (value, took, h₁) = >>=-eq-ok (step intake x) _ h in
      let (rest, there, _) = >>=-eq-ok (traverse (step intake) xs) _ h₁ in
      let fails =
        repeated_from (id_of x ∷ seen) xs zs y rest (IsNewTo-cons seen (id_of x) xs new_.1 d.0) d.1
          there (ground arith) in
      rw (new_.0, took, fails) refl

  -- An identity that comes again, after items that are taken in, fails the whole response with the
  -- error of a repeated identity, whatever follows it.
  pub batch_repeated :
      (xs zs : List Item) (y : Item) (values : List (Option (PolledRecord Url)))
      → IsDistinct (map id_of xs)
      → traverse (step intake) xs ≡ ok values
      → contains (map id_of xs) (id_of y) ≡ true
      → batch intake [] (xs ++ y ∷ zs) ≡ err (parse repeated)
  unfolding contains
  batch_repeated xs zs y values d h twice =
      repeated_from [] xs zs y values (IsNewTo-none xs) d h twice

-- The records committed now and the remainder are the records in their order; all of them are
-- committed now but in the first poll, which commits at most the initial depth.
pub split_initial_lem :
    {A : Type 0} (is_initial : Bool) (depth : ℕ) (records : List A)
    → let (now, later) = split_initial is_initial depth records in
      (now ++ later ≡ records)
      × ((later ≡ []) ⊎ ((is_initial ≡ true) × (length now ≡ depth)))
      × ((is_initial ≡ false) ⊎ (length now ≤ depth))
unfolding split_initial
split_initial_lem true depth records = elim (Bool-cases (ltb depth (length records))) [
  | inl more ↦ rw more (
    take-drop depth records,
    inr (refl, ground (arith, length-take depth records)),
    inr (omega (arith, length-take depth records)),
  )
  | inr fits ↦ rw fits (append-nil records, inl refl, inr (ground arith))
]
split_initial_lem false depth records = (append-nil records, inl refl, inl refl)
