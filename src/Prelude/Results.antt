-- ===== src/Prelude/Results.antt =====
-- Rust's `Result` with `?` as bind, and the reading of an accepted chain.
use mathlib.Core.Path.{◌≡◌, refl, subst}
use mathlib.Core.Bool.{Bool, true, false}
use mathlib.Core.Option.{Option, none, some}
use mathlib.Core.List.{List, [], ◌∷◌, map}
use inoreader.Prelude.Lists.{All}

pub data Result {ℓ} (E A : Type ℓ) : Type ℓ where
  ok : A → Result E A
  err : E → Result E A

infixl 5 ◌>>=◌ ◌>>◌
-- `?`: an error ends the chain.
abbrev pub ◌>>=◌ {ℓ} : {E A B : Type ℓ} → Result E A → (A → Result E B) → Result E B
err e >>= next = err e
ok a >>= next = next a

abbrev pub ◌>>◌ {ℓ} : {E A B : Type ℓ} → Result E A → Result E B → Result E B
first >> second = first >>= λ _. second

-- `if bad { return Err(e) }`
abbrev pub refuse_if {ℓ} : {E : Type ℓ} → Bool → E → Result E (Unit {ℓ})
refuse_if true e = err e
refuse_if false e = ok tt

-- `ok_or`
abbrev pub ok_or {ℓ} : {E A : Type ℓ} → Option A → E → Result E A
ok_or none e = err e
ok_or (some a) e = ok a

abbrev pub unwrap_or {ℓ} : {A : Type ℓ} → Option A → A → A
unwrap_or none d = d
unwrap_or (some a) d = a

abbrev pub is_some {ℓ} : {A : Type ℓ} → Option A → Bool
is_some none = false
is_some (some a) = true

abbrev pub map_option {ℓ κ} : {A : Type ℓ} {B : Type κ} → (A → B) → Option A → Option B
map_option f none = none
map_option f (some a) = some (f a)

-- What holds of an option's value, where it has one.
abbrev pub OptionAll {ℓ κ} : {A : Type ℓ} → (A → Type κ) → Option A → Type κ
OptionAll P none = Unit
OptionAll P (some a) = P a

abbrev pub map_err {ℓ} : {E F A : Type ℓ} → (E → F) → Result E A → Result F A
map_err f (ok a) = ok a
map_err f (err e) = err (f e)

-- `collect::<Result<Vec<_>, _>>()`: the first error stops the traversal.
unfoldable pub traverse {ℓ} : {E A B : Type ℓ} → (A → Result E B) → List A → Result E (List B)
traverse f [] = ok []
traverse f (x ∷ xs) = let rest = traverse f xs in f x >>= λ y. rest >>= λ ys. ok (y ∷ ys)

-- `Option::transpose`
abbrev pub transpose {ℓ} : {E A B : Type ℓ} → (A → Result E B) → Option A → Result E (Option B)
transpose f none = ok none
transpose f (some x) = f x >>= λ y. ok (some y)

pub >>=-eq-ok {ℓ} :
    {E A B : Type ℓ} (first : Result E A) (next : A → Result E B) {b : B}
    → (first >>= next) ≡ ok b
    → (a : A) × (first ≡ ok a) × (next a ≡ ok b)
>>=-eq-ok (err e) next h = cc
>>=-eq-ok (ok a) next h = (a, refl, h)

-- `for x in xs { f(x)?; }`
unfoldable pub for_each {ℓ} :
    {E A : Type ℓ} → (A → Result E (Unit {ℓ})) → List A → Result E (Unit {ℓ})
for_each f [] = ok tt
for_each f (x ∷ xs) = let rest = for_each f xs in f x >>= λ _. rest

module _ {ℓ} {E A : Type ℓ} (f : A → Result E (Unit {ℓ})) where
  pub for_each-All : (xs : List A) → All (λ x. f x ≡ ok tt) xs → for_each f xs ≡ ok tt
  unfolding for_each
  for_each-All [] h = refl
  for_each-All (x ∷ xs) h = rw h.0 (for_each-All xs h.1)

  pub All-for_each : (xs : List A) → for_each f xs ≡ ok tt → All (λ x. f x ≡ ok tt) xs
  unfolding for_each
  All-for_each [] h = tt
  All-for_each (x ∷ xs) h =
      let (u, p, q) = >>=-eq-ok (f x) (λ _. for_each f xs) h in (p, All-for_each xs q)

-- A guard that let the chain through, and what follows it.
pub refuse_if-ok {ℓ} :
    {E A : Type ℓ} (b : Bool) (e : E) (k : Unit {ℓ} → Result E A) {a : A}
    → (refuse_if b e >>= k) ≡ ok a
    → (b ≡ false) × (k tt ≡ ok a)
refuse_if-ok true e k h = absurd (cc h)
refuse_if-ok false e k h = (refl, h)

pub map_err-ok {ℓ} :
    {E F A : Type ℓ} (f : E → F) (m : Result E A) {a : A} → map_err f m ≡ ok a → m ≡ ok a
map_err-ok f (ok b) h = cc h
map_err-ok f (err e) h = absurd (cc h)

pub ok_or-ok {ℓ} : {E A : Type ℓ} (o : Option A) (e : E) {a : A} → ok_or o e ≡ ok a → o ≡ some a
ok_or-ok none e h = absurd (cc h)
ok_or-ok (some b) e h = cc h

module _ {ℓ} {E A B : Type ℓ} where
  -- What holds of each result of `f` holds of all that the traversal collects.
  pub traverse-All {κ} :
      (f : A → Result E B) (P : B → Type κ)
      → ((x : A) (y : B) → f x ≡ ok y → P y)
      → (xs : List A) (ys : List B) → traverse f xs ≡ ok ys
      → All P ys
  unfolding traverse
  traverse-All f P each [] [] h = tt
  traverse-All f P each [] (y ∷ ys) h = absurd (cc h)
  traverse-All f P each (x ∷ xs) ys h =
      let (z, here, h₁) = >>=-eq-ok (f x) (λ z. traverse f xs >>= λ zs. ok (z ∷ zs)) h in
      let (zs, there, h₂) = >>=-eq-ok (traverse f xs) (λ zs. ok (z ∷ zs)) h₁ in
      let e : z ∷ zs ≡ ys = cc h₂ in
      subst (All P) e (each x z here, traverse-All f P each xs zs there)

  -- Reading back what `write` made of each element.
  pub traverse-map :
      (read : A → Result E B) (write : B → A) (ys : List B)
      → All (λ y. read (write y) ≡ ok y) ys
      → traverse read (map write ys) ≡ ok ys
  unfolding traverse
  traverse-map read write [] h = refl
  traverse-map read write (y ∷ ys) h = rw (h.0, traverse-map read write ys h.1)

  pub transpose-OptionAll {κ} :
      (f : A → Result E B) (P : B → Type κ)
      → ((x : A) (y : B) → f x ≡ ok y → P y)
      → (o : Option A) (r : Option B) → transpose f o ≡ ok r
      → OptionAll P r
  transpose-OptionAll f P each o none h = tt
  transpose-OptionAll f P each none (some y) h = absurd (cc h)
  transpose-OptionAll f P each (some x) (some y) h =
      let (z, here, h₁) = >>=-eq-ok (f x) (λ z. ok (some z)) h in
      let e : z ≡ y = cc h₁ in subst P e (each x z here)

  pub transpose-map_option :
      (read : A → Result E B) (write : B → A) (o : Option B)
      → OptionAll (λ y. read (write y) ≡ ok y) o
      → transpose read (map_option write o) ≡ ok o
  transpose-map_option read write none h = refl
  transpose-map_option read write (some y) h = rw h

pub ok_injective {ℓ} : {E A : Type ℓ} {a b : A} → ◌≡◌ {A = Result E A} (ok a) (ok b) → a ≡ b
ok_injective h = cc h
