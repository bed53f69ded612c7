-- ===== src/Net/Redirect/Headers.antt =====
-- What a redirected request still carries.
use mathlib.Core.List.{Permᴰ}
use inoreader.Prelude.{
  subst, ◌≡◌, refl, sym, ◌≢◌, Bool, true, false, none, List, [], ◌∷◌, map, arith, ◌==◌, ◌!=◌,
  nat_eq, list_eq, eq_of_==, ==_refl, ==_sym, contains, All, All-map, All-map₂, Bool-cases, inl,
  inr,
}
use inoreader.Prelude.Text.{Text, codes}
use inoreader.Prelude.Url.{UrlApi}
use inoreader.Net.Policy.{origin, origin_eq, to_ascii_lowercase}
use inoreader.Net.Redirect.{
  Header, HeaderApi, sensitive_names, is_sensitive_header, Removes, filter, must_go,
  PreparedRequest, remove_each, redirected_headers, for_redirect,
}

module _ {ℓ κ} {A : Type ℓ} (P : A → Type κ) (q : A → Bool) where
  All-filter : (xs : List A) → All (λ x. q x ≡ true → P x) xs → All P (filter q xs)
  unfolding filter
  All-filter [] h = tt
  All-filter (x ∷ xs) h = elim (Bool-cases (q x)) [
    | inl kept ↦ rw kept (h.0 kept, All-filter xs h.1)
    | inr dropped ↦ rw dropped (All-filter xs h.1)
  ]

  All-filter-All : (xs : List A) → All P xs → All P (filter q xs)
  All-filter-All xs h = All-filter xs (All-map (λ x p _. p) xs h)

All-each {ℓ κ} : {A : Type ℓ} {P : A → Type κ} → ((x : A) → P x) → (xs : List A) → All P xs
All-each f [] = tt
All-each f (x ∷ xs) = (f x, All-each f xs)

All-perm {ℓ κ} : {A : Type ℓ} (P : A → Type κ) {xs ys : List A} → Permᴰ xs ys → All P ys → All P xs
All-perm P Permᴰ.nil h = tt
All-perm P (Permᴰ.cons e p) h = (subst P (sym e) h.0, All-perm P p h.1)
All-perm P (Permᴰ.swap e₁ e₂) h = (subst P (sym e₁) h.1.0, (subst P (sym e₂) h.0, h.1.1))
All-perm P (Permᴰ.trans p q) h = All-perm P p (All-perm P q h)

abbrev has_name : List Text → Header → Bool
has_name names h = contains names h.name

abbrev doomed : List Header → List Text
doomed hs = map (λ h. h.name) (filter must_go hs)

contains-doomed :
    (h : Header) (hs : List Header) (n : Text)
    → contains (doomed hs) n ≡ true
    → contains (doomed (h ∷ hs)) n ≡ true
unfolding filter contains
contains-doomed h hs n old = elim (Bool-cases (must_go h)) [
  | inl going ↦ rw (going, old) (ground arith)
  | inr staying ↦ rw staying old
]

-- Every header that must go has its name among those collected.
doomed_complete :
    (hs : List Header) → All (λ h. must_go h ≡ true → has_name (doomed hs) h ≡ true) hs
doomed_complete [] = tt
doomed_complete (h ∷ hs) = (
  λ going. unfold filter contains in rw going (rw (==_refl h.name)),
  All-map (λ x old going. contains-doomed h hs x.name (old going)) hs (doomed_complete hs),
)

abbrev pub Stripped : Header → Type 0
Stripped h =
    (contains sensitive_names (to_ascii_lowercase h.name) ≡ false)
    × (h.is_sensitive ≡ false)
    × (h.name ≢ codes "host")
    × (h.name ≢ codes "referer")

unnamed : (n : Text) (h : Header) → (h.name != n) ≡ true → h.name ≢ n
unnamed n h other same = cc (==_refl n)

abbrev Kept : Header → Type 0
Kept h = (must_go h ≡ false) × (h.name ≢ codes "host")

Stripped-Kept : (h : Header) → Kept h → h.name ≢ codes "referer" → Stripped h
unfolding must_go is_sensitive_header
Stripped-Kept h k last = (ground arith, ground arith, k.1, last)

-- A header that must go is not named `Host` and has one of the names, of which one is done.
abbrev Pending : List Text → Header → Type 0
Pending names h = (h.name ≢ codes "host") × (must_go h ≡ true → has_name names h ≡ true)

Pending-Kept : (h : Header) → Pending [] h → Kept h
unfolding contains
Pending-Kept h p = (ground (arith, p.1), p.0)

Pending-next :
    (n : Text) (names : List Text) (h : Header)
    → Pending (n ∷ names) h
    → (h.name != n) ≡ true
    → Pending names h
unfolding contains
Pending-next n names h p other = (
  p.0,
  λ going.
      let named = p.1 going in
      let differs = ==_sym h.name n in ground (arith, named, differs, other),
)

module _ (api : UrlApi) (http : HeaderApi) (law : Removes http) where
  open api use {Url}
  open http use {HeaderMap, entries, remove}

  -- What holds of the entries with another name holds after the removal of a name.
  removed-All {κ} :
      (P : Header → Type κ) (m : HeaderMap) (n : Text)
      → All (λ h. (h.name != n) ≡ true → P h) (entries m)
      → All P (entries (remove m n))
  removed-All P m n h = All-perm P (law m n) (All-filter P (λ h. h.name != n) (entries m) h)

  remove_each-All :
      (m : HeaderMap) (names : List Text)
      → All (Pending names) (entries m)
      → All Kept (entries (remove_each api http m names))
  unfolding remove_each
  remove_each-All m [] h = All-map Pending-Kept (entries m) h
  remove_each-All m (n ∷ ns) h =
      remove_each-All (remove m n) ns
        (removed-All (Pending ns) m n (All-map (Pending-next n ns) (entries m) h))

  Stripped-All : (m : HeaderMap) → All Stripped (entries (redirected_headers api http true m))
  unfolding redirected_headers
  Stripped-All m =
      let kept = remove m (codes "host") in
      let other : All (λ h. h.name ≢ codes "host") (entries kept) =
        removed-All (λ h. h.name ≢ codes "host") m (codes "host")
          (All-each (unnamed (codes "host")) (entries m)) in
      let cleared = remove_each-All kept (doomed (entries kept)) (
        All-map₂ (λ h named going. (named, going)) (entries kept) other
          (doomed_complete (entries kept))) in
      let rest = remove_each api http kept (doomed (entries kept)) in
      removed-All Stripped rest (codes "referer") (
        All-map (λ h k last. Stripped-Kept h k (unnamed (codes "referer") h last)) (entries rest)
          cleared)

  -- A redirect to another origin keeps the method, drops the body, and leaves no header that is
  -- sensitive by its name or its mark, nor a `Host` or `Referer`.
  pub for_redirect-cross_origin :
      (r : PreparedRequest api http) (next : Url)
      → origin api r.url ≢ origin api next
      → ((for_redirect api http r next).method ≡ r.method)
        × ((for_redirect api http r next).url ≡ next)
        × ((for_redirect api http r next).body ≡ none)
        × All Stripped (entries (for_redirect api http r next).headers)
  unfolding for_redirect
  for_redirect-cross_origin r next cross = elim (Bool-cases (origin api r.url == origin api next)) [
    | inl same ↦ absurd (cross (eq_of_== (origin api r.url) (origin api next) same))
    | inr other ↦ rw other (refl, refl, refl, Stripped-All r.headers)
  ]
