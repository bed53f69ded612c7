-- ===== src/Ai/Stream/Cursor.antt =====
-- Each round of the scan moves the cursor by one byte.
use inoreader.Prelude.{
  ℕ, ◌+◌, ◌-◌, ◌≡◌, refl, Bool, true, false, not, ◌&&◌, Option, none, some, List, ◌++◌, ◌==◌, ◌!=◌,
  nat_eq, if◌then◌else◌, eqb, Result, ok, err, ◌>>=◌, refuse_if, ok_or,
}
use inoreader.Prelude.Text.{Text, is_ascii_whitespace, codes}
use inoreader.Ai.Pricing.{protocol}
use inoreader.Ai.Stream.{
  JsonApi, Scan, slice, in_string, between, close_object, inside, start_array, in_array, is_none,
  step, render_segment,
}

-- What holds of a result, where there is one.
abbrev pub OkAll : {E A : Type 0} → (A → Type 0) → Result E A → Type 0
OkAll P (ok a) = P a
OkAll P (err e) = Unit

module _ {E A : Type 0} (P : A → Type 0) where
  pub OkAll-if :
      (b : Bool) (x y : Result E A) → OkAll P x → OkAll P y → OkAll P (if b then x else y)
  OkAll-if true x y p q = p
  OkAll-if false x y p q = q

module _ {E A B : Type 0} (P : B → Type 0) where
  pub OkAll->>= :
      (m : Result E A) (k : A → Result E B) → ((a : A) → OkAll P (k a)) → OkAll P (m >>= k)
  OkAll->>= (ok a) k h = h a
  OkAll->>= (err e) k h = tt

-- The scan stands where `s` does.
abbrev pub IsAt : ℕ → Scan → Type 0
IsAt n t = t.cursor ≡ n

IsAt-if : (n : ℕ) (b : Bool) (s t : Scan) → IsAt n s → IsAt n t → IsAt n (if b then s else t)
IsAt-if n true s t p q = p
IsAt-if n false s t p q = q

in_string-cursor : (s : Scan) (byte : ℕ) → (in_string s byte).cursor ≡ s.cursor
unfolding in_string
in_string-cursor s byte =
    IsAt-if s.cursor s.escaped _ _ refl
      (IsAt-if s.cursor (byte == b'\\') _ _ refl (IsAt-if s.cursor (byte == b'"') _ _ refl refl))

between-cursor : (s : Scan) (position byte : ℕ) → OkAll (IsAt s.cursor) (between s position byte)
unfolding between
between-cursor s position byte =
    let P = IsAt s.cursor in
    OkAll-if P (is_ascii_whitespace byte) _ _ refl (
      OkAll-if P (byte == b']') _ _ refl (
        OkAll-if P s.separator _ _ (OkAll->>= P (refuse_if (byte != b',') protocol) _ (λ u. refl))
          (OkAll->>= P (refuse_if (byte != b'{') protocol) _ (λ u. refl))))

module _ (json : JsonApi) (article : Text) where
  close_object-cursor :
      (raw : List ℕ) (s : Scan) (start : ℕ)
      → OkAll (IsAt s.cursor) (close_object json article raw s start)
  unfolding close_object
  close_object-cursor raw s start =
      let P = IsAt s.cursor in
      OkAll->>= P (ok_or (json.segment (slice start s.cursor raw)) protocol) _
        (λ segment. OkAll->>= P (render_segment segment article) _ (λ rendered. refl))

  in_array-cursor :
      (raw : List ℕ) (s : Scan) (position byte : ℕ) (object : Option ℕ)
      → OkAll (IsAt s.cursor) (in_array json article raw s position byte object)
  unfolding inside
  in_array-cursor raw s position byte none = between-cursor s position byte
  in_array-cursor raw s position byte (some start) =
      let P = IsAt s.cursor in
      let opened : Scan = record s { depth = if byte == b'{' then s.depth + 1 else s.depth } in
      let closed : Scan = record opened { depth = opened.depth - 1 } in
      OkAll-if P (byte == b'}') _ _
        (OkAll-if P (eqb closed.depth 0) _ _ (close_object-cursor raw closed start) refl) refl

  start_array-cursor :
      (raw : List ℕ) (s : Scan) → OkAll (IsAt s.cursor) (start_array json article raw s)
  unfolding start_array
  start_array-cursor raw s =
      OkAll->>= (IsAt s.cursor)
        (ok_or (json.envelope (slice 0 s.cursor raw ++ codes "]}")) protocol) _ (λ e. refl)

  pub step-cursor :
      (raw : List ℕ) (old : Scan) (byte : ℕ)
      → OkAll (IsAt (old.cursor + 1)) (step json article raw old byte)
  unfolding step
  step-cursor raw old byte =
      let s : Scan = record old { cursor = old.cursor + 1 } in
      let P = IsAt s.cursor in
      OkAll-if P s.array_finished _ _ refl (
        OkAll-if P s.quoted _ _ (in_string-cursor s byte) (
          OkAll-if P (byte == b'"') _ _
            (OkAll->>= P (refuse_if (s.array_started && is_none s.object_start) protocol) _
              (λ u. refl))
            (OkAll-if P (not s.array_started) _ _
              (OkAll-if P (byte == b'[') _ _ (start_array-cursor raw s) refl)
              (in_array-cursor raw s old.cursor byte s.object_start))))
