-- ===== src/Ingest/Delivery/Prefix.antt =====
-- What a fan-out has written when it ends.
use mathlib.Core.List.{append_assoc, append-nil}
use inoreader.Prelude.{
  ℕ, ◌≡◌, refl, sym, ap, ◌∙◌, subst, Option, none, some, List, [], ◌∷◌, ◌++◌, map, get_last?,
  get_last?-push, map_option, ok, err,
}
use inoreader.Ingest.Error.{StoreError, store}
use inoreader.Ingest.Record.{SourceRecord}
use inoreader.Ingest.Delivery.{
  DeliveryTarget, Write, Written, advance_fanout, then_write, delivery, advance, deliver_each,
  fanout,
}

map_push :
    {A B : Type 0} (f : A → B) (xs : List A) (x : A) → map f (xs ++ x ∷ []) ≡ map f xs ++ f x ∷ []
map_push f [] x = refl
map_push f (y ∷ ys) x = ap (λ zs. f y ∷ zs) (map_push f ys x)

-- The subscription of the last target.
abbrev pub last_of : List DeliveryTarget → Option ℕ
last_of targets = map_option (λ t. t.subscription_id) (get_last? targets)

abbrev pub advance_to : {Url : Type 0} → Option ℕ → List (Write Url)
advance_to none = []
advance_to (some subscription) = advance_fanout subscription ∷ []

module _ {Url : Type 0} (answer : List (Write Url) → Write Url → Option StoreError)
    (a : SourceRecord Url) (new_article : DeliveryTarget → ℕ) (now : ℕ) where
  -- All targets were served, in their order, and then the cursor was advanced to the last; or the
  -- store refused a write after the first of them, and the cursor is where it was.
  pub data IsFanout (targets : List DeliveryTarget) : Written Url → Type 0 where
    served :
        IsFanout targets
          (map (delivery a new_article now) targets ++ advance_to (last_of targets), ok tt)
    stopped :
        (before after : List DeliveryTarget) (e : StoreError)
        → before ++ after ≡ targets
        → IsFanout targets (map (delivery a new_article now) before, err (store e))

  advance-IsFanout :
      (targets : List DeliveryTarget) (last : Option ℕ)
      → last ≡ last_of targets
      → IsFanout targets (advance answer (map (delivery a new_article now) targets) last)
  unfolding advance
  advance-IsFanout targets none e =
      subst (λ ws. IsFanout targets (ws, ok tt))
        (ap (λ l. map (delivery a new_article now) targets ++ advance_to l) (sym e)
          ∙ append-nil (map (delivery a new_article now) targets))
        served
  advance-IsFanout targets (some subscription) e =
      written (answer (map (delivery a new_article now) targets) (advance_fanout subscription))
    where
      written :
          (o : Option StoreError)
          → IsFanout targets (
              then_write
                (map (delivery a new_article now) targets)
                (advance_fanout subscription)
                o
                (λ ws. (ws, ok tt)))
      written none =
          subst
            (λ l.
              IsFanout targets (map (delivery a new_article now) targets ++ advance_to l, ok tt))
            (sym e) served
      written (some x) = stopped targets [] x (append-nil targets)

  deliver_each-IsFanout :
      (before after : List DeliveryTarget)
      → IsFanout (before ++ after) (
          deliver_each answer a new_article now
            (map (delivery a new_article now) before)
            (last_of before)
            after)
  unfolding deliver_each
  deliver_each-IsFanout before [] =
      subst
        (λ ts.
          IsFanout ts (advance answer (map (delivery a new_article now) before) (last_of before)))
        (sym (append-nil before)) (advance-IsFanout before (last_of before) refl)
  deliver_each-IsFanout before (t ∷ ts) =
      written (deliver_each-IsFanout (before ++ t ∷ []) ts)
        (answer (map (delivery a new_article now) before) (delivery a new_article now t))
    where
      written :
          IsFanout ((before ++ t ∷ []) ++ ts) (
            deliver_each answer a new_article now
              (map (delivery a new_article now) (before ++ t ∷ []))
              (last_of (before ++ t ∷ []))
              ts)
          → (o : Option StoreError)
          → IsFanout (before ++ t ∷ ts) (
              then_write
                (map (delivery a new_article now) before)
                (delivery a new_article now t)
                o
                (λ ws. deliver_each answer a new_article now ws (some t.subscription_id) ts))
      written rest (some e) = stopped before (t ∷ ts) e refl
      written rest none =
          let f = delivery a new_article now in
          let longer = before ++ t ∷ [] in
          subst
            (λ l.
              IsFanout (before ++ t ∷ ts)
                (deliver_each answer a new_article now (map f before ++ f t ∷ []) l ts))
            (ap (map_option (λ (u : DeliveryTarget). u.subscription_id)) (get_last?-push before t))
            (subst
              (λ ws.
                IsFanout (before ++ t ∷ ts)
                  (deliver_each answer a new_article now ws (last_of longer) ts))
              (map_push f before t)
              (subst
                (λ us.
                  IsFanout us
                    (deliver_each answer a new_article now (map f longer) (last_of longer) ts))
                (append_assoc before (t ∷ []) ts) rest))

  -- A fan-out either serves every target in order and then advances the cursor to the last one, or
  -- ends in an error of the store after serving the first targets, and leaves the cursor.
  pub fanout-IsFanout :
      (targets : List DeliveryTarget)
      → IsFanout targets (fanout answer (ok a) (ok targets) new_article now)
  unfolding fanout
  fanout-IsFanout targets = deliver_each-IsFanout [] targets
