-- ===== src/Broadcast/Fed.antt =====
-- What the consumer of one subscription of storage-core/src/broadcast.cpp has been handed, against
-- what was published since it subscribed.
use mathlib.Core.List.{append_assoc, append-nil}
use iot_devices_ledger_audit.Prelude.{
  ◌+◌, ◌%◌, ◌^◌, ◌≤◌, ◌<◌, ◌≡◌, ◌≢◌, refl, sym, ap, subst, ◌∙◌, inl, inr, true, false, List, [],
  ◌∷◌, ◌++◌, Option, none, some, length, length-append, leb, arith, Bool-cases, some_inj,
}
use iot_devices_ledger_audit.Broadcast.Subscriber.{Subscription, Item, push, next, take_item, close}
use iot_devices_ledger_audit.Broadcast.Gaps.{
  Gaps, Gaps-append, Gaps-deliver, push_closed, push_room, push_full, shift,
}

module _ {ℓ} {A : Type ℓ} where
  -- `published` is what was published while the subscription was open, `rest` what came after it was
  -- closed.
  pub record Fed (told : List A) (items : List (Item A)) (s : Subscription A) : Type ℓ where
    pub published : List A
    pub rest : List A
    pub missed : List A
    pub split : told ≡ published ++ rest
    pub gaps : Gaps published items (missed ++ s.buffer)
    pub counted : length missed ≡ s.lagged
    pub up_to_date : s.closed ≡ false → rest ≡ []

  pub late-Fed :
      (told : List A) (items : List (Item A)) (s : Subscription A) (b : A)
      → s.closed ≡ true
      → Fed told items s
      → Fed (told ++ b ∷ []) items s
  late-Fed told items s b c f = record {
    published = f.published;
    rest = f.rest ++ b ∷ [];
    missed = f.missed;
    split = ap (λ l. l ++ b ∷ []) f.split ∙ append_assoc f.published f.rest (b ∷ []);
    gaps = f.gaps;
    counted = f.counted;
    up_to_date = λ o. absurd (cc (c, o));
  }

  length-missed :
      (published : List A) (items : List (Item A)) (missed buffer : List A)
      → Gaps published items (missed ++ buffer)
      → length missed ≤ length published
  length-missed published [] missed buffer g =
      omega (arith, ap length g, length-append missed buffer)
  length-missed published (i ∷ is) missed buffer (lost, later, e, n, g) = omega (
    arith,
    ap length e,
    length-append lost (i.block ∷ later),
    length-missed later is missed buffer g,
  )

  module _ (told : List A) (items : List (Item A)) (s s' : Subscription A) (b : A)
      (few : length told + 1 < 2 ^ 64) (p : push s b ≡ some s') (f : Fed told items s) where
    all_published : s.closed ≡ false → told ≡ f.published
    all_published c = f.split ∙ ap (λ l. f.published ++ l) (f.up_to_date c) ∙ append-nil f.published

    room-Fed :
        s.closed ≡ false
        → length s.buffer < s.capacity
        → Fed (told ++ b ∷ []) items (record s { buffer = s.buffer ++ b ∷ [] })
    room-Fed c r = record {
      published = f.published ++ b ∷ [];
      rest = [];
      missed = f.missed;
      split = ap (λ l. l ++ b ∷ []) (all_published c) ∙ sym (append-nil (f.published ++ b ∷ []));
      gaps =
          subst (Gaps (f.published ++ b ∷ []) items) (append_assoc f.missed s.buffer (b ∷ []))
            (Gaps-append f.published items (f.missed ++ s.buffer) b f.gaps);
      counted = f.counted;
      up_to_date = λ _. refl;
    }

    full-Fed :
        (oldest : A) (more : List A)
        → s.closed ≡ false
        → s.buffer ≡ oldest ∷ more
        → Fed
            (told ++ b ∷ [])
            items
            (record s { buffer = more ++ b ∷ []; lagged = (s.lagged + 1) % 2 ^ 64 })
    full-Fed oldest more c e = record {
      published = f.published ++ b ∷ [];
      rest = [];
      missed = f.missed ++ oldest ∷ [];
      split = ap (λ l. l ++ b ∷ []) (all_published c) ∙ sym (append-nil (f.published ++ b ∷ []));
      gaps =
          subst (Gaps (f.published ++ b ∷ []) items) (shift f.missed s.buffer more oldest b e)
            (Gaps-append f.published items (f.missed ++ s.buffer) b f.gaps);
      counted = omega (
        arith,
        length-append f.missed (oldest ∷ []),
        f.counted,
        length-missed f.published items f.missed s.buffer f.gaps,
        ap length (all_published c),
      );
      up_to_date = λ _. refl;
    }

    push-none : s.closed ≡ false → leb s.capacity (length s.buffer) ≡ true → s.buffer ≢ []
    unfolding push
    push-none c r e = ground arith

    pub push-Fed : Fed (told ++ b ∷ []) items s'
    push-Fed = elim (Bool-cases s.closed) [
      | inl c ↦
          subst (Fed (told ++ b ∷ []) items) (some_inj (sym (push_closed s b c) ∙ p))
            (late-Fed told items s b c f)
      | inr c ↦ elim (Bool-cases (leb s.capacity (length s.buffer))) [
        | inr room ↦
            subst (Fed (told ++ b ∷ []) items) (some_inj (sym (push_room s b c (ground arith)) ∙ p))
              (room-Fed c (ground arith))
        | inl full ↦ go s.buffer c full refl
      ]
    ]
      where
        go :
            (l : List A)
            → s.closed ≡ false
            → leb s.capacity (length s.buffer) ≡ true
            → s.buffer ≡ l
            → Fed (told ++ b ∷ []) items s'
        go [] c full e = absurd (push-none c full e)
        go (o ∷ more) c full e =
            subst (Fed (told ++ b ∷ []) items)
              (some_inj (sym (push_full s b o more c (ground arith) e) ∙ p)) (full-Fed o more c e)

  take-Fed :
      (told : List A) (items : List (Item A)) (s s' : Subscription A) (b : A) (more : List A)
      → s.buffer ≡ b ∷ more
      → record s { buffer = more; lagged = 0 } ≡ s'
      → Fed told items s
      → Fed told (items ++ record { block = b; lagged = s.lagged } ∷ []) s'
  take-Fed told items s s' b more e is f =
      subst (Fed told (items ++ record { block = b; lagged = s.lagged } ∷ [])) is (record {
        published = f.published;
        rest = f.rest;
        missed = [];
        split = f.split;
        gaps =
            Gaps-deliver f.published items f.missed more (record { block = b; lagged = s.lagged })
              f.counted (subst (λ l. Gaps f.published items (f.missed ++ l)) e f.gaps);
        counted = refl;
        up_to_date = f.up_to_date;
      })

  -- The item of a call of `next`, if it gave one.
  abbrev pub items_of : Option (Item A) → List (Item A)
  items_of none = []
  items_of (some i) = i ∷ []

  next-empty :
      (s s' : Subscription A) (item : Option (Item A))
      → s.buffer ≡ []
      → next s ≡ some (item, s')
      → (s ≡ s') × (item ≡ none)
  unfolding next take_item
  next-empty s s' item e h = ground arith

  next-front :
      (s s' : Subscription A) (item : Option (Item A)) (b : A) (more : List A)
      → s.buffer ≡ b ∷ more
      → next s ≡ some (item, s')
      → (record s { buffer = more; lagged = 0 } ≡ s')
        × (item ≡ some (record { block = b; lagged = s.lagged }))
  unfolding next take_item
  next-front s s' item b more e h = ground arith

  pub next-Fed :
      (told : List A) (items : List (Item A)) (s s' : Subscription A) (item : Option (Item A))
      → next s ≡ some (item, s')
      → Fed told items s
      → Fed told (items ++ items_of item) s'
  next-Fed told items s s' item h f = go s.buffer refl
    where
      go : (l : List A) → s.buffer ≡ l → Fed told (items ++ items_of item) s'
      go [] e =
          let (is, no_item) = next-empty s s' item e h in
          subst (λ x. Fed told (items ++ items_of x) s') (sym no_item)
            (subst (λ l. Fed told l s') (sym (append-nil items)) (subst (Fed told items) is f))
      go (b ∷ more) e =
          let (is, an_item) = next-front s s' item b more e h in
          subst (λ x. Fed told (items ++ items_of x) s') (sym an_item)
            (take-Fed told items s s' b more e is f)

  pub close-Fed :
      (told : List A) (items : List (Item A)) (s : Subscription A)
      → Fed told items s
      → Fed told items (close s)
  unfolding close
  close-Fed told items s f = record {
    published = f.published;
    rest = f.rest;
    missed = f.missed;
    split = f.split;
    gaps = f.gaps;
    counted = f.counted;
    up_to_date = λ o. absurd (cc o);
  }
