-- ===== src/Transport/Events.antt =====
-- What a wait for an event returns, and that it loses no other event.
use mathlib.Core.Path.{subst}
use mathlib.Core.List.{append-nil, append_assoc}
use princess_ide.Prelude.{
  ℕ, ◌≡◌, refl, sym, ap, ◌∙◌, inl, inr, Bool, true, false, Option, none, some, List, [], ◌∷◌, ◌++◌,
  All, Option-cases, Bool-cases, Result, ok, err,
}
use princess_ide.ErrorCode.{ErrorCode}
use princess_ide.Transport.{event, Received, message, Transport, remove_named}
use princess_ide.Transport.Responses.{events_in, events_in-append, latest, latest-append}

module _ {Value : Type 0} (named : Value → Bool) where
  abbrev pub IsOther : List Value → Type 0
  IsOther es = All (λ e. named e ≡ false) es

  -- The first of some events that has the name, with the events before and after it.
  pub record First (es : List Value) (found : Value) (others : List Value) : Type 0 where
    pub before : List Value
    pub after : List Value
    pub here : named found ≡ true
    pub none_before : IsOther before
    pub all : es ≡ before ++ (found ∷ after)
    pub rest : others ≡ before ++ after

  pub First-cons :
      {es others : List Value} {found : Value} (e : Value)
      → named e ≡ false
      → First es found others
      → First (e ∷ es) found (e ∷ others)
  First-cons e other first = record {
    before = e ∷ first.before;
    after = first.after;
    here = first.here;
    none_before = (other, first.none_before);
    all = ap (λ l. e ∷ l) first.all;
    rest = ap (λ l. e ∷ l) first.rest;
  }

  -- `remove_named` by its result: the first one, or there is none.
  abbrev pub Removed : List Value → Option (Value × List Value) → Type 0
  Removed es none = IsOther es
  Removed es (some (found, others)) = First es found others

  pub remove_named-Removed : (es : List Value) → Removed es (remove_named named es)
  unfolding remove_named
  remove_named-Removed [] = tt
  remove_named-Removed (e ∷ es) = elim (Bool-cases (named e)) [
    | inl hit ↦
        rw (remove_named, hit)
          (record {
            before = [];
            after = es;
            here = hit;
            none_before = tt;
            all = refl;
            rest = refl;
          })
    | inr other ↦
        let go = remove_named-Removed es in
        elim (Option-cases (remove_named named es)) [
          | inl nothing ↦ rw (remove_named, other, nothing) (other, subst (Removed es) nothing go)
          | inr ((found, others), there) ↦
              rw (remove_named, other, there) (First-cons e other (subst (Removed es) there go))
        ]
  ]

  pub IsOther-snoc :
      (es : List Value) (e : Value) → IsOther es → named e ≡ false → IsOther (es ++ (e ∷ []))
  IsOther-snoc [] e p q = (q, tt)
  IsOther-snoc (x ∷ es) e (h, p) q = (h, IsOther-snoc es e p q)

  -- What a wait says, when `es` are the events from before and the ones it heard, and `kept` the ones
  -- that are there afterwards.
  abbrev pub Fair : List Value → List Value → Result ErrorCode (Option Value) → Type 0
  Fair es kept (ok (some found)) = First es found kept
  Fair es kept (ok none) = (kept ≡ es) × IsOther es
  Fair es kept (err code) = (kept ≡ es) × IsOther es

  -- A wait with what arrives, as one list.
  pub record Told (t : Transport Value) (arrivals : List (Received Value))
      (out : Transport Value × Result ErrorCode (Option Value)) : Type 0 where
    pub used : List (Received Value)
    pub left : List (Received Value)
    pub split : arrivals ≡ used ++ left
    pub fair : Fair (t.events ++ events_in used) out.0.events out.1
    pub early : (s : ℕ) → out.0.early s ≡ latest s used (t.early s)

  pub Told-turn :
      (t t' : Transport Value) (turn : Received Value) (arrivals : List (Received Value))
      (out : Transport Value × Result ErrorCode (Option Value))
      → t'.events ≡ t.events ++ events_in (turn ∷ [])
      → ((s : ℕ) → t'.early s ≡ latest s (turn ∷ []) (t.early s))
      → Told t' arrivals out
      → Told t (turn ∷ arrivals) out
  Told-turn t t' turn arrivals out events early told =
      let same =
        ap (λ l. l ++ events_in told.used) events
        ∙ append_assoc t.events (events_in (turn ∷ [])) (events_in told.used)
        ∙ ap (λ l. t.events ++ l) (sym (events_in-append (turn ∷ []) told.used)) in
      record {
        used = turn ∷ told.used;
        left = told.left;
        split = ap (λ l. turn ∷ l) told.split;
        fair = subst (λ l. Fair l out.0.events out.1) same told.fair;
        early = λ s.
            told.early s
            ∙ ap (latest s told.used) (early s)
            ∙ sym (latest-append s (turn ∷ []) told.used (t.early s));
      }

  -- A wait that ends without an event, after turns that carry no event and no response.
  pub Told-nothing :
      (t t' : Transport Value) (used left : List (Received Value))
      (result : Result ErrorCode (Option Value))
      → events_in used ≡ []
      → ((s : ℕ) → t'.early s ≡ latest s used (t.early s))
      → Fair t.events t'.events result
      → Told t (used ++ left) (t', result)
  Told-nothing t t' used left result nothing early fair = record {
    used = used;
    left = left;
    split = refl;
    fair =
        subst (λ l. Fair l t'.events result)
          (sym (append-nil t.events) ∙ ap (λ l. t.events ++ l) (sym nothing)) fair;
    early = early;
  }

  -- A wait that ends with an event that has just come.
  pub Told-event :
      (t : Transport Value) (e : Value) (left : List (Received Value))
      → named e ≡ true
      → IsOther t.events
      → Told t (message (event e) ∷ left) (t, ok (some e))
  Told-event t e left hit others = record {
    used = message (event e) ∷ [];
    left = left;
    split = refl;
    fair = record {
      before = t.events;
      after = [];
      here = hit;
      none_before = others;
      all = refl;
      rest = sym (append-nil t.events);
    };
    early = λ s. refl;
  }
