-- ===== src/Vuln/Osv/Interval.antt =====
-- `matchRange` of app/vuln/osv.go against the intervals that its events describe.
use deploy_witness_cli.Prelude.{
  ◌≡◌, refl, sym, ap, ◌∙◌, inl, inr, Bool, true, false, not, ◌&&◌, ◌||◌, List, [], ◌∷◌, arith,
  Bool-cases, any, Text, codes, text_eq, is_empty,
}
use deploy_witness_cli.Vuln.Osv.{
  match_range, Range, Event, Compare, is_negative, walk_event, walk_events,
}

-- An interval of versions: the first that is affected, and the first that is not any more.
pub record Interval : Type 0 where
  pub from : Text
  pub until : Text

abbrev introduction : Text → Event
introduction x = record { introduced = x; fixed = []; last_affected = []; limit = [] }

abbrev correction : Text → Event
correction x = record { introduced = []; fixed = x; last_affected = []; limit = [] }

-- The two events of an interval.
unfoldable pub events_of : List Interval → List Event
events_of [] = []
events_of (i ∷ is) = introduction i.from ∷ correction i.until ∷ events_of is

-- A version is not before the bound; the bound `0` is before every version.
unfoldable pub reaches : Compare → Text → Text → Bool
reaches cmp version bound = text_eq bound (codes "0") || not (is_negative (cmp version bound))

unfoldable pub inside : Compare → Text → Interval → Bool
inside cmp version i = reaches cmp version i.from && is_negative (cmp version i.until)

-- A bound that may follow another one: it is not `0`, and the version is before it if it is before the
-- one that precedes it.
unfoldable pub follows : Compare → Text → Text → Text → Bool
follows cmp version before bound =
    not (is_empty bound)
    && (not (text_eq bound (codes "0"))
        && (not (is_negative (cmp version before)) || is_negative (cmp version bound)))

unfoldable pub placed_from : Compare → Text → Text → List Interval → Bool
placed_from cmp version before [] = true
placed_from cmp version before (i ∷ is) =
    follows cmp version before i.from
    && (follows cmp version i.from i.until && placed_from cmp version i.until is)

-- Intervals with two bounds each, of which only those of the first may be `0`, in an order that the
-- version can be placed in: from the end of the first interval on, where it is before a bound, it is
-- before the next one too.
unfoldable pub placed : Compare → Text → List Interval → Bool
placed cmp version [] = true
placed cmp version (i ∷ is) =
    not (is_empty i.from) && (not (is_empty i.until) && placed_from cmp version i.until is)

-- The two rounds of an interval.
unfoldable pub walk_interval : Compare → Text → Bool × Text → Interval → Bool × Text
walk_interval cmp v state i =
    (is_negative (cmp v i.until) && (reaches cmp v i.from || state.0), i.until)

walk_introduced :
    (cmp : Compare) (v x f : Text) (b : Bool)
    → is_empty x ≡ false
    → walk_event cmp v (b, f) (introduction x) ≡ (reaches cmp v x || b, f)
unfolding walk_event reaches
walk_introduced cmp v x f b n =
    elim (Bool-cases (text_eq x (codes "0") || not (is_negative (cmp v x)))) [
      | inl r ↦ rw (n, r) refl
      | inr r ↦ rw (n, r) refl
    ]

walk_fixed :
    (cmp : Compare) (v x f : Text) (b : Bool)
    → is_empty x ≡ false
    → walk_event cmp v (b, f) (correction x) ≡ (is_negative (cmp v x) && b, x)
unfolding walk_event
walk_fixed cmp v x f b n = elim (Bool-cases (is_negative (cmp v x))) [
  | inl r ↦ rw (n, r) refl
  | inr r ↦ rw (n, r) refl
]

walk-events_of :
    (cmp : Compare) (v : Text) (state : Bool × Text) (i : Interval) (is : List Interval)
    → is_empty i.from ≡ false
    → is_empty i.until ≡ false
    → walk_events cmp v state (events_of (i ∷ is))
      ≡ walk_events cmp v (walk_interval cmp v state i) (events_of is)
unfolding walk_events events_of walk_interval
walk-events_of cmp v (b, f) i is n m =
    ap (λ p. walk_events cmp v (walk_event cmp v p (correction i.until)) (events_of is))
      (walk_introduced cmp v i.from f b n)
    ∙ ap (λ p. walk_events cmp v p (events_of is))
        (walk_fixed cmp v i.until f (reaches cmp v i.from || b) m)

-- A version before a bound stays as it is over the intervals that follow, and is before their fix.
walk_far :
    (cmp : Compare) (v : Text) (b : Bool) (bound : Text) (is : List Interval)
    → is_negative (cmp v bound) ≡ true
    → placed_from cmp v bound is ≡ true
    → ((walk_events cmp v (b, bound) (events_of is)).0 ≡ b)
      × (is_negative (cmp v (walk_events cmp v (b, bound) (events_of is)).1) ≡ true)
unfolding walk_events events_of placed_from follows walk_interval reaches
walk_far cmp v b bound [] h a = (refl, h)
walk_far cmp v b bound (i ∷ is) h a =
    let from : is_negative (cmp v i.from) ≡ true = ground (arith, h, a) in
    let until : is_negative (cmp v i.until) ≡ true = ground (arith, from, a) in
    let z : text_eq i.from (codes "0") ≡ false = ground (arith, a) in
    let s : walk_interval cmp v (b, bound) i ≡ (b, i.until) = rw (until, z, from) refl in
    let ih = walk_far cmp v b i.until is until (ground (arith, a)) in
    let w =
      walk-events_of cmp v (b, bound) i is (ground (arith, a)) (ground (arith, a))
      ∙ ap (λ p. walk_events cmp v p (events_of is)) s in
    (ap (λ p. p.0) w ∙ ih.0, ap (λ p. is_negative (cmp v p.1)) w ∙ ih.1)

placed_later :
    (cmp : Compare) (v bound : Text) (is : List Interval)
    → placed_from cmp v bound is ≡ true
    → placed cmp v is ≡ true
unfolding placed placed_from follows
placed_later cmp v bound [] a = refl
placed_later cmp v bound (i ∷ is) a = ground (arith, a)

-- From a state that is not affected, the walk finds the interval that the version is in, if any.
walk_from :
    (cmp : Compare) (v : Text) (is : List Interval)
    → placed cmp v is ≡ true
    → (f : Text) → (walk_events cmp v (false, f) (events_of is)).0 ≡ any (inside cmp v) is
unfolding walk_events events_of placed walk_interval inside
walk_from cmp v [] a f = refl
walk_from cmp v (i ∷ is) a f =
    let w = walk-events_of cmp v (false, f) i is (ground (arith, a)) (ground (arith, a)) in
    elim (Bool-cases (is_negative (cmp v i.until) && reaches cmp v i.from)) [
      | inl r ↦
          let until : is_negative (cmp v i.until) ≡ true = ground (arith, r) in
          let from : reaches cmp v i.from ≡ true = ground (arith, r) in
          let s : walk_interval cmp v (false, f) i ≡ (true, i.until) = rw (until, from) refl in
          let far = walk_far cmp v true i.until is until (ground (arith, a)) in
          ap (λ p. p.0) w
          ∙ (ap (λ p. (walk_events cmp v p (events_of is)).0) s ∙ (far.0 ∙ rw (until, from) refl))
      | inr r ↦
          let no : (is_negative (cmp v i.until) && (reaches cmp v i.from || false)) ≡ false =
            ground (arith, r) in
          let out : inside cmp v i ≡ false = ground (arith, r) in
          let s : walk_interval cmp v (false, f) i ≡ (false, i.until) = ap (λ x. (x, i.until)) no in
          let ih = walk_from cmp v is (placed_later cmp v i.until is (ground (arith, a))) i.until in
          ap (λ p. p.0) w ∙ (ap (λ p. (walk_events cmp v p (events_of is)).0) s ∙ rw out ih)
    ]

-- Where the walk ends affected, the version is before the fix that the walk ends with.
walk_fix :
    (cmp : Compare) (v : Text) (is : List Interval)
    → placed cmp v is ≡ true
    → (f : Text) → (walk_events cmp v (false, f) (events_of is)).0 ≡ true
    → is_negative (cmp v (walk_events cmp v (false, f) (events_of is)).1) ≡ true
unfolding walk_events events_of placed walk_interval
walk_fix cmp v [] a f h = cc h
walk_fix cmp v (i ∷ is) a f h =
    let w = walk-events_of cmp v (false, f) i is (ground (arith, a)) (ground (arith, a)) in
    elim (Bool-cases (is_negative (cmp v i.until) && reaches cmp v i.from)) [
      | inl r ↦
          let until : is_negative (cmp v i.until) ≡ true = ground (arith, r) in
          let from : reaches cmp v i.from ≡ true = ground (arith, r) in
          let s : walk_interval cmp v (false, f) i ≡ (true, i.until) = rw (until, from) refl in
          let far = walk_far cmp v true i.until is until (ground (arith, a)) in
          ap (λ p. is_negative (cmp v p.1)) w
          ∙ (ap (λ p. is_negative (cmp v (walk_events cmp v p (events_of is)).1)) s ∙ far.1)
      | inr r ↦
          let no : (is_negative (cmp v i.until) && (reaches cmp v i.from || false)) ≡ false =
            ground (arith, r) in
          let s : walk_interval cmp v (false, f) i ≡ (false, i.until) = ap (λ x. (x, i.until)) no in
          let e = w ∙ ap (λ p. walk_events cmp v p (events_of is)) s in
          let ih =
            walk_fix cmp v is (placed_later cmp v i.until is (ground (arith, a))) i.until
              (sym (ap (λ p. p.0) e) ∙ h) in
          ap (λ p. is_negative (cmp v p.1)) e ∙ ih
    ]

-- The range that intervals make.
abbrev pub range_of : Text → List Interval → Range
range_of type is = record { type = type; events = events_of is }

-- A range whose events make intervals matches a version exactly if the version is inside one of them,
-- where each interval has two bounds, no bound after those of the first interval is `0`, and the
-- version, from the end of the first interval on, is before every bound that comes after one that it is
-- before.
pub match_range-inside :
    (cmp : Compare) (type v : Text) (is : List Interval)
    → placed cmp v is ≡ true
    → (match_range cmp (range_of type is) v).0 ≡ any (inside cmp v) is
unfolding match_range
match_range-inside cmp type v is a = walk_from cmp v is a []

-- A version that such a range matches is before the fix that is reported for it.
pub match_range_fix :
    (cmp : Compare) (type v : Text) (is : List Interval)
    → placed cmp v is ≡ true
    → any (inside cmp v) is ≡ true
    → is_negative (cmp v (match_range cmp (range_of type is) v).1) ≡ true
unfolding match_range
match_range_fix cmp type v is a h = walk_fix cmp v is a [] (match_range-inside cmp type v is a ∙ h)
