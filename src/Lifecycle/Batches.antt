-- ===== src/Lifecycle/Batches.antt =====
-- What `AddEvent` and `AddEvents` of engine.go do to the channel, and a stopped engine that is
-- given an event.
use itt_engine.Prelude.{
  ◌≡◌, refl, ℕ, ◌+◌, ◌<◌, ◌≤◌, Bool, true, false, none, some, List, [], ◌∷◌, ◌++◌, map, append-nil,
  append_assoc, length, length-append, Time, Float, arith, if◌then◌else◌, Bool-cases, inl, inr,
}
use itt_engine.Event.{Event, Error, validate, normalize}
use itt_engine.Lifecycle.{
  Lifecycle, Outcome, running, start, stop, cancel, finish, send, submit, add_event, add_each,
  validate_all, add_events,
}

module _ {F : Type 0} ⦃float : Float F⦄ (capacity : ℕ) (done_first : Bool) where
  -- a batch without a bad event
  abbrev pub AllValid : List (Time × Event F) → Type 0
  AllValid [] = Unit
  AllValid ((_, ev) ∷ evs) = (validate ev ≡ none) × AllValid evs

  -- the events of a batch, with the defaults that their calls give them
  abbrev pub normalized : List (Time × Event F) → List (Event F)
  normalized evs = map (λ r. normalize r.0 r.1) evs

  add_event-running :
      (now : Time) (ev : Event F) (l : Lifecycle F)
      → validate ev ≡ none
      → running l ≡ true
      → l.cancelled ≡ false
      → length l.queue < capacity
      → add_event capacity done_first now ev l
        ≡ Outcome.ok (record l { queue = l.queue ++ (normalize now ev ∷ []) })
  unfolding add_event submit send running
  add_event-running now ev l valid runs live room = ground arith

  add_each-running :
      (evs : List (Time × Event F)) (l : Lifecycle F)
      → AllValid evs
      → running l ≡ true
      → l.cancelled ≡ false
      → length l.queue + length evs ≤ capacity
      → add_each capacity done_first evs l
        ≡ Outcome.ok (record l { queue = l.queue ++ normalized evs })
  unfolding add_each running
  add_each-running [] l valid runs live room = rw append-nil refl
  add_each-running ((now, ev) ∷ evs) l (good, valid) runs live room =
      let queued = record l { queue = l.queue ++ (normalize now ev ∷ []) } in
      ground (
        arith,
        add_event-running now ev l,
        add_each-running evs queued valid,
        length-append l.queue (normalize now ev ∷ []),
        append_assoc l.queue (normalize now ev ∷ []) (normalized evs),
      )

  validate_all-valid : (evs : List (Time × Event F)) → AllValid evs → validate_all evs ≡ none
  unfolding validate_all
  validate_all-valid [] valid = refl
  validate_all-valid ((now, ev) ∷ evs) (good, valid) = ground (arith, validate_all-valid evs valid)

  validate_all-first :
      (before : List (Time × Event F)) (now : Time) (ev : Event F) (after : List (Time × Event F))
      (err : Error)
      → AllValid before
      → validate ev ≡ some err
      → validate_all (before ++ ((now, ev) ∷ after)) ≡ some err
  unfolding validate_all
  validate_all-first [] now ev after err valid bad = ground arith
  validate_all-first ((t, e) ∷ before) now ev after err (good, valid) bad =
      ground (arith, validate_all-first before now ev after err valid bad)

  -- A batch with a bad event after valid ones is refused as a whole, with the error of that event,
  -- whatever comes after it: the engine does not change, and is not started.
  pub add_events-bad :
      (before : List (Time × Event F)) (now : Time) (ev : Event F) (after : List (Time × Event F))
      (err : Error) (l : Lifecycle F)
      → AllValid before
      → validate ev ≡ some err
      → add_events capacity done_first (before ++ ((now, ev) ∷ after)) l ≡ Outcome.failed err l
  unfolding add_events
  add_events-bad before now ev after err l valid bad =
      rw (add_events, validate_all-first before now ev after err valid bad) refl

  -- A batch of valid events, on a running engine whose context is not cancelled and whose channel has
  -- room for it, is queued in its order, after what waits, each event with the reading of the clock
  -- that its own `AddEvent` makes.
  pub add_events_lem :
      (evs : List (Time × Event F)) (l : Lifecycle F)
      → AllValid evs
      → running l ≡ true
      → l.cancelled ≡ false
      → length l.queue + length evs ≤ capacity
      → add_events capacity done_first evs l
        ≡ Outcome.ok (record l { queue = l.queue ++ normalized evs })
  unfolding add_events
  add_events_lem evs l valid runs live room =
      rw (add_events, validate_all-valid evs valid) (add_each-running evs l valid runs live room)

  -- A valid event given to an engine that `Stop` has stopped is queued, where the channel had room
  -- before, and the engine runs again: `AddEvent` after a `Stop` returns no error. It stands alone in
  -- the channel where the worker had not returned before `Stop`, which waits until the worker has
  -- emptied the channel; else it stands after what was there.
  pub add_event-stop :
      (now : Time) (ev : Event F) (l l' : Lifecycle F)
      → validate ev ≡ none
      → length l.queue < capacity
      → stop l ≡ Outcome.ok l'
      → (l'' : Lifecycle F) × (add_event capacity done_first now ev l' ≡ Outcome.ok l'')
        × (running l'' ≡ true)
        × (l''.queue ≡ (if l.working then [] else l.queue) ++ (normalize now ev ∷ []))
  unfolding stop start cancel finish add_event submit send running
  add_event-stop now ev l l' valid room stops =
      let left = if l.working then [] else l.queue in
      let fits : length left < capacity = ground arith in
      (
        record {
          started = true;
          stopped = false;
          cancelled = false;
          working = true;
          queue = left ++ (normalize now ev ∷ []);
        },
        elim (Bool-cases l.working) [ inl works ↦ ground arith | inr idle ↦ ground arith ],
        refl,
        refl,
      )
