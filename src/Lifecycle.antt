-- ===== src/Lifecycle.antt =====
-- The lifecycle of engine.go as one caller sees it: `Start`, `Stop`, `Running`, `AddEvent` and
-- `AddEvents`. A sending `select` that finds the channel full waits; one that finds both cases
-- ready takes either, as a parameter says.
pub mod Batches
use itt_engine.Prelude.{
  ℕ, Bool, true, false, not, ◌&&◌, ◌||◌, Option, none, some, List, [], ◌∷◌, ◌++◌, if◌then◌else◌,
  ltb, length, Time, Float,
}
use itt_engine.Event.{Event, Error, validate, normalize}

pub record Lifecycle (F : Type 0) : Type 0 where
  pub started : Bool
  pub stopped : Bool
  -- `ctx.Done()` is closed
  pub cancelled : Bool
  -- the goroutine of `worker` has not returned
  pub working : Bool
  -- what the channel holds, in order
  pub queue : List (Event F)

pub data Outcome (F : Type 0) : Type 0 where
  ok : Lifecycle F → Outcome F
  failed : Error → Lifecycle F → Outcome F
  waits : Lifecycle F → Outcome F

module _ {F : Type 0} where
  unfoldable pub running : Lifecycle F → Bool
  running l = l.started && not l.stopped

  unfoldable pub start : Lifecycle F → Outcome F
  start l =
      if l.started
      then failed Error.engine_running l
      else ok (record l { started = true; stopped = false; cancelled = false; working = true })

  -- the context that the caller of `Start` passed is cancelled
  unfoldable pub cancel : Lifecycle F → Lifecycle F
  cancel l = record l { cancelled = true }

  -- A worker whose context is done drains the channel and returns.
  unfoldable pub finish : Lifecycle F → Lifecycle F
  finish l = if l.working && l.cancelled then record l { queue = []; working = false } else l

  -- `Stop`: `wg.Wait` waits for a worker that has not returned yet
  unfoldable pub stop : Lifecycle F → Outcome F
  stop l =
      if not l.started || l.stopped
      then failed Error.engine_stopped l
      else ok (record (finish (cancel l)) { started = false; stopped = true })

  -- the `select` of `AddEvent`; `done_first` says which case it takes where both are ready
  unfoldable pub send : ℕ → Bool → Event F → Lifecycle F → Outcome F
  send capacity done_first ev l =
      if l.cancelled && (done_first || not (ltb (length l.queue) capacity))
      then failed Error.engine_stopped l
      else if ltb (length l.queue) capacity
      then ok (record l { queue = l.queue ++ (ev ∷ []) })
      else waits l

  -- the part of `AddEvent` after the automatic start
  unfoldable pub submit : ℕ → Bool → Event F → Lifecycle F → Outcome F
  submit capacity done_first ev l =
      if l.stopped then failed Error.engine_stopped l else send capacity done_first ev l

module _ {F : Type 0} ⦃float : Float F⦄ (capacity : ℕ) (done_first : Bool) where
  unfoldable pub add_event : Time → Event F → Lifecycle F → Outcome F
  add_event now ev l = elim (validate ev) [
    | some err ↦ failed err l
    | none ↦ if l.started then submit capacity done_first (normalize now ev) l else elim (start l) [
      | ok l' ↦ submit capacity done_first (normalize now ev) l'
      | failed err l' ↦ failed err l'
      | waits l' ↦ waits l'
    ]
  ]

  -- the second loop of `AddEvents`, each event with the reading of the clock that its call makes
  unfoldable pub add_each : List (Time × Event F) → Lifecycle F → Outcome F
  add_each [] l = ok l
  add_each ((now, ev) ∷ evs) l = elim (add_event now ev l) [
    | ok l' ↦ add_each evs l'
    | failed err l' ↦ failed err l'
    | waits l' ↦ waits l'
  ]

-- the first loop of `AddEvents`
unfoldable pub validate_all : {F : Type 0} ⦃float : Float F⦄ → List (Time × Event F) → Option Error
validate_all [] = none
validate_all ((_, ev) ∷ evs) = elim (validate ev) [ some err ↦ some err | none ↦ validate_all evs ]

unfoldable pub add_events :
    {F : Type 0} ⦃float : Float F⦄ → ℕ → Bool → List (Time × Event F) → Lifecycle F → Outcome F
add_events capacity done_first evs l = elim (validate_all evs) [
  | some err ↦ failed err l
  | none ↦ add_each capacity done_first evs l
]
