-- ===== src/Event.antt =====
-- types.go and errors.go: events, their validation and their defaults. The metadata of an event is
-- read nowhere, and is left out.
use itt_engine.Prelude.{
  false, Option, none, some, if◌then◌else◌, ◌==◌, Str, Str-discrete, ite, [], Time, Float, ◌≡◌, ◌≢◌,
  arith,
}

pub record Event (F : Type 0) : Type 0 where
  pub source : Str
  pub target : Str
  pub type : Str
  pub weight : F
  pub timestamp : Time

pub data Error : Type 0 where
  empty_source empty_target negative_weight : Error
  engine_stopped engine_running snapshot_closed : Error
  node_not_found edge_not_found invalid_config : Error

module _ {F : Type 0} ⦃float : Float F⦄ where
  -- `none` is the nil error
  unfoldable pub validate : Event F → Option Error
  validate e = ite (Str-discrete e.source []) (some Error.empty_source) (
      ite (Str-discrete e.target []) (some Error.empty_target)
        (if float.lt e.weight float.nought then some Error.negative_weight else none))

  unfoldable pub normalize : Time → Event F → Event F
  normalize now e = record e {
    weight = if float.eq e.weight float.nought then float.one else e.weight;
    timestamp = if e.timestamp == 0 then now else e.timestamp;
  }

  -- An accepted event has both its endpoints named. Where 1 is not negative and the clock does not
  -- show the zero time, normalising it leaves an event that is accepted and has a time.
  pub validate-normalize :
      (now : Time) (e : Event F)
      → float.lt float.one float.nought ≡ false
      → now ≢ 0
      → validate e ≡ none
      → (e.source ≢ [])
        × (e.target ≢ [])
        × (validate (normalize now e) ≡ none)
        × ((normalize now e).timestamp ≢ 0)
  unfolding validate normalize
  validate-normalize now e one running ok = (ground arith, ground arith, ground arith, ground arith)
