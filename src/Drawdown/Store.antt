-- ===== src/Drawdown/Store.antt =====
-- src/risk/drawdownStore.ts. The disk is what the state's path holds. The
-- numbers are finite here: JSON writes NaN and the infinities as null.
use opiumo.Base.{Bool, Option, false, if◌then◌else◌, is_some, some, true, ℕ, ◌&&◌, ◌==◌}
use opiumo.Drawdown.Guard.{DrawdownState, empty_state}
use opiumo.Number.{Number}
use opiumo.Platform.{Runtime, Value, number, text}

-- A parsed file: the fields that are tested, and the object that is then taken for a state.
pub record RawDrawdownState (R : Type 0) : Type 0 where
  pub version : Value
  pub day : Value
  -- `none` where it is no number
  pub total_pnl : Option R
  pub object : DrawdownState R

pub data StateFile (R : Type 0) : Type 0 where
  missing unreadable not_json : StateFile R
  parsed : RawDrawdownState R → StateFile R

pub data Refusal : Type 0 where
  cannot_be_read not_valid_json not_version_one : Refusal

pub data LoadResult (R : Type 0) : Type 0 where
  loaded : DrawdownState R → Bool → LoadResult R
  refused : Refusal → LoadResult R

abbrev is_version_one : Value → Bool
is_version_one (number v) = v == 1
is_version_one _ = false

abbrev is_text : Value → Bool
is_text (text t) = true
is_text _ = false

module _ {R : Type 0} ⦃n : Number R⦄ where
  -- The Boolean of `loaded` is `fresh`.
  unfoldable pub load_drawdown_state : Runtime → StateFile R → ℕ → LoadResult R
  load_drawdown_state r missing at = loaded (empty_state r at) true
  load_drawdown_state r unreadable at = refused cannot_be_read
  load_drawdown_state r not_json at = refused not_valid_json
  load_drawdown_state r (parsed raw) at =
      if is_version_one raw.version && is_text raw.day && is_some raw.total_pnl
      then loaded raw.object false
      else refused not_version_one

  -- The file after `saveDrawdownState`, for a state whose numbers are finite.
  unfoldable pub save_drawdown_state : DrawdownState R → StateFile R
  save_drawdown_state s = parsed (record {
    version = number s.version;
    day = text s.day;
    total_pnl = some s.total_pnl;
    object = s;
  })
