-- ===== src/Schedules/Platform.antt =====
-- What the scheduler takes from the JavaScript platform and from packages, as a parameter of the
-- model: Intl.DateTimeFormat (the time zone database), Date.parse, zod's formats and the schema
-- of eve's input requests. An input request is a number that stands for its JSON text.
use open_instinct.Base.{ℕ, Bool, List, Text}

-- The parts that `formatToParts` names and that the code reads.
pub data PartType : Type 0 where
  day hour minute month second weekday year : PartType

pub record Platform : Type 0 where
  -- `new Intl.DateTimeFormat("en-US", {..., timeZone}).formatToParts(new Date(at))`
  pub format_to_parts : Text → ℕ → List (PartType × Text)
  -- whether `new Intl.DateTimeFormat("en-US", { timeZone })` accepts the zone
  pub is_timezone : Text → Bool
  -- `Date.parse` of a text that `z.iso.datetime({ offset: true })` accepts, in milliseconds from
  -- the epoch; instants before the epoch are left out
  pub date_parse : Text → ℕ
  pub is_datetime : Text → Bool
  pub is_uuid : Text → Bool
  pub is_input_request : ℕ → Bool
