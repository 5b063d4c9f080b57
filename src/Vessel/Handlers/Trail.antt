-- ===== src/Vessel/Handlers/Trail.antt =====
-- What the audit log tells of the state and the version of a report.
use ovl.Base.{List, ◌++◌, ◌≡◌}
use ovl.Base.Dict.{Dict}
use ovl.Base.Floats.{Floats}
use ovl.Domain.Event.{Event}
use ovl.Domain.Report.{Report}
use ovl.Vessel.Handlers.{Desk}
use ovl.Vessel.Handlers.Replay.{standing_of, replay}

module _ {F : Type 0} where
  -- The entries that were appended lead from the old standing to the new one.
  abbrev pub Told : Desk F → Desk F → Type 0
  Told d d' =
      (es : List (Event F)) × (d'.trail ≡ d.trail ++ es)
      × (standing_of d'.report ≡ replay es (standing_of d.report))
