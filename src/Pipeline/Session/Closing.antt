-- ===== src/Pipeline/Session/Closing.antt =====
-- How a run ends, whatever its collaborators raise.
use sci_etl_core.Prelude.{List, [], ◌∷◌, none, some, ◌≡◌, ◌⊎◌}
use sci_etl_core.Pipeline.Run.{Limits, Run}
use sci_etl_core.Pipeline.Run.Limit.{IsSound, IsCounted}
use sci_etl_core.Pipeline.Session.{
  Faults, Step, exporter_opened, pages_run, exporter_flushed, exporter_closed, state_flushed,
  not_opened, pages_failed, not_closed, not_flushed, Result, returns, raises, close_exporter, Ended,
}

-- The calls of a run: the state is flushed last, and an exporter that was opened is flushed and closed
-- before that.
unfoldable pub IsClosed : List Step → Type 0
IsClosed steps =
    (steps ≡ exporter_opened ∷ state_flushed ∷ [])
    ⊎ (steps
        ≡ exporter_opened ∷ pages_run ∷ exporter_flushed ∷ exporter_closed ∷ state_flushed ∷ [])

-- What a result says of the run: a count is exact and comes without any fault, a failure of the pages
-- is raised as it was.
unfoldable pub IsTold : Limits → Faults → Run → Result → Type 0
IsTold l f s (returns n) =
    (n ≡ s.total_processed)
    × IsCounted l n s.log
    × (f.exporter_open ≡ none)
    × (f.exporter_flush ≡ none)
    × (f.exporter_close ≡ none)
    × (f.state_flush ≡ none)
IsTold l f s (raises (not_opened e)) = f.exporter_open ≡ some e
IsTold l f s (raises (pages_failed status n)) = (n ≡ s.total_processed) × IsSound l s status
IsTold l f s (raises (not_closed e)) =
    IsCounted l s.total_processed s.log × (close_exporter f ≡ some e) × (f.state_flush ≡ none)
IsTold l f s (raises (not_flushed e)) =
    IsCounted l s.total_processed s.log × (f.state_flush ≡ some e)

-- A run that has ended.
unfoldable pub IsEnded : Limits → Faults → Ended → Type 0
IsEnded l f r = IsTold l f r.at_end r.result × IsClosed r.steps
