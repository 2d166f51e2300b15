-- ===== src/Timescale/Batcher/Rounds.antt =====
-- One round of the worker, by what the `select` saw.
use formulatel.Common.{◌≡◌, ◌∙◌, ap, ◌⊎◌, inl, inr, true, false, none, some, ◌∷◌, [], ◌++◌}
use formulatel.Telemetry.{GameTelemetry, HistoricLapData, get_lap_times_data}
use formulatel.Timescale.Batcher.{
  Worker, running, stopped, crashed, deadlocked, Event, tick, message, build_row_for_copy, flush,
  on_event, on_message, buffer_row, when_running, step,
}

module _ (w : Worker) where
  pub step-running : (e : Event) → w.status ≡ running → step w e ≡ on_event e w
  unfolding step
  step-running e runs = ap (λ s. when_running s e w) runs

  pub step-tick : w.status ≡ running → step w tick ≡ flush w
  unfolding step
  step-tick runs = ap (λ s. when_running s tick w) runs

  pub step-lap :
      (msg : GameTelemetry) (lap : HistoricLapData)
      → w.status ≡ running
      → get_lap_times_data msg ≡ some lap
      → step w (message msg) ≡ record w { lap_writes = w.lap_writes ++ msg ∷ [] }
  unfolding on_event on_message
  step-lap msg lap runs e = step-running (message msg) runs ∙ rw (e, on_message)

  pub step-row :
      (msg : GameTelemetry)
      → w.status ≡ running
      → w.locked ≡ false
      → get_lap_times_data msg ≡ none
      → step w (message msg) ≡ buffer_row w (build_row_for_copy msg w.table_name)
  unfolding on_event on_message
  step-row msg runs unlocked e =
      step-running (message msg) runs ∙ simp (e, on_message) (simp unlocked)

  pub step_waits :
      (msg : GameTelemetry)
      → w.status ≡ running
      → w.locked ≡ true
      → get_lap_times_data msg ≡ none
      → step w (message msg) ≡ record w { status = deadlocked }
  unfolding on_event on_message
  step_waits msg runs locked e =
      step-running (message msg) runs ∙ simp (e, on_message) (simp locked)

  -- A worker that has returned or crashed does nothing.
  pub step_idle : (e : Event) → (w.status ≡ stopped) ⊎ (w.status ≡ crashed) → step w e ≡ w
  unfolding step
  step_idle e (inl s) = ap (λ s. when_running s e w) s
  step_idle e (inr s) = ap (λ s. when_running s e w) s
