-- ===== src/Live/Service.antt =====
-- `preview` and `approve` of `ManualExecutionService`, which only touch the database.
use syn_antona.Prelude.{ℕ, String, List, if◌then◌else◌}
use syn_antona.Prelude.Actions.{Action, ◌>>=◌, ◌>>◌, return, reading}
use syn_antona.Exchange.{InstrumentRules}
use syn_antona.Live.Profile.{
  ControlledLiveProfile, FirstInstrumentSelection, ControlledRiskSnapshot, ManualOrderInputs,
  ManualExecutionPreview,
}
use syn_antona.Live.Preview.{build_manual_preview}
use syn_antona.Live.Repository as Repository
use syn_antona.Live.Repository.{Digests, state, save_preview}
use syn_antona.Live.Execution.{World, on_database, require_admin}

module _ (profile : ControlledLiveProfile) (instrument : FirstInstrumentSelection)
    (digests : Digests) where
  abbrev pub store_preview : ManualExecutionPreview → ℕ → Action World (Unit {0})
  store_preview made admin_id = do
    s ← on_database (state profile instrument digests)
    on_database (save_preview profile instrument digests made admin_id)

  unfoldable pub preview :
      List ℕ
      → ℕ
      → ManualOrderInputs
      → ControlledRiskSnapshot
      → InstrumentRules
      → String
      → ℕ
      → Action World ManualExecutionPreview
  preview admin_ids admin_id inputs risk rules proposal_id now = do
    require_admin admin_ids admin_id
    made ← reading (λ w. build_manual_preview inputs risk rules profile instrument proposal_id now)
    (if made.executable then store_preview made admin_id else return tt)
    return made

  unfoldable pub approve : List ℕ → ℕ → String → ℕ → Action World (Unit {0})
  approve admin_ids admin_id proposal_hash now = do
    require_admin admin_ids admin_id
    on_database (Repository.approve profile instrument digests proposal_hash admin_id now)
