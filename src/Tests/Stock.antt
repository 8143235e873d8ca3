-- ===== src/Tests/Stock.antt =====
-- A stock projection at concrete inputs.
use aera_be.Prelude.{◌≡◌, [], ◌∷◌, map}
use aera_be.Prelude.Int.{pos}
use aera_be.Optimizer.Projection.{PlantInputs, project}
use aera_be.Optimizer.Projection.Windows.{project-windows}

-- Ten hours of stock, and a receipt after twenty.
abbrev inputs : PlantInputs
inputs = record {
  plant = "1010";
  on_hand = pos 36000;
  rate = pos 1;
  movements =
      record { at = pos 72000000000; qty = pos 36000000; label = "PO"; source_ref = "SAP:PO" } ∷ [];
  requirements = [];
  source_refs = "SAP:stock" ∷ [];
}

project-windows_example :
    map (λ w. w.start) (project inputs (pos 0) 30).windows ≡ (project inputs (pos 0) 30).stockouts
project-windows_example = project-windows inputs (pos 0) 30
