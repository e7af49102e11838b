-- ===== src/Job/Tests.antt =====
-- The theorems about runs at a job whose computation throws.
use quick_mpc.Prelude.{ℕ, ◌≡◌, refl, true, none, some}
use quick_mpc.Job.{Services, run, run_model, predict, ok}
use quick_mpc.Job.Progress.{Ends, reached, run_model-Ends, predict_lem}

abbrev failing : Services ℕ ℕ
failing = record {
  updates = λ s. true;
  read_table = some 3;
  computation = λ t. none;
  write_result = λ r. true;
}

run_model-Ends_example : Ends failing (run failing)
unfolding run_model
run_model-Ends_example = run_model-Ends true failing (run failing) refl

predict_lem_example : ((run failing).status ≡ reached failing) × (predict (some failing) ≡ ok)
predict_lem_example = predict_lem failing (λ x. refl)
