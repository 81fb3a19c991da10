-- ===== src/Tests/Settings.antt =====
-- Configurations and lifecycles.
use griffino_go.Base.{true, false, some, [], ◌∷◌, ◌≡◌, ◌↔◌, refl}
use griffino_go.Base.Int.{ℤ, pos, IsInt64}
use griffino_go.Config.Numbers.{int_env-bounds}
use griffino_go.Base.Number.{itoa}
use griffino_go.Errors.Classified.{Classified}
use griffino_go.Errors.{ok, configuration}
use griffino_go.Config.{Config, with_defaults, config_from_env, int_env}
use griffino_go.Config.Environment.{IsConfigured, config_from_env_iff}
use griffino_go.Lifecycle.{
  Lifecycle, new_lifecycle, start, close, mark_started, mark_closed, wait_channel, released, run,
}
use griffino_go.Lifecycle.Waiting.{IsValid, new_lifecycle-IsValid, run_total, wait_channel-released}
use griffino_go.Tests.Samples.{plugin_env, settings}

config_from_env_iff_example :
    ((c : Config) × (config_from_env plugin_env ≡ ok c)) ↔ IsConfigured plugin_env
config_from_env_iff_example = config_from_env_iff plugin_env

abbrev read_settings : Config
read_settings = with_defaults (record settings { user_id = ""; rabbitmq_port = pos 5672 })

run_total_example :
    (l' : Lifecycle) × (run (start ∷ close ∷ close ∷ start ∷ close ∷ []) new_lifecycle ≡ some l')
    × IsValid l'
run_total_example =
    run_total (start ∷ close ∷ close ∷ start ∷ close ∷ []) new_lifecycle new_lifecycle-IsValid

abbrev restarted_lifecycle : Lifecycle
restarted_lifecycle = record {
  started = true;
  closed = false;
  closed_ch = 1;
  made = 2;
  shut = 0 ∷ [];
}

abbrev closed_lifecycle : Lifecycle
closed_lifecycle = record { started = false; closed = true; closed_ch = 0; made = 1; shut = 0 ∷ [] }

wait_channel-released_example : released (wait_channel new_lifecycle) restarted_lifecycle ≡ true
unfolding run mark_started mark_closed
wait_channel-released_example =
    wait_channel-released (start ∷ close ∷ start ∷ []) new_lifecycle new_lifecycle-IsValid tt refl

abbrev three : ℤ
three = pos 3

int_env-bounds_example :
    ((m : ℤ) → (int_env (λ name. "3") "REDIS_DB" (pos 0) ≡ ok m) ↔ ((m ≡ three) × IsInt64 three))
    × Classified configuration (int_env (λ name. "3") "REDIS_DB" (pos 0))
unfolding itoa
int_env-bounds_example = int_env-bounds (λ name. "3") "REDIS_DB" (pos 0) three refl
