-- ===== src/Tests/Status.antt =====
-- The health service after some updates.
use multi_network_interface.Prelude.{◌≤◌, ◌≡◌, ◌↔◌, true, false, List, [], ◌∷◌}
use multi_network_interface.Prelude.Int.{pos}
use multi_network_interface.Prelude.Text.{text}
use multi_network_interface.Errors.{nil}
use multi_network_interface.Health.{
  degraded, answer, new_health_service, build_health_response, serve_http,
}
use multi_network_interface.Health.Laws.{
  Update, db_health, processed_vm, failed_config, after, serve_http-after,
}

abbrev updates : List Update
updates = failed_config ∷ db_health true nil ∷ processed_vm ∷ []

serve_http-after_example :
    ((serve_http (pos 9) (after (new_health_service (pos 0)) updates) (text "GET")
        ≡ answer 503 (build_health_response (pos 9) (after (new_health_service (pos 0)) updates)))
      ↔ (true ≡ false))
    × (((build_health_response (pos 9) (after (new_health_service (pos 0)) updates)).status
          ≡ degraded)
        ↔ ((true ≡ true) × (1 ≤ 1) × (1 ≤ 1)))
serve_http-after_example = serve_http-after (pos 0) (pos 9) updates
