-- ===== src/Health/Laws.antt =====
-- internal/infrastructure/health/health_service.go: what the endpoint answers after any updates.
use multi_network_interface.Prelude.{
  ℕ, suc, ◌+◌, ◌≤◌, ◌≡◌, refl, sym, ap, ◌∙◌, ◌↔◌, Bool, true, false, List, [], ◌∷◌, arith,
}
use multi_network_interface.Prelude.Int.{ℤ}
use multi_network_interface.Prelude.Text.{Text, text, eqb_iff}
use multi_network_interface.Errors.{GoError}
use multi_network_interface.Health.{
  HealthService, HealthStatus, healthy, degraded, unhealthy, Answer, answer, new_health_service,
  update_db_health, increment_processed_vms, increment_failed_configs, set_network_manager, is_half,
  determine_overall_status, build_health_response, status_code, serve_http,
}

-- A call that changes the service.
pub data Update : Type 0 where
  db_health : Bool → GoError → Update
  processed_vm : Update
  failed_config : Update
  manager : Text → Update

abbrev updated : HealthService → Update → HealthService
updated h (db_health up e) = update_db_health h up e
updated h processed_vm = increment_processed_vms h
updated h failed_config = increment_failed_configs h
updated h (manager name) = set_network_manager h name

abbrev pub after : HealthService → List Update → HealthService
after h [] = h
after h (u ∷ us) = after (updated h u) us

-- The last report on the database, or the given value if there is none.
abbrev pub last_report : Bool → List Update → Bool
last_report up [] = up
last_report up (db_health b _ ∷ us) = last_report b us
last_report up (_ ∷ us) = last_report up us

abbrev pub processed_count : List Update → ℕ
processed_count [] = 0
processed_count (processed_vm ∷ us) = suc (processed_count us)
processed_count (_ ∷ us) = processed_count us

abbrev pub failed_count : List Update → ℕ
failed_count [] = 0
failed_count (failed_config ∷ us) = suc (failed_count us)
failed_count (_ ∷ us) = failed_count us

after-fields :
    (us : List Update) (h : HealthService)
    → ((after h us).db_healthy ≡ last_report h.db_healthy us)
      × ((after h us).processed_vms ≡ h.processed_vms + processed_count us)
      × ((after h us).failed_configs ≡ h.failed_configs + failed_count us)
unfolding update_db_health increment_processed_vms increment_failed_configs set_network_manager
after-fields [] h = (refl, omega arith, omega arith)
after-fields (db_health b e ∷ us) h = after-fields us (update_db_health h b e)
after-fields (processed_vm ∷ us) h =
    let (up, p, f) = after-fields us (increment_processed_vms h) in (up, omega (arith, p), f)
after-fields (failed_config ∷ us) h =
    let (up, p, f) = after-fields us (increment_failed_configs h) in (up, p, omega (arith, f))
after-fields (manager name ∷ us) h = after-fields us (set_network_manager h name)

status-unhealthy :
    (h : HealthService) → (determine_overall_status h ≡ unhealthy) ↔ (h.db_healthy ≡ false)
unfolding determine_overall_status is_half
status-unhealthy h = (λ e. ground arith, λ e. ground arith)

status-degraded :
    (h : HealthService)
    → (determine_overall_status h ≡ degraded) ↔ (
        (h.db_healthy ≡ true)
        × (1 ≤ h.processed_vms)
        × (1 ≤ h.failed_configs)
        × (h.processed_vms ≤ h.failed_configs))
unfolding determine_overall_status is_half
status-degraded h =
    (λ e. (ground arith, ground arith, ground arith, ground arith), λ e. ground arith)

code_of : Answer → ℕ
code_of (answer code r) = code
code_of _ = 405

serve_http-get :
    (now : ℤ) (h : HealthService)
    → serve_http now h (text "GET")
      ≡ answer (status_code (determine_overall_status h)) (build_health_response now h)
unfolding serve_http
serve_http-get now h = let same = (eqb_iff (text "GET") (text "GET")).1 refl in rw same refl

status_code-unhealthy : (s : HealthStatus) → status_code s ≡ 503 → s ≡ unhealthy
unfolding status_code
status_code-unhealthy healthy e = absurd (omega (arith, e))
status_code-unhealthy degraded e = absurd (omega (arith, e))
status_code-unhealthy unhealthy e = refl

pub serve_http-code :
    (now : ℤ) (h : HealthService)
    → (serve_http now h (text "GET") ≡ answer 503 (build_health_response now h))
      ↔ (h.db_healthy ≡ false)
unfolding status_code code_of
serve_http-code now h = (
  λ e. (status-unhealthy h).0 (
      status_code-unhealthy (determine_overall_status h)
        (ap code_of (sym (serve_http-get now h) ∙ e))),
  λ e.
      serve_http-get now h
      ∙ ap (λ s. answer (status_code s) (build_health_response now h)) ((status-unhealthy h).1 e),
)

-- After any updates of a new service, a GET request is answered with 503 exactly if the last report
-- on the database was bad or there was none, and the status of the response is degraded exactly if
-- the last report was good, something was processed, and at least as many configurations failed.
pub serve_http-after :
    (start now : ℤ) (us : List Update)
    → ((serve_http now (after (new_health_service start) us) (text "GET")
          ≡ answer 503 (build_health_response now (after (new_health_service start) us)))
        ↔ (last_report false us ≡ false))
      × (((build_health_response now (after (new_health_service start) us)).status ≡ degraded) ↔ (
          (last_report false us ≡ true)
          × (1 ≤ processed_count us)
          × (processed_count us ≤ failed_count us)))
unfolding new_health_service build_health_response
serve_http-after start now us =
    let h = after (new_health_service start) us in
    let (up, p, f) = after-fields us (new_health_service start) in
    let (bad, is_bad) = serve_http-code now h in
    let (mixed, is_mixed) = status-degraded h in
    (
      (λ e. sym up ∙ bad e, λ e. is_bad (up ∙ e)),
      (
        λ e.
            let (a, b, c, d) = mixed e in (sym up ∙ a, omega (arith, p, b), omega (arith, p, f, d)),
        λ (a, b, c).
            is_mixed (up ∙ a, omega (arith, p, b), omega (arith, f, b, c), omega (arith, p, f, c)),
      ),
    )
