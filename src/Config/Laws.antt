-- ===== src/Config/Laws.antt =====
-- internal/infrastructure/config/config.go: which environments `Load` accepts.
use mathlib.Core.Path.{subst}
use multi_network_interface.Prelude.{
  ◌≡◌, refl, ◌↔◌, ◌⊎◌, inl, inr, Bool, true, false, ◌||◌, some, Bool-cases, arith,
}
use multi_network_interface.Prelude.Int.{ℤ, pos, ◌≤ℤ◌, ltb_ℤ, leb_ℤ}
use multi_network_interface.Prelude.Text.{Text, text, eqb, is_empty}
use multi_network_interface.Errors.{
  GoError, nil, is_nil, validation, ok, err, domain_type, new_error, new_validation_error,
}
use multi_network_interface.Config.{
  Config, DatabaseConfig, Parsers, get_env_or_default, fails_if, validate_database,
  validate_numbers, validate, read_database, read_config, load,
}

-- The four numbers that `Load` insists on.
abbrev pub IsUsable : {F : Type 0} → Config F → Type 0
IsUsable c =
    (pos 1 ≤ℤ c.agent.poll_interval)
    × (pos 0 ≤ℤ c.agent.max_retries)
    × (pos 1 ≤ℤ c.network.routing_table_base)
    × (pos 0 ≤ℤ c.network.route_metric)

get_env_or_default-nonempty :
    (getenv : Text → Text) (key fallback : Text)
    → is_empty fallback ≡ false
    → is_empty (get_env_or_default getenv key fallback) ≡ false
unfolding get_env_or_default
get_env_or_default-nonempty getenv key fallback h = ground arith

-- Whether an error is nil, as far as a condition holds, or else a validation error.
abbrev Verdict : Type 0 → GoError → Type 0
Verdict P e = ((e ≡ nil) × P) ⊎ ((domain_type e ≡ some validation) × (is_nil e ≡ false) × ¬ P)

fails_if-Verdict :
    {P Q : Type 0} (b : Bool) (message : Text) (rest : GoError)
    → ((b ≡ false) ↔ P)
    → Verdict Q rest
    → Verdict (P × Q) (fails_if b message rest)
unfolding fails_if new_validation_error new_error domain_type
fails_if-Verdict true message rest (to, from) h =
    inr (refl, refl, λ (p, q). absurd (let e = from p in cc))
fails_if-Verdict false message rest (to, from) (inl (e, q)) = inl (e, (to refl, q))
fails_if-Verdict false message rest (to, from) (inr (t, e, none)) = inr (t, e, λ (p, q). none q)

Verdict-map : {P Q : Type 0} {e : GoError} → (P → Q) → (Q → P) → Verdict P e → Verdict Q e
Verdict-map f g (inl (e, p)) = inl (e, f p)
Verdict-map f g (inr (t, e, none)) = inr (t, e, λ q. none (g q))

above_zero : (n : ℤ) → (leb_ℤ n (pos 0) ≡ false) ↔ (pos 1 ≤ℤ n)
above_zero n = ground arith

not_below_zero : (n : ℤ) → (ltb_ℤ n (pos 0) ≡ false) ↔ (pos 0 ≤ℤ n)
not_below_zero n = ground arith

validate_numbers-Verdict :
    {F : Type 0} (c : Config F)
    → is_empty c.health_port ≡ false
    → Verdict (IsUsable c) (validate_numbers c)
unfolding validate_numbers fails_if
validate_numbers-Verdict c h =
    let port : Verdict Unit
        (fails_if (is_empty c.health_port) (text "health check port not configured") nil) =
      rw h (inl (refl, tt)) in
    Verdict-map {Q = IsUsable c} (λ (a, (b, (m, (t, _)))). (a, b, m, t))
      (λ (a, b, m, t). (a, (b, (m, (t, tt)))))
      (fails_if-Verdict _ (text "invalid polling interval") _ (above_zero c.agent.poll_interval) (
        fails_if-Verdict _ (text "invalid max retry count") _ (not_below_zero c.agent.max_retries) (
          fails_if-Verdict _ (text "invalid routing table base") _
            (above_zero c.network.routing_table_base)
            (fails_if-Verdict _ (text "invalid routing metric") _
              (not_below_zero c.network.route_metric) port))))

validate_database-nonempty :
    (d : DatabaseConfig) (rest : GoError)
    → is_empty d.host ≡ false
    → is_empty d.port ≡ false
    → is_empty d.user ≡ false
    → is_empty d.database ≡ false
    → validate_database d rest ≡ rest
unfolding validate_database fails_if
validate_database-nonempty d rest h p u b = rw (h, p, u, b) refl

module _ (getenv : Text → Text) {F : Type 0} (parsers : Parsers F) where
  validate-Verdict :
      Verdict (IsUsable (read_config getenv parsers)) (validate (read_config getenv parsers))
  unfolding validate read_config read_database
  validate-Verdict =
      let c = read_config getenv parsers in
      let set = get_env_or_default-nonempty getenv in
      let database =
        validate_database-nonempty c.database (validate_numbers c) (set (text "DB_HOST") _ refl)
          (set (text "DB_PORT") _ refl) (set (text "DB_USER") _ refl)
          (set (text "DB_NAME") _ refl) in
      let numbers = validate_numbers-Verdict c (set (text "HEALTH_PORT") _ refl) in
      elim (Bool-cases (eqb c.agent.data_source (text "db") || is_empty c.agent.data_source)) [
        | inl db ↦ rw (db, database) numbers
        | inr other ↦ rw other numbers
      ]

  -- `Load` succeeds exactly if the poll interval and the base of the routing tables are positive
  -- and the number of retries and the metric are not negative, and otherwise returns a validation
  -- error: a text is never missing, as each that is checked has a default.
  pub load-cases :
      ((load getenv parsers ≡ ok (read_config getenv parsers))
        × IsUsable (read_config getenv parsers))
      ⊎ ((e : GoError) × (load getenv parsers ≡ err e)
          × (domain_type e ≡ some validation)
          × ¬ IsUsable (read_config getenv parsers))
  unfolding load
  load-cases = elim (validate-Verdict) [
    | inl (e, good) ↦ inl (rw e refl, good)
    | inr (t, e, bad) ↦ inr (_, rw e refl, t, bad)
  ]

  pub load-IsUsable : (c : Config F) → load getenv parsers ≡ ok c → IsUsable c
  load-IsUsable c h = elim (load-cases) [
    | inl (e, good) ↦ let same : read_config getenv parsers ≡ c = cc in subst IsUsable same good
    | inr (x, e, _, _) ↦ absurd (cc)
  ]
