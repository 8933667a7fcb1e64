-- ===== src/Exporter/Health.antt =====
-- `build_report` and `write_prometheus` of scripts/operations/health_report.py, from the values that the
-- files hold on: none is a file that cannot be read or that holds no JSON.
use ito.Prelude.{
  ℕ, Bool, true, false, not, ◌&&◌, Option, none, some, List, [], ◌∷◌, ◌++◌, map, Result, ok, err,
  ◌>>=◌, if◌then◌else◌, one_if, any, length,
}
use ito.Prelude.Int.{pos}
use ito.Prelude.Dict.{Dict, lookup, get_or}
use ito.Prelude.Text.{Text, codes, beq, text_eq, show}
use ito.Exporter.Json.{
  Json, null, bool, int, str, arr, obj, elems, members, strings, is_text, is_true, is_truthy,
  str_of,
}

-- `type_error` is that of an id that cannot be hashed, `key_error` that of a missing key.
pub data HealthError : Type 0 where
  invalid_json invalid_readiness type_error key_error : HealthError

abbrev pub local_ids : List Text
local_ids =
    codes "GATE-SW-001"
    ∷ codes "GATE-SW-002"
    ∷ codes "GATE-SW-003"
    ∷ codes "GATE-SW-004"
    ∷ codes "GATE-HW-001"
    ∷ codes "GATE-OPS-001"
    ∷ codes "GATE-SEC-003"
    ∷ codes "GATE-SEC-004"
    ∷ codes "GATE-OPS-003"
    ∷ codes "GATE-OPS-004"
    ∷ codes "GATE-OPS-005"
    ∷ []

abbrev pub is_local : Text → Bool
is_local text = any (beq text) local_ids

-- `gate.get("id") in local_ids`
abbrev pub has_local_id : Json → Result HealthError Bool
has_local_id (str text) = ok (is_local text)
has_local_id (arr values) = err type_error
has_local_id (obj values) = err type_error
has_local_id _ = ok false

abbrev pub join : List Text → Text
join [] = []
join (line ∷ []) = line
join (line ∷ next ∷ lines) = line ++ (b'\n' ∷ join (next ∷ lines))

-- `not texts`
abbrev pub is_none : List Text → Bool
is_none [] = true
is_none (text ∷ texts) = false

abbrev pub Gate : Type 0
Gate = Dict Text Json

abbrev pub id_of : Gate → Json
id_of gate = get_or (lookup (codes "id") gate) null

abbrev pub is_open : Gate → Bool
is_open gate = not (is_true (lookup (codes "implemented") gate))

-- `isinstance(gate, dict)` keeps the dicts of a list.
abbrev pub dicts : List Json → List Gate
dicts [] = []
dicts (obj values ∷ rest) = members values ∷ dicts rest
dicts (_ ∷ rest) = dicts rest

-- A row with a number, `f"{name} {value}"`.
abbrev pub row : Text → Text → Text
row name value = name ++ (b' ' ∷ value)

abbrev pub lines_of : (local_status production_status : ℕ) → Text → (recovery : ℕ) → List Text
lines_of local_status production_status blockers recovery =
    codes "# HELP ito_local_validation_pass Local repository controls and recovery artifact passed"
    ∷ codes "# TYPE ito_local_validation_pass gauge"
    ∷ row (codes "ito_local_validation_pass") (show (pos local_status))
    ∷ codes "# HELP ito_production_readiness Production readiness gate passed"
    ∷ codes "# TYPE ito_production_readiness gauge"
    ∷ row (codes "ito_production_readiness") (show (pos production_status))
    ∷ codes "# HELP ito_external_blocker_count Unresolved external production gates"
    ∷ codes "# TYPE ito_external_blocker_count gauge"
    ∷ row (codes "ito_external_blocker_count") blockers
    ∷ codes "# HELP ito_recovery_artifact_present Manifest-verified recovery artifact present"
    ∷ codes "# TYPE ito_recovery_artifact_present gauge"
    ∷ row (codes "ito_recovery_artifact_present") (show (pos recovery))
    ∷ []
    ∷ []

module _ (container_text : Json → Text) where
  unfoldable pub local_failures : List Gate → Result HealthError (List Text)
  local_failures [] = ok []
  local_failures (gate ∷ gates) = has_local_id (id_of gate) >>= λ is_it.
      local_failures gates >>= λ rest.
      ok (if is_it && is_open gate then str_of container_text (id_of gate) ∷ rest else rest)

  unfoldable pub open_ids : List Gate → List Text
  open_ids [] = []
  open_ids (gate ∷ gates) =
      let rest = open_ids gates in
      if is_open gate then str_of container_text (id_of gate) ∷ rest else rest

  unfoldable pub local_only : List Text → List Text
  local_only [] = []
  local_only (identifier ∷ identifiers) =
      let rest = local_only identifiers in if is_local identifier then identifier ∷ rest else rest

  -- The local failures and the blockers.
  abbrev pub failures : Option Json → Option Json → Result HealthError (List Text × List Text)
  failures (some (arr gates)) _ =
      local_failures (dicts (elems gates)) >>= λ found. ok (found, open_ids (dicts (elems gates)))
  failures _ (some (arr blockers)) =
      let ids = map (λ gate. str_of container_text (id_of gate)) (dicts (elems blockers)) in
      ok (local_only ids, ids)
  failures _ _ = err invalid_readiness

  abbrev pub report_of : Dict Text Json → Bool → List Text × List Text → Dict Text Json
  report_of readiness recovery (found, blockers) =
      (codes "format", int (pos 1))
      ∷ (
        codes "local_status",
        str (if is_none found && recovery then codes "healthy" else codes "degraded"),
      )
      ∷ (
        codes "production_status",
        str (
            str_of container_text
              (get_or (lookup (codes "status") readiness) (str (codes "unknown")))),
      )
      ∷ (codes "local_failures", arr (strings found))
      ∷ (codes "external_blockers", arr (strings blockers))
      ∷ (codes "external_blocker_count", int (pos (length blockers)))
      ∷ (codes "recovery_artifact_present", bool recovery)
      ∷ []

  abbrev pub report_from : Option Json → Bool → Result HealthError (Dict Text Json)
  report_from none recovery = err invalid_json
  report_from (some (obj values)) recovery =
      let readiness = members values in
      failures (lookup (codes "gates") readiness) (lookup (codes "blockers") readiness) >>= λ found.
      ok (report_of readiness recovery found)
  report_from (some _) recovery = err invalid_readiness

  -- `recovery` is `recovery_path.is_file()`.
  unfoldable pub build_report : Option Json → Bool → Result HealthError (Dict Text Json)
  build_report readiness recovery = report_from readiness recovery

  -- `report[key]`
  abbrev pub item : Dict Text Json → Text → Result HealthError Json
  item report key = elim (lookup key report) [ none ↦ err key_error | some value ↦ ok value ]

  -- The lines that `write_prometheus` writes.
  unfoldable pub prometheus_lines : Dict Text Json → Result HealthError (List Text)
  prometheus_lines report = do
    local ← item report (codes "local_status")
    production ← item report (codes "production_status")
    recovery ← item report (codes "recovery_artifact_present")
    blockers ← item report (codes "external_blocker_count")
    ok (
        lines_of (one_if (is_text (codes "healthy") (some local)))
          (one_if (is_text (codes "production_ready") (some production)))
          (str_of container_text blockers) (one_if (is_truthy recovery)))

  unfoldable pub write_prometheus : Dict Text Json → Result HealthError Text
  write_prometheus report = prometheus_lines report >>= λ lines. ok (join lines)
