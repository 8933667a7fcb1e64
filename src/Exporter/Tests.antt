-- ===== src/Exporter/Tests.antt =====
-- Runs of the health report and of the exporter, and their theorem at a concrete file.
use ito.Prelude.{◌≡◌, refl, true, false, none, some, [], ◌∷◌, ok, err}
use ito.Prelude.Int.{pos, negsuc}
use ito.Prelude.Dict.{Dict, lookup, insert}
use ito.Prelude.Sorting.{sort_by, insert_sorted}
use ito.Prelude.Text.{Text, codes, show, show_ℕ, digits, split}
use ito.Exporter.Json.{
  Json, Members, null, bool, int, str, arr, obj, nil, cons, end, field, members,
}
use ito.Exporter.Health.{
  invalid_readiness, type_error, join, report_of, build_report, local_failures, open_ids,
  write_prometheus,
}
use ito.Exporter.Metrics.{
  count_actions, text_le, render_audit_metrics, render_metrics, payload, not_found, unavailable,
  do_get,
}
use ito.Exporter.Agree.{without_help, render-build_report}

abbrev container_text : Json → Text
container_text value = codes "..."

abbrev gate : Text → Json → Members
gate id implemented = field (codes "id") (str id) (field (codes "implemented") implemented end)

-- One open gate that is local, one that is not, and one that is closed.
abbrev readiness : Members
readiness =
    field (codes "gates")
      (arr (
        cons (obj (gate (codes "GATE-SW-001") (bool false))) (
          cons (obj (gate (codes "GATE-EXT-001") null))
            (cons (obj (gate (codes "GATE-SW-002") (bool true))) nil))))
      end

abbrev report : Dict Text Json
report =
    report_of container_text (members readiness) true
      (codes "GATE-SW-001" ∷ [], codes "GATE-SW-001" ∷ codes "GATE-EXT-001" ∷ [])

build_report_runs :
    (build_report container_text (some (obj readiness)) true ≡ ok report)
    × (build_report container_text (some (obj end)) true ≡ err invalid_readiness)
    × (build_report container_text
          (some (
            obj (
              field (codes "gates") (arr (cons (obj (field (codes "id") (arr nil) end)) nil)) end)))
          true
        ≡ err type_error)
unfolding build_report local_failures open_ids lookup
build_report_runs = (refl, refl, refl)

render-build_report_example :
    (text : Text) × (write_prometheus container_text report ≡ ok text)
    × (render_metrics container_text report none none ≡ ok (join (without_help (split b'\n' text))))
render-build_report_example =
    render-build_report container_text (some (obj readiness)) true build_report_runs.0

-- A list of actions is counted, where it is given as a list.
audit_runs :
    render_audit_metrics (
      arr (
        cons
          (obj (field (codes "action") (str (codes "key-create")) end))
          (cons (int (pos 1)) nil)))
    ≡ ok (
        codes
          "# TYPE ito_audit_total_events gauge\nito_audit_total_events 1\n# TYPE ito_audit_action_key_create_total gauge\nito_audit_action_key_create_total 1\n")
unfolding render_audit_metrics count_actions sort_by insert_sorted text_le show show_ℕ digits lookup
    insert
audit_runs = refl

do_get_runs :
    (do_get container_text (codes "/") none none none ≡ ok not_found)
    × (do_get container_text (codes "/metrics") (some null) none none ≡ ok unavailable)
    × (do_get container_text
          (codes "/metrics")
          (some (obj (field (codes "external_blocker_count") (int (negsuc 0)) end)))
          none
          none
        ≡ ok unavailable)
unfolding do_get payload render_metrics lookup
do_get_runs = (refl, refl, refl)
