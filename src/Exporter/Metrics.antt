-- ===== src/Exporter/Metrics.antt =====
-- The exporter of python/operations/prometheus_exporter.py. What its files hold is a parameter: none is a
-- file that cannot be read or that holds no JSON.
use ito.Prelude.{
  ℕ, suc, ◌==◌, ltb, Bool, true, false, ◌&&◌, ◌||◌, Option, none, some, List, [], ◌∷◌, ◌++◌, map,
  Result, ok, err, ◌>>=◌, ◌>>◌, raise_if, if◌then◌else◌, one_if,
}
use ito.Prelude.Int.{ℤ, pos, ltb_ℤ}
use ito.Prelude.Dict.{Dict, lookup, insert, get_or}
use ito.Prelude.Sorting.{sort_by}
use ito.Prelude.Text.{Text, codes, beq, text_eq, show}
use ito.Exporter.Json.{
  Json, Members, null, int, str, arr, obj, elems, members, as_int, is_text, is_true, str_of,
}
use ito.Exporter.Health.{join, row}

-- `type_error` is that of an audit over which no loop runs, which no handler catches.
pub data ExporterError : Type 0 where
  snapshot_invalid blocker_count_invalid type_error : ExporterError
  metric_invalid : Text → ExporterError

-- The answers of `do_GET`: 404, 503, or 200 with a text.
pub data Response : Type 0 where
  not_found unavailable : Response
  metrics : Text → Response

abbrev pub load_snapshot : Option Json → Result ExporterError Members
load_snapshot (some (obj values)) = ok values
load_snapshot _ = err snapshot_invalid

-- `for entry in audit`: the keys of a dict and the characters of a text are texts.
abbrev pub iterate : Json → Result ExporterError (List Json)
iterate (arr values) = ok (elems values)
iterate (obj values) = ok (map (λ entry. str entry.0) (members values))
iterate (str text) = ok (map (λ c. str (c ∷ [])) text)
iterate _ = err type_error

abbrev pub action_of : Json → Option Text
action_of (obj values) = elim (lookup (codes "action") (members values)) [
  | some (str action) ↦ some action
  | _ ↦ none
]
action_of _ = none

abbrev pub counted : Option Text → ℕ × Dict Text ℕ → ℕ × Dict Text ℕ
counted none (total, counts) = (total, counts)
counted (some action) (total, counts) =
    (suc total, insert action (suc (get_or (lookup action counts) 0)) counts)

unfoldable pub count_actions : List Json → ℕ × Dict Text ℕ → ℕ × Dict Text ℕ
count_actions [] counts = counts
count_actions (entry ∷ entries) counts = count_actions entries (counted (action_of entry) counts)

-- Texts in the order of their code points.
unfoldable pub text_le : Text → Text → Bool
text_le [] t = true
text_le (c ∷ s) [] = false
text_le (c ∷ s) (d ∷ t) = ltb c d || ((c == d) && text_le s t)

abbrev pub type_row : Text → Text
type_row name = codes "# TYPE " ++ name ++ codes " gauge"

abbrev pub metric_name : Text → Text
metric_name action =
    codes "ito_audit_action_" ++ map (λ c. if c == b'-' then b'_' else c) action ++ codes "_total"

abbrev pub action_rows : Dict Text ℕ → List Text
action_rows [] = []
action_rows ((action, count) ∷ counts) =
    type_row (metric_name action) ∷ row (metric_name action) (show (pos count)) ∷ action_rows counts

abbrev pub audit_text : ℕ × Dict Text ℕ → Text
audit_text (total, counts) =
    join (
      codes "# TYPE ito_audit_total_events gauge"
      ∷ row (codes "ito_audit_total_events") (show (pos total))
      ∷ action_rows (sort_by (λ a b. text_le a.0 b.0) counts))
    ++ codes "\n"

unfoldable pub render_audit_metrics : Json → Result ExporterError Text
render_audit_metrics audit =
    iterate audit >>= λ entries. ok (audit_text (count_actions entries (0, [])))

module _ (container_text : Json → Text) where
  -- `isinstance(blockers, int)` and the text of the number.
  abbrev pub blocker_text : Json → Option ℤ → Result ExporterError Text
  blocker_text value none = err blocker_count_invalid
  blocker_text value (some n) =
      raise_if (ltb_ℤ n (pos 0)) blocker_count_invalid >> ok (str_of container_text value)

  abbrev pub numeric : List (Text × Text)
  numeric =
      (codes "ito_portfolio_net_position", codes "net_position")
      ∷ (codes "ito_portfolio_gross_position", codes "gross_position")
      ∷ (codes "ito_portfolio_gross_notional_ticks", codes "gross_notional_ticks")
      ∷ (codes "ito_portfolio_realized_pnl_ticks", codes "realized_pnl_ticks")
      ∷ (codes "ito_portfolio_unrealized_pnl_ticks", codes "unrealized_pnl_ticks")
      ∷ (codes "ito_portfolio_loss_ticks", codes "loss_ticks")
      ∷ []

  abbrev pub metric_rows : Text → Json → Option ℤ → Result ExporterError (List Text)
  metric_rows name value none = err (metric_invalid name)
  metric_rows name value (some n) = ok (type_row name ∷ row name (str_of container_text value) ∷ [])

  unfoldable pub numeric_rows :
      Dict Text Json → List (Text × Text) → Result ExporterError (List Text)
  numeric_rows portfolio [] = ok []
  numeric_rows portfolio ((name, key) ∷ rest) =
      let value = get_or (lookup key portfolio) null in
      metric_rows name value (as_int value) >>= λ rows.
      numeric_rows portfolio rest >>= λ others. ok (rows ++ others)

  abbrev pub portfolio_rows : Option (Dict Text Json) → Result ExporterError (List Text)
  portfolio_rows none = ok []
  portfolio_rows (some portfolio) = numeric_rows portfolio numeric

  abbrev pub audit_rows : Option Json → Result ExporterError (List Text)
  audit_rows none = ok []
  audit_rows (some audit) = render_audit_metrics audit >>= λ text. ok (text ∷ [])

  abbrev pub health_rows : Dict Text Json → Text → List Text
  health_rows health blockers =
      codes "# TYPE ito_local_validation_pass gauge"
      ∷ row (codes "ito_local_validation_pass")
          (show (pos (one_if (is_text (codes "healthy") (lookup (codes "local_status") health)))))
      ∷ codes "# TYPE ito_production_readiness gauge"
      ∷ row (codes "ito_production_readiness") (
          show (
            pos (
              one_if
                (is_text (codes "production_ready") (lookup (codes "production_status") health)))))
      ∷ codes "# TYPE ito_external_blocker_count gauge"
      ∷ row (codes "ito_external_blocker_count") blockers
      ∷ codes "# TYPE ito_recovery_artifact_present gauge"
      ∷ row (codes "ito_recovery_artifact_present")
          (show (pos (one_if (is_true (lookup (codes "recovery_artifact_present") health)))))
      ∷ []

  unfoldable pub render_metrics :
      Dict Text Json → Option (Dict Text Json) → Option Json → Result ExporterError Text
  render_metrics health portfolio audit = do
    let value = get_or (lookup (codes "external_blocker_count") health) (int (pos 0))
    blockers ← blocker_text value (as_int value)
    portfolio ← portfolio_rows portfolio
    audit ← audit_rows audit
    ok (join (health_rows health blockers ++ (portfolio ++ audit)) ++ codes "\n")

  abbrev pub optional : Option (Option Json) → Result ExporterError (Option Members)
  optional none = ok none
  optional (some file) = load_snapshot file >>= λ values. ok (some values)

  abbrev pub as_dict : Option Members → Option (Dict Text Json)
  as_dict none = none
  as_dict (some values) = some (members values)

  abbrev pub as_value : Option Members → Option Json
  as_value none = none
  as_value (some values) = some (obj values)

  -- What stands in the `try` statement of `do_GET`. A path that is not given, or that is no file, is none.
  unfoldable pub payload :
      Option Json → Option (Option Json) → Option (Option Json) → Result ExporterError Text
  payload health_file portfolio_file audit_file = do
    health ← load_snapshot health_file
    portfolio ← optional portfolio_file
    audit ← optional audit_file
    render_metrics (members health) (as_dict portfolio) (as_value audit)

  abbrev pub answered : Result ExporterError Text → Result ExporterError Response
  answered (ok text) = ok (metrics text)
  answered (err type_error) = err type_error
  answered (err e) = ok unavailable

  -- An error here is an exception that leaves the handler.
  unfoldable pub do_get :
      Text
      → Option Json
      → Option (Option Json)
      → Option (Option Json)
      → Result ExporterError Response
  do_get path health portfolio audit =
      if beq path (codes "/metrics")
      then answered (payload health portfolio audit)
      else ok not_found
