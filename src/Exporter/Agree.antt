-- ===== src/Exporter/Agree.antt =====
-- The two programs write the same metrics of a report, and the exporter counts no action.
use mathlib.Core.List.{append_assoc}
use ito.Prelude.{
  ℕ, ◌≡◌, refl, ap, sym, subst, ◌∙◌, Bool, false, Option, none, some, List, [], ◌∷◌, ◌++◌, map,
  Result, ok, err, take, drop, if◌then◌else◌, one_if, Result-cases, inl, inr, ok_injective, arith,
  length, ◌&&◌, and-eq-true, true,
}
use ito.Prelude.Int.{pos, ltb_ℤ}
use ito.Prelude.Dict.{Dict, lookup}
use ito.Prelude.Sorting.{sort_by}
use ito.Prelude.Text.{Text, codes, beq, text_eq, show, show_ℕ, digits, split}
use ito.Prelude.Text.Decimal.{lacks, lacks-Lacks, show_ℕ-Lacks, split_from_end, split_from_part}
use ito.Exporter.Json.{Json, Members, null, bool, int, float, str, arr, obj, members, is_text}
use ito.Exporter.Health.{
  HealthError, join, failures, report_of, report_from, lines_of, build_report, prometheus_lines,
  write_prometheus,
}
use ito.Exporter.Metrics.{
  count_actions, render_audit_metrics, audit_text, render_metrics, health_rows,
}

-- A line that begins with "# HELP".
abbrev pub is_help : Text → Bool
is_help line = beq (take 6 line) (codes "# HELP")

unfoldable pub without_help : List Text → List Text
without_help [] = []
without_help (line ∷ lines) =
    let rest = without_help lines in if is_help line then rest else line ∷ rest

join_end :
    (line : Text) (lines : List Text)
    → join (line ∷ lines ++ ([] ∷ [])) ≡ join (line ∷ lines) ++ (b'\n' ∷ [])
join_end line [] = refl
join_end line (next ∷ lines) =
    ap (λ (text : Text). line ++ (b'\n' ∷ text)) (join_end next lines)
    ∙ sym (append_assoc line (b'\n' ∷ join (next ∷ lines)) (b'\n' ∷ []))

-- Lines are read back from the text that they are joined to.
unfoldable all_lack : List Text → Bool
all_lack [] = true
all_lack (line ∷ lines) = lacks b'\n' line && all_lack lines

split-join :
    (line : Text) (lines : List Text)
    → all_lack (line ∷ lines) ≡ true
    → split b'\n' (join (line ∷ lines)) ≡ line ∷ lines
unfolding all_lack
split-join line [] h =
    let (here, _) = and-eq-true (lacks b'\n' line) true h in
    split_from_end b'\n' line [] ((lacks-Lacks b'\n' line).0 here)
split-join line (next ∷ lines) h =
    let (here, rest) = and-eq-true (lacks b'\n' line) (all_lack (next ∷ lines)) h in
    split_from_part b'\n' line [] (join (next ∷ lines)) ((lacks-Lacks b'\n' line).0 here)
    ∙ ap (◌∷◌ line) (split-join next lines rest)

shown-lacks : (n : ℕ) → lacks b'\n' (show (pos n)) ≡ true
unfolding show
shown-lacks n = (lacks-Lacks b'\n' (show_ℕ n)).1 (show_ℕ-Lacks b'\n' n (omega arith))

lines_of-lack :
    (local_status production_status blockers recovery : ℕ)
    → all_lack (lines_of local_status production_status (show (pos blockers)) recovery) ≡ true
unfolding lacks all_lack
lines_of-lack local_status production_status blockers recovery =
    rw
      (
        shown-lacks local_status,
        shown-lacks production_status,
        shown-lacks blockers,
        shown-lacks recovery,
      )
      refl

clash : {A : Type 0} {e : HealthError} {a : A} → ◌≡◌ {A = Result HealthError A} (err e) (ok a) → ⊥
clash same = absurd cc

not-negative : (n : ℕ) → ltb_ℤ (pos n) (pos 0) ≡ false
not-negative n = ground arith

module _ (container_text : Json → Text) where
  -- What both write of a report.
  abbrev Agrees : Dict Text Json → Type 0
  Agrees report =
      (lines : List Text) × (prometheus_lines container_text report ≡ ok lines)
      × (split b'\n' (join lines) ≡ lines)
      × (render_metrics container_text report none none ≡ ok (join (without_help lines)))

  report_of-Agrees :
      (readiness : Dict Text Json) (recovery : Bool) (found blockers : List Text)
      → Agrees (report_of container_text readiness recovery (found, blockers))
  unfolding prometheus_lines render_metrics without_help lookup
  report_of-Agrees readiness recovery found blockers =
      let report = report_of container_text readiness recovery (found, blockers) in
      let text = show (pos (length blockers)) in
      (
        lines_of _ _ text (one_if recovery),
        refl,
        split-join _ _ (
            lines_of-lack
              (one_if (is_text (codes "healthy") (lookup (codes "local_status") report)))
              (one_if
                (is_text (codes "production_ready") (lookup (codes "production_status") report)))
              (length blockers) (one_if recovery)),
        rw (not-negative (length blockers)) (
            ap ok (
              sym (
                join_end (codes "# TYPE ito_local_validation_pass gauge")
                  (drop 1 (health_rows container_text report text))))),
      )

  report_from-Agrees :
      (readiness : Option Json) (recovery : Bool) {report : Dict Text Json}
      → report_from container_text readiness recovery ≡ ok report
      → Agrees report
  report_from-Agrees none recovery h = absurd (clash h)
  report_from-Agrees (some null) recovery h = absurd (clash h)
  report_from-Agrees (some (bool b)) recovery h = absurd (clash h)
  report_from-Agrees (some (int n)) recovery h = absurd (clash h)
  report_from-Agrees (some (float text)) recovery h = absurd (clash h)
  report_from-Agrees (some (str text)) recovery h = absurd (clash h)
  report_from-Agrees (some (arr values)) recovery h = absurd (clash h)
  report_from-Agrees (some (obj values)) recovery h =
      let readiness = members values in
      elim (Result-cases (
        failures container_text (lookup (codes "gates") readiness)
          (lookup (codes "blockers") readiness))) [
            | inl (e, h') ↦ absurd (clash (rw h' at h))
            | inr ((found, blockers), h') ↦
                subst Agrees (ok_injective (rw h' at h))
                  (report_of-Agrees readiness recovery found blockers)
          ]

  -- Every report that `build_report` returns is written by `write_prometheus` and rendered by the
  -- exporter, without an error: the lines that the exporter writes are just those lines of the text of
  -- `write_prometheus` that do not begin with "# HELP", in their order.
  pub render-build_report :
      (readiness : Option Json) (recovery : Bool) {report : Dict Text Json}
      → build_report container_text readiness recovery ≡ ok report
      → (text : Text) × (write_prometheus container_text report ≡ ok text)
        × (render_metrics container_text report none none
            ≡ ok (join (without_help (split b'\n' text))))
  unfolding build_report write_prometheus
  render-build_report readiness recovery h =
      let (lines, written, apart, rendered) = report_from-Agrees readiness recovery h in
      (join lines, rw written refl, rw apart rendered)

-- The keys of a dict are no dicts, so no action is counted.
count_actions-keys :
    (entries : Dict Text Json) (counts : ℕ × Dict Text ℕ)
    → count_actions (map (λ entry. str entry.0) entries) counts ≡ counts
unfolding count_actions
count_actions-keys [] counts = refl
count_actions-keys (entry ∷ entries) (total, counts) = count_actions-keys entries (total, counts)

-- An audit that is a dict, as `load_snapshot` requires of the file, shows no action, whatever it holds.
pub render_audit_metrics-dict :
    (values : Members)
    → render_audit_metrics (obj values)
      ≡ ok (codes "# TYPE ito_audit_total_events gauge\nito_audit_total_events 0\n")
unfolding render_audit_metrics sort_by show show_ℕ digits
render_audit_metrics-dict values =
    ap (λ (counts : ℕ × Dict Text ℕ). ok (audit_text counts))
      (count_actions-keys (members values) (0, []))
