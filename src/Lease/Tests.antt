-- ===== src/Lease/Tests.antt =====
-- Runs of the lease store, and its theorems at concrete stores.
use ito.Prelude.{
  List, ap, ◌≢◌, ◌⊎◌, ◌≡◌, refl, true, false, none, some, [], ◌∷◌, arith, ok, err, string_eq,
}
use ito.Prelude.Int.{pos, negsuc, ◌+ℤ◌, ◌≤ℤ◌, ◌<ℤ◌}
use ito.Prelude.Dict.{lookup, insert}
use ito.Lease.{
  Lease, lease_request_invalid, LeaseStore, init, grant, acquire, renew, release, Call, acquires,
  renews, releases, step, run,
}
use ito.Lease.Fencing.{IsValid, init-IsValid, run-IsValid, run_fences, acquire_serves}
use ito.Lease.Exclusion.{acquire_excludes}

-- `a` holds the resource until 60, and loses it to `b` at 60.
abbrev first : Lease
first = record { resource = "venue"; owner_id = "a"; fencing_token = pos 1; expires_at_ns = pos 60 }

abbrev second : Lease
second = record {
  resource = "venue";
  owner_id = "b";
  fencing_token = pos 2;
  expires_at_ns = pos 90;
}

abbrev held : LeaseStore
held = record { leases = ("venue", first) ∷ []; tokens = ("venue", pos 1) ∷ [] }

abbrev taken : LeaseStore
taken = record { leases = ("venue", second) ∷ []; tokens = ("venue", pos 2) ∷ [] }

acquire_runs :
    (acquire init "venue" "a" (pos 10) (pos 50) ≡ ok (some first, held))
    × (acquire held "venue" "b" (pos 59) (pos 30) ≡ ok (none, held))
    × (acquire held "venue" "b" (pos 60) (pos 30) ≡ ok (some second, taken))
    × (acquire held "venue" "b" (negsuc 0) (pos 30) ≡ err lease_request_invalid)
unfolding acquire grant init lookup insert ◌+ℤ◌
acquire_runs = (refl, refl, refl, refl)

held-IsValid : IsValid held
unfolding run step acquire grant init lookup insert ◌+ℤ◌
held-IsValid = run-IsValid init (acquires "venue" "a" (pos 10) (pos 50) ∷ []) init-IsValid

run_fences_example :
    let later = run taken (renews second (pos 70) (pos 100) ∷ releases first ∷ []) in
    (renew later first (pos 71) (pos 9) ≡ (none, later)) × (release later first ≡ (false, later))
unfolding lookup
run_fences_example =
    run_fences held taken "b" (pos 60) (pos 30) (pos 71) (pos 9) second first
      (renews second (pos 70) (pos 100) ∷ releases first ∷ []) held-IsValid acquire_runs.2
      (omega arith)

-- `b` asks in time, a lease of another resource is asked for, and an older lease is released.
abbrev stranger : Lease
stranger = record first { owner_id = "c" }

abbrev between : List Call
between =
    acquires "venue" "b" (pos 59) (pos 30)
    ∷ acquires "other" "b" (pos 70) (pos 30)
    ∷ releases stranger
    ∷ []

not_first : stranger ≢ first
not_first same =
    let owner : "c" ≡ "a" = ap (λ (l : Lease). l.owner_id) same in
    absurd (ground (arith, owner, string_eq.beq_iff "c" "a"))

acquire_excludes_example :
    let later = run held between in
    (pos 59 <ℤ pos 60
      → (acquire later "venue" "b" (pos 59) (pos 30) ≡ err lease_request_invalid)
        ⊎ (acquire later "venue" "b" (pos 59) (pos 30) ≡ ok (none, later)))
    × ((next : Lease) (end : LeaseStore)
        → acquire later "venue" "b" (pos 59) (pos 30) ≡ ok (some next, end)
        → (pos 60 ≤ℤ pos 59) × (next.fencing_token ≡ pos 1 +ℤ pos 1))
acquire_excludes_example =
    acquire_excludes init held "venue" "a" (pos 10) (pos 50) first between "b" (pos 59) (pos 30)
      init-IsValid acquire_runs.0
      (
        λ same. omega arith,
        (λ same. absurd (ground (arith, same, string_eq.beq_iff "other" "venue")), (not_first, tt)),
      )

acquire_serves_example :
    ((renew taken second (pos 70) (pos 100)).0
      ≡ some (record second { expires_at_ns = pos 70 +ℤ pos 100 }))
    × ((release taken second).0 ≡ true)
    × (lookup "venue" (release taken second).1.leases ≡ none)
acquire_serves_example =
    acquire_serves held taken "venue" "b" (pos 60) (pos 30) (pos 70) (pos 100) second acquire_runs.2
      (omega arith) (omega arith)
