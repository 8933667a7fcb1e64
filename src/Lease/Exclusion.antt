-- ===== src/Lease/Exclusion.antt =====
-- Mutual exclusion of interfaces/recovery/lease_store.py over calls of any owners.
use Prim.Native.String.{String}
use ito.Prelude.{
  ◌≡◌, sym, ◌≢◌, inl, inr, false, none, some, List, [], ◌∷◌, arith, ok, err, string_eq, Bool-cases,
  ap, ◌∙◌, beq_ne, subst, some_injective, ◌⊎◌, All,
}
use ito.Prelude.Int.{ℤ, pos, ◌+ℤ◌, ◌≤ℤ◌, ◌<ℤ◌}
use ito.Prelude.Dict.{lookup, lookup-insert, lookup-erase}
use ito.Lease.{
  Lease, lease_request_invalid, LeaseStore, last_token, is_current, grant, acquire, release, Call,
  acquires, renews, releases, after, step, run,
}
use ito.Lease.Fencing.{
  IsValid, run-IsValid, acquire-IsValid, acquire_granted, renew_cases, is_current-eq,
}

-- A call that does not use a lease itself, and that asks for its resource before it expires only.
abbrev pub LeavesAlone : Lease → Call → Type 0
LeavesAlone l (acquires resource owner now ttl) = resource ≡ l.resource → now <ℤ l.expires_at_ns
LeavesAlone l (renews other now ttl) = other ≢ l
LeavesAlone l (releases other) = other ≢ l

abbrev Holds : Lease → LeaseStore → Type 0
Holds l s = lookup l.resource s.leases ≡ some l

acquire-Holds :
    (s : LeaseStore) (l : Lease) (resource owner : String) (now ttl : ℤ)
    → (resource ≡ l.resource → now <ℤ l.expires_at_ns)
    → Holds l s
    → Holds l (after s (acquire s resource owner now ttl))
unfolding acquire grant
acquire-Holds s l resource owner now ttl early held =
    elim (Bool-cases (string_eq.beq l.resource resource)) [
      | inl e ↦
          let same = (string_eq.beq_iff l.resource resource).0 e in
          let current : lookup resource s.leases ≡ some l =
            ap (λ (r : String). lookup r s.leases) (sym same) ∙ held in
          ground (arith, current, held, early (sym same))
      | inr e ↦ ground (
        arith,
        e,
        held,
        lookup-insert l.resource resource
            (record {
              resource = resource;
              owner_id = owner;
              fencing_token = last_token s resource +ℤ pos 1;
              expires_at_ns = now +ℤ ttl;
            })
            s.leases,
      )
    ]

-- A lease that the store holds for the resource of another is that one.
other_resource :
    (s : LeaseStore) (l other : Lease)
    → Holds l s
    → lookup other.resource s.leases ≡ some other
    → other ≢ l
    → string_eq.beq l.resource other.resource ≡ false
other_resource s l other held there differ = beq_ne l.resource other.resource λ same.
    differ (some_injective (sym there ∙ ap (λ (r : String). lookup r s.leases) (sym same) ∙ held))

step-Holds :
    (s : LeaseStore) (l : Lease) (call : Call)
    → LeavesAlone l call
    → Holds l s
    → Holds l (step s call)
unfolding step release
step-Holds s l (acquires resource owner now ttl) early held =
    acquire-Holds s l resource owner now ttl early held
step-Holds s l (renews other now ttl) differ held =
    renew_cases (Holds l) s other now ttl held λ there.
      lookup-insert l.resource other.resource _ s.leases
      ∙ rw (other_resource s l other held there differ) held
step-Holds s l (releases other) differ held =
    elim (Bool-cases (is_current (lookup other.resource s.leases) other)) [
      | inl e ↦
          rw (e, step, release)
            (lookup-erase l.resource other.resource s.leases
              ∙ rw (other_resource s l other held (is_current-eq _ other e) differ) held)
      | inr e ↦ rw (e, step, release) held
    ]

run-Holds :
    (s : LeaseStore) (l : Lease) (calls : List Call)
    → All (LeavesAlone l) calls
    → Holds l s
    → Holds l (run s calls)
unfolding run
run-Holds s l [] alone held = held
run-Holds s l (call ∷ calls) (first, alone) held =
    run-Holds (step s call) l calls alone (step-Holds s l call first held)

-- What `acquire` does on the resource of a lease that is held.
held-acquire :
    (s : LeaseStore) (l : Lease) (owner : String) (now ttl : ℤ)
    → IsValid s
    → Holds l s
    → (now <ℤ l.expires_at_ns
        → (acquire s l.resource owner now ttl ≡ err lease_request_invalid)
          ⊎ (acquire s l.resource owner now ttl ≡ ok (none, s)))
      × ((granted : Lease) (s' : LeaseStore)
          → acquire s l.resource owner now ttl ≡ ok (some granted, s')
          → (l.expires_at_ns ≤ℤ now) × (granted.fencing_token ≡ l.fencing_token +ℤ pos 1))
unfolding acquire
held-acquire s l owner now ttl v held = (
  λ early. ground (arith, held),
  λ granted s' e.
      ground (arith, held, v l.resource, acquire_granted s s' l.resource owner now ttl granted e),
)

-- Exclusion. After `acquire` has granted a lease, while the calls in between neither renew nor release
-- that lease itself and ask for its resource before its expiry only, `acquire` of the resource before
-- its expiry grants nothing to anyone and changes nothing; and what is granted next is granted at the
-- expiry or later, under the next token.
pub acquire_excludes :
    (s s' : LeaseStore) (resource owner : String) (now ttl : ℤ) (granted : Lease)
    (calls : List Call) (owner' : String) (now' ttl' : ℤ)
    → IsValid s
    → acquire s resource owner now ttl ≡ ok (some granted, s')
    → All (LeavesAlone granted) calls
    → let later = run s' calls in
      (now' <ℤ granted.expires_at_ns
        → (acquire later resource owner' now' ttl' ≡ err lease_request_invalid)
          ⊎ (acquire later resource owner' now' ttl' ≡ ok (none, later)))
      × ((next : Lease) (end : LeaseStore)
          → acquire later resource owner' now' ttl' ≡ ok (some next, end)
          → (granted.expires_at_ns ≤ℤ now') × (next.fencing_token ≡ granted.fencing_token +ℤ pos 1))
acquire_excludes s s' resource owner now ttl granted calls owner' now' ttl' v e alone =
    let (_, stored, _, named) = acquire_granted s s' resource owner now ttl granted e in
    let held : Holds granted s' = ap (λ (r : String). lookup r s'.leases) named ∙ stored in
    let valid =
      run-IsValid s' calls
        (subst IsValid (ap (after s) e) (acquire-IsValid s resource owner now ttl v)) in
    rw (sym named) (
      held-acquire (run s' calls) granted owner' now' ttl' valid
        (run-Holds s' granted calls alone held))
