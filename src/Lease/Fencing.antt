-- ===== src/Lease/Fencing.antt =====
-- Fencing and mutual exclusion of interfaces/recovery/lease_store.py.
use Prim.Native.String.{String}
use ito.Prelude.{
  ◌≡◌, refl, inl, inr, true, false, Option, none, some, List, [], ◌∷◌, arith, ok, string_eq,
  Bool-cases, ap, ◌∙◌, subst,
}
use ito.Prelude.Int.{ℤ, pos, ◌+ℤ◌, ◌≤ℤ◌, ◌<ℤ◌, +ℤ_parts, pos_part, neg_part}
use ito.Prelude.Dict.{
  lookup, insert, lookup-insert, lookup-erase, lookup-insert_self, lookup-erase_self,
}
use ito.Lease.{
  Lease, lease_eq, lease_beq, lease_beq_iff, LeaseStore, init, last_token, is_current, grant,
  acquire, renew, release, Call, acquires, renews, releases, after, step, run,
}

-- What is stored for a resource is a lease of that resource, under the last token issued for it.
abbrev IsTight : String → ℤ → Option Lease → Type 0
IsTight resource token none = Unit
IsTight resource token (some l) = (l.resource ≡ resource) × (l.fencing_token ≡ token)

abbrev pub IsValid : LeaseStore → Type 0
IsValid s = (r : String) → IsTight r (last_token s r) (lookup r s.leases)

pub init-IsValid : IsValid init
unfolding init lookup
init-IsValid r = tt

grant-IsValid :
    (s : LeaseStore) (resource owner : String) (now ttl : ℤ)
    → IsValid s
    → IsValid (grant s resource owner now ttl).1
unfolding grant
grant-IsValid s resource owner now ttl v r =
    rw (lookup-insert, lookup-insert) (ground (arith, string_eq.beq_iff r resource, v r))

pub acquire-IsValid :
    (s : LeaseStore) (resource owner : String) (now ttl : ℤ)
    → IsValid s
    → IsValid (after s (acquire s resource owner now ttl))
unfolding acquire
acquire-IsValid s resource owner now ttl v r =
    ground (arith, grant-IsValid s resource owner now ttl v r, v r)

pub is_current-eq : (o : Option Lease) (l : Lease) → is_current o l ≡ true → o ≡ some l
is_current-eq none l h = cc
is_current-eq (some c) l h = ap some ((lease_beq_iff c l).0 h)

-- How `renew` and `release` can end: refused, with the store as it was, or done on the lease that
-- the store holds.
pub renew_cases :
    (P : LeaseStore → Type 0) (s : LeaseStore) (l : Lease) (now ttl : ℤ)
    → P s
    → (lookup l.resource s.leases ≡ some l
        → P (record s {
          leases = insert l.resource (record l { expires_at_ns = now +ℤ ttl }) s.leases;
        }))
    → P (renew s l now ttl).1
unfolding renew
renew_cases P s l now ttl refused renewed =
    elim (Bool-cases (is_current (lookup l.resource s.leases) l)) [
      | inl e ↦ ground (arith, refused, renewed (is_current-eq _ l e))
      | inr e ↦ ground (arith, refused)
    ]

renew-IsValid :
    (s : LeaseStore) (l : Lease) (now ttl : ℤ) → IsValid s → IsValid (renew s l now ttl).1
renew-IsValid s l now ttl v =
    renew_cases IsValid s l now ttl v
      λ e r. rw lookup-insert (ground (arith, string_eq.beq_iff r l.resource, v r, v l.resource, e))

release-IsValid : (s : LeaseStore) (l : Lease) → IsValid s → IsValid (release s l).1
unfolding release
release-IsValid s l v r = ground (arith, lookup-erase r l.resource s.leases, v r)

pub step-IsValid : (s : LeaseStore) (c : Call) → IsValid s → IsValid (step s c)
unfolding step
step-IsValid s (acquires r o now ttl) v = acquire-IsValid s r o now ttl v
step-IsValid s (renews l now ttl) v = renew-IsValid s l now ttl v
step-IsValid s (releases l) v = release-IsValid s l v

pub run-IsValid : (s : LeaseStore) (calls : List Call) → IsValid s → IsValid (run s calls)
unfolding run
run-IsValid s [] v = v
run-IsValid s (c ∷ calls) v = run-IsValid (step s c) calls (step-IsValid s c v)

-- Tokens only grow.
step_tokens : (s : LeaseStore) (c : Call) (r : String) → last_token s r ≤ℤ last_token (step s c) r
unfolding step acquire grant renew release
step_tokens s (acquires r' o now ttl) r = ground (
  arith,
  string_eq.beq_iff r r',
  lookup-insert r r' (last_token s r' +ℤ pos 1) s.tokens,
  +ℤ_parts (last_token s r') (pos 1),
)
step_tokens s (renews l now ttl) r = ground arith
step_tokens s (releases l) r = ground arith

pub run_tokens :
    (s : LeaseStore) (calls : List Call) (r : String) → last_token s r ≤ℤ last_token (run s calls) r
unfolding run
run_tokens s [] r = omega arith
run_tokens s (c ∷ calls) r = omega (arith, step_tokens s c r, run_tokens (step s c) calls r)

-- A lease whose token is below the last one is refused by `renew` and by `release`.
stale_refused :
    (s : LeaseStore) (l : Lease) (now ttl : ℤ)
    → IsValid s
    → l.fencing_token <ℤ last_token s l.resource
    → (renew s l now ttl ≡ (none, s)) × (release s l ≡ (false, s))
unfolding renew release
stale_refused s l now ttl v old = elim (Bool-cases (is_current (lookup l.resource s.leases) l)) [
  | inl e ↦ absurd (ground (arith, is_current-eq _ l e, v l.resource))
  | inr e ↦ (rw e, rw e)
]

-- What a grant leaves behind.
pub acquire_granted :
    (s s' : LeaseStore) (resource owner : String) (now ttl : ℤ) (granted : Lease)
    → acquire s resource owner now ttl ≡ ok (some granted, s')
    → (last_token s' resource ≡ last_token s resource +ℤ pos 1)
      × (lookup resource s'.leases ≡ some granted)
      × (granted.fencing_token ≡ last_token s resource +ℤ pos 1)
      × (granted.resource ≡ resource)
unfolding acquire grant
acquire_granted s s' resource owner now ttl granted e = ground (
  arith,
  lookup-insert_self resource (last_token s resource +ℤ pos 1) s.tokens,
  lookup-insert_self resource
      (record {
        resource = resource;
        owner_id = owner;
        fencing_token = last_token s resource +ℤ pos 1;
        expires_at_ns = now +ℤ ttl;
      })
      s.leases,
)

-- Fencing. Once `acquire` has granted a lease on a resource, every lease on that resource with an
-- older token is refused by `renew` and by `release`, whatever calls come in between.
pub run_fences :
    (s s' : LeaseStore) (owner : String) (now ttl now' ttl' : ℤ) (granted old : Lease)
    (calls : List Call)
    → IsValid s
    → acquire s old.resource owner now ttl ≡ ok (some granted, s')
    → old.fencing_token ≤ℤ last_token s old.resource
    → let later = run s' calls in
      (renew later old now' ttl' ≡ (none, later)) × (release later old ≡ (false, later))
run_fences s s' owner now ttl now' ttl' granted old calls v e below =
    stale_refused (run s' calls) old now' ttl'
      (run-IsValid s' calls
        (subst IsValid (ap (after s) e) (acquire-IsValid s old.resource owner now ttl v)))
      (omega (
        arith,
        run_tokens s' calls old.resource,
        ap pos_part (acquire_granted s s' old.resource owner now ttl granted e).0,
        ap neg_part (acquire_granted s s' old.resource owner now ttl granted e).0,
        +ℤ_parts (last_token s old.resource) (pos 1),
      ))

-- A granted lease serves its owner: until it expires the owner can renew it, keeping the token, and
-- the owner can release it, after which the store holds nothing for the resource.
pub acquire_serves :
    (s s' : LeaseStore) (resource owner : String) (now ttl now' ttl' : ℤ) (granted : Lease)
    → acquire s resource owner now ttl ≡ ok (some granted, s')
    → now' <ℤ granted.expires_at_ns
    → pos 0 <ℤ ttl'
    → ((renew s' granted now' ttl').0 ≡ some (record granted { expires_at_ns = now' +ℤ ttl' }))
      × ((release s' granted).0 ≡ true)
      × (lookup granted.resource (release s' granted).1.leases ≡ none)
unfolding renew release
acquire_serves s s' resource owner now ttl now' ttl' granted e h ht =
    let (_, stored, _, named) = acquire_granted s s' resource owner now ttl granted e in
    let held : lookup granted.resource s'.leases ≡ some granted =
      ap (λ r. lookup r s'.leases) named ∙ stored in
    let same : lease_beq granted granted ≡ true = (lease_beq_iff granted granted).1 refl in
    (
      ground (arith, held, same),
      ground (arith, held, same),
      ground (arith, held, same, lookup-erase_self granted.resource s'.leases),
    )
