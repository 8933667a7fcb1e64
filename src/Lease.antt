-- ===== src/Lease.antt =====
-- interfaces/recovery/lease_store.py: leases on named resources with fencing tokens.
-- An exception leaves the store as it was. Times and tokens are Python integers.
pub mod Fencing
pub mod Exclusion
mod Tests
use Prim.Native.String.{String}
use ito.Prelude.{
  ◌≡◌, Bool, true, false, not, ◌&&◌, ◌||◌, Option, none, some, List, [], ◌∷◌, arith, Result, ok,
  err, if◌then◌else◌, Eq, string_eq, ◌↔◌,
}
use ito.Prelude.Int.{ℤ, pos, ◌+ℤ◌, leb_ℤ, ltb_ℤ, eqb_ℤ, eqb_ℤ_iff}
use ito.Prelude.Dict.{Dict, lookup, insert, erase, get_or}

pub record Lease : Type 0 where
  pub resource : String
  pub owner_id : String
  pub fencing_token : ℤ
  pub expires_at_ns : ℤ

-- `==` of the dataclass.
abbrev pub lease_beq : Lease → Lease → Bool
lease_beq a b =
    string_eq.beq a.resource b.resource
    && string_eq.beq a.owner_id b.owner_id
    && eqb_ℤ a.fencing_token b.fencing_token
    && eqb_ℤ a.expires_at_ns b.expires_at_ns

pub lease_beq_iff : (a b : Lease) → (lease_beq a b ≡ true) ↔ (a ≡ b)
lease_beq_iff a b =
    ground (arith, string_eq.beq_iff a.resource b.resource, string_eq.beq_iff a.owner_id b.owner_id)

instance abbrev pub lease_eq : Eq Lease
lease_eq = record { beq = lease_beq; beq_iff = lease_beq_iff }

pub data LeaseError : Type 0 where
  lease_request_invalid : LeaseError

-- `InMemoryLeaseStore`: `_leases` and `_tokens`.
pub record LeaseStore : Type 0 where
  pub leases : Dict String Lease
  pub tokens : Dict String ℤ

pub init : LeaseStore
init = record { leases = []; tokens = [] }

-- The last token issued for a resource; 0 if none was.
abbrev pub last_token : LeaseStore → String → ℤ
last_token s resource = get_or (lookup resource s.tokens) (pos 0)

-- `current is not None and current.expires_at_ns > now_ns`
abbrev pub is_held : Option Lease → ℤ → Bool
is_held none now_ns = false
is_held (some current) now_ns = ltb_ℤ now_ns current.expires_at_ns

pub grant : LeaseStore → String → String → ℤ → ℤ → Option Lease × LeaseStore
grant s resource owner_id now_ns ttl_ns =
    let token = last_token s resource +ℤ pos 1 in
    let lease : Lease = record {
      resource = resource;
      owner_id = owner_id;
      fencing_token = token;
      expires_at_ns = now_ns +ℤ ttl_ns;
    } in
    (
      some lease,
      record { leases = insert resource lease s.leases; tokens = insert resource token s.tokens },
    )

pub acquire : LeaseStore → String → String → ℤ → ℤ → Result LeaseError (Option Lease × LeaseStore)
unfolding grant
acquire s resource owner_id now_ns ttl_ns =
    if string_eq.beq resource ""
      || string_eq.beq owner_id ""
      || ltb_ℤ now_ns (pos 0)
      || leb_ℤ ttl_ns (pos 0)
    then err lease_request_invalid
    else if is_held (lookup resource s.leases) now_ns
    then ok (none, s)
    else ok (grant s resource owner_id now_ns ttl_ns)

-- `current == lease`, where `current` may be `None`.
abbrev pub is_current : Option Lease → Lease → Bool
is_current none lease = false
is_current (some current) lease = lease_beq current lease

pub renew : LeaseStore → Lease → ℤ → ℤ → Option Lease × LeaseStore
renew s lease now_ns ttl_ns =
    if not (is_current (lookup lease.resource s.leases) lease)
      || leb_ℤ lease.expires_at_ns now_ns
      || leb_ℤ ttl_ns (pos 0)
    then (none, s)
    else let renewed : Lease = record lease { expires_at_ns = now_ns +ℤ ttl_ns } in
      (some renewed, record s { leases = insert lease.resource renewed s.leases })

pub release : LeaseStore → Lease → Bool × LeaseStore
release s lease =
    if not (is_current (lookup lease.resource s.leases) lease)
    then (false, s)
    else (true, record s { leases = erase lease.resource s.leases })

-- A client's call on the store.
pub data Call : Type 0 where
  acquires : String → String → ℤ → ℤ → Call
  renews : Lease → ℤ → ℤ → Call
  releases : Lease → Call

abbrev pub after : LeaseStore → Result LeaseError (Option Lease × LeaseStore) → LeaseStore
after s (ok r) = r.1
after s (err e) = s

pub step : LeaseStore → Call → LeaseStore
step s (acquires resource owner_id now_ns ttl_ns) =
    after s (acquire s resource owner_id now_ns ttl_ns)
step s (renews lease now_ns ttl_ns) = (renew s lease now_ns ttl_ns).1
step s (releases lease) = (release s lease).1

pub run : LeaseStore → List Call → LeaseStore
run s [] = s
run s (c ∷ calls) = run (step s c) calls
