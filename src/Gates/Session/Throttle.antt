-- ===== src/Gates/Session/Throttle.antt =====
-- After a reconnection a session takes new orders up to its throttle.
use Prim.Native.String.{String}
use ito.Prelude.{
  ◌≡◌, ◌≢◌, refl, sym, subst, ap, true, false, Option, some, List, [], ◌∷◌, length, Result, ok,
  string_eq, is_empty, if-cases, arith, All,
}
use ito.Prelude.Int.{ℤ, pos, ◌≤ℤ◌, ◌+ℤ◌, ltb_ℤ, int_eq, int_laws, +ℤ_parts, one_part}
use ito.Prelude.Dict.{lookup, insert, contains, lookup-insert, lookup-insert_self, lookup-insert_ne}
use ito.Prelude.Text.{Text, codes}
use ito.Gates.Session.{
  SimulationError, accepted, VenueSession, reconnect, connect, message, answer, throttled, next,
  respond, send,
}
use ito.Gates.Session.Orders.{sending, perform}

-- New orders sent one after the other, with the answers.
unfoldable pub sent_all : VenueSession → List ℤ → List (Option Text) × VenueSession
sent_all s [] = ([], s)
sent_all s (id ∷ ids) =
    let (answer, s') = perform s (sending id "new") in
    let (answers, last) = sent_all s' ids in (answer ∷ answers, last)

-- Acknowledgements of the orders, numbered from the number behind `sequence` on.
abbrev pub acknowledged : ℤ → List ℤ → List (Option Text)
acknowledged sequence [] = []
acknowledged sequence (id ∷ ids) =
    some (message (codes "ACK") (sequence +ℤ pos 1) id) ∷ acknowledged (sequence +ℤ pos 1) ids

abbrev pub AreDistinct : List ℤ → Type 0
AreDistinct [] = Unit
AreDistinct (id ∷ ids) = All (λ other. other ≢ id) ids × AreDistinct ids

abbrev after : VenueSession → ℤ → VenueSession
after s id = record s {
  messages_in_window = s.messages_in_window +ℤ pos 1;
  sequence = next s;
  orders = insert id accepted s.orders;
}

perform-new :
    (s : VenueSession) (id : ℤ)
    → s.connected ≡ true
    → ltb_ℤ id (pos 0) ≡ false
    → throttled s ≡ false
    → contains id s.orders ≡ false
    → perform s (sending id "new") ≡ (some (message (codes "ACK") (next s) id), after s id)
unfolding perform send respond answer
perform-new s id connected nonnegative quiet new = rw (connected, nonnegative, quiet, new) refl

module _ (s : VenueSession) where
  abbrev pub IsFresh : ℤ → Type 0
  IsFresh id = (ltb_ℤ id (pos 0) ≡ false) × (contains id s.orders ≡ false)

  abbrev HasRoom : List ℤ → Type 0
  HasRoom ids = s.messages_in_window +ℤ pos (length ids) ≤ℤ s.throttle_per_second

  -- What the answers to new orders are, and what the session has afterwards.
  abbrev IsServed : List ℤ → List (Option Text) × VenueSession → Type 0
  IsServed ids (answers, last) =
      (answers ≡ acknowledged s.sequence ids)
      × ((id : ℤ) → lookup id s.orders ≡ some accepted → lookup id last.orders ≡ some accepted)
      × All (λ id. lookup id last.orders ≡ some accepted) ids

room_left :
    (s : VenueSession) (id : ℤ) (ids : List ℤ) → HasRoom s (id ∷ ids) → HasRoom (after s id) ids
room_left s id ids room = omega int_laws

not_throttled :
    (s : VenueSession) (id : ℤ) (ids : List ℤ) → HasRoom s (id ∷ ids) → throttled s ≡ false
not_throttled s id ids room = ground (
  arith,
  +ℤ_parts s.messages_in_window (pos (length (id ∷ ids))),
  one_part s.messages_in_window,
  one_part s.throttle_per_second,
)

still-IsFresh :
    (s : VenueSession) (id other : ℤ) → other ≢ id → IsFresh s other → IsFresh (after s id) other
still-IsFresh s id other differ (nonnegative, new) =
    (nonnegative, rw (lookup-insert_ne other id accepted s.orders differ) new)

All-still-IsFresh :
    (s : VenueSession) (id : ℤ) (ids : List ℤ)
    → All (λ other. other ≢ id) ids
    → All (IsFresh s) ids
    → All (IsFresh (after s id)) ids
All-still-IsFresh s id [] differ fresh = tt
All-still-IsFresh s id (other ∷ ids) (d, differ) (f, fresh) =
    (still-IsFresh s id other d f, All-still-IsFresh s id ids differ fresh)

still_accepted :
    (s : VenueSession) (id other : ℤ)
    → lookup other s.orders ≡ some accepted
    → lookup other (insert id accepted s.orders) ≡ some accepted
still_accepted s id other h =
    rw lookup-insert (if-cases (λ o. o ≡ some accepted) (int_eq.beq other id) refl h)

serves-All :
    (s : VenueSession) (ids : List ℤ)
    → s.connected ≡ true
    → HasRoom s ids
    → All (IsFresh s) ids
    → AreDistinct ids
    → IsServed s ids (sent_all s ids)
unfolding sent_all
serves-All s [] connected room fresh distinct = (refl, (λ id h. h), tt)
serves-All s (id ∷ ids) connected room ((nonnegative, new), fresh) (differ, distinct) =
    let fresh' = All-still-IsFresh s id ids differ fresh in
    let (answers, keeps, served) =
      serves-All (after s id) ids connected (room_left s id ids room) fresh' distinct in
    let Goal : Option Text × VenueSession → Type 0 = λ (answer, s').
      let (answers', last) = sent_all s' ids in IsServed s (id ∷ ids) (answer ∷ answers', last) in
    subst Goal (sym (perform-new s id connected nonnegative (not_throttled s id ids room) new)) (
      ap (◌∷◌ (some (message (codes "ACK") (next s) id))) answers,
      (λ other h. keeps other (still_accepted s id other h)),
      (keeps id (lookup-insert_self id accepted s.orders), served),
    )

abbrev opened : VenueSession → ℤ → VenueSession
opened s expected = record s { connected = true; sequence = expected; messages_in_window = pos 0 }

reconnect-opened :
    (s : VenueSession) (credentials : String) (expected : ℤ)
    → is_empty credentials ≡ false
    → pos 0 ≤ℤ expected
    → reconnect s credentials expected ≡ (ok tt, opened s expected)
unfolding reconnect connect
reconnect-opened s credentials expected filled number =
    let accepts : ltb_ℤ expected (pos 0) ≡ false = ground arith in ground (arith, filled, accepts)

-- After a reconnection with credentials to a number that is not negative, new orders of different
-- identifiers that are not negative and that the session does not have are all acknowledged, in
-- their order and numbered behind that number, as long as they are not more than the throttle; the
-- session has them as accepted afterwards. This holds whatever the window held and however often the
-- session was disconnected before.
pub reconnect-serves-All :
    (s : VenueSession) (credentials : String) (expected : ℤ) (ids : List ℤ)
    → is_empty credentials ≡ false
    → pos 0 ≤ℤ expected
    → pos (length ids) ≤ℤ s.throttle_per_second
    → All (IsFresh s) ids
    → AreDistinct ids
    → (let (result, s') = reconnect s credentials expected in
        let (answers, last) = sent_all s' ids in
        (result ≡ ok tt)
        × (answers ≡ acknowledged expected ids)
        × All (λ id. lookup id last.orders ≡ some accepted) ids)
reconnect-serves-All s credentials expected ids filled number room fresh distinct =
    let room' : HasRoom (opened s expected) ids = omega int_laws in
    let (answers, _, served) = serves-All (opened s expected) ids refl room' fresh distinct in
    let Goal : Result SimulationError (Unit {0}) × VenueSession → Type 0 = λ (result, s').
      let (answers', last) = sent_all s' ids in
      (result ≡ ok tt)
      × (answers' ≡ acknowledged expected ids)
      × All (λ id. lookup id last.orders ≡ some accepted) ids in
    subst Goal (sym (reconnect-opened s credentials expected filled number)) (refl, answers, served)
