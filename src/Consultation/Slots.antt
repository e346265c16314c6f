-- ===== src/Consultation/Slots.antt =====
-- The slots as their host keeps them: src/app/api/admin/consultations, and what guests are offered,
-- src/app/api/consultations/availability/route.ts. The host is the signed-in administrator; audit
-- rows are not modelled. One request has one time.
use spottex_test.Common.{
  ℕ, suc, ◌+◌, ◌-◌, ◌*◌, ◌/◌, min, max, Bool, true, false, not, ◌&&◌, ◌||◌, Option, none, some,
  List, [], ◌∷◌, ◌++◌, ◌==◌, ltb, leb, if◌then◌else◌, find_first, find_many, update_where,
  count_where, row, length, take, sort_by, or_default,
}
use spottex_test.Consultation.Model.{
  SlotStatus, open_slot, blocked, canceled_slot, BookingStatus, completed_booking, no_show, Slot,
  Booking, Desk, is_open_slot, is_confirmed,
}
use spottex_test.Consultation.Calendar.Google.{Interval, overlaps_any}
use spottex_test.Consultation.Holding.{release_expired}

abbrev pub is_canceled_slot : SlotStatus → Bool
is_canceled_slot canceled_slot = true
is_canceled_slot _ = false

-- A slot of the host, not canceled, that meets `[start, finish)`.
abbrev pub collides : ℕ → ℕ → ℕ → Slot → Bool
collides host start finish x =
    x.host == host
    && not (is_canceled_slot x.status)
    && ltb x.start_utc finish
    && ltb start x.end_utc

-- A row that `create({ data: { hostUserId, startUtc, endUtc } })` inserts.
abbrev pub new_slot : ℕ → ℕ → ℕ → ℕ → Slot
new_slot id host start finish = record {
  id = id;
  host = host;
  start_utc = start;
  end_utc = finish;
  status = open_slot;
  hold_expires_at = none;
  google_calendar_id = none;
  google_event_id = none;
  meet_url = none;
}

abbrev pub insert_slot : ℕ → ℕ → ℕ → Desk → Desk
insert_slot host start finish d = record d {
  slots = d.slots ++ new_slot d.next_slot host start finish ∷ [];
  next_slot = suc d.next_slot;
}

-- The unique key of `(hostUserId, startUtc)`.
abbrev pub same_start : ℕ → ℕ → Slot → Bool
same_start host start x = x.host == host && x.start_utc == start

pub data SlotAnswer : Type 0 where
  created_slot : SlotAnswer
  invalid_range calendar_overlap overlapping unavailable duplicate_start : SlotAnswer

-- Between a quarter of an hour and two hours, in the future.
unfoldable is_valid_range : ℕ → ℕ → ℕ → Bool
is_valid_range now start finish =
    ltb now start && leb (start + 900000) finish && leb finish (start + 7200000)

-- The transaction of the creation; an insert that breaks the unique key throws.
unfoldable pub add_slot : ℕ → ℕ → ℕ → Desk → SlotAnswer × Desk
unfolding count_where
add_slot host start finish d =
    if not (count_where (collides host start finish) d.slots == 0)
    then (overlapping, d)
    else if not (count_where (same_start host start) d.slots == 0)
    then (duplicate_start, d)
    else (created_slot, insert_slot host start finish d)

-- POST /api/admin/consultations/slots; `conflict` is what the host's calendar says.
unfoldable create_slot : ℕ → ℕ → ℕ → ℕ → Option Bool → Desk → SlotAnswer × Desk
unfolding is_valid_range add_slot
create_slot now host start finish conflict d =
    if not (is_valid_range now start finish) then (invalid_range, d) else elim conflict [
      | none ↦ (unavailable, d)
      | some c ↦ if c then (calendar_overlap, d) else add_slot host start finish d
    ]

-- The items at `⌊index * length / count⌋`.
pick : {A : Type 0} → ℕ → List A → List A
pick n [] = []
pick Prim.Native.Nat.zero (x ∷ xs) = x ∷ []
pick (suc n) (x ∷ xs) = pick n xs

spread_from : {A : Type 0} → List A → ℕ → ℕ → ℕ → List A
unfolding pick
spread_from items count index Prim.Native.Nat.zero = []
spread_from items count index (suc n) =
    pick (index * length items / count) items ++ spread_from items count (suc index) n

-- spread.
unfoldable pub spread : {A : Type 0} → List A → ℕ → List A
unfolding spread_from
spread items count = if leb (length items) count then items else spread_from items count 0 count

-- `createMany({ skipDuplicates: true })`.
unfoldable pub create_many : ℕ → List Interval → Desk → Desk
unfolding count_where
create_many host [] d = d
create_many host (i ∷ is) d = create_many host is (
    if count_where (same_start host i.start) d.slots == 0
    then insert_slot host i.start i.finish d
    else d)

-- `{ startUtc, endUtc }` of a slot.
abbrev span : Slot → Interval
span x = record { start = x.start_utc; finish = x.end_utc }

unfoldable spans : List Slot → List Interval
spans [] = []
spans (x ∷ xs) = span x ∷ spans xs

-- The candidates that are in the future and meet neither a slot nor a busy interval.
unfoldable pub free_candidates : ℕ → List Slot → List Interval → List Interval → List Interval
unfolding find_many overlaps_any spans
free_candidates now existing busy candidates =
    find_many
      (λ i.
        ltb now i.start
        && not (overlaps_any i.start i.finish (spans existing))
        && not (overlaps_any i.start i.finish busy))
      candidates

-- The transaction of POST /api/admin/consultations/slots/generate, for the candidates of the week
-- `[week_start, week_end)` and the busy intervals of the calendars that mask it.
unfoldable pub generate_slots : ℕ → ℕ → ℕ → ℕ → ℕ → List Interval → List Interval → Desk → Desk
unfolding find_many free_candidates spread create_many
generate_slots now host week_start week_end target candidates busy d =
    let existing = find_many (collides host week_start week_end) d.slots in
    create_many host
      (spread (free_candidates now existing busy candidates) (target - length existing)) d

abbrev pub is_blocked : SlotStatus → Bool
is_blocked blocked = true
is_blocked _ = false

-- A slot of the host that is open or blocked.
abbrev pub patchable : ℕ → ℕ → Slot → Bool
patchable host id x = x.id == id && x.host == host && (is_open_slot x.status || is_blocked x.status)

-- PATCH of a slot, with `true` for OPEN and `false` for BLOCKED: whether it is modifiable.
unfoldable pub patch_slot : ℕ → ℕ → Bool → Desk → Bool × Desk
unfolding count_where update_where
patch_slot host id opens d = if count_where (patchable host id) d.slots == 0 then (false, d) else (
  true,
  record d {
    slots =
        update_where (patchable host id)
          (λ x. record x { status = if opens then open_slot else blocked }) d.slots;
  },
)

abbrev pub removable : ℕ → ℕ → Slot → Bool
removable host id x =
    x.id == id
    && x.host == host
    && (is_open_slot x.status || is_blocked x.status || is_canceled_slot x.status)

abbrev pub cancel_slot : Slot → Slot
cancel_slot x = record x { status = canceled_slot }

-- What DELETE of a slot reads: how many bookings the slot has, if it may be removed.
unfoldable pub find_removable : ℕ → ℕ → Desk → Option ℕ
unfolding find_first count_where
find_removable host id d = elim (find_first (removable host id) d.slots) [
  | none ↦ none
  | some x ↦ some (count_where (λ (b : Booking). b.slot_id == id) d.bookings)
]

-- What it writes then, by the id alone: a slot with bookings is canceled, another deleted. `none` if
-- the write throws, as there is no such slot, or bookings refer to the one that is to be deleted.
unfoldable pub write_removal : ℕ → ℕ → Desk → Option Desk
unfolding find_many count_where update_where
write_removal id bookings d =
    if count_where (λ (y : Slot). y.id == id) d.slots == 0
    then none
    else if not (bookings == 0)
    then some (record d { slots = update_where (λ y. y.id == id) cancel_slot d.slots })
    else if count_where (λ (b : Booking). b.slot_id == id) d.bookings == 0
    then some (record d { slots = find_many (λ y. not (y.id == id)) d.slots })
    else none

pub data RemovalAnswer : Type 0 where
  removed not_removable removal_failed : RemovalAnswer

abbrev removal_answer : Option Desk → Desk → RemovalAnswer × Desk
removal_answer none d = (removal_failed, d)
removal_answer (some d') d = (removed, d')

-- DELETE of a slot, outside a transaction: `later` is what other requests write after the read.
unfoldable pub remove_slot : (Desk → Desk) → ℕ → ℕ → Desk → RemovalAnswer × Desk
unfolding find_removable write_removal
remove_slot later host id d = elim (find_removable host id d) [
  | none ↦ (not_removable, d)
  | some n ↦ removal_answer (write_removal id n (later d)) (later d)
]

-- What an administrator may say of a booking that is over.
pub data Outcome : Type 0 where
  attended missed : Outcome

abbrev status_of : Outcome → BookingStatus
status_of attended = completed_booking
status_of missed = no_show

abbrev pub close_as : ℕ → Outcome → Booking → Booking
close_as now outcome c = record c { status = status_of outcome; manage_token_expires_at = now }

abbrev ended : ℕ → ℕ → Option Slot → Bool
ended now host none = false
ended now host (some x) = x.host == host && leb x.end_utc now

-- A confirmed booking of the host's slot, which has ended.
abbrev pub closable : ℕ → ℕ → ℕ → List Slot → Booking → Bool
closable now host id slots b =
    b.id == id && is_confirmed b.status && ended now host (row (λ x. x.id) b.slot_id slots)

-- POST /api/admin/consultations/bookings/[id]/status.
unfoldable pub close_booking : ℕ → ℕ → ℕ → Outcome → Desk → Bool × Desk
unfolding find_first update_where
close_booking now host id outcome d = elim (find_first (closable now host id d.slots) d.bookings) [
  | none ↦ (false, d)
  | some b ↦ (
    true,
    record d { bookings = update_where (λ c. c.id == id) (close_as now outcome) d.bookings },
  )
]

-- The span of time that is offered: `from` and `to` are the request's, where it gives them.
unfoldable offered_span : ℕ → Option ℕ → Option ℕ → ℕ × ℕ
offered_span now from to =
    let start = max now (or_default from now) in
    (start, min (or_default to (now + 1814400000)) (start + 5184000000))

abbrev is_offered : (ℕ → Option (List Interval)) → Slot → Bool
unfolding overlaps_any
is_offered busy x = elim (busy x.host) [
  | none ↦ false
  | some is ↦ not (overlaps_any x.start_utc x.end_utc is)
]

-- GET /api/consultations/availability: the desk once the expired holds are released, and the slots
-- offered; `busy` are the intervals of each host, `none` where its calendar does not answer.
unfoldable pub availability :
    (ℕ → Option (List Interval)) → ℕ → Option ℕ → Option ℕ → Desk → List Slot × Desk
unfolding release_expired offered_span find_many sort_by overlaps_any
availability busy now from to d =
    let d₁ = release_expired now d in
    let (start, finish) = offered_span now from to in
    if leb finish start then ([], d₁) else (
      find_many (is_offered busy) (
          take 500 (
            sort_by (λ x. x.start_utc)
              (find_many
                (λ x. is_open_slot x.status && leb start x.start_utc && leb x.start_utc finish)
                d₁.slots))),
      d₁,
    )
