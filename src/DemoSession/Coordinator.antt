-- ===== src/DemoSession/Coordinator.antt =====
-- modules/demo-session/demo-session.coordinator.ts: the queue of each session's operations, and the
-- reservations of resets. A queue is an object that the operations keep: `objects` is the heap of
-- queues, and `queues` the map from a session to its queue. An operation stands in `operations` from
-- its admission until it is settled, in the order of admission; the promise that it settles is its
-- ticket, so that `await previous` waits until no ticket of `awaits` is live.
use cost_engine_orchestratio.Base.{
  ℕ, suc, ◌+◌, ◌-◌, String, Bool, true, false, not, ◌&&◌, ◌||◌, Option, none, some, List, [], ◌∷◌,
  ◌++◌, if◌then◌else◌, ◌==◌, nat_eq, leb, length, any_row, all_rows, update_rows,
}
use cost_engine_orchestratio.DemoSession.Errors.{
  Outcome, returned, thrown, queue_full, reset_conflict, reset_outcome_unknown, plain_error, ◌>>=◌,
  ◌>>◌,
}
use cost_engine_orchestratio.DemoSession.Maps.{get_key, set_key, delete_key}
use cost_engine_orchestratio.DemoSession.Context.{Session, assert_trusted}

-- interface Queue; `none` is Promise.resolve()
pub record Queue : Type 0 where
  pub tail : Option ℕ
  pub size : ℕ
  pub parallel : List ℕ

-- ResetReservation; `object` is the identity of the reservation
pub record ResetReservation : Type 0 where
  pub object : ℕ
  pub unknown : Bool

-- waiting for earlier operations, revalidating the session, running the body
pub data Phase : Type 0 where
  waiting revalidating running : Phase

pub record Operation : Type 0 where
  pub ticket : ℕ
  pub session_id : String
  pub queue : ℕ
  pub is_parallel : Bool
  pub awaits : List ℕ
  pub phase : Phase

pub record Coordinator : Type 0 where
  pub contexts : List ℕ
  pub max_operations : ℕ
  pub max_sessions : ℕ
  pub queues : List (String × ℕ)
  pub objects : ℕ → Queue
  pub next_queue : ℕ
  pub resets : List (String × ResetReservation)
  pub next_reservation : ℕ
  pub operations : List Operation
  pub next_ticket : ℕ

abbrev pub empty_queue : Queue
empty_queue = record { tail = none; size = 0; parallel = [] }

abbrev pub initial : List ℕ → ℕ → ℕ → Coordinator
initial contexts max_operations max_sessions = record {
  contexts = contexts;
  max_operations = max_operations;
  max_sessions = max_sessions;
  queues = [];
  objects = λ _. empty_queue;
  next_queue = 0;
  resets = [];
  next_reservation = 0;
  operations = [];
  next_ticket = 0;
}

-- the constructor, with the limits that it accepts
unfoldable pub new_coordinator : List ℕ → ℕ → ℕ → Outcome Coordinator
new_coordinator contexts max_operations max_sessions =
    if leb 1 max_operations && leb 1 max_sessions
    then returned (initial contexts max_operations max_sessions)
    else thrown (plain_error "Session queue limits must be positive integers")

abbrev pub reset_error : Option ResetReservation → Outcome (Unit {0})
reset_error none = returned tt
reset_error (some r) = if r.unknown then thrown reset_outcome_unknown else thrown reset_conflict

-- assertNotResetting
unfoldable pub assert_not_resetting : Coordinator → String → Outcome (Unit {0})
unfolding get_key
assert_not_resetting c id = reset_error (get_key id c.resets)

abbrev pub has_queue : Option ℕ → Bool
has_queue none = false
has_queue (some _) = true

abbrev pub sessions_full : Coordinator → Bool
sessions_full c = leb c.max_sessions (length c.queues + length c.resets)

abbrev pub reserve : Coordinator → String → Coordinator
reserve c id = record c {
  resets = set_key id (record { object = c.next_reservation; unknown = false }) c.resets;
  next_reservation = suc c.next_reservation;
}

-- reserveCleanup
unfoldable pub reserve_cleanup : Coordinator → String → Outcome (ℕ × Coordinator)
unfolding assert_not_resetting get_key set_key
reserve_cleanup c id =
    assert_not_resetting c id
    >> (if has_queue (get_key id c.queues)
        then thrown reset_conflict
        else if sessions_full c
        then thrown reset_conflict
        else returned (c.next_reservation, reserve c id))

-- tryBeginReset
unfoldable pub try_begin_reset : Coordinator → Session → Outcome (ℕ × Coordinator)
unfolding assert_trusted reserve_cleanup
try_begin_reset c s = assert_trusted c.contexts s >> reserve_cleanup c s.session_id

abbrev pub is_reservation : ℕ → Option ResetReservation → Bool
is_reservation object none = false
is_reservation object (some r) = r.object == object

-- finishReset
unfoldable pub finish_reset : Coordinator → String → ℕ → Outcome Coordinator
unfolding get_key delete_key
finish_reset c id object =
    if is_reservation object (get_key id c.resets)
    then returned (record c { resets = delete_key id c.resets })
    else thrown (plain_error "Invalid reset reservation")

abbrev pub set_unknown : Option ResetReservation → Coordinator → String → ℕ → Coordinator
set_unknown none c id object = c
set_unknown (some r) c id object =
    if r.object == object
    then record c { resets = set_key id (record r { unknown = true }) c.resets }
    else c

-- `reservation.unknown = true`, which the reset service writes
unfoldable pub mark_unknown : Coordinator → String → ℕ → Coordinator
unfolding get_key set_key
mark_unknown c id object = set_unknown (get_key id c.resets) c id object

abbrev pub put_queue : (ℕ → Queue) → ℕ → Queue → ℕ → Queue
put_queue objects q v i = if i == q then v else objects i

-- the condition under which `admit` throws
abbrev pub is_full : Coordinator → Option ℕ → Bool → Bool
is_full c none parallel = sessions_full c
is_full c (some q) parallel =
    leb c.max_operations (c.objects q).size || (parallel && leb 4 (length (c.objects q).parallel))

-- `if (!queue) { … } queue.size += 1; return queue;`
abbrev pub enter_queue : Coordinator → String → Option ℕ → ℕ × Coordinator
enter_queue c id none = (
  c.next_queue,
  record c {
    queues = set_key id c.next_queue c.queues;
    objects = put_queue c.objects c.next_queue (record empty_queue { size = 1 });
    next_queue = suc c.next_queue;
  },
)
enter_queue c id (some q) = (
  q,
  record c {
    objects = put_queue c.objects q (record (c.objects q) { size = (c.objects q).size + 1 });
  },
)

-- admit
unfoldable pub admit : Coordinator → Session → Bool → Outcome (ℕ × Coordinator)
unfolding assert_trusted assert_not_resetting get_key set_key
admit c s parallel =
    assert_trusted c.contexts s
    >> assert_not_resetting c s.session_id
    >> (if is_full c (get_key s.session_id c.queues) parallel
        then thrown queue_full
        else returned (enter_queue c s.session_id (get_key s.session_id c.queues)))

abbrev pub tail_tickets : Option ℕ → List ℕ
tail_tickets none = []
tail_tickets (some t) = t ∷ []

abbrev pub add_operation : Coordinator → String → ℕ → Bool → List ℕ → Queue → Coordinator
add_operation c id q parallel awaits v = record c {
  objects = put_queue c.objects q v;
  operations =
      c.operations
      ++ record {
        ticket = c.next_ticket;
        session_id = id;
        queue = q;
        is_parallel = parallel;
        awaits = awaits;
        phase = waiting;
      }
        ∷ [];
  next_ticket = suc c.next_ticket;
}

-- what `run` does after the admission, until it returns its promise
abbrev pub chain : String → ℕ → Coordinator → Coordinator
chain id q c =
    add_operation c id q false (tail_tickets (c.objects q).tail ++ (c.objects q).parallel)
      (record (c.objects q) { tail = some c.next_ticket })

-- what `runParallel` does after the admission, until it returns its promise
abbrev pub chain_parallel : String → ℕ → Coordinator → Coordinator
chain_parallel id q c =
    add_operation c id q true (tail_tickets (c.objects q).tail)
      (record (c.objects q) { parallel = (c.objects q).parallel ++ c.next_ticket ∷ [] })

-- run, until it returns its promise
unfoldable pub run : Coordinator → Session → Outcome Coordinator
unfolding admit
run c s = do (q, c') ← admit c s false; returned (chain s.session_id q c')

-- runParallel, until it returns its promise
unfoldable pub run_parallel : Coordinator → Session → Outcome Coordinator
unfolding admit
run_parallel c s = do (q, c') ← admit c s true; returned (chain_parallel s.session_id q c')

abbrev pub is_live : Coordinator → ℕ → Bool
is_live c t = any_row (λ o. o.ticket == t) c.operations

-- each promise that the operation awaits is settled
unfoldable pub can_start : Coordinator → Operation → Bool
unfolding all_rows any_row
can_start c o = all_rows (λ t. not (is_live c t)) o.awaits

-- the body of `.then` is at its revalidation, or at `body()`
unfoldable pub set_phase : Coordinator → ℕ → Phase → Coordinator
unfolding update_rows
set_phase c t p = record c {
  operations = update_rows (λ o. o.ticket == t) (λ o. record o { phase = p }) c.operations;
}

-- the operation with a ticket is settled
unfoldable pub remove_operation : ℕ → List Operation → List Operation
remove_operation t [] = []
remove_operation t (o ∷ os) = if o.ticket == t then os else o ∷ remove_operation t os

-- Set.delete
unfoldable pub delete_member : ℕ → List ℕ → List ℕ
delete_member t [] = []
delete_member t (x ∷ xs) = if x == t then xs else x ∷ delete_member t xs

-- release
unfoldable pub release : Coordinator → String → ℕ → Coordinator
unfolding delete_key
release c id q =
    let v = record (c.objects q) { size = (c.objects q).size - 1 } in
    record c {
      objects = put_queue c.objects q v;
      queues = if v.size == 0 then delete_key id c.queues else c.queues;
    }

abbrev pub leave_parallel : Operation → Coordinator → Coordinator
leave_parallel o c =
    if o.is_parallel
    then record c {
      objects = put_queue c.objects o.queue (record (c.objects o.queue) {
        parallel = delete_member o.ticket (c.objects o.queue).parallel;
      });
    }
    else c

-- the handler of `.finally`, after which the promise of the operation settles
unfoldable pub finish : Coordinator → Operation → Coordinator
unfolding remove_operation delete_member release
finish c o =
    let c' = release (leave_parallel o c) o.session_id o.queue in
    record c' { operations = remove_operation o.ticket c'.operations }
