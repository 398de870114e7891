-- ===== src/Mobile/RunStore.antt =====
-- apps/mobile/src/state/run-store.ts: what the mobile client holds of each run.
pub mod Order
pub mod Views
pub mod Guarantees
pub mod Deliveries
use matrix_agent_workspace.Prelude.{
  ℕ, ◌-◌, ◌^◌, String, Bool, true, false, Option, none, some, List, [], ◌∷◌, ◌++◌, map, keep, any,
  map_get, map_set, ltb, leb, nat_eq, not, ◌&&◌, ◌||◌, ◌==◌, if◌then◌else◌,
}
use matrix_agent_workspace.Json.{Json, str, num, obj, Fields, get}

-- `visibility` is always `room_and_owner`, so the record leaves it out.
pub record NormalizedRunEvent : Type 0 where
  pub id : String
  pub run_id : String
  pub sequence : ℕ
  pub type' : String
  pub version : ℕ
  pub occurred_at : String
  pub payload : Fields

pub record MatrixDeliveryMarker : Type 0 where
  pub run_id : String
  pub sequence : ℕ

pub record RunSnapshot : Type 0 where
  pub run_id : String
  pub highest_sequence : ℕ
  pub events : List NormalizedRunEvent
  pub matrix_delivered_sequences : List ℕ

-- A listener is known by its name here; the code keeps the callbacks in a set.
pub record MutableRun : Type 0 where
  pub snapshot : RunSnapshot
  pub listeners : List String
  pub pending_deliveries : List ℕ

-- What the store tells the outside: a snapshot that is saved, and a listener that is called.
pub data Published : Type 0 where
  saved : RunSnapshot → Published
  called : String → Published

pub record RunStore : Type 0 where
  pub runs : List (String × MutableRun)
  pub published : List Published

abbrev pub empty_store : RunStore
empty_store = record { runs = []; published = [] }

-- `Number.MAX_SAFE_INTEGER`.
abbrev pub max_safe_integer : ℕ
max_safe_integer = 2 ^ 53 - 1

-- The typed reads of `normalizeEvent`: a non-empty text, and a safe integer from a bound on.
abbrev pub text_of : Option Json → Option String
text_of (some (str s)) = if s == "" then none else some s
text_of _ = none

abbrev pub integer_from : ℕ → Option Json → Option ℕ
integer_from least (some (num n)) = if leb least n && leb n max_safe_integer then some n else none
integer_from least _ = none

abbrev pub record_of : Option Json → Option Fields
record_of (some (obj fields)) = some fields
record_of _ = none

-- `Date.parse` is the parameter `is_date`: whether it yields a number.
abbrev pub date_of : (String → Bool) → Option Json → Option String
date_of is_date (some (str s)) = if is_date s then some s else none
date_of is_date _ = none

abbrev pub is_visible : Option Json → Bool
is_visible (some (str s)) = s == "room_and_owner"
is_visible _ = false

infixl 5 ◌>>=◌
abbrev pub ◌>>=◌ : {A B : Type 0} → Option A → (A → Option B) → Option B
none >>= f = none
some a >>= f = f a

abbrev pub when_visible : Bool → NormalizedRunEvent → Option NormalizedRunEvent
when_visible true e = some e
when_visible false e = none

abbrev pub normalize_fields : (String → Bool) → Fields → Option NormalizedRunEvent
normalize_fields is_date fields = do
  payload ← record_of (get "payload" fields)
  id ← text_of (get "id" fields)
  run_id ← text_of (get "runId" fields)
  kind ← text_of (get "type" fields)
  sequence ← integer_from 0 (get "sequence" fields)
  version ← integer_from 1 (get "version" fields)
  occurred_at ← date_of is_date (get "occurredAt" fields)
  when_visible (is_visible (get "visibility" fields)) (record {
    id = id;
    run_id = run_id;
    sequence = sequence;
    type' = kind;
    version = version;
    occurred_at = occurred_at;
    payload = payload;
  })

unfoldable pub normalize_event : (String → Bool) → Json → Option NormalizedRunEvent
normalize_event is_date candidate = record_of (some candidate) >>= normalize_fields is_date

abbrev pub empty_run : String → MutableRun
empty_run run_id = record {
  snapshot = record {
    run_id = run_id;
    highest_sequence = 0;
    events = [];
    matrix_delivered_sequences = [];
  };
  listeners = [];
  pending_deliveries = [];
}

abbrev pub run_or_empty : String → Option MutableRun → MutableRun
run_or_empty run_id none = empty_run run_id
run_or_empty run_id (some run) = run

-- `mutable(runId)`, which inserts an empty run where there is none.
unfoldable pub mutable : String → RunStore → MutableRun × RunStore
mutable run_id store =
    let run = run_or_empty run_id (map_get run_id store.runs) in
    (run, record store { runs = map_set run_id run store.runs })

-- `persistent` tells whether the store was created with a persistence.
abbrev pub publication : Bool → MutableRun → List Published
publication true run = saved run.snapshot ∷ map called run.listeners
publication false run = map called run.listeners

-- The run with its new snapshot, published.
abbrev pub publish : Bool → String → MutableRun → RunStore → RunStore
publish persistent run_id run store = record {
  runs = map_set run_id run store.runs;
  published = store.published ++ publication persistent run;
}

unfoldable pub get_run : String → RunStore → RunSnapshot × RunStore
unfolding mutable
get_run run_id store = let (run, store') = mutable run_id store in (run.snapshot, store')

abbrev pub has : ℕ → List ℕ → Bool
has n set = any (nat_eq n) set

abbrev pub remove : ℕ → List ℕ → List ℕ
remove n set = keep (λ m. not (nat_eq n m)) set

-- `set.add(n)`.
abbrev pub add : ℕ → List ℕ → List ℕ
add n set = if has n set then set else set ++ n ∷ []

-- The run after a new event.
unfoldable pub with_event : NormalizedRunEvent → MutableRun → MutableRun
with_event e run =
    let s = run.snapshot in
    record run {
      pending_deliveries = remove e.sequence run.pending_deliveries;
      snapshot = record s {
        highest_sequence = e.sequence;
        events = s.events ++ e ∷ [];
        matrix_delivered_sequences =
            if has e.sequence run.pending_deliveries
            then add e.sequence s.matrix_delivered_sequences
            else s.matrix_delivered_sequences;
      };
    }

abbrev pub add_normalized : Bool → Option NormalizedRunEvent → RunStore → Bool × RunStore
add_normalized persistent none store = (false, store)
add_normalized persistent (some e) store =
    let (run, store') = mutable e.run_id store in
    if leb e.sequence run.snapshot.highest_sequence
    then (false, store')
    else (true, publish persistent e.run_id (with_event e run) store')

unfoldable pub add_event : (String → Bool) → Bool → Json → RunStore → Bool × RunStore
unfolding mutable normalize_event with_event
add_event is_date persistent candidate store =
    add_normalized persistent (normalize_event is_date candidate) store

abbrev pub has_sequence : ℕ → List NormalizedRunEvent → Bool
has_sequence n events = any (λ (e : NormalizedRunEvent). nat_eq e.sequence n) events

-- A marker whose event is there, or that waits for it. Markers come from outside as numbers; one
-- that is no natural number is refused as one that is not above the highest sequence.
unfoldable pub with_marker : ℕ → MutableRun → Bool × MutableRun
with_marker n run =
    let s = run.snapshot in
    if has_sequence n s.events
    then (if has n s.matrix_delivered_sequences then (false, run) else (
      true,
      record run {
        snapshot = record s { matrix_delivered_sequences = add n s.matrix_delivered_sequences };
      },
    ))
    else if leb n max_safe_integer && ltb s.highest_sequence n
    then (false, record run { pending_deliveries = add n run.pending_deliveries })
    else (false, run)

-- Only a marker that takes effect is published.
abbrev pub put_marked : Bool → String → Bool × MutableRun → RunStore → Bool × RunStore
put_marked persistent run_id (true, run) store = (true, publish persistent run_id run store)
put_marked persistent run_id (false, run) store =
    (false, record store { runs = map_set run_id run store.runs })

abbrev pub mark_found : Bool → MatrixDeliveryMarker → Option MutableRun → RunStore → Bool × RunStore
mark_found persistent marker none store = (false, store)
mark_found persistent marker (some run) store =
    put_marked persistent marker.run_id (with_marker marker.sequence run) store

unfoldable pub mark_matrix_delivered : Bool → MatrixDeliveryMarker → RunStore → Bool × RunStore
unfolding with_marker
mark_matrix_delivered persistent marker store =
    mark_found persistent marker (map_get marker.run_id store.runs) store

abbrev pub add_listener : String → List String → List String
add_listener l set = if any (λ k. k == l) set then set else set ++ l ∷ []

unfoldable pub subscribe : String → String → RunStore → RunStore
unfolding mutable
subscribe run_id listener store =
    let (run, store') = mutable run_id store in
    record store' {
      runs =
          map_set run_id (record run { listeners = add_listener listener run.listeners })
            store'.runs;
    }

abbrev pub remove_listener : String → List String → List String
remove_listener l set = keep (λ k. not (k == l)) set

abbrev pub unsubscribe_found : String → String → Option MutableRun → RunStore → RunStore
unsubscribe_found run_id listener none store = store
unsubscribe_found run_id listener (some run) store = record store {
  runs =
      map_set run_id (record run { listeners = remove_listener listener run.listeners }) store.runs;
}

-- The function that `subscribe` returns. A run is never removed, so it is the one in the map.
unfoldable pub unsubscribe : String → String → RunStore → RunStore
unsubscribe run_id listener store =
    unsubscribe_found run_id listener (map_get run_id store.runs) store

-- Any use of the store.
pub data Use : Type 0 where
  read : String → Use
  received : Json → Use
  delivered : MatrixDeliveryMarker → Use
  subscribed : String → String → Use
  unsubscribed : String → String → Use

unfoldable pub use_store : (String → Bool) → Bool → Use → RunStore → RunStore
unfolding get_run add_event mark_matrix_delivered subscribe unsubscribe
use_store is_date persistent (read id) store = (get_run id store).1
use_store is_date persistent (received c) store = (add_event is_date persistent c store).1
use_store is_date persistent (delivered m) store = (mark_matrix_delivered persistent m store).1
use_store is_date persistent (subscribed id l) store = subscribe id l store
use_store is_date persistent (unsubscribed id l) store = unsubscribe id l store

unfoldable pub uses_store : (String → Bool) → Bool → List Use → RunStore → RunStore
unfolding use_store
uses_store is_date persistent [] store = store
uses_store is_date persistent (u ∷ us) store =
    uses_store is_date persistent us (use_store is_date persistent u store)
