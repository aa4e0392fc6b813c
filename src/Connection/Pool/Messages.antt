-- ===== src/Connection/Pool/Messages.antt =====
-- lib/connection/pool.js, messageHandler: a message is handed to the operation that it answers. A
-- document is given by what the handler reads of it.
pub mod Replies
mod Tests
use mongodb_core.Prelude.{
  ℕ, zero, suc, Bool, true, false, not, ◌&&◌, ◌||◌, Option, none, some, List, [], ◌∷◌, ◌++◌, ◌==◌,
  if◌then◌else◌, is_some, nonzero,
}
use mongodb_core.Connection.Pool.{
  Pool, WorkItem, Socket, Answer, unparsable, write_concern_failed, command_failed, result, Effect,
  called, session_updated, timeout_reset, did, update, give_back_connection,
}
use mongodb_core.Connection.Pool.Events.{execute_soon}

pub record Document : Type 0 where
  pub ok_is_zero : Bool
  pub err : Bool
  pub errmsg : Bool
  pub code : Bool
  pub write_concern_error : Bool
  pub cluster_time : Option ℕ

-- The answer names the request; its documents may not parse, and there may be none.
pub data Parsed : Type 0 where
  fails empty : Parsed
  document : Document → Parsed

pub record Message : Type 0 where
  pub response_to : ℕ
  pub parsed : Parsed

-- The loop that locates the work item: after a removal it goes on at the next place, so that the item that
-- has moved up is passed over; a later match counts.
pub record Located : Type 0 where
  pub item : Option WorkItem
  pub left : List WorkItem

abbrev later_or : WorkItem → Option WorkItem → Option WorkItem
later_or w none = some w
later_or w (some v) = some v

abbrev stays_before : WorkItem → Located → Located
stays_before w r = record r { left = w ∷ r.left }

abbrev taken_before : WorkItem → WorkItem → Located → Located
taken_before w v r = record { item = later_or w r.item; left = v ∷ r.left }

unfoldable pub locate : ℕ → List WorkItem → Located
locate id [] = record { item = none; left = [] }
locate id (w ∷ []) =
    if w.request_id == id
    then record { item = some w; left = [] }
    else record { item = none; left = w ∷ [] }
locate id (w ∷ v ∷ ws) =
    let found = taken_before w v (locate id ws) in
    let goes_on = stays_before w (locate id (v ∷ ws)) in
    if w.request_id == id then found else goes_on

abbrev is_command_error : Document → Bool
is_command_error d = d.ok_is_zero || d.err || d.errmsg || d.code

-- What the callback gets for the first document.
abbrev pub answer_of : WorkItem → Document → Answer
answer_of w d =
    if w.command && d.write_concern_error
    then write_concern_failed
    else if w.command && is_command_error d
    then command_failed
    else result

abbrev newer : Option ℕ → Option ℕ → Option ℕ
newer none old = old
newer (some t) old = some t

abbrev pub note_times : WorkItem → Document → Pool → Pool
note_times w d p =
    let noted = if w.session then did (session_updated w) p else p in
    record noted { cluster_time = newer d.cluster_time p.cluster_time }

-- The callback is called with the parsed message.
unfoldable pub respond : WorkItem → Parsed → Pool → Pool
respond w fails p = did (called w unparsable) p
respond w empty p = did (called w result) p
respond w (document d) p = did (called w (answer_of w d)) (note_times w d p)

abbrev pub dispatch : Option WorkItem → Parsed → Pool → Pool
dispatch none m p = p
dispatch (some w) m p = if w.immediate_release then p else respond w m p

abbrev pub is_monitor : Option WorkItem → Bool
is_monitor none = false
is_monitor (some w) = w.monitoring

abbrev pub has_timeout : Option WorkItem → Bool
has_timeout none = false
has_timeout (some w) = is_some (nonzero w.socket_timeout)

-- The items of the connection that are left.
abbrev pub with_items : ℕ → List WorkItem → Pool → Pool
with_items c items p = record p {
  store = update p.store c (record (p.store c) { work_items = items });
}

unfoldable pub settle : ℕ → Option WorkItem → Pool → Pool
unfolding give_back_connection
settle c item p =
    let back = if is_monitor item then give_back_connection c p else p in
    let reset = record back { consecutive_timeouts = 0 } in
    execute_soon (if has_timeout item then did (timeout_reset c) reset else reset)

-- `messageHandler(self)(message, connection)`
unfoldable pub message_handler : Message → ℕ → Pool → Pool
unfolding locate settle respond
message_handler m c p =
    let found = locate m.response_to (p.store c).work_items in
    dispatch found.item m.parsed (settle c found.item (with_items c found.left p))
