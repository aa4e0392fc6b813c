-- ===== src/Connection/Pool/Messages/Replies.antt =====
-- lib/connection/pool.js, messageHandler: each reply reaches the operation that it answers.
use mongodb_core.Prelude.{
  append-nil, ℕ, ◌≡◌, ◌≢◌, refl, sym, ap, subst, ◌∙◌, Bool, true, false, Option, none, some, List,
  [], ◌∷◌, ◌++◌, arith, if◌then◌else◌, ◌==◌, ==_iff,
}
use mongodb_core.Connection.Pool.{
  Pool, WorkItem, Answer, unparsable, result, called, session_updated, timeout_reset, execute_later,
  did, give_back_connection,
}
use mongodb_core.Connection.Pool.Events.{execute_soon}
use mongodb_core.Connection.Pool.Closing.Ends.{
  answers, answers-append, IsSilent, IsSilent-if, did-IsSilent, IsSilent-trans,
}
use mongodb_core.Connection.Pool.Messages.{
  Message, Parsed, fails, empty, document, Located, locate, answer_of, note_times, respond,
  dispatch, is_monitor, has_timeout, with_items, settle, message_handler,
}

-- No item has this id.
abbrev IsNoneOf : ℕ → List WorkItem → Type 0
IsNoneOf id [] = Unit
IsNoneOf id (w ∷ ws) = ((w.request_id == id) ≡ false) × IsNoneOf id ws

locate-none :
    (id : ℕ) (ws : List WorkItem)
    → IsNoneOf id ws
    → locate id ws ≡ record { item = none; left = ws }
unfolding locate
locate-none id [] h = refl
locate-none id (w ∷ []) h = rw h.0 refl
locate-none id (w ∷ v ∷ ws) h = rw (h.0, locate-none id (v ∷ ws) h.1) refl

locate-one :
    (id : ℕ) (before : List WorkItem) (w : WorkItem) (after : List WorkItem)
    → IsNoneOf id before
    → w.request_id ≡ id
    → IsNoneOf id after
    → locate id (before ++ (w ∷ after)) ≡ record { item = some w; left = before ++ after }
unfolding locate
locate-one id [] w [] b e a = rw ((==_iff w.request_id id).1 e) refl
locate-one id [] w (v ∷ after) b e a =
    rw ((==_iff w.request_id id).1 e, locate-none id after a.1) refl
locate-one id (u ∷ []) w after b e a = rw (b.0, locate-one id [] w after b.1 e a) refl
locate-one id (u ∷ v ∷ before) w after b e a =
    rw (b.0, locate-one id (v ∷ before) w after b.1 e a) refl

give_back-IsSilent : (c : ℕ) (p : Pool) → IsSilent p (give_back_connection c p)
unfolding give_back_connection
give_back-IsSilent c p = ground arith

settle-IsSilent : (c : ℕ) (item : Option WorkItem) (p : Pool) → IsSilent p (settle c item p)
unfolding settle answers
settle-IsSilent c item p =
    let back = if is_monitor item then give_back_connection c p else p in
    let reset = record back { consecutive_timeouts = 0 } in
    let timed = if has_timeout item then did (timeout_reset c) reset else reset in
    IsSilent-trans p back (execute_soon timed)
      (IsSilent-if (is_monitor item) p (give_back_connection c p) p (give_back-IsSilent c p)
        (refl, refl))
      (IsSilent-trans reset timed (execute_soon timed)
        (IsSilent-if (has_timeout item) reset (did (timeout_reset c) reset) reset
          (did-IsSilent (timeout_reset c) reset refl) (refl, refl))
        (IsSilent-if timed.executing timed timed (did execute_later timed) (refl, refl)
          (did-IsSilent execute_later timed refl)))

-- What the callback of an operation gets for a reply.
abbrev pub answer_to : WorkItem → Parsed → Answer
answer_to w fails = unparsable
answer_to w empty = result
answer_to w (document d) = answer_of w d

respond-answers :
    (w : WorkItem) (m : Parsed) (p : Pool)
    → (answers (respond w m p).log ≡ answers p.log ++ ((w, answer_to w m) ∷ []))
      × ((respond w m p).store ≡ p.store)
unfolding respond answers
respond-answers w fails p = (answers-append p.log (called w unparsable ∷ []), refl)
respond-answers w empty p = (answers-append p.log (called w result ∷ []), refl)
respond-answers w (document d) p =
    let (a, b) = noted in
    (
      answers-append (note_times w d p).log (called w (answer_of w d) ∷ [])
          ∙ ap (λ l. l ++ ((w, answer_of w d) ∷ [])) a,
      b,
    )
  where
    noted : IsSilent p (note_times w d p)
    noted =
        IsSilent-if w.session p (did (session_updated w) p) p
          (did-IsSilent (session_updated w) p refl) (refl, refl)

-- The connection has these items, and every other is as before.
abbrev pub HasItems : ℕ → List WorkItem → Pool → Pool → Type 0
HasItems c items p q = ((q.store c).work_items ≡ items) × ((d : ℕ) → d ≢ c → q.store d ≡ p.store d)

with_items-HasItems :
    (c : ℕ) (items : List WorkItem) (p q : Pool)
    → q.store ≡ (with_items c items p).store
    → HasItems c items p q
with_items-HasItems c items p q e =
    (ap (λ s. (s c).work_items) e ∙ here, λ d other. ap (λ s. s d) e ∙ elsewhere d other)
  where
    here : ((with_items c items p).store c).work_items ≡ items
    here = ground arith

    elsewhere : (d : ℕ) → d ≢ c → (with_items c items p).store d ≡ p.store d
    elsewhere d other = ground arith

abbrev handle : Message → ℕ → Pool → Located → Pool
handle m c p found = dispatch found.item m.parsed (settle c found.item (with_items c found.left p))

handle-some :
    (m : Message) (c : ℕ) (p : Pool) (w : WorkItem) (left : List WorkItem)
    → let q = handle m c p (record { item = some w; left = left }) in
      (answers q.log
        ≡ answers p.log ++ (if w.immediate_release then [] else (w, answer_to w m.parsed) ∷ []))
      × HasItems c left p q
handle-some m c p w left = by_release w.immediate_release
  where
    settled : Pool
    settled = settle c (some w) (with_items c left p)

    quiet : IsSilent (with_items c left p) settled
    quiet = settle-IsSilent c (some w) (with_items c left p)

    by_release :
        (b : Bool)
        → let q = if b then settled else respond w m.parsed settled in
          (answers q.log ≡ answers p.log ++ (if b then [] else (w, answer_to w m.parsed) ∷ []))
          × HasItems c left p q
    by_release true =
        (quiet.0 ∙ sym (append-nil (answers p.log)), with_items-HasItems c left p settled quiet.1)
    by_release false =
        let told = respond-answers w m.parsed settled in
        (
          told.0 ∙ ap (λ l. l ++ ((w, answer_to w m.parsed) ∷ [])) quiet.0,
          with_items-HasItems c left p (respond w m.parsed settled) (told.1 ∙ quiet.1),
        )

-- A reply to an operation in flight whose request id no other on the connection has is given to that
-- operation's callback, and to no other, with the error or the result that it holds, unless the operation
-- asked for an immediate release; that operation, and no other, is no longer in flight, and no other
-- connection changes.
pub message_handler-answers :
    (m : Message) (c : ℕ) (p : Pool) (before : List WorkItem) (w : WorkItem) (after : List WorkItem)
    → (p.store c).work_items ≡ before ++ (w ∷ after)
    → IsNoneOf m.response_to before
    → w.request_id ≡ m.response_to
    → IsNoneOf m.response_to after
    → (answers (message_handler m c p).log
        ≡ answers p.log ++ (if w.immediate_release then [] else (w, answer_to w m.parsed) ∷ []))
      × HasItems c (before ++ after) p (message_handler m c p)
unfolding message_handler
message_handler-answers m c p before w after e b i a =
    let located : locate m.response_to (p.store c).work_items
        ≡ record { item = some w; left = before ++ after } =
      ap (locate m.response_to) e ∙ locate-one m.response_to before w after b i a in
    subst
      (λ found.
        (answers (handle m c p found).log
          ≡ answers p.log ++ (if w.immediate_release then [] else (w, answer_to w m.parsed) ∷ []))
        × HasItems c (before ++ after) p (handle m c p found))
      (sym located) (handle-some m c p w (before ++ after))

-- A reply to no operation in flight on its connection is given to no callback and changes no connection.
message_handler-ignores :
    (m : Message) (c : ℕ) (p : Pool)
    → IsNoneOf m.response_to (p.store c).work_items
    → (answers (message_handler m c p).log ≡ answers p.log)
      × HasItems c (p.store c).work_items p (message_handler m c p)
unfolding message_handler
message_handler-ignores m c p h =
    let items = (p.store c).work_items in
    let settled = settle c none (with_items c items p) in
    let quiet = settle-IsSilent c none (with_items c items p) in
    subst
      (λ found.
        (answers (handle m c p found).log ≡ answers p.log)
        × HasItems c items p (handle m c p found))
      (sym (locate-none m.response_to items h))
      (quiet.0, with_items-HasItems c items p settled quiet.1)
