-- ===== src/Longpolling/Lifecycle.antt =====
-- evd/evd-longpolling-server.c: what may happen to the link of a peer, in any order.
use event_dance.Common.{
  ℕ, ◌≡◌, refl, sym, subst, Bool, true, false, Bool-cases, if◌then◌else◌, Option, none, some, List,
  [], ◌∷◌, ◌++◌, append_assoc, inl, inr,
}
use event_dance.Common.Sublists.{
  Sublist, Sublist_refl, Sublist_of, Sublist_trans, Sublist_behind, Sublist_more, Sublist-append,
}
use event_dance.Peer.{BacklogFrame, touch, push_message}
use event_dance.Peer.Sending.{Sent, send_frame, send_frame-order}
use event_dance.Longpolling.{Conn, Link, transport}
use event_dance.Longpolling.Requests.{
  peer_closed, close_peer, hang_up, Action, receive, send, close, other, handle_action, handle_some,
  action_of, resolve_action, leave, request_handler, conn_on_content_read, remove_stream,
  contains_id,
}
use event_dance.Longpolling.Order.{
  of_link, actual_send-order, receive_request-order, transport-KeepsOrder,
}

-- One event, with the messages that the program sends by it.
pub data Step : Link → List BacklogFrame → Sent Link → Type 0 where
  sends : (now : ℕ) (f : BacklogFrame) (l : Link) → Step l (f ∷ []) (send_frame (transport now) f l)
  pushes :
      (f : BacklogFrame) (l : Link)
      → Step l (f ∷ []) (record {
        state = record l { peer = (push_message f l.peer).0 };
        frames = [];
        result = true;
      })
  requests :
      (path : List ℕ) (now : ℕ) (c : Conn) (l : Link) (r : Sent Link)
      → request_handler path now c l ≡ some r
      → Step l [] r
  reads :
      (fuel : ℕ) (content : Option (List ℕ × ℕ)) (c : Conn) (l : Link)
      → Step l [] (conn_on_content_read fuel content c l).1
  removes :
      (now id : ℕ) (l : Link)
      → Step l [] (record { state = remove_stream now id l; frames = []; result = true })
  closes : (l : Link) → Step l [] (record { state = close_peer l; frames = []; result = true })

-- A history: the messages sent by the program so far, and those written whole to some connection.
pub data History : Link → List BacklogFrame → List BacklogFrame → Link → Type 0 where
  start : (l : Link) → History l [] [] l
  then_step :
      {l m : Link} {sent written new : List BacklogFrame} {r : Sent Link}
      → History l sent written m
      → Step m new r
      → History l (sent ++ new) (written ++ r.frames) r.state

hang_up-backlog :
    (cs : Option (List Conn)) (l : Link) → ((hang_up cs l).peer).backlog ≡ (l.peer).backlog
hang_up-backlog none l = refl
hang_up-backlog (some cs) l = refl

close_peer-backlog : (l : Link) → ((close_peer l).peer).backlog ≡ (l.peer).backlog
unfolding close_peer peer_closed
close_peer-backlog l = either (l.peer).closing
  where
    closed : Link
    closed = record l { peer = record (l.peer) { closed = true } }

    either :
        (b : Bool) → ((if b then l else hang_up l.conns closed).peer).backlog ≡ (l.peer).backlog
    either true = refl
    either false = hang_up-backlog l.conns closed

remove_stream-backlog :
    (now id : ℕ) (l : Link) → ((remove_stream now id l).peer).backlog ≡ (l.peer).backlog
unfolding remove_stream
remove_stream-backlog now id l = elim (Bool-cases (contains_id id l.tagged)) [
  | inl e ↦ rw e refl
  | inr e ↦ rw e refl
]

handle_action-order :
    (a : Action) (c : Conn) (l : Link) → Sublist (of_link (handle_action a c l)) (l.peer).backlog
handle_action-order receive c l = receive_request-order c l
handle_action-order send c l = Sublist_refl (l.peer).backlog
handle_action-order close c l = Sublist_of (close_peer-backlog l)
handle_action-order other c l = Sublist_refl (l.peer).backlog

request_handler-order :
    (a : Option Action) (c : Conn) (l : Link) (r : Sent Link)
    → leave (handle_some a c l) ≡ some r
    → Sublist (of_link r) (l.peer).backlog
request_handler-order none c l r e = let never : none ≡ some r = e in cc
request_handler-order (some a) c l r e =
    let handled = handle_action a c l in
    let same : record handled { state = record (handled.state) { current = false } } ≡ r = cc in
    subst (λ r. Sublist (of_link r) (l.peer).backlog) same (handle_action-order a c l)

Step-order :
    {l : Link} {new : List BacklogFrame} {r : Sent Link}
    → Step l new r
    → Sublist (of_link r) ((l.peer).backlog ++ new)
unfolding request_handler conn_on_content_read
Step-order (sends now f l) = send_frame-order (transport now) f l (transport-KeepsOrder now)
Step-order (pushes f l) = Sublist_refl ((l.peer).backlog ++ (f ∷ []))
Step-order (requests path now c l r e) = Sublist_more [] (
    request_handler-order (action_of (resolve_action path)) c
      (record l { peer = touch now l.peer; current = true }) r e)
Step-order (reads fuel none c l) = actual_send-order none c l
Step-order (reads fuel (some content) c l) = actual_send-order none c l
Step-order (removes now id l) = Sublist_more [] (Sublist_of (remove_stream-backlog now id l))
Step-order (closes l) = Sublist_more [] (Sublist_of (close_peer-backlog l))

-- Messages keep their order and none is written twice: however sends, requests, contents, closed connections
-- and the end of the peer follow one another, and whatever the writes to the connections return, the messages
-- that have been written whole, and behind them the backlog, are some of the backlog at
-- the start and then the messages that the program has sent, in this order.
pub messages_in_order :
    {l m : Link} {sent written : List BacklogFrame}
    → History l sent written m
    → Sublist (written ++ (m.peer).backlog) ((l.peer).backlog ++ sent)
messages_in_order (start l) = Sublist_more [] (Sublist_refl (l.peer).backlog)
messages_in_order {l = l}
      (then_step {m = m} {sent = sent} {written = written} {new = new} {r = r} h s) =
    Sublist_trans (Sublist_of (append_assoc written r.frames ((r.state).peer).backlog)) (
      Sublist_trans (Sublist-append written (Step-order s)) (
        Sublist_trans (Sublist_of (sym (append_assoc written (m.peer).backlog new))) (
          Sublist_trans (Sublist_behind new (messages_in_order h))
            (Sublist_of (append_assoc (l.peer).backlog sent new)))))
