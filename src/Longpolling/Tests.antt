-- ===== src/Longpolling/Tests.antt =====
-- evd/evd-longpolling-server.c: runs and instances.
use event_dance.Common.{
  ℕ, ◌≡◌, refl, true, false, Option, none, some, List, [], ◌∷◌, ◌++◌, length, arith,
}
use event_dance.Common.Hex.{places}
use event_dance.Common.Sublists.{Sublist}
use event_dance.Common.Text.{bytes}
use event_dance.ChunkedDecoder.{Decoder, reading_content}
use event_dance.HttpConnection.{
  until_eof, Outcome, failed, accepted, decimal, write_plain, write_chunk, write_content,
  write_response_headers,
}
use event_dance.Peer.{text, BacklogFrame, new_peer}
use event_dance.Peer.Sending.{Sent, send_frame}
use event_dance.Longpolling.{
  Conn, Link, read_msg_header, read_messages, write_frame_delivery, send_backlog, send_requested,
  actual_send, select_conn_and_send, transport,
}
use event_dance.Longpolling.Requests.{close_peer, resolve_action}
use event_dance.Longpolling.Client.{send_body}
use event_dance.Longpolling.Wire.{Delivers, read_messages-send_body}
use event_dance.Longpolling.Delivery.{Arrived, last_written, send-Arrived}
use event_dance.Longpolling.Lifecycle.{start, then_step, sends, closes, messages_in_order}

abbrev frame : List ℕ → BacklogFrame
frame buf = record { buf = buf; kind = text }

abbrev conn : ℕ → List Outcome → Conn
conn id outcomes = record {
  id = id;
  keepalive = true;
  allowed_origin = none;
  writer = record { encoding = until_eof; written = []; outcomes = outcomes };
}

abbrev link : List BacklogFrame → Option (List Conn) → Link
link backlog conns = record {
  peer = record (new_peer 0) { backlog = backlog };
  conns = conns;
  tagged = 7 ∷ [];
  current = false;
  answered = [];
}

-- A header that says ffffffef makes the index come back to where it was.
endless : read_messages 9 ((127 ∷ bytes "00000000ffffffef") ++ bytes "more") 21 0 0 ≡ none
unfolding read_messages read_msg_header
endless = refl

an_action : resolve_action (bytes "/lp/receive") ≡ some (bytes "receive")
an_action = refl

-- Where the headers cannot be written, the message is lost, and the call succeeds.
lost :
    select_conn_and_send 5 (frame (bytes "hi")) (link [] (some (conn 7 (failed ∷ []) ∷ [])))
    ≡ record {
      state = record (link [] (some [])) { peer = new_peer 5 };
      frames = [];
      result = true;
    }
unfolding select_conn_and_send actual_send write_response_headers
lost = refl

-- A message that cannot be written goes back to the backlog, an empty one does not.
kept_back :
    (send_backlog 1
      (record (new_peer 0) { backlog = frame (bytes "hi") ∷ [] })
      (record { encoding = until_eof; written = []; outcomes = accepted 9 ∷ failed ∷ [] })).result
    ≡ false
unfolding send_backlog write_frame_delivery write_content write_plain
kept_back = refl

abbrev backlog : List BacklogFrame
backlog = frame (bytes "one") ∷ frame [] ∷ []

abbrev waiting : Link
waiting = link backlog (some (conn 7 [] ∷ conn 8 [] ∷ []))

abbrev used : Decoder
used = record { chunk_left = 3; status = reading_content; hdr_buf = bytes "1"; crlf_pos = 1 }

sent_bytes :
    length (last_written ((transport 5).send (frame (bytes "two")) waiting).state.answered) ≡ 151
unfolding select_conn_and_send actual_send send_backlog send_requested write_frame_delivery
    write_content write_chunk write_plain write_response_headers places decimal
sent_bytes = refl

send-Arrived_example :
    Arrived
      (frame (bytes "two"))
      waiting
      used
      (λ s. s)
      (conn 7 [])
      1000
      20
      4
      ((transport 5).send (frame (bytes "two")) waiting)
send-Arrived_example =
    send-Arrived 5 (frame (bytes "two")) waiting (conn 7 []) (conn 8 [] ∷ []) used (λ s. s) 1000 20
      4 refl refl
      (
        (omega arith, (omega arith, (omega arith, tt))),
        (tt, ((omega arith, (omega arith, (omega arith, tt))), tt)),
      )
      (omega arith, (omega arith, (omega arith, tt))) (λ s h. refl) (omega arith)
      (omega (arith, sent_bytes)) (omega arith)

read_messages-send_body_example :
    Delivers
      (send_body (bytes "one" ∷ [] ∷ []) ++ (0 ∷ []))
      (read_messages 3 (send_body (bytes "one" ∷ [] ∷ []) ++ (0 ∷ [])) 5 0 0)
      (bytes "one" ∷ [] ∷ [])
read_messages-send_body_example =
    read_messages-send_body (λ s. s) (bytes "one" ∷ [] ∷ []) (0 ∷ []) 3 (λ s h. refl)
      ((omega arith, (omega arith, (omega arith, tt))), (tt, tt)) (omega arith) (omega arith)

-- A message is sent to two connections that wait, and then the peer is closed.
abbrev sent_two : Sent Link
sent_two = send_frame (transport 5) (frame (bytes "two")) waiting

messages_in_order_example :
    Sublist
      ((([] ++ sent_two.frames) ++ []) ++ ((close_peer sent_two.state).peer).backlog)
      (backlog ++ (([] ++ (frame (bytes "two") ∷ [])) ++ []))
messages_in_order_example = messages_in_order (
    then_step (then_step (start waiting) (sends 5 (frame (bytes "two")) waiting))
      (closes sent_two.state))
