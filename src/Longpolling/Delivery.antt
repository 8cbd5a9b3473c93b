-- ===== src/Longpolling/Delivery.antt =====
-- evd/evd-longpolling-server.c with evd/js/evdWebTransport.js: messages from the server to the client.
pub mod Reading
pub mod Writing
use event_dance.Common.{
  ℕ, zero, suc, ◌+◌, ◌*◌, ◌≤◌, ◌<◌, ◌^◌, ◌≡◌, refl, sym, ap, ap₂, ◌∙◌, subst, Bool, true, false,
  if◌then◌else◌, Option, none, some, List, [], ◌∷◌, ◌++◌, append-nil, append_assoc, length, drop,
  map, arith,
}
use event_dance.HttpConnection.{Writer, chunked, crlf, write_content}
use event_dance.HttpConnection.Chunked.{write_contents, write_contents-convert, concat, AreShort}
use event_dance.ChunkedDecoder.{Decoder, reset, convert, ended, finished}
use event_dance.ChunkedDecoder.Chunks.{at_crlf}
use event_dance.Peer.{BacklogFrame, Peer, touch}
use event_dance.Peer.Sending.{Sent, Transport}
use event_dance.Longpolling.{
  frame_header, Conn, Link, write_head, actual_send, send_to_first, select_conn_and_send, transport,
  send_backlog, send_requested, answer,
}
use event_dance.Longpolling.Client.{xhr_on_load}
use event_dance.Longpolling.Wire.{IsAscii, AreAscii}
use event_dance.Longpolling.Delivery.Reading.{
  frames_text, length-frame_header, frames_text-IsAscii, xhr_on_load-frames_text,
}
use event_dance.Longpolling.Delivery.Writing.{
  ready, parts, delivered, bufs, write_contents-parts, write_head-Takes, send_requested-takes,
}

concat-parts : (bs : List (List ℕ)) → concat (parts bs) ≡ frames_text bs
concat-parts [] = refl
concat-parts (b ∷ bs) = ap (λ l. frame_header (length b) ++ (b ++ l)) (concat-parts bs)

parts-AreShort : (bs : List (List ℕ)) → AreShort bs → AreShort (parts bs)
parts-AreShort [] h = tt
parts-AreShort (b ∷ bs) (h, hs) =
    (omega (arith, length-frame_header (length b) h), (h, parts-AreShort bs hs))

-- What has been written to the connection that was handed back last.
abbrev pub last_written : List Conn → List ℕ
last_written [] = []
last_written (c ∷ []) = (c.writer).written
last_written (c ∷ d ∷ cs) = last_written (d ∷ cs)

last_written-append :
    (cs : List Conn) (c : Conn) → last_written (cs ++ (c ∷ [])) ≡ (c.writer).written
last_written-append [] c = refl
last_written-append (x ∷ []) c = refl
last_written-append (x ∷ y ∷ cs) c = last_written-append (y ∷ cs) c

-- The body of the response on the first of the connections that wait, behind its headers.
abbrev pub response_body : Conn → Link → List ℕ
response_body c l = drop (length (write_head c).0.written) (last_written l.answered)

-- Everything that waits for the peer, with one message more.
abbrev pub outgoing : BacklogFrame → Link → List (List ℕ)
outgoing f l = bufs ((l.peer).backlog ++ (f ∷ []))

bufs-append :
    (fs : List BacklogFrame) (f : BacklogFrame) → bufs (fs ++ (f ∷ [])) ≡ bufs fs ++ (f.buf ∷ [])
bufs-append [] f = refl
bufs-append (g ∷ fs) f = ap (◌∷◌ g.buf) (bufs-append fs f)

-- The state that sending leaves where every write succeeds.
abbrev sent_link : BacklogFrame → Conn → Link → List ℕ → Sent Link
sent_link f c l written = record {
  state = record l {
    peer = record (l.peer) { backlog = [] };
    answered =
        l.answered
        ++ (record c { writer = (write_contents (parts (outgoing f l)) (ready written)).0 } ∷ []);
  };
  frames = (l.peer).backlog ++ (f ∷ []);
  result = true;
}

-- actual_send behind the headers.
abbrev after_head : BacklogFrame → Conn → Link → Writer × Bool → Sent Link
after_head f c l head =
    if head.1
    then answer c l (send_requested (some f) (send_backlog (length (l.peer).backlog) l.peer head.0))
    else record { state = l; frames = []; result = true }

-- The link with the connection handed back, after these writes.
abbrev with_answer : BacklogFrame → Conn → Link → Writer → Sent Link
with_answer f c l w = record {
  state = record l {
    peer = record (l.peer) { backlog = [] };
    answered = l.answered ++ (record c { writer = w } ∷ []);
  };
  frames = (l.peer).backlog ++ (f ∷ []);
  result = true;
}

actual_send-takes :
    (f : BacklogFrame) (c : Conn) (l : Link) (written : List ℕ)
    → write_head c ≡ (ready written, true)
    → actual_send (some f) c l ≡ sent_link f c l written
unfolding actual_send
actual_send-takes f c l written e =
    let all = outgoing f l in
    let writers : (write_content [] false
          (delivered (bufs (l.peer).backlog ++ (f.buf ∷ [])) (ready written))).0
        ≡ (write_contents (parts all) (ready written)).0 =
      ap (λ bs. (write_content [] false (delivered bs (ready written))).0)
        (sym (bufs-append (l.peer).backlog f))
      ∙ sym (write_contents-parts all written).1 in
    ap (after_head f c l) e
    ∙ ap (answer c l) (send_requested-takes f l.peer written)
    ∙ ap (with_answer f c l) writers

select_conn-takes :
    (waiting : Option (List Conn)) (now : ℕ) (f : BacklogFrame) (c : Conn) (cs : List Conn)
    (l : Link) (written : List ℕ)
    → waiting ≡ some (c ∷ cs)
    → write_head c ≡ (ready written, true)
    → send_to_first waiting now f l
      ≡ sent_link f c (record l { peer = touch now l.peer; conns = some cs }) written
select_conn-takes waiting now f c cs l written w e =
    ap (λ cs. send_to_first cs now f l) w
    ∙ actual_send-takes f c (record l { peer = touch now l.peer; conns = some cs }) written e

-- What reaches the client, and what is left.
pub record Arrived (f : BacklogFrame) (l : Link) (d : Decoder) (decode : List ℕ → List ℕ) (c : Conn)
    (fuel outbuf_size rounds : ℕ) (r : Sent Link) : Type 0 where
  pub says_so : r.result ≡ true
  pub counted : r.frames ≡ (l.peer).backlog ++ (f ∷ [])
  pub nothing_left : ((r.state).peer).backlog ≡ []
  pub body : List ℕ
  pub decoded :
      convert fuel (reset d) (response_body c r.state) outbuf_size false
      ≡ some (ended (at_crlf 0) crlf body finished)
  pub read_back : xhr_on_load rounds (decode body) ≡ some (outgoing f l)

-- What the server sends arrives: where a connection waits for messages and its stream takes
-- everything, the backlog and the message are ASCII text and each is shorter than 2 ^ 32, and the browser
-- decodes ASCII text as it stands, sending the message succeeds and leaves no backlog, the bytes that the
-- connection has got behind the headers convert to a body in the chunked encoding, with room for one
-- byte more than the frames and two rounds for each byte that has been written, and the client reads
-- from it the backlog and then the message, with a round for each and one more.
pub send-Arrived :
    (now : ℕ) (f : BacklogFrame) (l : Link) (c : Conn) (cs : List Conn) (d : Decoder)
    (decode : List ℕ → List ℕ) (fuel outbuf_size rounds : ℕ)
    → l.conns ≡ some (c ∷ cs)
    → (c.writer).outcomes ≡ []
    → AreAscii (outgoing f l)
    → AreShort (outgoing f l)
    → ((s : List ℕ) → IsAscii s → decode s ≡ s)
    → length (frames_text (outgoing f l)) < outbuf_size
    → 2 * length (last_written ((transport now).send f l).state.answered) ≤ fuel
    → length (outgoing f l) < rounds
    → Arrived f l d decode c fuel outbuf_size rounds ((transport now).send f l)
unfolding select_conn_and_send
send-Arrived now f l c cs d decode fuel outbuf_size rounds waiting takes ascii short plain room
      steps more =
    let head = write_head-Takes c takes in
    let all = outgoing f l in
    let same : send_to_first l.conns now f l
        ≡ sent_link f c (record l { peer = touch now l.peer; conns = some cs }) head.0 =
      select_conn-takes l.conns now f c cs l head.0 waiting head.1 in
    let w = (write_contents (parts all) (ready head.0)).0 in
    let last : last_written (send_to_first l.conns now f l).state.answered ≡ w.written =
      ap (λ (r : Sent Link). last_written (r.state).answered) same
      ∙ last_written-append l.answered (record c { writer = w }) in
    let begins : (write_head c).0.written ≡ head.0 = ap (λ r. r.0.written) head.1 in
    let body_bytes : response_body c (send_to_first l.conns now f l).state
        ≡ drop (length head.0) w.written =
      ap₂ (λ b r. drop (length b) r) begins last in
    record {
      says_so = ap (λ (r : Sent Link). r.result) same;
      counted = ap (λ (r : Sent Link). r.frames) same;
      nothing_left = ap (λ (r : Sent Link). ((r.state).peer).backlog) same;
      body = frames_text all;
      decoded =
          ap (λ b. convert fuel (reset d) b outbuf_size false) body_bytes
          ∙ write_contents-convert d (parts all) (ready head.0) fuel outbuf_size refl
              (parts-AreShort all short) (write_contents-parts all head.0).0
              (omega (arith, room, ap length (concat-parts all)))
              (omega (arith, steps, ap length last))
          ∙ ap (λ b. some (ended (at_crlf 0) crlf b finished)) (concat-parts all);
      read_back =
          ap (xhr_on_load rounds) (plain (frames_text all) (frames_text-IsAscii all short ascii))
          ∙ xhr_on_load-frames_text all rounds short more;
    }
