-- ===== src/Longpolling/Delivery/Writing.antt =====
-- evd/evd-longpolling-server.c on evd/evd-http-connection.c: a stream that takes everything.
use event_dance.Common.{
  ℕ, ◌≡◌, refl, sym, ap, ◌∙◌, leb, Bool, true, false, if◌then◌else◌, some, List, [], ◌∷◌, ◌++◌,
  append-nil, length, map, arith,
}
use event_dance.HttpConnection.{
  Encoding, chunked, until_eof, Outcome, Writer, write_plain, hex, crlf, write_chunk, write_content,
  write_response_headers, has_bytes, ◌and_then◌, status_line, header_lines, next_outcome,
  not_failed,
}
use event_dance.HttpConnection.Chunked.{write_contents}
use event_dance.Common.Text.{bytes}
use event_dance.Peer.{BacklogFrame, Peer, unshift_message}
use event_dance.Peer.Sending.{Sent}
use event_dance.Longpolling.{
  Conn, frame_header, write_frame_delivery, send_backlog, send_requested, write_head,
  response_headers,
}

-- A writer of chunks on a stream that takes everything.
abbrev pub ready : List ℕ → Writer
ready written = record { encoding = chunked; written = written; outcomes = [] }

abbrev Takes : Writer × Bool → Type 0
Takes r = (written : List ℕ) × (r ≡ (ready written, true))

leb_refl : (n : ℕ) → leb n n ≡ true
leb_refl n = ground arith

write_plain-takes :
    (encoding : Encoding) (written buffer : List ℕ)
    → write_plain buffer (record { encoding = encoding; written = written; outcomes = [] })
      ≡ (record { encoding = encoding; written = written ++ buffer; outcomes = [] }, true)
unfolding write_plain
write_plain-takes encoding written [] =
    ap (λ l. (record { encoding = encoding; written = l; outcomes = [] }, true))
      (sym (append-nil written))
write_plain-takes encoding written (c ∷ cs) = rw (leb_refl (length (c ∷ cs))) refl

-- The same without chunks.
abbrev plain : List ℕ → Writer
plain written = record { encoding = until_eof; written = written; outcomes = [] }

abbrev body : List ℕ → Writer → Writer × Bool
body buffer v = if has_bytes buffer then write_plain buffer v else (v, true)

body-takes :
    (buffer written : List ℕ) → body buffer (plain written) ≡ (plain (written ++ buffer), true)
body-takes [] written = ap (λ l. (plain l, true)) (sym (append-nil written))
body-takes (c ∷ cs) written = write_plain-takes until_eof written (c ∷ cs)

write_chunk-Takes : (buffer written : List ℕ) → Takes (write_chunk buffer (ready written))
unfolding write_chunk
write_chunk-Takes buffer written =
    let head = hex (length buffer) ++ crlf in
    let parts : (write_plain head (plain written) and_then body buffer and_then write_plain crlf)
        ≡ (plain (((written ++ head) ++ buffer) ++ crlf), true) =
      ap (λ r. r and_then body buffer and_then write_plain crlf)
        (write_plain-takes until_eof written head)
      ∙ ap (λ r. r and_then write_plain crlf) (body-takes buffer (written ++ head))
      ∙ write_plain-takes until_eof ((written ++ head) ++ buffer) crlf in
    (
      ((written ++ head) ++ buffer) ++ crlf,
      ap (λ r. (record (r.0) { encoding = chunked }, r.1)) parts,
    )

pub write_content-Takes :
    (buffer written : List ℕ) → Takes (write_content buffer true (ready written))
unfolding write_content
write_content-Takes [] written = (written, refl)
write_content-Takes (c ∷ cs) written =
    let r = write_chunk-Takes (c ∷ cs) written in (r.0, ap (λ r. r and_then (λ v. (v, true))) r.1)

pub write_last-Takes : (written : List ℕ) → Takes (write_content [] false (ready written))
unfolding write_content
write_last-Takes written = write_chunk-Takes [] written

-- The parts that frames are written in.
abbrev pub parts : List (List ℕ) → List (List ℕ)
parts [] = []
parts (b ∷ bs) = frame_header (length b) ∷ b ∷ parts bs

-- Frames that are written one behind the other.
abbrev pub delivered : List (List ℕ) → Writer → Writer
delivered [] w = w
delivered (b ∷ bs) w = delivered bs (write_frame_delivery b w).0

pub write_frame_delivery-Takes :
    (b written : List ℕ) → Takes (write_frame_delivery b (ready written))
unfolding write_frame_delivery
write_frame_delivery-Takes b written =
    let head = write_content-Takes (frame_header (length b)) written in
    let rest = write_content-Takes b head.0 in
    (rest.0, ap (λ r. write_content b true r.0) head.1 ∙ rest.1)

-- Where every write succeeds, the calls for the parts are the calls for the frames.
pub write_contents-parts :
    (bs : List (List ℕ)) (written : List ℕ)
    → ((write_contents (parts bs) (ready written)).1 ≡ true)
      × ((write_contents (parts bs) (ready written)).0
          ≡ (write_content [] false (delivered bs (ready written))).0)
unfolding write_frame_delivery
write_contents-parts [] written = (ap (λ r. r.1) (write_last-Takes written).1, refl)
write_contents-parts (b ∷ bs) written =
    let hd = frame_header (length b) in
    let head = write_content-Takes hd written in
    let frame = write_content-Takes b head.0 in
    let later = write_contents-parts bs frame.0 in
    let same : write_contents (parts (b ∷ bs)) (ready written)
        ≡ write_contents (parts bs) (ready frame.0) =
      ap (λ r. r and_then write_contents (b ∷ parts bs)) head.1
      ∙ ap (λ r. r and_then write_contents (parts bs)) frame.1 in
    let written_frame : (write_frame_delivery b (ready written)).0 ≡ ready frame.0 =
      ap (λ r. (write_content b true r.0).0) head.1 ∙ ap (λ r. r.0) frame.1 in
    (
      ap (λ r. r.1) same ∙ later.0,
      ap (λ r. r.0) same
          ∙ later.1
          ∙ ap (λ w. (write_content [] false (delivered bs w)).0) (sym written_frame),
    )

abbrev pub bufs : List BacklogFrame → List (List ℕ)
bufs fs = map (λ f. f.buf) fs

-- The rest of the loop after the write of a frame.
abbrev after_frame : BacklogFrame → List BacklogFrame → Peer → Writer × Bool → Sent (Peer × Writer)
after_frame f fs p d =
    let later = send_backlog (length fs) p d.0 in
    if d.1
    then record later { frames = f ∷ later.frames }
    else record { state = ((unshift_message f p).0, d.0); frames = []; result = false }

pub send_backlog-takes :
    (fs : List BacklogFrame) (p : Peer) (written : List ℕ)
    → send_backlog (length fs) (record p { backlog = fs }) (ready written) ≡ record {
      state = (record p { backlog = [] }, delivered (bufs fs) (ready written));
      frames = fs;
      result = true;
    }
unfolding send_backlog
send_backlog-takes [] p written = refl
send_backlog-takes (f ∷ fs) p written =
    let frame = write_frame_delivery-Takes f.buf written in
    let q : Peer = record p { backlog = fs } in
    ap (after_frame f fs q) frame.1
    ∙ ap (λ (r : Sent (Peer × Writer)). record r { frames = f ∷ r.frames })
        (send_backlog-takes fs p frame.0)
    ∙ ap
        (λ (r : Writer × Bool). record {
          state = (record p { backlog = [] }, delivered (bufs fs) r.0);
          frames = f ∷ fs;
          result = true;
        })
        (sym frame.1)

-- The writer after some frames is one that takes everything.
delivered-ready :
    (bs : List (List ℕ)) (written : List ℕ)
    → (after : List ℕ) × (delivered bs (ready written) ≡ ready after)
delivered-ready [] written = (written, refl)
delivered-ready (b ∷ bs) written =
    let frame = write_frame_delivery-Takes b written in
    let later = delivered-ready bs frame.0 in
    (later.0, ap (λ r. delivered bs r.0) frame.1 ∙ later.1)

delivered-append :
    (bs : List (List ℕ)) (b : List ℕ) (w : Writer)
    → delivered (bs ++ (b ∷ [])) w ≡ (write_frame_delivery b (delivered bs w)).0
delivered-append [] b w = refl
delivered-append (x ∷ bs) b w = delivered-append bs b (write_frame_delivery x w).0

pub write_head-Takes : (c : Conn) → (c.writer).outcomes ≡ [] → Takes (write_head c)
unfolding write_response_headers
write_head-Takes c e =
    let text = status_line 1 200 (bytes "OK") ++ (header_lines (response_headers c) ++ crlf) in
    let w : Writer = record (c.writer) { encoding = chunked } in
    let taken : List Outcome → Writer × Bool =
      λ os. (let r = next_outcome os text w in (r.0, not_failed r.1)) in
    (
      (c.writer).written ++ text,
      ap taken e
          ∙ ap
              (λ os. (
                record { encoding = chunked; written = (c.writer).written ++ text; outcomes = os },
                true,
              ))
              e,
    )

-- The whole of what is sent with a frame, behind the backlog.
pub send_requested-takes :
    (f : BacklogFrame) (p : Peer) (written : List ℕ)
    → send_requested (some f) (send_backlog (length p.backlog) p (ready written)) ≡ record {
      state =
          (record p { backlog = [] }, delivered (bufs p.backlog ++ (f.buf ∷ [])) (ready written));
      frames = p.backlog ++ (f ∷ []);
      result = true;
    }
unfolding send_requested
send_requested-takes f p written =
    let after = delivered-ready (bufs p.backlog) written in
    let w = delivered (bufs p.backlog) (ready written) in
    let all = write_frame_delivery-Takes f.buf after.0 in
    let frame : write_frame_delivery f.buf w
        ≡ (delivered (bufs p.backlog ++ (f.buf ∷ [])) (ready written), true) =
      ap (write_frame_delivery f.buf) after.1
      ∙ all.1
      ∙ ap (λ v. (v, true))
          (sym (ap (λ r. r.0) all.1)
            ∙ sym (ap (λ v. (write_frame_delivery f.buf v).0) after.1)
            ∙ sym (delivered-append (bufs p.backlog) f.buf (ready written))) in
    ap (send_requested (some f)) (send_backlog-takes p.backlog p written)
    ∙ ap
        (λ (d : Writer × Bool). record {
          state = (record p { backlog = [] }, d.0);
          frames = if d.1 then p.backlog ++ (f ∷ []) else p.backlog;
          result = d.1;
        })
        frame
