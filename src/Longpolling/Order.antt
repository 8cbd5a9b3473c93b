-- ===== src/Longpolling/Order.antt =====
-- evd/evd-longpolling-server.c: messages keep their order, whatever the connections do.
use event_dance.Common.{
  ℕ, zero, suc, ◌≤◌, ◌≡◌, refl, sym, ap, ◌∙◌, subst, ltb, Bool, true, false, Bool-cases, Option,
  none, some, List, [], ◌∷◌, ◌++◌, append-nil, length, inl, inr, arith,
}
use event_dance.Common.Sublists.{
  Sublist, Sublist_refl, skip, keep, Sublist_of, Sublist_trans, Sublist_behind, Sublist_more,
}
use event_dance.HttpConnection.{Writer}
use event_dance.Peer.{BacklogFrame, Peer, touch, unshift_frame}
use event_dance.Peer.Sending.{Sent, if_sent, KeepsOrder}
use event_dance.Longpolling.{
  Conn, Link, write_frame_delivery, send_backlog, send_requested, write_head, actual_send,
  send_to_first, select_conn_and_send, transport,
}
use event_dance.Longpolling.Requests.{receive_request, with_conns}

-- The backlog that is left, with the frames that have gone before it.
abbrev of_peer : Sent (Peer × Writer) → List BacklogFrame
of_peer r = r.frames ++ ((r.state).0).backlog

unshift_Sublist :
    (buf : List ℕ) (f : BacklogFrame) (p : Peer)
    → Sublist (unshift_frame buf f p).0.backlog (f ∷ p.backlog)
unshift_Sublist [] f p = skip f (Sublist_refl p.backlog)
unshift_Sublist (c ∷ cs) f p = Sublist_refl (f ∷ p.backlog)

send_backlog-order :
    (fuel : ℕ) (bs : List BacklogFrame) (p : Peer) (w : Writer)
    → Sublist (of_peer (send_backlog fuel (record p { backlog = bs }) w)) bs
unfolding send_backlog
send_backlog-order zero bs p w = Sublist_refl bs
send_backlog-order (suc fuel) [] p w = Sublist_refl []
send_backlog-order (suc fuel) (f ∷ bs) p w = elim (Bool-cases (write_frame_delivery f.buf w).1) [
  | inl e ↦ rw e (keep f (send_backlog-order fuel bs p (write_frame_delivery f.buf w).0))
  | inr e ↦ rw e (unshift_Sublist f.buf f (record p { backlog = bs }))
]

-- A message of the backlog that is written, and one that is not.
send_backlog-step :
    (fuel : ℕ) (f : BacklogFrame) (bs : List BacklogFrame) (p : Peer) (w : Writer)
    → (write_frame_delivery f.buf w).1 ≡ true
    → send_backlog (suc fuel) (record p { backlog = f ∷ bs }) w ≡ (
        let later =
          send_backlog fuel (record p { backlog = bs }) (write_frame_delivery f.buf w).0 in
        record later { frames = f ∷ later.frames })
unfolding send_backlog
send_backlog-step fuel f bs p w e = rw e refl

send_backlog-kept :
    (fuel : ℕ) (f : BacklogFrame) (bs : List BacklogFrame) (p : Peer) (w : Writer)
    → (write_frame_delivery f.buf w).1 ≡ false
    → (send_backlog (suc fuel) (record p { backlog = f ∷ bs }) w).result ≡ false
unfolding send_backlog
send_backlog-kept fuel f bs p w e = rw e refl

send_backlog-empty :
    (fuel : ℕ) (bs : List BacklogFrame) (p : Peer) (w : Writer)
    → length bs ≤ fuel
    → (send_backlog fuel (record p { backlog = bs }) w).result ≡ true
    → ((send_backlog fuel (record p { backlog = bs }) w).state).0.backlog ≡ []
unfolding send_backlog
send_backlog-empty zero [] p w h t = refl
send_backlog-empty zero (f ∷ bs) p w h t = absurd (omega arith)
send_backlog-empty (suc fuel) [] p w h t = refl
send_backlog-empty (suc fuel) (f ∷ bs) p w h t =
    elim (Bool-cases (write_frame_delivery f.buf w).1) [
      | inl e ↦
          let step = send_backlog-step fuel f bs p w e in
          ap (λ r. ((r.state).0).backlog) step
          ∙ send_backlog-empty fuel bs p (write_frame_delivery f.buf w).0 (omega arith)
              (sym (ap (λ r. r.result) step) ∙ t)
      | inr e ↦ let never : false ≡ true = sym (send_backlog-kept fuel f bs p w e) ∙ t in cc
    ]

-- The frames and the backlog of a link, as a call leaves them.
abbrev pub of_link : Sent Link → List BacklogFrame
of_link r = r.frames ++ ((r.state).peer).backlog

send_requested-order :
    (f : BacklogFrame) (r : Sent (Peer × Writer)) (before : List BacklogFrame)
    → (r.result ≡ true → ((r.state).0).backlog ≡ [])
    → Sublist (of_peer r) before
    → Sublist
        (of_peer (send_requested (some f) r))
        (before ++ if_sent (send_requested (some f) r).result f)
unfolding send_requested
send_requested-order f r before empty s = elim (Bool-cases r.result) [
  | inl e ↦ elim (Bool-cases (write_frame_delivery f.buf (r.state).1).1) [
    | inl d ↦ rw (e, d) (written (empty e))
    | inr d ↦ rw (e, d) (Sublist_more [] s)
  ]
  | inr e ↦ rw e (Sublist_more [] s)
]
  where
    written :
        ((r.state).0).backlog ≡ []
        → Sublist ((r.frames ++ (f ∷ [])) ++ ((r.state).0).backlog) (before ++ (f ∷ []))
    written none_left =
        Sublist_trans
          (Sublist_of
            (ap (λ b. (r.frames ++ (f ∷ [])) ++ b) none_left ∙ append-nil (r.frames ++ (f ∷ []))))
          (Sublist_behind (f ∷ []) (
            Sublist_trans
              (Sublist_of (sym (append-nil r.frames) ∙ ap (λ b. r.frames ++ b) (sym none_left))) s))

abbrev pub claimed : Bool → Option BacklogFrame → List BacklogFrame
claimed result none = []
claimed result (some f) = if_sent result f

pub actual_send-order :
    (f : Option BacklogFrame) (c : Conn) (l : Link)
    → Sublist
        (of_link (actual_send f c l))
        ((l.peer).backlog ++ claimed (actual_send f c l).result f)
unfolding actual_send send_requested
actual_send-order f c l = elim (Bool-cases (write_head c).1) [
  | inl e ↦ rw e (sent f)
  | inr e ↦ rw e (Sublist_more (claimed true f) (Sublist_refl (l.peer).backlog))
]
  where
    flushed : Sent (Peer × Writer)
    flushed = send_backlog (length (l.peer).backlog) l.peer (write_head c).0

    order : Sublist (of_peer flushed) (l.peer).backlog
    order = send_backlog-order (length (l.peer).backlog) (l.peer).backlog l.peer (write_head c).0

    sent :
        (f : Option BacklogFrame)
        → Sublist
            (of_peer (send_requested f flushed))
            ((l.peer).backlog ++ claimed (send_requested f flushed).result f)
    sent none = Sublist_more [] order
    sent (some f) =
        send_requested-order f flushed (l.peer).backlog
          (send_backlog-empty (length (l.peer).backlog) (l.peer).backlog l.peer (write_head c).0
            (omega arith))
          order

send_to_first-order :
    (cs : Option (List Conn)) (now : ℕ) (f : BacklogFrame) (l : Link)
    → Sublist
        (of_link (send_to_first cs now f l))
        ((l.peer).backlog ++ if_sent (send_to_first cs now f l).result f)
send_to_first-order none now f l = Sublist_more [] (Sublist_refl (l.peer).backlog)
send_to_first-order (some []) now f l = Sublist_more [] (Sublist_refl (l.peer).backlog)
send_to_first-order (some (c ∷ cs)) now f l =
    actual_send-order (some f) c (record l { peer = touch now l.peer; conns = some cs })

-- The long-polling transport keeps the order.
pub transport-KeepsOrder : (now : ℕ) → KeepsOrder (transport now)
unfolding select_conn_and_send
transport-KeepsOrder now = record {
  get_set = λ p s. refl;
  in_order = λ f s. send_to_first-order s.conns now f s;
}

pub receive_request-order :
    (c : Conn) (l : Link) → Sublist (of_link (receive_request c l)) (l.peer).backlog
unfolding receive_request
receive_request-order c l = elim (Bool-cases (ltb 0 (length (l.peer).backlog))) [
  | inl e ↦ rw e (
      subst
        (λ b. Sublist (of_link (actual_send none c (record l { conns = with_conns l.conns }))) b)
        (append-nil (l.peer).backlog)
        (actual_send-order none c (record l { conns = with_conns l.conns })))
  | inr e ↦ rw e (Sublist_refl (l.peer).backlog)
]
