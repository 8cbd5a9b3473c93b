-- ===== src/Peer/Sending.antt =====
-- evd/evd-transport.c: sending to a peer by whatever transport it has.
use event_dance.Common.{
  ℕ, ◌≡◌, refl, sym, ap, ◌∙◌, subst, Bool, true, false, List, [], ◌∷◌, ◌++◌, append-nil,
  append_assoc,
}
use event_dance.Common.Sublists.{Sublist, Sublist_of, Sublist_trans, Sublist_behind}
use event_dance.Peer.{text, binary, BacklogFrame, Peer, push_message}

-- What a call that sends leaves: the state, the frames that have been written whole, in order, and its result.
pub record Sent (S : Type 0) : Type 0 where
  pub state : S
  pub frames : List BacklogFrame
  pub result : Bool

-- EvdTransportInterface, as far as sending goes, on a state that holds the peer.
pub record Transport (S : Type 0) : Type 0 where
  pub peer : S → Peer
  pub set_peer : Peer → S → S
  pub send : BacklogFrame → S → Sent S

abbrev on_failure : {S : Type 0} → Transport S → BacklogFrame → Bool → Sent S → Sent S
on_failure T f true r = r
on_failure T f false r =
    let pushed = push_message f (T.peer r.state) in
    record r { state = T.set_peer pushed.0 r.state; result = pushed.1 }

-- send_frame
unfoldable pub send_frame : {S : Type 0} → Transport S → BacklogFrame → S → Sent S
send_frame T f s = (let r = T.send f s in on_failure T f r.result r)

-- evd_transport_send and evd_transport_send_text
abbrev pub send_binary : {S : Type 0} → Transport S → List ℕ → S → Sent S
send_binary T buffer s = send_frame T (record { buf = buffer; kind = binary }) s

abbrev pub send_text : {S : Type 0} → Transport S → List ℕ → S → Sent S
send_text T buffer s = send_frame T (record { buf = buffer; kind = text }) s

-- What sending a frame may claim to have sent.
abbrev pub if_sent : Bool → BacklogFrame → List BacklogFrame
if_sent true f = f ∷ []
if_sent false f = []

-- What a transport promises: the frames that it writes come from the backlog, in order, and
-- then the frame that it is given, if it says so.
pub record KeepsOrder {S : Type 0} (T : Transport S) : Type 0 where
  pub get_set : (p : Peer) (s : S) → T.peer (T.set_peer p s) ≡ p
  pub in_order :
      (f : BacklogFrame) (s : S)
      → Sublist
          ((T.send f s).frames ++ (T.peer (T.send f s).state).backlog)
          ((T.peer s).backlog ++ if_sent (T.send f s).result f)

on_failure-result :
    {S : Type 0} (T : Transport S) (f : BacklogFrame) (b : Bool) (r : Sent S)
    → r.result ≡ b
    → (on_failure T f b r).result ≡ true
on_failure-result T f true r e = e
on_failure-result T f false r e = refl

pub send_frame-result :
    {S : Type 0} (T : Transport S) (f : BacklogFrame) (s : S) → (send_frame T f s).result ≡ true
unfolding send_frame
send_frame-result T f s = on_failure-result T f (T.send f s).result (T.send f s) refl

on_failure-order :
    {S : Type 0} (T : Transport S) (f : BacklogFrame) (b : Bool) (r : Sent S)
    (before : List BacklogFrame)
    → KeepsOrder T
    → Sublist (r.frames ++ (T.peer r.state).backlog) (before ++ if_sent b f)
    → Sublist
        ((on_failure T f b r).frames ++ (T.peer (on_failure T f b r).state).backlog)
        (before ++ (f ∷ []))
on_failure-order T f true r before k s = s
on_failure-order T f false r before k s =
    let p = T.peer r.state in
    let pushed : r.frames ++ (T.peer (T.set_peer (push_message f p).0 r.state)).backlog
        ≡ (r.frames ++ p.backlog) ++ (f ∷ []) =
      ap (λ (q : Peer). r.frames ++ q.backlog) (k.get_set (push_message f p).0 r.state)
      ∙ sym (append_assoc r.frames p.backlog (f ∷ [])) in
    Sublist_trans (Sublist_of pushed) (
      Sublist_behind (f ∷ [])
        (subst (λ l. Sublist (r.frames ++ p.backlog) l) (append-nil before) s))

-- Whatever a transport that keeps the order does, send_frame keeps it too.
pub send_frame-order :
    {S : Type 0} (T : Transport S) (f : BacklogFrame) (s : S)
    → KeepsOrder T
    → Sublist
        ((send_frame T f s).frames ++ (T.peer (send_frame T f s).state).backlog)
        ((T.peer s).backlog ++ (f ∷ []))
unfolding send_frame
send_frame-order T f s k =
    on_failure-order T f (T.send f s).result (T.send f s) (T.peer s).backlog k (k.in_order f s)
