-- ===== src/UdpForwarder/Sockets.antt =====
-- The response sockets over any interleaving of sends, answers, expirations and clean-ups
-- (src/lib/in/udp_forwarder.rs).
use plug2proxy.Prelude.{
  ◌≡◌, refl, sym, ◌∙◌, ap, ◌==◌, ==_eq, ==_refl, Bool, true, false, Bool-cases, Option-cases,
  Option, none, some, List, inl, inr, arith, ◌&&◌, ℕ, nat_beq, nat_beq_iff, some-eq-some, [], ◌∷◌,
  Elem, any, any-Elem, if_true, if_false, filter, subst,
}
use plug2proxy.Net.{SocketAddr, socket_address_eq}
use plug2proxy.HashMap
use plug2proxy.HashMap.{get-insert, get-remove, Elem-get}
use plug2proxy.UdpForwarder.{
  Association, UdpForwarder, with_destination, association_of, send, response_destination,
  assign_response_socket, receive_response, time_out, remove_association, retain_held, is_held,
}
use plug2proxy.UdpForwarder.Steps.{
  sends, receives, times_out, removes, retains, Reachable, start, next,
}

-- The sockets that an association whose task runs has used are the forwarder's for their destinations.
abbrev pub IsShared : UdpForwarder → Type 0
IsShared self =
    (source original : SocketAddr) (association : Association) (socket : ℕ)
    → HashMap.get source self.association_map ≡ some association
    → association.is_open ≡ true
    → HashMap.get original association.related_response_sockets ≡ some socket
    → HashMap.get original self.response_socket_map ≡ some socket

-- A write of one association, over sockets that only grow.
insert-IsShared :
    (self : UdpForwarder) (sockets : List (SocketAddr × ℕ)) (source : SocketAddr)
    (association : Association)
    → IsShared self
    → ((original : SocketAddr) (socket : ℕ)
        → HashMap.get original self.response_socket_map ≡ some socket
        → HashMap.get original sockets ≡ some socket)
    → (association.is_open ≡ true
        → (original : SocketAddr) (socket : ℕ)
        → HashMap.get original association.related_response_sockets ≡ some socket
        → HashMap.get original sockets ≡ some socket)
    → IsShared (record {
      response_socket_map = sockets;
      association_map = HashMap.insert source association self.association_map;
    })
insert-IsShared self sockets source association shared grow own source' original a socket h live k =
    let h' = sym (get-insert source source' association self.association_map) ∙ h in
    elim (Bool-cases (source == source')) [
      | inr e ↦ grow original socket (shared source' original a socket (rw e at h') live k)
      | inl e ↦
          let same = some-eq-some (rw e at h') in
          own (ap (λ (a : Association). a.is_open) same ∙ live) original socket
            (ap (λ (a : Association). HashMap.get original a.related_response_sockets) same ∙ k)
    ]

send-IsShared :
    (self : UdpForwarder) (source original real : SocketAddr) (sent : Bool)
    → IsShared self
    → IsShared (send self source original real sent).0
unfolding send association_of HashMap.get
send-IsShared self source original real sent shared =
    elim (Bool-cases (association_of self source).is_open) [
      | inr e ↦ subst IsShared (sym (ap (λ (r : UdpForwarder × Bool). r.0) (if_false _ _ e))) shared
      | inl e ↦ subst IsShared (sym (ap (λ (r : UdpForwarder × Bool). r.0) (if_true _ _ e))) (
          insert-IsShared self self.response_socket_map source
            (with_destination (association_of self source) original real) shared (λ o s h. h)
            (λ live o s k. own e o s k))
    ]
  where
    own :
        (association_of self source).is_open ≡ true
        → (o : SocketAddr) (s : ℕ)
        → HashMap.get o (association_of self source).related_response_sockets ≡ some s
        → HashMap.get o self.response_socket_map ≡ some s
    own live o s k = elim (Option-cases (HashMap.get source self.association_map)) [
      | inl n ↦ cc (rw (n, association_of) at k)
      | inr (a, n) ↦
          shared source o a s n (rw (n, association_of) at live) (rw (n, association_of) at k)
    ]

get-filter :
    (p : ℕ → Bool) (m : List (SocketAddr × ℕ)) (j : SocketAddr) (socket : ℕ)
    → HashMap.get j m ≡ some socket
    → p socket ≡ true
    → HashMap.get j (filter (λ (e : SocketAddr × ℕ). p e.1) m) ≡ some socket
unfolding HashMap.get
get-filter p [] j socket h k = cc
get-filter p ((i, s) ∷ m) j socket h k = ground (arith, get-filter p m j socket)

held_by :
    (associations : List (SocketAddr × Association)) (source original : SocketAddr)
    (association : Association) (socket : ℕ)
    → Elem (source, association) associations
    → association.is_open ≡ true
    → Elem (original, socket) association.related_response_sockets
    → is_held associations socket ≡ true
unfolding is_held
held_by associations source original association socket m live k =
    any-Elem
      (λ (e : SocketAddr × Association).
        e.1.is_open
        && any (λ (held : SocketAddr × ℕ). nat_beq held.1 socket) e.1.related_response_sockets)
      associations (source, association) m
      (rw
        (
          live,
          any-Elem (λ (held : SocketAddr × ℕ). nat_beq held.1 socket)
              association.related_response_sockets (original, socket) k
              ((nat_beq_iff socket socket).1 refl),
        )
        refl)

remove_association-IsShared :
    (self : UdpForwarder) (source : SocketAddr)
    → IsShared self
    → IsShared (remove_association self source)
unfolding remove_association
remove_association-IsShared self source shared source' original a socket h live k =
    elim (Bool-cases (source == source')) [
      | inl e ↦ absurd (cc (rw e at (sym (get-remove source source' self.association_map) ∙ h)))
      | inr e ↦
          shared source' original a socket
            (rw e at (sym (get-remove source source' self.association_map) ∙ h)) live k
    ]

retain_held-IsShared : (self : UdpForwarder) → IsShared self → IsShared (retain_held self)
unfolding retain_held
retain_held-IsShared self shared source original a socket h live k =
    get-filter (is_held self.association_map) self.response_socket_map original socket
      (shared source original a socket h live k)
      (held_by self.association_map source original a socket
        (Elem-get source a self.association_map h) live
        (Elem-get original socket a.related_response_sockets k))

-- An answer by a socket that is the forwarder's for the destination.
used-IsShared :
    (self : UdpForwarder) (sockets : List (SocketAddr × ℕ)) (source original : SocketAddr)
    (association : Association) (socket : ℕ)
    → HashMap.get source self.association_map ≡ some association
    → IsShared self
    → ((o : SocketAddr) (s : ℕ)
        → HashMap.get o self.response_socket_map ≡ some s
        → HashMap.get o sockets ≡ some s)
    → HashMap.get original sockets ≡ some socket
    → IsShared (record {
      response_socket_map = sockets;
      association_map =
          HashMap.insert source
            (record association {
              related_response_sockets =
                  HashMap.insert original socket association.related_response_sockets;
            })
            self.association_map;
    })
used-IsShared self sockets source original association socket present shared grow assigned =
    insert-IsShared self sockets source
      (record association {
        related_response_sockets =
            HashMap.insert original socket association.related_response_sockets;
      })
      shared grow own
  where
    own :
        association.is_open ≡ true
        → (o : SocketAddr) (s : ℕ)
        → HashMap.get o (HashMap.insert original socket association.related_response_sockets)
          ≡ some s
        → HashMap.get o sockets ≡ some s
    own live o s k =
        let k' = sym (get-insert original o socket association.related_response_sockets) ∙ k in
        elim (Bool-cases (original == o)) [
          | inr e ↦ grow o s (shared source o association s present live (rw e at k'))
          | inl e ↦
              subst (λ d. HashMap.get d sockets ≡ some s) (==_eq original o e)
                (assigned ∙ rw e at k')
        ]

closed-IsShared :
    (self : UdpForwarder) (source : SocketAddr) (association : Association)
    → IsShared self
    → IsShared (record self {
      association_map =
          HashMap.insert source (record association { is_open = false }) self.association_map;
    })
closed-IsShared self source association shared =
    insert-IsShared self self.response_socket_map source (record association { is_open = false })
      shared (λ o s h. h) (λ live. cc)

receive_response-IsShared :
    (self : UdpForwarder) (source real : SocketAddr) (association : Association) (bound : Option ℕ)
    → HashMap.get source self.association_map ≡ some association
    → IsShared self
    → IsShared (receive_response self source association real bound).0
unfolding receive_response assign_response_socket
receive_response-IsShared self source real association bound present shared =
    let original = response_destination association real in
    elim (Option-cases (HashMap.get original self.response_socket_map)) [
      | inr (socket, e) ↦
          rw (e, receive_response, assign_response_socket)
            (used-IsShared self self.response_socket_map source original association socket present
              shared (λ o s h. h) e)
      | inl e ↦ elim (Option-cases bound) [
        | inl b ↦
            rw (e, b, receive_response, assign_response_socket)
              (closed-IsShared self source association shared)
        | inr (socket, b) ↦
            let sockets = HashMap.insert original socket self.response_socket_map in
            rw (e, b, receive_response, assign_response_socket)
              (used-IsShared self sockets source original association socket present shared
                (grow original socket e)
                (get-insert original original socket self.response_socket_map
                  ∙ if_true _ _ (==_refl original)))
      ]
    ]
  where
    grow :
        (original : SocketAddr) (socket : ℕ)
        → HashMap.get original self.response_socket_map ≡ none
        → (o : SocketAddr) (s : ℕ) → HashMap.get o self.response_socket_map ≡ some s
        → HashMap.get o (HashMap.insert original socket self.response_socket_map) ≡ some s
    grow original socket n o s h =
        get-insert original o socket self.response_socket_map ∙ elim (Bool-cases (original == o)) [
          | inr e ↦ rw e h
          | inl e ↦ absurd (
              cc (
                subst (λ d. HashMap.get d self.response_socket_map ≡ none) (==_eq original o e) n,
                h,
              ))
        ]

-- In every state that any interleaving of sends, answers, expirations and clean-ups reaches, each
-- response socket that an association whose task runs has used for a destination is still the
-- forwarder's socket for it: a clean-up closes none of them, and no two such associations hold different
-- sockets for one destination.
pub Reachable-IsShared : (self : UdpForwarder) → Reachable self → IsShared self
unfolding HashMap.get time_out
Reachable-IsShared _ start = λ source original a socket h. cc
Reachable-IsShared _ (next before after r (sends self source original real sent)) =
    send-IsShared self source original real sent (Reachable-IsShared before r)
Reachable-IsShared _ (next before after r (receives self source real a bound present live)) =
    receive_response-IsShared self source real a bound present (Reachable-IsShared before r)
Reachable-IsShared _ (next before after r (times_out self source a present live)) =
    closed-IsShared self source a (Reachable-IsShared before r)
Reachable-IsShared _ (next before after r (removes self source a present done)) =
    remove_association-IsShared self source (Reachable-IsShared before r)
Reachable-IsShared _ (next before after r (retains self)) =
    retain_held-IsShared self (Reachable-IsShared before r)
