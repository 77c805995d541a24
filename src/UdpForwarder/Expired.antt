-- ===== src/UdpForwarder/Expired.antt =====
-- A source whose association's task has ended (src/lib/in/udp_forwarder.rs).
use mathlib.Core.Option
use plug2proxy.Prelude.{
  ◌≡◌, refl, sym, ◌∙◌, ap, subst, ◌==◌, ==_eq, ==_refl, Bool, true, false, Bool-cases, Option-cases,
  Option, some, List, ℕ, some-eq-some, inl, inr, if_true, if_false,
}
use plug2proxy.Net.{SocketAddr, socket_address_eq}
use plug2proxy.HashMap
use plug2proxy.HashMap.{get-insert, get-remove}
use plug2proxy.UdpForwarder.{
  Association, new_association, UdpForwarder, with_destination, association_of, send,
  response_destination, assign_response_socket, receive_response, time_out, remove_association,
  retain_held,
}
use plug2proxy.UdpForwarder.Steps.{
  Step, sends, receives, times_out, removes, retains, Steps, stay, then_step, IsKeeping,
}

-- The source has an association, whose task has ended.
abbrev IsExpired : SocketAddr → UdpForwarder → Type 0
IsExpired source self =
    (association : Association) × (HashMap.get source self.association_map ≡ some association)
    × (association.is_open ≡ false)

-- A write of an association that is not the source's, or whose task has ended.
insert-IsExpired :
    (source source' : SocketAddr) (self : UdpForwarder) (association : Association)
    (sockets : List (SocketAddr × ℕ))
    → (source' == source ≡ true → association.is_open ≡ false)
    → IsExpired source self
    → IsExpired source (record {
      response_socket_map = sockets;
      association_map = HashMap.insert source' association self.association_map;
    })
insert-IsExpired source source' self association sockets own (a, present, done) =
    elim (Bool-cases (source' == source)) [
      | inl e ↦ (
        association,
        get-insert source' source association self.association_map ∙ if_true _ _ e,
        own e,
      )
      | inr e ↦ (
        a,
        get-insert source' source association self.association_map ∙ if_false _ _ e ∙ present,
        done,
      )
    ]

-- No association that is open is that of an expired source.
not_open :
    (source source' : SocketAddr) (self : UdpForwarder) (association : Association)
    → IsExpired source self
    → HashMap.get source' self.association_map ≡ some association
    → association.is_open ≡ true
    → source' == source ≡ true
    → {A : Type 0} → A
not_open source source' self association (a, present, done) found live e = absurd (
    cc (
      ap (λ (a : Association). a.is_open)
          (some-eq-some (
            sym found
            ∙ subst (λ s. HashMap.get s self.association_map ≡ some a)
                (sym (==_eq source' source e)) present)),
      live,
      done,
    ))

send_expired :
    (source : SocketAddr) (self : UdpForwarder) (original real : SocketAddr) (sent : Bool)
    → IsExpired source self
    → send self source original real sent ≡ (self, false)
unfolding send association_of
send_expired source self original real sent (a, present, done) =
    if_false _ _ (ap (λ o. (Option.get_or o new_association).is_open) present ∙ done)

send-IsExpired :
    (source source' : SocketAddr) (self : UdpForwarder) (original real : SocketAddr) (sent : Bool)
    → IsExpired source self
    → IsExpired source (send self source' original real sent).0
unfolding send association_of
send-IsExpired source source' self original real sent expired =
    elim (Bool-cases (source' == source)) [
      | inl e ↦
          subst (λ s. IsExpired source (send self s original real sent).0)
            (sym (==_eq source' source e))
            (subst (λ (r : UdpForwarder × Bool). IsExpired source r.0)
              (sym (send_expired source self original real sent expired)) expired)
      | inr e ↦ elim (Bool-cases (association_of self source').is_open) [
        | inr c ↦
            subst (λ (r : UdpForwarder × Bool). IsExpired source r.0) (sym (if_false _ _ c)) expired
        | inl c ↦
            subst (λ (r : UdpForwarder × Bool). IsExpired source r.0) (sym (if_true _ _ c))
              (insert-IsExpired source source' self
                (with_destination (association_of self source') original real)
                self.response_socket_map (λ f. cc) expired)
      ]
    ]

receive_response-IsExpired :
    (source source' real : SocketAddr) (self : UdpForwarder) (association : Association)
    (bound : Option ℕ)
    → HashMap.get source' self.association_map ≡ some association
    → association.is_open ≡ true
    → IsExpired source self
    → IsExpired source (receive_response self source' association real bound).0
unfolding receive_response
receive_response-IsExpired source source' real self association bound found live expired =
    let original = response_destination association real in
    let never : (s : Bool) → source' == source ≡ true → s ≡ false =
      λ s e. not_open source source' self association expired found live e in
    elim (Option-cases (assign_response_socket self.response_socket_map original bound)) [
      | inl e ↦
          rw (e, receive_response)
            (insert-IsExpired source source' self (record association { is_open = false })
              self.response_socket_map (λ f. refl) expired)
      | inr ((socket, sockets), e) ↦
          rw (e, receive_response)
            (insert-IsExpired source source' self
              (record association {
                related_response_sockets =
                    HashMap.insert original socket association.related_response_sockets;
              })
              sockets (never association.is_open) expired)
    ]

step-IsExpired :
    (source : SocketAddr) (before after : UdpForwarder) (step : Step before after)
    → IsKeeping source before after step
    → IsExpired source before
    → IsExpired source after
unfolding time_out remove_association retain_held
step-IsExpired source _ _ (sends self s original real sent) k h =
    send-IsExpired source s self original real sent h
step-IsExpired source _ _ (receives self s real a bound present live) k h =
    receive_response-IsExpired source s real self a bound present live h
step-IsExpired source _ _ (times_out self s a present live) k h =
    insert-IsExpired source s self (record a { is_open = false }) self.response_socket_map
      (λ f. refl) h
step-IsExpired source _ _ (removes self s a present done) k (b, found, ended) =
    (b, get-remove s source self.association_map ∙ if_false _ _ k ∙ found, ended)
step-IsExpired source _ _ (retains self) k h = h

-- From the end of an association's task on, through whatever steps of the forwarder but the removal of the
-- association, every send of its source fails, whatever the destinations and though the socket would
-- take the datagram, and changes nothing.
pub send-time_out :
    (self later : UdpForwarder) (source original real : SocketAddr) (association : Association)
    (sent : Bool)
    → Steps (IsKeeping source) (time_out self source association) later
    → send later source original real sent ≡ (later, false)
unfolding time_out
send-time_out self later source original real association sent steps =
    send_expired source later original real sent (expired steps)
  where
    expired :
        {later : UdpForwarder}
        → Steps (IsKeeping source) (time_out self source association) later
        → IsExpired source later
    expired stay = (
      record association { is_open = false },
      get-insert source source (record association { is_open = false }) self.association_map
          ∙ if_true _ _ (==_refl source),
      refl,
    )
    expired (then_step before after steps step keeps) =
        step-IsExpired source before after step keeps (expired steps)
