-- ===== src/UdpForwarder/Associated.antt =====
-- The real destination of a source and original destination stays (src/lib/in/udp_forwarder.rs).
use plug2proxy.Prelude.{
  ◌≡◌, refl, sym, ◌∙◌, ap, subst, ◌==◌, ==_eq, ◌&&◌, Bool, false, Bool-cases, Option-cases, Option,
  some, List, ℕ, inl, inr, if_true, if_false,
}
use plug2proxy.Net.{SocketAddr, socket_address_eq}
use plug2proxy.HashMap
use plug2proxy.HashMap.{get-insert, get-remove}
use plug2proxy.UdpForwarder.{
  Association, UdpForwarder, send, get_associated_destination, response_destination,
  assign_response_socket, receive_response, time_out, remove_association, retain_held,
}
use plug2proxy.UdpForwarder.Delivery.{is_usable, get_associated_destination-send}
use plug2proxy.UdpForwarder.Steps.{
  Step, sends, receives, times_out, removes, retains, Steps, stay, then_step, IsConstant,
}

associated_by :
    (self : UdpForwarder) (source original : SocketAddr) (association : Association)
    → HashMap.get source self.association_map ≡ some association
    → get_associated_destination self source original
      ≡ HashMap.get original association.original_to_real_destination_map
unfolding get_associated_destination
associated_by self source original association h = rw (h, get_associated_destination) refl

associated_same :
    (self self' : UdpForwarder) (source original : SocketAddr)
    → HashMap.get source self'.association_map ≡ HashMap.get source self.association_map
    → get_associated_destination self' source original
      ≡ get_associated_destination self source original
unfolding get_associated_destination
associated_same self self' source original h = rw (h, get_associated_destination) refl

-- A write of an association that changes nothing of its destinations.
associated_insert :
    (self : UdpForwarder) (source original source' : SocketAddr) (a a' : Association)
    (sockets : List (SocketAddr × ℕ))
    → HashMap.get source' self.association_map ≡ some a
    → a'.original_to_real_destination_map ≡ a.original_to_real_destination_map
    → get_associated_destination
        (record {
          response_socket_map = sockets;
          association_map = HashMap.insert source' a' self.association_map;
        })
        source
        original
      ≡ get_associated_destination self source original
associated_insert self source original source' a a' sockets found same =
    let self' : UdpForwarder = record {
      response_socket_map = sockets;
      association_map = HashMap.insert source' a' self.association_map;
    } in
    let written = get-insert source' source a' self.association_map in
    elim (Bool-cases (source' == source)) [
      | inr e ↦ associated_same self self' source original (written ∙ if_false _ _ e)
      | inl e ↦
          associated_by self' source original a' (written ∙ if_true _ _ e)
          ∙ ap (HashMap.get original) same
          ∙ sym (
              associated_by self source original a (
                subst (λ s. HashMap.get s self.association_map ≡ some a) (==_eq source' source e)
                  found))
    ]

module _ (source original real : SocketAddr) where
  abbrev IsAssociated : UdpForwarder → Type 0
  IsAssociated self = get_associated_destination self source original ≡ some real

  send-IsAssociated :
      (self : UdpForwarder) (s o r : SocketAddr) (sent : Bool)
      → IsConstant source original real self (send self s o r sent).0 (sends self s o r sent)
      → IsAssociated self
      → IsAssociated (send self s o r sent).0
  unfolding send
  send-IsAssociated self s o r sent constant h = elim (Bool-cases (is_usable self s)) [
    | inr u ↦ subst (λ (after : UdpForwarder × Bool). IsAssociated after.0) (sym (if_false _ _ u)) h
    | inl u ↦
        get_associated_destination-send self s o r source original sent u
        ∙ elim (Bool-cases ((s == source) && (o == original))) [
          | inr e ↦ if_false _ _ e ∙ h
          | inl e ↦ if_true _ _ e ∙ elim constant [ inl f ↦ cc | inr f ↦ ap some f ]
        ]
  ]

  receive_response-IsAssociated :
      (self : UdpForwarder) (s r : SocketAddr) (a : Association) (bound : Option ℕ)
      → HashMap.get s self.association_map ≡ some a
      → IsAssociated self
      → IsAssociated (receive_response self s a r bound).0
  unfolding receive_response
  receive_response-IsAssociated self s r a bound found h =
      let o = response_destination a r in
      elim (Option-cases (assign_response_socket self.response_socket_map o bound)) [
        | inl e ↦
            rw (e, receive_response)
              (associated_insert self source original s a (record a { is_open = false })
                  self.response_socket_map found refl
                ∙ h)
        | inr ((socket, sockets), e) ↦
            rw (e, receive_response)
              (associated_insert self source original s a
                  (record a {
                    related_response_sockets = HashMap.insert o socket a.related_response_sockets;
                  })
                  sockets found refl
                ∙ h)
      ]

  step-IsAssociated :
      (before after : UdpForwarder) (step : Step before after)
      → IsConstant source original real before after step
      → IsAssociated before
      → IsAssociated after
  unfolding time_out remove_association retain_held
  step-IsAssociated _ _ (sends self s o r sent) c h = send-IsAssociated self s o r sent c h
  step-IsAssociated _ _ (receives self s r a bound present live) c h =
      receive_response-IsAssociated self s r a bound present h
  step-IsAssociated _ _ (times_out self s a present live) c h =
      associated_insert self source original s a (record a { is_open = false })
        self.response_socket_map present refl
      ∙ h
  step-IsAssociated _ _ (removes self s a present done) c h =
      associated_same self (remove_association self s) source original
        (get-remove s source self.association_map ∙ if_false _ _ c)
      ∙ h
  step-IsAssociated _ _ (retains self) c h =
      associated_same self (retain_held self) source original refl ∙ h

  pub Steps-IsAssociated :
      (self later : UdpForwarder)
      → Steps (IsConstant source original real) self later
      → get_associated_destination self source original ≡ some real
      → get_associated_destination later source original ≡ some real
  Steps-IsAssociated self later stay h = h
  Steps-IsAssociated self later (then_step before after steps step constant) h =
      step-IsAssociated before later step constant (Steps-IsAssociated self before steps h)
