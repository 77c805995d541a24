-- ===== src/UdpForwarder.antt =====
-- src/lib/in/udp_forwarder.rs: the associations of the sources, and the sockets that answer in the name
-- of the original destinations. Each function is what happens while the locks are held; sockets are the
-- operating system's, and what a call of them gives is an argument. A panic of `Association::new`, whose
-- socket cannot be made, aborts the program, and no state comes after it.
pub mod Steps
pub mod Delivery
pub mod Expired
pub mod Associated
pub mod Sockets
mod Examples
use plug2proxy.Prelude.{
  ℕ, nat_beq, Bool, true, false, ◌&&◌, Option, none, some, List, [], ◌∷◌, if◌then◌else◌, any,
  filter,
}
use mathlib.Core.Option
use plug2proxy.Net.{SocketAddr, socket_address_eq}
use plug2proxy.HashMap

-- An association is open while its task runs: the task holds the receiver of the activity signals, and
-- the response sockets that it has used.
pub record Association : Type 0 where
  pub original_to_real_destination_map : List (SocketAddr × SocketAddr)
  pub real_to_original_destination_map : List (SocketAddr × SocketAddr)
  pub related_response_sockets : List (SocketAddr × ℕ)
  pub is_open : Bool

abbrev pub new_association : Association
new_association = record {
  original_to_real_destination_map = [];
  real_to_original_destination_map = [];
  related_response_sockets = [];
  is_open = true;
}

-- A response socket is a number that stands for the `Arc`.
pub record UdpForwarder : Type 0 where
  pub response_socket_map : List (SocketAddr × ℕ)
  pub association_map : List (SocketAddr × Association)

abbrev pub new_forwarder : UdpForwarder
new_forwarder = record { response_socket_map = []; association_map = [] }

-- The two insertions of `Association::send`.
abbrev pub with_destination : Association → SocketAddr → SocketAddr → Association
with_destination a original real = record a {
  original_to_real_destination_map =
      HashMap.insert original real a.original_to_real_destination_map;
  real_to_original_destination_map =
      HashMap.insert real original a.real_to_original_destination_map;
}

-- `entry(source_address).or_insert_with`.
unfoldable pub association_of : UdpForwarder → SocketAddr → Association
association_of self source = Option.get_or (HashMap.get source self.association_map) new_association

-- The state after, and whether there was no error. A signal to an association whose task has ended is
-- an error; `sent` is whether `send_to` succeeds.
unfoldable pub send :
    UdpForwarder → SocketAddr → SocketAddr → SocketAddr → Bool → UdpForwarder × Bool
send self source original real sent =
    let association = association_of self source in
    if association.is_open
    then (
      record self {
        association_map =
            HashMap.insert source (with_destination association original real) self.association_map;
      },
      sent,
    )
    else (self, false)

unfoldable pub get_associated_destination :
    UdpForwarder → SocketAddr → SocketAddr → Option SocketAddr
get_associated_destination self source original = elim (HashMap.get source self.association_map) [
  | none ↦ none
  | some association ↦ HashMap.get original association.original_to_real_destination_map
]

-- In whose name a datagram of a real destination is handed to the source.
unfoldable pub response_destination : Association → SocketAddr → SocketAddr
response_destination association real =
    Option.get_or (HashMap.get real association.real_to_original_destination_map) real

-- `bound` is what a new socket gives: `none` is an error of `bind`.
unfoldable pub assign_response_socket :
    List (SocketAddr × ℕ) → SocketAddr → Option ℕ → Option (ℕ × List (SocketAddr × ℕ))
assign_response_socket response_socket_map original bound =
    elim (HashMap.get original response_socket_map) [
      | some socket ↦ some (socket, response_socket_map)
      | none ↦ elim bound [
        | none ↦ none
        | some socket ↦ some (socket, HashMap.insert original socket response_socket_map)
      ]
    ]

abbrev closed : Association → Association
closed association = record association { is_open = false }

-- A datagram that the delegate socket of an association receives: the state after, and the original
-- destination and socket by which it goes to the source. An error ends the task.
unfoldable pub receive_response :
    UdpForwarder
    → SocketAddr
    → Association
    → SocketAddr
    → Option ℕ
    → UdpForwarder × Option (SocketAddr × ℕ)
receive_response self source association real bound =
    let original = response_destination association real in
    elim (assign_response_socket self.response_socket_map original bound) [
      | none ↦ (
        record self {
          association_map = HashMap.insert source (closed association) self.association_map;
        },
        none,
      )
      | some (socket, response_socket_map) ↦ (
        record {
          response_socket_map = response_socket_map;
          association_map =
              HashMap.insert source
                (record association {
                  related_response_sockets =
                      HashMap.insert original socket association.related_response_sockets;
                })
                self.association_map;
        },
        some (original, socket),
      )
    ]

-- The task ends: `RESPONSE_SOCKET_EXPIRATION` passed without activity, or receiving from the delegate
-- socket or sending by a response socket gave an error.
unfoldable pub time_out : UdpForwarder → SocketAddr → Association → UdpForwarder
time_out self source association = record self {
  association_map = HashMap.insert source (closed association) self.association_map;
}

-- Whether an association whose task runs holds the socket, so that its count is above one.
unfoldable pub is_held : List (SocketAddr × Association) → ℕ → Bool
is_held associations socket =
    any
      (λ e.
        e.1.is_open
        && any (λ (held : SocketAddr × ℕ). nat_beq held.1 socket) e.1.related_response_sockets)
      associations

-- The task that waits for the end of an association removes it, and then, under another lock, keeps only
-- the sockets that are held.
unfoldable pub remove_association : UdpForwarder → SocketAddr → UdpForwarder
remove_association self source = record self {
  association_map = HashMap.remove source self.association_map;
}

unfoldable pub retain_held : UdpForwarder → UdpForwarder
retain_held self = record self {
  response_socket_map =
      filter (λ (e : SocketAddr × ℕ). is_held self.association_map e.1) self.response_socket_map;
}
