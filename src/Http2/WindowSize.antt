-- ===== src/Http2/WindowSize.antt =====
-- src/lib/tunnel/http2/http2_tunnel.rs: `WindowSizeSetter`, which follows the size of the socket's
-- receive buffer.
pub mod Told
mod Examples
use mathlib.Core.Option
use plug2proxy.Prelude.{
  ℕ, ◌+◌, ◌*◌, ◌%◌, ◌^◌, ◌≤◌, ◌<◌, ◌≡◌, refl, sym, ap, subst, ◌∙◌, ◌⊎◌, inl, inr, ◌++◌, Bool,
  Bool-cases, true, false, Option, none, some, List, [], ◌∷◌, if◌then◌else◌, leb, nat_beq,
  nat_beq_iff, arith,
}

pub record WindowSizeSetter : Type 0 where
  pub recorded_receive_buffer_size : ℕ

-- What the connection is told.
pub record WindowSizes : Type 0 where
  pub initial_window_size : ℕ
  pub target_window_size : ℕ

abbrev pub min_window_size : ℕ
min_window_size = 4 * 1024 * 1024

abbrev pub new_setter : WindowSizeSetter
new_setter = record { recorded_receive_buffer_size = 0 }

-- `max`, and a product of `u32` that wraps.
unfoldable pub connection_window_size : ℕ → ℕ
connection_window_size receive_buffer_size =
    ((if leb min_window_size receive_buffer_size then receive_buffer_size else min_window_size) * 4)
    % 2 ^ 32

-- `receive_buffer` is what `getsockopt` gives, a `usize`.
unfoldable pub set_window_size : WindowSizeSetter → ℕ → WindowSizeSetter × Option WindowSizes
set_window_size self receive_buffer =
    let receive_buffer_size = receive_buffer % 2 ^ 32 in
    if nat_beq self.recorded_receive_buffer_size receive_buffer_size then (self, none) else (
      record { recorded_receive_buffer_size = receive_buffer_size },
      some (record {
        initial_window_size = receive_buffer_size;
        target_window_size = connection_window_size receive_buffer_size;
      }),
    )

-- The setter, and the sizes that the connection was told last.
abbrev pub Told : Type 0
Told = WindowSizeSetter × Option WindowSizes

unfoldable pub check_window_size : Told → ℕ → Told
check_window_size (self, last) receive_buffer =
    let (self', sizes) = set_window_size self receive_buffer in
    (self', elim sizes [ none ↦ last | some new ↦ some new ])

-- One check after the other, at the ticks of the interval.
unfoldable pub check_window_sizes : Told → List ℕ → Told
check_window_sizes told [] = told
check_window_sizes told (receive_buffer ∷ receive_buffers) =
    check_window_sizes (check_window_size told receive_buffer) receive_buffers
