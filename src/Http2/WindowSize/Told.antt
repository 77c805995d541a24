-- ===== src/Http2/WindowSize/Told.antt =====
-- What a connection is told about its windows (src/lib/tunnel/http2/http2_tunnel.rs).
use plug2proxy.Prelude.{
  ℕ, ◌*◌, ◌%◌, ◌^◌, ◌≤◌, ◌<◌, ◌≡◌, refl, sym, ap, subst, ◌∙◌, inl, inr, ◌++◌, Bool-cases, true,
  false, Option, none, some, List, [], ◌∷◌, nat_beq, nat_beq_iff, arith,
}
use plug2proxy.Http2.WindowSize.{
  WindowSizeSetter, WindowSizes, min_window_size, new_setter, connection_window_size,
  set_window_size, Told, check_window_size, check_window_sizes,
}

-- The sizes are those of the recorded buffer; nothing was told where it is zero.
abbrev IsCurrent : Told → Type 0
IsCurrent (self, none) = self.recorded_receive_buffer_size ≡ 0
IsCurrent (self, some sizes) =
    (sizes.initial_window_size ≡ self.recorded_receive_buffer_size)
    × (sizes.target_window_size ≡ connection_window_size self.recorded_receive_buffer_size)

-- Current for this buffer.
abbrev IsCurrentFor : ℕ → Told → Type 0
IsCurrentFor receive_buffer told =
    IsCurrent told × (told.0.recorded_receive_buffer_size ≡ receive_buffer % 2 ^ 32)

abbrev new_sizes : ℕ → WindowSizes
new_sizes receive_buffer = record {
  initial_window_size = receive_buffer % 2 ^ 32;
  target_window_size = connection_window_size (receive_buffer % 2 ^ 32);
}

check_same :
    (self : WindowSizeSetter) (last : Option WindowSizes) (receive_buffer : ℕ)
    → nat_beq self.recorded_receive_buffer_size (receive_buffer % 2 ^ 32) ≡ true
    → check_window_size (self, last) receive_buffer ≡ (self, last)
unfolding check_window_size set_window_size
check_same self last receive_buffer e = rw (set_window_size, e)

check_new :
    (self : WindowSizeSetter) (last : Option WindowSizes) (receive_buffer : ℕ)
    → nat_beq self.recorded_receive_buffer_size (receive_buffer % 2 ^ 32) ≡ false
    → check_window_size (self, last) receive_buffer ≡ (
      record { recorded_receive_buffer_size = receive_buffer % 2 ^ 32 },
      some (new_sizes receive_buffer),
    )
unfolding check_window_size set_window_size
check_new self last receive_buffer e = rw (set_window_size, e)

check_window_size-IsCurrentFor :
    (told : Told) (receive_buffer : ℕ)
    → IsCurrent told
    → IsCurrentFor receive_buffer (check_window_size told receive_buffer)
check_window_size-IsCurrentFor (self, last) receive_buffer h =
    elim (Bool-cases (nat_beq self.recorded_receive_buffer_size (receive_buffer % 2 ^ 32))) [
      | inl e ↦
          subst (IsCurrentFor receive_buffer) (sym (check_same self last receive_buffer e))
            (h, (nat_beq_iff self.recorded_receive_buffer_size (receive_buffer % 2 ^ 32)).0 e)
      | inr e ↦
          subst (IsCurrentFor receive_buffer) (sym (check_new self last receive_buffer e))
            ((refl, refl), refl)
    ]

check_window_sizes-IsCurrent :
    (told : Told) (receive_buffers : List ℕ)
    → IsCurrent told
    → IsCurrent (check_window_sizes told receive_buffers)
unfolding check_window_sizes
check_window_sizes-IsCurrent told [] h = h
check_window_sizes-IsCurrent told (b ∷ receive_buffers) h =
    check_window_sizes-IsCurrent (check_window_size told b) receive_buffers
      (check_window_size-IsCurrentFor told b h).0

check_window_sizes-append :
    (told : Told) (receive_buffers : List ℕ) (receive_buffer : ℕ)
    → check_window_sizes told (receive_buffers ++ receive_buffer ∷ [])
      ≡ check_window_size (check_window_sizes told receive_buffers) receive_buffer
unfolding check_window_sizes
check_window_sizes-append told [] receive_buffer = refl
check_window_sizes-append told (b ∷ receive_buffers) receive_buffer =
    check_window_sizes-append (check_window_size told b) receive_buffers receive_buffer

connection_window_size-IsBounded :
    (b : ℕ)
    → b < 2 ^ 29
    → (4 * b ≤ connection_window_size b)
      × (4 * min_window_size ≤ connection_window_size b)
      × (connection_window_size b < 2 ^ 31)
unfolding connection_window_size
connection_window_size-IsBounded b h = ground arith

-- What a connection has been told for a buffer.
abbrev pub IsTold : ℕ → Option WindowSizes → Type 0
IsTold receive_buffer none = ⊥
IsTold receive_buffer (some sizes) =
    (sizes.initial_window_size ≡ receive_buffer)
    × (4 * receive_buffer ≤ sizes.target_window_size)
    × (4 * min_window_size ≤ sizes.target_window_size)
    × (sizes.target_window_size < 2 ^ 31)

current_told :
    (told : Told) (receive_buffer : ℕ)
    → 0 < receive_buffer
    → receive_buffer < 2 ^ 29
    → IsCurrentFor receive_buffer told
    → IsTold receive_buffer told.1
current_told (self, none) b positive h (current, recorded) = omega arith
current_told (self, some sizes) b positive h (current, recorded) =
    let same : self.recorded_receive_buffer_size ≡ b = omega arith in
    let target : sizes.target_window_size ≡ connection_window_size b =
      current.1 ∙ ap connection_window_size same in
    let bounds = connection_window_size-IsBounded b h in
    (omega arith, omega arith, omega arith, omega arith)

-- Whatever the receive buffer was at the checks before, after a check of a buffer that is not empty and is
-- below 2^29 bytes the connection's last told sizes are that of the buffer for a stream, and for the connection
-- at least four times the buffer and 16 MB, and below 2^31, HTTP/2's limit: the product does not wrap.
pub check_window_sizes-IsTold :
    (receive_buffers : List ℕ) (receive_buffer : ℕ)
    → 0 < receive_buffer
    → receive_buffer < 2 ^ 29
    → IsTold receive_buffer
        (check_window_sizes (new_setter, none) (receive_buffers ++ receive_buffer ∷ [])).1
check_window_sizes-IsTold receive_buffers b positive h =
    let before : Told = check_window_sizes (new_setter, none) receive_buffers in
    subst (λ (t : Told). IsTold b t.1)
      (sym (check_window_sizes-append (new_setter, none) receive_buffers b))
      (current_told (check_window_size before b) b positive h (
        check_window_size-IsCurrentFor before b
          (check_window_sizes-IsCurrent (new_setter, none) receive_buffers refl)))
