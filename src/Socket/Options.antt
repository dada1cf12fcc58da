-- ===== src/Socket/Options.antt =====
-- The settings of a socket: which options are set, and when success is reported.
use simple_rfcomm.Prelude.{
  ℕ, ◌+◌, ◌*◌, ◌<◌, ◌≡◌, refl, Bool, true, false, List, [], ◌∷◌, ◌++◌, ◌&&◌, arith, if◌then◌else◌,
}
use simple_rfcomm.Prelude.Int.{ℤ, pos, negsuc, is_zero, is_positive, is_negative}
use simple_rfcomm.Address.{Address}
use simple_rfcomm.Os.{Os, Call, option_set, SockOpt, sndbuf, rcvbuf, sndtimeo, rcvtimeo}
use simple_rfcomm.Socket.{
  Socket, is_open, timeval, set_buffer_sizes, set_timeouts, from_native, default_buffer_size,
  peer_address, peer_channel, native_handle,
}

-- The options asked for, in order, and whether the system agreed to all.
abbrev pub options : List Call → List SockOpt
options [] = []
options (option_set fd opt status ∷ cs) = opt ∷ options cs
options (_ ∷ cs) = options cs

abbrev pub all_agreed : List Call → Bool
all_agreed [] = true
all_agreed (option_set fd opt status ∷ cs) = is_zero status && all_agreed cs
all_agreed (_ ∷ cs) = all_agreed cs

abbrev pub if_positive : ℤ → SockOpt → List SockOpt
if_positive z opt = if is_positive z then opt ∷ [] else []

-- A time of at least zero milliseconds becomes whole seconds and less than a second of
-- microseconds, which together are the same time.
pub timeval_exact :
    (ms sec usec : ℕ)
    → timeval (pos ms) ≡ (pos sec, pos usec)
    → (sec * 1000000 + usec ≡ ms * 1000) × (usec < 1000000)
unfolding timeval
timeval_exact ms sec usec e = ground arith

module _ (os : Os) where
  -- An open socket asks for both timeouts, the send timeout first, and reports whether the system
  -- agreed to both.
  pub set_timeouts_lem :
      (sock : Socket) (send_ms recv_ms : ℤ) (w : os.World)
      → is_open sock ≡ true
      → let r = set_timeouts os sock send_ms recv_ms w in
        (options r.calls
          ≡ sndtimeo (timeval send_ms).0 (timeval send_ms).1
            ∷ rcvtimeo (timeval recv_ms).0 (timeval recv_ms).1
            ∷ [])
        × (r.value ≡ all_agreed r.calls)
  unfolding set_timeouts
  set_timeouts_lem sock send_ms recv_ms w h = rw h (refl, ground arith)

  -- An open socket asks for each size that is positive, the send buffer first, and reports whether
  -- the system agreed to all that it was asked.
  pub set_buffer_sizes_lem :
      (sock : Socket) (snd rcv : ℤ) (w : os.World)
      → is_open sock ≡ true
      → let r = set_buffer_sizes os sock snd rcv w in
        (options r.calls ≡ if_positive snd (sndbuf snd) ++ if_positive rcv (rcvbuf rcv))
        × (r.value ≡ all_agreed r.calls)
  unfolding set_buffer_sizes
  set_buffer_sizes_lem sock snd rcv w h = rw h (ground arith, ground arith)

  -- A socket made from a descriptor that is not negative is open on it, knows its peer, and has
  -- asked for both buffers of the default size.
  pub from_native_lem :
      (fd : ℤ) (addr : Address) (ch : ℕ) (w : os.World)
      → is_negative fd ≡ false
      → let r = from_native os fd addr ch w in
        (is_open r.value ≡ true)
        × (native_handle r.value ≡ fd)
        × (peer_address r.value ≡ addr)
        × (peer_channel r.value ≡ ch)
        × (options r.calls ≡ sndbuf default_buffer_size ∷ rcvbuf default_buffer_size ∷ [])
  unfolding from_native is_open native_handle peer_address peer_channel
  from_native_lem (pos n) addr ch w h =
      (ground arith, ground arith, ground arith, ground arith, ground arith)
  from_native_lem (negsuc n) addr ch w h = cc
