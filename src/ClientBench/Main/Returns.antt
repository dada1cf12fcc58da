-- ===== src/ClientBench/Main/Returns.antt =====
-- The benchmark client from its start to its end: how many rounds bring it there.
use simple_rfcomm.Prelude.{
  ℕ, ◌*◌, ◌%◌, ◌<◌, ◌≡◌, ◌⊎◌, refl, inl, inr, Option, none, some, false, List, ◌∷◌, Bool-cases,
  Option-cases,
}
use simple_rfcomm.Prelude.Int.{ℤ, is_positive}
use simple_rfcomm.Command.{Exit, exits, uncaught}
use simple_rfcomm.Address.{Address, Parsed, parsed_as, invalid_argument}
use simple_rfcomm.Address as Addresses
use simple_rfcomm.Uuid.{Uuid}
use simple_rfcomm.Uuid as Uuids
use simple_rfcomm.Platform.{address_to_bdaddr}
use simple_rfcomm.Os.{Os, Outcome, returns, undefined}
use simple_rfcomm.Os.Traffic.{ReceivesWithin, SendsWithin}
use simple_rfcomm.Socket.{Socket}
use simple_rfcomm.Sdp.{Scanned, found, missing, overflow, channel_of, resolve_channel}
use simple_rfcomm.Client.{connect_resolved, connect_by_sdp}
use simple_rfcomm.Serial.{size_mod}
use simple_rfcomm.ClientBench.{chunk_size, make_buffers}
use simple_rfcomm.ClientBench.Transfer.{transfer_lem}
use simple_rfcomm.ClientBench.Args.{Numerals, Options, default_options, parse_args}
use simple_rfcomm.ClientBench.Main.{
  default_timeout, run_transfer, with_socket, connect_target, with_target, with_options, main,
}

-- A value, or undefined behaviour, but not a loop that was cut off.
abbrev pub Ends : {A : Type 0} → Outcome A → Type 0
Ends {A} o = ((a : A) × (o ≡ returns a)) ⊎ (o ≡ undefined)

channel_of-Ends : (s : Scanned) → Ends (channel_of s)
unfolding channel_of
channel_of-Ends (found v) = inl (_, refl)
channel_of-Ends missing = inl (none, refl)
channel_of-Ends overflow = inr refl

module _ (os : Os) where
  resolve_channel-Ends :
      (addr : Address) (uuid : Uuid) (w : os.World) → Ends (resolve_channel os addr uuid w).value
  unfolding resolve_channel
  resolve_channel-Ends addr uuid w =
      elim (Option-cases (os.sdp_connect (address_to_bdaddr addr) w).0) [
        | inl failed ↦ rw failed (inl (none, refl))
        | inr (s, connected) ↦ rw connected (channel_of-Ends _)
      ]

  connect_resolved-Ends :
      (addr : Address) (timeout : ℤ) (channel : Outcome (Option ℕ)) (w : os.World)
      → Ends channel
      → Ends (connect_resolved os addr timeout channel w).value
  unfolding connect_resolved
  connect_resolved-Ends addr timeout channel w (inl (none, e)) = rw e (inl (none, refl))
  connect_resolved-Ends addr timeout channel w (inl (some ch, e)) = rw e (inl (_, refl))
  connect_resolved-Ends addr timeout channel w (inr e) = rw e (inr refl)

  connect_by_sdp-Ends :
      (addr : Address) (uuid : Uuid) (timeout : ℤ) (w : os.World)
      → Ends (connect_by_sdp os addr uuid timeout w).value
  unfolding connect_by_sdp
  connect_by_sdp-Ends addr uuid timeout w =
      connect_resolved-Ends addr timeout _ _ (resolve_channel-Ends addr uuid w)

-- A socket or the null pointer, or undefined behaviour of the search for the service.
abbrev Connects : ℤ → Outcome (Option Socket) → Type 0
Connects ch sock =
    ((s : Option Socket) × (sock ≡ returns s)) ⊎ ((sock ≡ undefined) × (is_positive ch ≡ false))

-- A status or an exception, or undefined behaviour of the search for the service.
abbrev pub Stops : ℤ → Outcome Exit → Type 0
Stops direct_channel o =
    ((e : Exit) × (o ≡ returns e)) ⊎ ((o ≡ undefined) × (is_positive direct_channel ≡ false))

module _ (os : Os) (n : Numerals) where
  connect_target-Connects :
      (ch : ℤ) (target : Address) (uuid : Uuid) (w : os.World)
      → Connects ch (connect_target os n ch target uuid w).value
  unfolding connect_target
  connect_target-Connects ch target uuid w = elim (Bool-cases (is_positive ch)) [
    | inl direct ↦ rw direct (inl (_, refl))
    | inr searched ↦ rw searched (elim (connect_by_sdp-Ends os target uuid default_timeout w) [
      | inl made ↦ inl made
      | inr overflowed ↦ inr (overflowed, refl)
    ])
  ]

  module _ (within : ReceivesWithin os) (sends : SendsWithin os) (rounds : ℕ) (o : Options n.Double)
      (total_bytes : ℕ) (size : n.bytes_of o.size_mb ≡ some total_bytes)
      (some_bytes : 0 < o.chunk_kb * 1024 % size_mod) (enough : total_bytes < rounds) where
    run_transfer-returns :
        (sock : Socket) (w : os.World)
        → (e : Exit) × ((run_transfer os n rounds o (some total_bytes) sock w).value ≡ returns e)
    run_transfer-returns sock w =
        let m = make_buffers os o.echo_mode (chunk_size o.chunk_kb) w in
        let t =
          transfer_lem os rounds o.echo_mode sock o.chunk_kb total_bytes m.world within sends
            some_bytes enough in
        elim (Bool-cases m.value) [
          | inl made ↦ (exits 0, rw (made, t.returned) refl)
          | inr refused ↦ (uncaught, rw refused refl)
        ]

    with_socket-Stops :
        (ch : ℤ) (sock : Outcome (Option Socket)) (w : os.World)
        → Connects ch sock
        → Stops ch (with_socket os n rounds o sock w).value
    with_socket-Stops ch sock w (inl (none, e)) = rw e (inl (exits 1, refl))
    with_socket-Stops ch sock w (inl (some s, e)) = rw (e, size) (inl (run_transfer-returns s w))
    with_socket-Stops ch sock w (inr (e, searched)) = rw e (inr (refl, searched))

    with_target-Stops :
        (target : Parsed Address) (uuid : Parsed Uuid) (w : os.World)
        → Stops o.direct_channel (with_target os n rounds o target uuid w).value
    unfolding with_target
    with_target-Stops (parsed_as target) (parsed_as uuid) w =
        let c = connect_target os n o.direct_channel target uuid w in
        with_socket-Stops o.direct_channel c.value c.world
          (connect_target-Connects o.direct_channel target uuid w)
    with_target-Stops (parsed_as target) (invalid_argument _) w = inl (uncaught, refl)
    with_target-Stops (invalid_argument _) uuid w = inl (uncaught, refl)

    -- Where send(2) and recv(2) keep to their buffers, the options behind the target are read, the
    -- size is a number of bytes, a chunk is not empty and the loop is given more rounds than there
    -- are bytes to send, the benchmark client ends, with a status or an exception, whatever the
    -- texts of the target and the identifier are and whatever the system and the peer answer; only
    -- without a direct channel its behaviour may be undefined, in the search for the service.
    pub client_main_returns :
        (target_str : List ℕ) (args : List (List ℕ)) (w : os.World)
        → parse_args n (default_options n) args ≡ some o
        → Stops o.direct_channel (main os n rounds (target_str ∷ args) w).value
    unfolding main with_options
    client_main_returns target_str args w read =
        rw read (with_target-Stops (Addresses.parse target_str) (Uuids.parse o.uuid_str) w)
