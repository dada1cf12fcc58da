-- ===== src/ServerBench/Main/Ledger.antt =====
-- The benchmark server from its start to its end: which descriptors it opens and closes.
use simple_rfcomm.Prelude.{
  ℕ, ◌≤◌, ◌≡◌, refl, ap, sym, ◌∙◌, inl, inr, append-nil, Option, some, List, [], ◌∷◌, ◌++◌, length,
  arith,
}
use simple_rfcomm.Prelude.Int.{ℤ}
use simple_rfcomm.Command.{Exit, exits, uncaught}
use simple_rfcomm.Address.{Parsed, parsed_as, invalid_argument}
use simple_rfcomm.Uuid.{Uuid}
use simple_rfcomm.Uuid as Uuids
use simple_rfcomm.Os.{Os, Call, Outcome, returns, undefined, out_of_rounds}
use simple_rfcomm.Os.Traffic.{
  opened_handles, closed_handles, opened_handles-append, closed_handles-append, if_valid,
}
use simple_rfcomm.Os.Ledger.{Balanced}
use simple_rfcomm.Server.{ServerImpl, new_server, listen_with_sdp, close_server}
use simple_rfcomm.Server.Publish.{listen_with_sdp_lem, listen_with_sdp-few, close_server-handles}
use simple_rfcomm.ServerBench.{accept_loop}
use simple_rfcomm.ServerBench.Accepts.{still_open, accepts_ledger}
use simple_rfcomm.ServerBench.Args.{
  Options, default_options, runs, prints_usage, throws, parse_args,
}
use simple_rfcomm.ServerBench.Args as Args
use simple_rfcomm.ServerBench.Main.{
  default_provider, default_backlog, behind_loop, run_service, with_uuid, with_options, main,
}

-- The first of a list put behind the others.
abbrev pub first_last : List ℤ → List ℤ
first_last [] = []
first_last (fd ∷ fds) = fds ++ fd ∷ []

-- The descriptor that was opened first, which is the listening one, is closed last, and the others are
-- closed in the order in which they were opened.
abbrev pub ClosesAll : List Call → Type 0
ClosesAll cs = closed_handles cs ≡ first_last (opened_handles cs)

-- A program that is still in its loops: the first descriptor, which is the listening one, is open, and
-- of the others the last one at most.
abbrev pub StillServes : List Call → Type 0
StillServes cs =
    (fd : ℤ) × (clients held : List ℤ) × (length held ≤ 1)
    × (opened_handles cs ≡ fd ∷ (clients ++ held))
    × (closed_handles cs ≡ clients)

-- What is closed, by how the program has ended.
abbrev pub Serves : Outcome Exit → List Call → Type 0
Serves (returns (exits status)) cs = ClosesAll cs
Serves (returns uncaught) cs = cs ≡ []
Serves undefined cs = StillServes cs
Serves out_of_rounds cs = StillServes cs

first_last-one : (fds : List ℤ) → length fds ≤ 1 → first_last fds ≡ fds
first_last-one [] h = refl
first_last-one (fd ∷ []) h = refl
first_last-one (fd ∷ fd' ∷ fds) h = absurd (omega (arith, h))

module _ (os : Os) where
  -- The loops were cut off behind the listen's calls `ls`, in `cs`.
  cut_off :
      (fd : ℤ) (held : List ℤ) (ls cs : List Call)
      → opened_handles ls ≡ fd ∷ []
      → closed_handles ls ≡ []
      → Balanced [] cs held
      → length held ≤ 1
      → StillServes (ls ++ (cs ++ []))
  cut_off fd held ls cs one none_yet balanced few = (
    fd,
    closed_handles cs,
    held,
    few,
    rw (append-nil cs, opened_handles-append ls cs, one) (ap (◌∷◌ fd) balanced),
    rw (append-nil cs, closed_handles-append ls cs, none_yet) refl,
  )

  -- The end of the loop, behind the calls of the listen and of the loop.
  behind_loop-Serves :
      (o : Outcome (Unit {0})) (s : ServerImpl) (held : List ℤ) (ls cs : List Call) (w : os.World)
      → opened_handles ls ≡ s.listen_fd ∷ []
      → closed_handles ls ≡ []
      → if_valid s.listen_fd ≡ s.listen_fd ∷ []
      → Balanced [] cs held
      → length held ≤ still_open o
      → let r = behind_loop os o (some s) w in Serves r.value (ls ++ (cs ++ r.calls))
  behind_loop-Serves (returns _) s [] ls cs w one none_yet valid balanced few =
      let r = close_server os (some s) w in
      let (r_opened, r_closed) = close_server-handles os s w in
      let clients : opened_handles cs ≡ closed_handles cs = balanced ∙ append-nil _ in
      rw
        (
          append-nil r.calls,
          opened_handles-append ls (cs ++ r.calls),
          opened_handles-append cs r.calls,
          closed_handles-append ls (cs ++ r.calls),
          closed_handles-append cs r.calls,
          one,
          none_yet,
          r_opened,
          r_closed,
          valid,
          append-nil (opened_handles cs),
        )
        (ap (λ (fds : List ℤ). fds ++ s.listen_fd ∷ []) (sym clients))
  behind_loop-Serves (returns _) s (h ∷ held) ls cs w one none_yet valid balanced few =
      absurd (omega (arith, few))
  behind_loop-Serves undefined s held ls cs w one none_yet valid balanced few =
      cut_off s.listen_fd held ls cs one none_yet balanced few
  behind_loop-Serves out_of_rounds s held ls cs w one none_yet valid balanced few =
      cut_off s.listen_fd held ls cs one none_yet balanced few

  run_service-Serves :
      (clients rounds : ℕ) (o : Options) (uuid : Uuid) (w : os.World)
      → let r = run_service os clients rounds o uuid w in Serves r.value r.calls
  unfolding run_service
  run_service-Serves clients rounds o uuid w =
      let l =
        listen_with_sdp os default_provider new_server uuid o.service_name o.channel default_backlog
          w in
      let (s, result) =
        listen_with_sdp_lem os default_provider uuid o.service_name o.channel default_backlog w in
      elim result [
        | inl (failed, idle, shut) ↦
            let c = close_server os (some s) l.world in
            let (c_opened, c_closed) = close_server-handles os s l.world in
            let few =
              listen_with_sdp-few os default_provider new_server uuid o.service_name o.channel
                default_backlog w in
            rw
              (
                failed,
                append-nil c.calls,
                opened_handles-append l.calls c.calls,
                closed_handles-append l.calls c.calls,
                c_opened,
                c_closed,
                idle,
                append-nil (opened_handles l.calls),
                append-nil (closed_handles l.calls),
              )
              (shut ∙ sym (first_last-one (opened_handles l.calls) few))
        | inr (listening, one, valid, none_yet, _) ↦
            let a = accept_loop os clients rounds o.echo_mode (some s) l.world in
            let (held, balanced, few) =
              accepts_ledger os clients rounds o.echo_mode (some s) l.world in
            rw listening (
              behind_loop-Serves a.value s held l.calls a.calls a.world one none_yet valid balanced
                few)
      ]

  with_uuid-Serves :
      (clients rounds : ℕ) (o : Options) (parsed : Parsed Uuid) (w : os.World)
      → let r = with_uuid os clients rounds o parsed w in Serves r.value r.calls
  unfolding with_uuid
  with_uuid-Serves clients rounds o (invalid_argument _) w = refl
  with_uuid-Serves clients rounds o (parsed_as uuid) w = run_service-Serves clients rounds o uuid w

  with_options-Serves :
      (clients rounds : ℕ) (parsed : Args.Parsed) (w : os.World)
      → let r = with_options os clients rounds parsed w in Serves r.value r.calls
  unfolding with_options
  with_options-Serves clients rounds prints_usage w = refl
  with_options-Serves clients rounds throws w = refl
  with_options-Serves clients rounds (runs o) w =
      with_uuid-Serves clients rounds o (Uuids.parse o.uuid_str) w

  -- Failures to allocate aside, whatever the arguments, the conversion `std::stoi`, the system and the
  -- peers do, and however many rounds the loops are given: where the benchmark server returns a
  -- status, all descriptors that it has opened are closed, each once; the one that was opened first,
  -- which is the listening one, is closed last, and the others, those of the clients, are closed
  -- before it in the order in which they were opened. An exception of `std::stoi` or of
  -- `Uuid::parse`, which nothing catches, comes before the first system call. Where its behaviour is
  -- undefined or the loops are cut off, the first descriptor is open, and of the clients', which are
  -- closed in their order, the last one at most.
  pub server_main_closes :
      (stoi : List ℕ → Option ℤ) (clients rounds : ℕ) (args : List (List ℕ)) (w : os.World)
      → let r = main os stoi clients rounds args w in Serves r.value r.calls
  unfolding main
  server_main_closes stoi clients rounds args w =
      with_options-Serves clients rounds (parse_args stoi default_options args) w
