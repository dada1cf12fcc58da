-- ===== src/ServerBench/Args/Laws.antt =====
-- The command line of the benchmark server against the options that it asks for.
use simple_rfcomm.Prelude.{
  ℕ, ◌<◌, ◌≡◌, refl, ap, inl, inr, Option, none, some, Bool, true, false, List, [], ◌∷◌,
  Option-cases, if◌then◌else◌, arith,
}
use simple_rfcomm.Prelude.Int.{ℤ, pos}
use simple_rfcomm.Command.{codes, to_uint8, to_uint8-lt, ReadsDecimal, three_digits}
use simple_rfcomm.ServerBench.Args.{
  Options, Kind, uuid_flag, channel_flag, name_flag, echo_flag, help_flag, other, kind, Parsed,
  runs, prints_usage, throws, last_arg, parse_args,
}

-- A command line that asks for the options.
abbrev pub command_line : Options → List (List ℕ)
command_line o =
    codes "--uuid"
    ∷ o.uuid_str
    ∷ codes "--channel"
    ∷ three_digits o.channel
    ∷ codes "--name"
    ∷ o.service_name
    ∷ (if o.echo_mode then codes "--echo" ∷ [] else [])

abbrev echo_at_most : Options → Bool → Options
echo_at_most o echo = record o { echo_mode = echo }

echo_lem :
    (stoi : List ℕ → Option ℤ) (o : Options) (echo : Bool)
    → o.echo_mode ≡ false
    → parse_args stoi o (if echo then codes "--echo" ∷ [] else []) ≡ runs (echo_at_most o echo)
unfolding parse_args last_arg kind
echo_lem stoi o true h = refl
echo_lem stoi o false h = ap runs (ap (echo_at_most o) h)

-- Where `std::stoi` reads decimal numbers, every choice of an identifier, a name, a channel below
-- 256 and a mode is what the program makes of some command line, from any options that do not echo,
-- whatever texts the identifier and the name are, the options' own names included.
pub parse_args-command_line :
    (stoi : List ℕ → Option ℤ) (d o : Options)
    → ReadsDecimal stoi
    → o.channel < 256
    → d.echo_mode ≡ false
    → parse_args stoi d (command_line o) ≡ runs o
unfolding parse_args kind
parse_args-command_line stoi d o reads small silent =
    let same : to_uint8 (pos o.channel) ≡ o.channel = omega (arith, small) in
    rw (reads o.channel small, same) (echo_lem stoi _ o.echo_mode silent)

-- The channel of what was parsed.
abbrev pub HasByteChannel : Parsed → Type 0
HasByteChannel (runs o) = o.channel < 256
HasByteChannel prints_usage = Unit
HasByteChannel throws = Unit

last_arg-HasByteChannel : (k : Kind) (o : Options) → o.channel < 256 → HasByteChannel (last_arg k o)
unfolding last_arg
last_arg-HasByteChannel uuid_flag o h = h
last_arg-HasByteChannel channel_flag o h = h
last_arg-HasByteChannel name_flag o h = h
last_arg-HasByteChannel echo_flag o h = h
last_arg-HasByteChannel help_flag o h = tt
last_arg-HasByteChannel other o h = h

-- From a channel that is a byte, the program makes a channel that is a byte of every command line
-- that it runs, whatever number `std::stoi` reads, negative numbers included.
pub parse_args-HasByteChannel :
    (stoi : List ℕ → Option ℤ) (o : Options) (args : List (List ℕ))
    → o.channel < 256
    → HasByteChannel (parse_args stoi o args)
unfolding parse_args
parse_args-HasByteChannel stoi o [] h = h
parse_args-HasByteChannel stoi o (arg ∷ []) h = last_arg-HasByteChannel (kind arg) o h
parse_args-HasByteChannel stoi o (arg ∷ value ∷ rest) h =
    elim (kind arg)
      as (λ k. HasByteChannel (elim k [
        | uuid_flag ↦ parse_args stoi (record o { uuid_str = value }) rest
        | channel_flag ↦ elim (stoi value) [
          | none ↦ throws
          | some z ↦ parse_args stoi (record o { channel = to_uint8 z }) rest
        ]
        | name_flag ↦ parse_args stoi (record o { service_name = value }) rest
        | echo_flag ↦ parse_args stoi (record o { echo_mode = true }) (value ∷ rest)
        | help_flag ↦ prints_usage
        | other ↦ parse_args stoi o (value ∷ rest)
      ])) [
        | uuid_flag ↦ parse_args-HasByteChannel stoi (record o { uuid_str = value }) rest h
        | channel_flag ↦ elim (Option-cases (stoi value)) [
          | inl unread ↦ rw unread tt
          | inr (z, read) ↦ rw read (
              parse_args-HasByteChannel stoi (record o { channel = to_uint8 z }) rest
                (to_uint8-lt z))
        ]
        | name_flag ↦ parse_args-HasByteChannel stoi (record o { service_name = value }) rest h
        | echo_flag ↦
            parse_args-HasByteChannel stoi (record o { echo_mode = true }) (value ∷ rest) h
        | help_flag ↦ tt
        | other ↦ parse_args-HasByteChannel stoi o (value ∷ rest) h
      ]
