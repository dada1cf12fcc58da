-- ===== src/ClientBench/Args/Laws.antt =====
-- The command line of the benchmark client against the options that it asks for.
use simple_rfcomm.Prelude.{ℕ, ◌≡◌, refl, ap, some, Bool, true, false, List, [], ◌∷◌, if◌then◌else◌}
use simple_rfcomm.Command.{codes}
use simple_rfcomm.ClientBench.Args.{Numerals, Options, kind, last_arg, parse_args}

-- Texts for the numbers among the options, which the conversions read as those numbers.
pub record Written (n : Numerals) (o : Options n.Double) : Type 0 where
  pub channel_text : List ℕ
  pub size_text : List ℕ
  pub chunk_text : List ℕ
  pub channel_read : n.stoi channel_text ≡ some o.direct_channel
  pub size_read : n.stod size_text ≡ some o.size_mb
  pub chunk_read : n.stoul chunk_text ≡ some o.chunk_kb

module _ (n : Numerals) where
  -- A command line that asks for the options, behind the target.
  abbrev pub command_line : (o : Options n.Double) → Written n o → List (List ℕ)
  command_line o t =
      codes "--uuid"
      ∷ o.uuid_str
      ∷ codes "--channel"
      ∷ t.channel_text
      ∷ codes "--size"
      ∷ t.size_text
      ∷ codes "--chunk"
      ∷ t.chunk_text
      ∷ (if o.echo_mode then codes "--echo" ∷ [] else [])

  abbrev with_echo : Options n.Double → Bool → Options n.Double
  with_echo o echo = record o { echo_mode = echo }

  echo_lem :
      (o : Options n.Double) (echo : Bool)
      → o.echo_mode ≡ false
      → parse_args n o (if echo then codes "--echo" ∷ [] else []) ≡ some (with_echo o echo)
  unfolding parse_args last_arg kind
  echo_lem o true h = refl
  echo_lem o false h = ap (λ e. some (with_echo o e)) h

  -- Every choice of options whose numbers the conversions of the C++ library can read from some
  -- texts is what the program makes of a command line with these texts, from any options that do
  -- not echo, whatever text the identifier is, an option's name included.
  pub parse_options-command_line :
      (d o : Options n.Double) (t : Written n o)
      → d.echo_mode ≡ false
      → parse_args n d (command_line o t) ≡ some o
  unfolding parse_args kind
  parse_options-command_line d o t silent =
      rw (t.channel_read, t.size_read, t.chunk_read) (echo_lem _ o.echo_mode silent)
